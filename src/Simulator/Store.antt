-- ===== src/Simulator/Store.antt =====
-- The private helpers of `FixtureStore` in simulator/app/store.py: idempotency, lookups, checks of
-- versions, the expiry of reservations and the next version of a reservation.
use found_roll.Prelude.{
  ℕ, ◌+◌, String, Bool, true, false, ◌||◌, not, Option, none, some, List, [], ◌∷◌, ◌++◌, Result, ok,
  Exec, domain, key_error, is_some, eqb, ltb, ◌&&◌, ◌==◌, raise_if, require, and_then, on_some,
  on_ok, ◌>>◌, ◌>>=◌, ◌<>◌, get, put, keys, if◌then◌else◌,
}
use found_roll.Prelude.Json.{Json}
use found_roll.Simulator.{
  Custodian, FixtureStore, HistoryEvent, ReplayRecord, Item, PublicReservation, Reservation,
  StoreResponse, TokenStatus, attested, issued, not_issued, Role, custodian, claimant, at_role,
  ReservationStatus, ReservationStatus-discrete, reservation_status_eq, handoff_attested, expired,
  ItemStatus, ItemStatus-discrete, item_status_eq, available, isoformat, parse_datetime,
}
use found_roll.Simulator.Requests.{ReservationBoundRequest}
use found_roll.Simulator.Codec.{Codec, make_etag}

-- `_require_custodian`, `_require_item`, `_require_reservation`
unfoldable pub require_custodian : FixtureStore → String → Result Custodian
require_custodian store id = require (get store.custodians id) (domain 404 "CUSTODIAN_NOT_FOUND")

unfoldable pub require_item : FixtureStore → String → Result Item
require_item store id = require (get store.items id) (domain 404 "ITEM_NOT_FOUND")

unfoldable pub require_reservation : FixtureStore → String → Result Reservation
require_reservation store id =
    require (get store.reservations id) (domain 404 "RESERVATION_NOT_FOUND")

-- `_check_version_and_etag`, of the version and the eTag of a record
unfoldable pub check_version_and_etag : ℕ → String → ℕ → String → Result (Unit {0})
check_version_and_etag version etag expected_version expected_etag =
    raise_if (not (eqb version expected_version)) (domain 409 "STALE_VERSION")
    >> raise_if (not (etag == expected_etag)) (domain 412 "STALE_ETAG")

-- `_validate_reservation_binding`
unfoldable pub validate_reservation_binding :
    Reservation → ReservationBoundRequest → Result (Unit {0})
validate_reservation_binding reservation request =
    raise_if
      (not (reservation.case_id == request.case_id)
        || not (eqb reservation.case_version request.case_version)
        || not (reservation.item_id == request.item_id)
        || not (reservation.custodian_id == request.custodian_id))
      (domain 409 "RESERVATION_BINDING_MISMATCH")

-- `_history_event`
unfoldable pub history_event : String → String → String → List String → String → ℕ → HistoryEvent
history_event event_type actor reason evidence_refs idempotency_key occurred_at = record {
  event_type = event_type;
  actor = actor;
  reason = reason;
  evidence_refs = evidence_refs;
  idempotency_key = idempotency_key;
  occurred_at = isoformat occurred_at;
}

unfoldable token_status_of : Reservation → Role → TokenStatus
unfolding at_role
token_status_of reservation role =
    if is_some (at_role reservation.attestations role)
    then attested
    else if is_some (at_role reservation.token_hashes role)
    then issued
    else not_issued

-- `_public_reservation`
unfoldable pub public_reservation : Reservation → PublicReservation
unfolding token_status_of
public_reservation reservation = record {
  reservation_id = reservation.reservation_id;
  case_id = reservation.case_id;
  case_version = reservation.case_version;
  custodian_id = reservation.custodian_id;
  item_id = reservation.item_id;
  destination = reservation.destination;
  status = reservation.status;
  version = reservation.version;
  etag = reservation.etag;
  expires_at = reservation.expires_at;
  token_expires_at = reservation.token_expires_at;
  attestations = reservation.attestations;
  created_at = reservation.created_at;
  updated_at = reservation.updated_at;
  history = reservation.history;
  token_status = record {
    of_custodian = token_status_of reservation custodian;
    of_claimant = token_status_of reservation claimant;
  };
}

-- `status in {"EXPIRED", "HANDOFF_ATTESTED"}`
unfoldable pub is_over : ReservationStatus → Bool
unfolding ReservationStatus-discrete
is_over status =
    reservation_status_eq status expired || reservation_status_eq status handoff_attested

module _ ⦃x : Codec⦄ where
  -- `_idempotency_record`
  unfoldable pub idempotency_record : FixtureStore → String → Json → Result (Option ReplayRecord)
  idempotency_record store scope payload =
      on_some (get store.idempotency_records scope)
        (λ row.
          raise_if (not (row.fingerprint == x.sha256_json payload))
            (domain 409 "IDEMPOTENCY_KEY_REUSED")
          >> ok (some row))
        (ok none)

  -- `_idempotent_replay`
  unfoldable pub idempotent_replay_of : FixtureStore → String → Json → Result (Option StoreResponse)
  unfolding idempotency_record
  idempotent_replay_of store scope payload = idempotency_record store scope payload >>= λ found.
      ok (on_some found (λ row. some (record row.response { idempotent_replay = true })) none)

  -- `_save_idempotent`
  unfoldable pub save_idempotent : FixtureStore → String → Json → StoreResponse → FixtureStore
  save_idempotent store scope payload response = record store {
    idempotency_records = put store.idempotency_records scope (record {
      fingerprint = x.sha256_json payload;
      response = response;
      credential_recipe = none;
    });
  }

  -- `_advance_reservation`
  unfoldable pub advance_reservation :
      Reservation
      → ReservationStatus
      → String
      → String
      → String
      → List String
      → String
      → ℕ
      → Reservation
  advance_reservation reservation status event_type actor reason evidence_refs key occurred_at =
      record reservation {
        status = status;
        version = reservation.version + 1;
        etag = make_etag "reservation" reservation.reservation_id (reservation.version + 1);
        updated_at = isoformat occurred_at;
        history =
            reservation.history
            ++ history_event event_type actor reason evidence_refs key occurred_at ∷ [];
      }

  -- the reservation that expires
  unfoldable pub expired_reservation : Reservation → ℕ → Reservation
  unfolding advance_reservation
  expired_reservation reservation now =
      advance_reservation reservation expired "SIMULATED_RESERVATION_EXPIRED" "simulator-clock"
        "Configured simulated reservation window elapsed." (reservation.reservation_id ∷ [])
        ("expiry:" <> reservation.reservation_id) now

  -- its item, which it may still hold
  unfoldable pub freed_item : Item → Reservation → Item
  unfolding ItemStatus-discrete
  freed_item item reservation =
      if (item_status_eq item.status ItemStatus.held
        && on_some item.reservation_id (λ id. id == reservation.reservation_id) false)
      then record item {
        status = available;
        reservation_id = none;
        version = item.version + 1;
        etag = make_etag "item" item.item_id (item.version + 1);
      }
      else item

  -- one round of `_expire_locked`, for the reservation of a key
  unfoldable pub expire_one : ℕ → String → Exec FixtureStore (Unit {0})
  unfolding is_over expired_reservation freed_item
  expire_one now key store =
      on_some (get store.reservations key)
        (λ reservation.
          if is_over reservation.status || ltb now (parse_datetime reservation.expires_at)
          then (ok tt, store)
          else let marked : FixtureStore = record store {
            reservations = put store.reservations key (expired_reservation reservation now);
          } in
            on_ok (require (get store.items reservation.item_id) (key_error reservation.item_id))
              marked
              (λ item. (
                ok tt,
                record marked {
                  items = put marked.items reservation.item_id (freed_item item reservation);
                },
              )))
        (ok tt, store)

  unfoldable pub expire_each : ℕ → List String → Exec FixtureStore (Unit {0})
  unfolding expire_one
  expire_each now [] store = (ok tt, store)
  expire_each now (key ∷ rest) store =
      and_then (expire_one now key store) (λ _ after. expire_each now rest after)

  -- `_expire_locked`
  unfoldable pub expire_locked : ℕ → Exec FixtureStore (Unit {0})
  unfolding expire_each
  expire_locked now store = expire_each now (keys store.reservations) store
