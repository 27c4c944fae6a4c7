-- ===== src/Simulator/Reservations.antt =====
-- `create_reservation` and `get_reservation` of simulator/app/store.py.
use found_roll.Prelude.{
  ℕ, ◌+◌, ◌-◌, String, false, not, none, some, [], ◌∷◌, Result, ok, Exec, domain, leb, ltb, ◌==◌,
  raise_if, and_then, on_some, on_ok, ◌>>=◌, ◌>>◌, ◌<>◌, put,
}
use found_roll.Simulator.{
  FixtureStore, Item, ItemStatus, ItemStatus-discrete, item_status_eq, available, Reservation,
  ReservationStatus, PublicReservation, StoreResponse, isoformat,
}
use found_roll.Simulator.Requests.{ReservationCreateRequest, aware_instant, create_json}
use found_roll.Simulator.Codec.{Codec, digest_id, make_etag}
use found_roll.Simulator.Store.{
  require_custodian, require_item, require_reservation, check_version_and_etag, history_event,
  public_reservation, idempotent_replay_of, save_idempotent, expire_locked,
}

-- 24 hours in microseconds
abbrev pub day : ℕ
day = 86_400_000_000

-- the checks of `create_reservation`: the item, and when the reservation expires
unfoldable pub check_reservable : FixtureStore → ReservationCreateRequest → ℕ → Result (Item × ℕ)
unfolding require_custodian require_item check_version_and_etag ItemStatus-discrete aware_instant
check_reservable store request now = do
  owner ← require_custodian store request.custodian_id
  item ← require_item store request.item_id
  raise_if (not (item.custodian_id == request.custodian_id)) (domain 409 "CUSTODIAN_MISMATCH")
  check_version_and_etag item.version item.etag request.expected_item_version
      request.expected_item_etag
  raise_if (not (item_status_eq item.status available)) (domain 409 "ITEM_NOT_AVAILABLE")
  expires_at ← aware_instant request.expires_at
  raise_if (leb expires_at now) (domain 410 "RESERVATION_EXPIRED")
  raise_if (ltb day (expires_at - now)) (domain 422 "RESERVATION_WINDOW_TOO_LONG")
  ok (item, expires_at)

module _ ⦃x : Codec⦄ where
  unfoldable pub new_reservation_id : ReservationCreateRequest → String
  new_reservation_id request =
      digest_id "SIM-RSV-" 14
        (request.case_id <> "|" <> request.item_id <> "|" <> request.idempotency_key)

  -- the item that is held for a reservation
  unfoldable pub held_item : Item → String → Item
  held_item item reservation_id = record item {
    version = item.version + 1;
    status = ItemStatus.held;
    reservation_id = some reservation_id;
    etag = make_etag "item" item.item_id (item.version + 1);
  }

  unfoldable pub new_reservation : ReservationCreateRequest → String → ℕ → ℕ → Reservation
  unfolding history_event
  new_reservation request reservation_id expires_at now = record {
    reservation_id = reservation_id;
    case_id = request.case_id;
    case_version = request.case_version;
    custodian_id = request.custodian_id;
    item_id = request.item_id;
    destination = request.destination;
    status = ReservationStatus.held;
    version = 1;
    etag = make_etag "reservation" reservation_id 1;
    expires_at = isoformat expires_at;
    token_expires_at = none;
    token_hashes = record { of_custodian = none; of_claimant = none };
    token_consumed = record { of_custodian = false; of_claimant = false };
    attestations = record { of_custodian = none; of_claimant = none };
    created_at = isoformat now;
    updated_at = isoformat now;
    history =
        history_event "SIMULATED_RESERVATION_CREATED" request.actor request.reason
          request.evidence_refs request.idempotency_key now
        ∷ [];
  }

  abbrev pub reserve_scope : ReservationCreateRequest → String
  reserve_scope request = "reserve:" <> request.idempotency_key

  -- what `create_reservation` writes
  unfoldable pub reserve_item :
      ReservationCreateRequest → ℕ → Item → ℕ → FixtureStore → StoreResponse × FixtureStore
  unfolding new_reservation_id held_item new_reservation save_idempotent public_reservation
  reserve_item request now item expires_at store =
      let id = new_reservation_id request in
      let held = held_item item id in
      let reservation = new_reservation request id expires_at now in
      let response : StoreResponse = record {
        reservation = public_reservation reservation;
        item = some held;
        attestation = none;
        callback_artifact = none;
        credentials = none;
        idempotent_replay = false;
      } in
      (
        response,
        save_idempotent
            (record store {
              items = put store.items request.item_id held;
              reservations = put store.reservations id reservation;
            })
            (reserve_scope request) (create_json request) response,
      )

  -- the new part of `create_reservation`, for a key that is not known
  unfoldable pub reserve_new : ReservationCreateRequest → ℕ → Exec FixtureStore StoreResponse
  unfolding check_reservable reserve_item
  reserve_new request now current = on_ok (check_reservable current request now) current (λ found.
      let (response, after) = reserve_item request now found.0 found.1 current in
      (ok response, after))

  -- `create_reservation`
  unfoldable pub create_reservation : ReservationCreateRequest → ℕ → Exec FixtureStore StoreResponse
  unfolding idempotent_replay_of expire_locked reserve_new
  create_reservation request now store =
      on_ok (idempotent_replay_of store (reserve_scope request) (create_json request)) store
        (λ replay.
          on_some replay (λ response. (ok response, store))
            (and_then (expire_locked now store) (λ _ current. reserve_new request now current)))

  -- `get_reservation`
  unfoldable pub get_reservation : String → ℕ → Exec FixtureStore (PublicReservation × Item)
  unfolding expire_locked require_reservation require_item public_reservation
  get_reservation id now store = and_then (expire_locked now store) (λ _ current. (
    require_reservation current id >>= λ reservation.
        require_item current reservation.item_id >>= λ item.
        ok (public_reservation reservation, item),
    current,
  ))
