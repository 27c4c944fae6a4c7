-- ===== src/Simulator/Handoff.antt =====
-- `finalize_handoff_attestation` and `verify_callback_artifact` of simulator/app/store.py: the signed
-- callback after both presentations.
use Prim.Native.String.{slice, len}
use found_roll.Prelude.{
  ℕ, ◌+◌, ◌/◌, String, Bool, true, false, not, none, some, Result, ok, Exec, domain, leb, raise_if,
  and_then, on_some, on_ok, ◌>>=◌, ◌>>◌, ◌<>◌, ◌==◌, ◌||◌, put, decimal, if◌then◌else◌,
}
use found_roll.Prelude.Json.{Json, text, number, object, end, field}
use found_roll.Simulator.{
  CallbackArtifact, CallbackBody, FixtureStore, Item, ItemStatus, ItemStatus-discrete,
  item_status_eq, Reservation, ReservationStatus-discrete, reservation_status_eq, expired,
  handoff_attested, callback_ready, StoreResponse, isoformat, parse_datetime,
}
use found_roll.Simulator.Requests.{ReservationBoundRequest, handoff_json}
use found_roll.Simulator.Codec.{Codec, digest_id, make_etag}
use found_roll.Simulator.Store.{
  require_reservation, require_item, check_version_and_etag, validate_reservation_binding,
  public_reservation, idempotent_replay_of, save_idempotent, advance_reservation, expire_locked,
}
use found_roll.Simulator.Attestations.{token_window_closed}

-- the checks of `finalize_handoff_attestation`: the reservation and its item
unfoldable pub check_finalizable :
    FixtureStore → String → ReservationBoundRequest → ℕ → Result (Reservation × Item)
unfolding require_reservation require_item validate_reservation_binding ItemStatus-discrete
    ReservationStatus-discrete check_version_and_etag token_window_closed
check_finalizable store reservation_id request now = do
  reservation ← require_reservation store reservation_id
  validate_reservation_binding reservation request
  raise_if (reservation_status_eq reservation.status expired) (domain 410 "RESERVATION_EXPIRED")
  check_version_and_etag reservation.version reservation.etag request.expected_reservation_version
      request.expected_reservation_etag
  raise_if (reservation_status_eq reservation.status handoff_attested)
      (domain 409 "HANDOFF_REPLAY_REJECTED")
  raise_if (not (reservation_status_eq reservation.status callback_ready))
      (domain 409 "HANDOFF_NOT_READY")
  raise_if (leb (parse_datetime reservation.expires_at) now) (domain 410 "RESERVATION_EXPIRED")
  raise_if (token_window_closed reservation now) (domain 410 "CREDENTIAL_EXPIRED")
  item ← require_item store reservation.item_id
  raise_if
      (not (item_status_eq item.status ItemStatus.held)
        || on_some item.reservation_id (λ id. not (id == reservation_id)) true)
      (domain 409 "ITEM_STATE_MISMATCH")
  ok (reservation, item)

-- the callback's body as JSON, in the order of its keys, without the constant texts
abbrev pub callback_json : CallbackBody → Json
callback_json b = object (
    field "case_id" (text b.case_id) (
      field "case_version" (number b.case_version) (
        field "custodian_id" (text b.custodian_id) (
          field "event_id" (text b.event_id) (
            field "item_id" (text b.item_id) (
              field "item_version" (number b.item_version) (
                field "occurred_at" (number b.occurred_at) (
                  field "reservation_id" (text b.reservation_id)
                    (field "reservation_version" (number b.reservation_version) end)))))))))

abbrev pub handoff_scope : ReservationBoundRequest → String
handoff_scope request = "handoff:" <> request.idempotency_key

-- `s.startswith("v1=")`
unfoldable pub starts_v1 : String → Bool
starts_v1 s = slice s 0 3 == "v1="

module _ ⦃x : Codec⦄ where
  -- the item that is released
  unfoldable pub released_item : Item → Item
  released_item item = record item {
    version = item.version + 1;
    status = ItemStatus.released;
    etag = make_etag "item" item.item_id (item.version + 1);
  }

  unfoldable pub finalized_reservation : Reservation → ReservationBoundRequest → ℕ → Reservation
  unfolding advance_reservation
  finalized_reservation reservation request now =
      advance_reservation reservation handoff_attested "SIMULATED_HANDOFF_ATTESTATION_FINALIZED"
        request.actor request.reason request.evidence_refs request.idempotency_key now

  unfoldable pub callback_body :
      String → ReservationBoundRequest → Reservation → Item → ℕ → CallbackBody
  callback_body reservation_id request reservation item now = record {
    event_id = digest_id "SIM-EVT-" 16 (reservation_id <> "|" <> request.idempotency_key);
    reservation_id = reservation_id;
    case_id = reservation.case_id;
    case_version = reservation.case_version;
    item_id = reservation.item_id;
    custodian_id = reservation.custodian_id;
    reservation_version = reservation.version;
    item_version = item.version;
    occurred_at = isoformat now;
  }

  -- the hexadecimal HMAC of a callback
  unfoldable pub callback_signature : String → String → CallbackBody → String
  callback_signature callback_secret timestamp body =
      x.hmac_hex callback_secret (timestamp <> "." <> x.canonical_json (callback_json body))

  unfoldable pub signed_artifact : String → CallbackBody → ℕ → CallbackArtifact
  unfolding callback_signature
  signed_artifact callback_secret body now =
      let timestamp = decimal (now / 1_000_000) in
      record {
        body = body;
        timestamp = timestamp;
        signature = "v1=" <> callback_signature callback_secret timestamp body;
      }

  -- `verify_callback_artifact`
  unfoldable pub verify_callback_artifact : CallbackBody → String → String → String → Bool
  unfolding starts_v1 callback_signature
  verify_callback_artifact body timestamp signature callback_secret =
      if not (starts_v1 signature)
      then false
      else slice signature 3 (len signature) == callback_signature callback_secret timestamp body

  unfoldable pub finalized_response :
      String → ReservationBoundRequest → String → ℕ → Reservation → Item → StoreResponse
  unfolding released_item finalized_reservation callback_body signed_artifact public_reservation
  finalized_response reservation_id request callback_secret now found found_item =
      let reservation = finalized_reservation found request now in
      let item = released_item found_item in
      let body = callback_body reservation_id request reservation item now in
      record {
        reservation = public_reservation reservation;
        item = some item;
        attestation = none;
        callback_artifact = some (signed_artifact callback_secret body now);
        credentials = none;
        idempotent_replay = false;
      }

  -- the new part of `finalize_handoff_attestation`, for a key that is not known
  unfoldable pub finalize_new :
      String → ReservationBoundRequest → String → ℕ → Exec FixtureStore StoreResponse
  unfolding check_finalizable released_item finalized_reservation finalized_response save_idempotent
  finalize_new reservation_id request callback_secret now current =
      on_ok (check_finalizable current reservation_id request now) current (λ found.
        let response =
          finalized_response reservation_id request callback_secret now found.0 found.1 in
        (
          ok response,
          save_idempotent
              (record current {
                reservations =
                    put current.reservations reservation_id
                      (finalized_reservation found.0 request now);
                items = put current.items found.0.item_id (released_item found.1);
              })
              (handoff_scope request) (handoff_json request) response,
        ))

  -- `finalize_handoff_attestation`
  unfoldable pub finalize_handoff_attestation :
      String → ReservationBoundRequest → String → ℕ → Exec FixtureStore StoreResponse
  unfolding idempotent_replay_of expire_locked finalize_new
  finalize_handoff_attestation reservation_id request callback_secret now store =
      on_ok (idempotent_replay_of store (handoff_scope request) (handoff_json request)) store
        (λ replay.
          on_some replay (λ response. (ok response, store))
            (and_then (expire_locked now store)
              (λ _ current. finalize_new reservation_id request callback_secret now current)))
