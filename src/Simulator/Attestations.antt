-- ===== src/Simulator/Attestations.antt =====
-- `record_attestation` of simulator/app/store.py: a one-time token is presented.
use found_roll.Prelude.{
  ℕ, String, Bool, true, false, not, none, some, Result, ok, Exec, domain, leb, raise_if, and_then,
  on_some, on_ok, ◌>>=◌, ◌>>◌, ◌<>◌, ◌==◌, ◌||◌, ◌&&◌, put, is_some, if◌then◌else◌,
}
use found_roll.Simulator.{
  Attestation, FixtureStore, Reservation, ReservationStatus-discrete, reservation_status_eq,
  expired, tokens_issued, partially_attested, callback_ready, StoreResponse, at_role, set_role,
  isoformat, parse_datetime,
}
use found_roll.Simulator.Requests.{TokenAttestationRequest, attest_json, role_word}
use found_roll.Simulator.Codec.{Codec, digest_id}
use found_roll.Simulator.Store.{
  require_reservation, check_version_and_etag, validate_reservation_binding, public_reservation,
  idempotent_replay_of, save_idempotent, advance_reservation, expire_locked,
}

-- `not token_expires_at or now >= token_expires_at`
unfoldable pub token_window_closed : Reservation → ℕ → Bool
unfolding parse_datetime
token_window_closed reservation now =
    on_some reservation.token_expires_at (λ t. leb (parse_datetime t) now) true

abbrev pub attestation_scope : TokenAttestationRequest → String
attestation_scope request = "attestation:" <> request.bound.idempotency_key

module _ ⦃x : Codec⦄ where
  -- the checks of `record_attestation` on the reservation
  unfoldable pub check_presentation : Reservation → TokenAttestationRequest → ℕ → Result (Unit {0})
  unfolding validate_reservation_binding ReservationStatus-discrete check_version_and_etag
      token_window_closed
  check_presentation reservation request now = do
    validate_reservation_binding reservation request.bound
    raise_if (reservation_status_eq reservation.status expired) (domain 410 "RESERVATION_EXPIRED")
    check_version_and_etag reservation.version reservation.etag
        request.bound.expected_reservation_version request.bound.expected_reservation_etag
    raise_if (is_some (at_role reservation.attestations request.role))
        (domain 409 "TOKEN_REPLAY_REJECTED")
    raise_if
        (not (
          reservation_status_eq reservation.status tokens_issued
          || reservation_status_eq reservation.status partially_attested))
        (domain 409 "INVALID_RESERVATION_STATE")
    raise_if (token_window_closed reservation now) (domain 410 "CREDENTIAL_EXPIRED")
    raise_if
        (on_some (at_role reservation.token_hashes request.role)
          (λ expected. expected == "" || not (expected == x.sha256_text request.token)) true)
        (domain 403 "TOKEN_MISMATCH")

  unfoldable pub check_attestable :
      FixtureStore → String → TokenAttestationRequest → ℕ → Result Reservation
  unfolding require_reservation check_presentation
  check_attestable store reservation_id request now = do
    reservation ← require_reservation store reservation_id
    check_presentation reservation request now
    ok reservation

  unfoldable pub new_attestation : String → TokenAttestationRequest → ℕ → Attestation
  new_attestation reservation_id request now = record {
    attestation_id =
        digest_id "SIM-ATT-" 14
          (reservation_id <> "|" <> role_word request.role <> "|" <> request.bound.idempotency_key);
    role = request.role;
    presented_at = isoformat now;
  }

  -- the reservation after the presentation
  unfoldable pub attested_reservation :
      Reservation → TokenAttestationRequest → Attestation → ℕ → Reservation
  unfolding advance_reservation set_role
  attested_reservation reservation request attestation now =
      let attestations = set_role reservation.attestations request.role (some attestation) in
      advance_reservation
        (record reservation {
          attestations = attestations;
          token_consumed = set_role reservation.token_consumed request.role true;
        })
        (if is_some attestations.of_custodian && is_some attestations.of_claimant
          then callback_ready
          else partially_attested)
        ("SIMULATED_" <> role_word request.role <> "_TOKEN_ATTESTED") request.bound.actor
        request.bound.reason request.bound.evidence_refs request.bound.idempotency_key now

  unfoldable pub attested_response :
      String → TokenAttestationRequest → ℕ → Reservation → StoreResponse
  unfolding new_attestation attested_reservation public_reservation
  attested_response reservation_id request now found =
      let attestation = new_attestation reservation_id request now in
      record {
        reservation = public_reservation (attested_reservation found request attestation now);
        item = none;
        attestation = some attestation;
        callback_artifact = none;
        credentials = none;
        idempotent_replay = false;
      }

  -- the new part of `record_attestation`, for a key that is not known
  unfoldable pub attest_new : String → TokenAttestationRequest → ℕ → Exec FixtureStore StoreResponse
  unfolding check_attestable new_attestation attested_reservation attested_response save_idempotent
  attest_new reservation_id request now current =
      on_ok (check_attestable current reservation_id request now) current (λ found.
        let attestation = new_attestation reservation_id request now in
        let response = attested_response reservation_id request now found in
        (
          ok response,
          save_idempotent
              (record current {
                reservations =
                    put current.reservations reservation_id
                      (attested_reservation found request attestation now);
              })
              (attestation_scope request) (attest_json request (x.sha256_text request.token))
              response,
        ))

  -- `record_attestation`
  unfoldable pub record_attestation :
      String → TokenAttestationRequest → ℕ → Exec FixtureStore StoreResponse
  unfolding idempotent_replay_of expire_locked attest_new
  record_attestation reservation_id request now store =
      on_ok
        (idempotent_replay_of store (attestation_scope request)
          (attest_json request (x.sha256_text request.token)))
        store
        (λ replay.
          on_some replay (λ response. (ok response, store))
            (and_then (expire_locked now store)
              (λ _ current. attest_new reservation_id request now current)))
