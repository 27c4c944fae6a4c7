-- ===== src/Simulator/Credentials.antt =====
-- `issue_credentials` of simulator/app/store.py: the one-time tokens of a reservation.
use found_roll.Prelude.{
  ℕ, ◌+◌, String, true, false, not, none, some, Result, ok, Exec, domain, key_error, leb, ltb,
  raise_if, require, and_then, on_some, on_ok, ◌>>=◌, ◌>>◌, ◌<>◌, put, is_some, ◌||◌, if◌then◌else◌,
}
use found_roll.Simulator.{
  FixtureStore, ReplayRecord, IssuedTokens, Reservation, ReservationStatus,
  ReservationStatus-discrete, reservation_status_eq, expired, tokens_issued, StoreResponse,
  isoformat, parse_datetime,
}
use found_roll.Simulator.Requests.{CredentialIssueRequest, aware_instant, issue_json}
use found_roll.Simulator.Codec.{Codec, derive_credentials}
use found_roll.Simulator.Store.{
  require_reservation, check_version_and_etag, validate_reservation_binding, public_reservation,
  idempotency_record, advance_reservation, expire_locked,
}

-- the checks of `issue_credentials`: the reservation, and when the tokens expire
unfoldable pub check_credential_request :
    FixtureStore → String → CredentialIssueRequest → ℕ → Result (Reservation × ℕ)
unfolding require_reservation validate_reservation_binding ReservationStatus-discrete
    check_version_and_etag aware_instant
check_credential_request store reservation_id request now = do
  reservation ← require_reservation store reservation_id
  validate_reservation_binding reservation request.bound
  raise_if (reservation_status_eq reservation.status expired) (domain 410 "RESERVATION_EXPIRED")
  check_version_and_etag reservation.version reservation.etag
      request.bound.expected_reservation_version request.bound.expected_reservation_etag
  raise_if (not (reservation_status_eq reservation.status ReservationStatus.held)) (
      domain 409 (
        if is_some reservation.token_hashes.of_custodian
          || is_some reservation.token_hashes.of_claimant
        then "CREDENTIALS_ALREADY_ISSUED"
        else "INVALID_RESERVATION_STATE"))
  expires_at ← aware_instant request.token_expires_at
  raise_if (leb expires_at now) (domain 410 "CREDENTIAL_EXPIRED")
  raise_if (ltb (parse_datetime reservation.expires_at) expires_at)
      (domain 422 "CREDENTIAL_OUTLIVES_RESERVATION")
  ok (reservation, expires_at)

abbrev pub issue_scope : CredentialIssueRequest → String
issue_scope request = "credentials:" <> request.bound.idempotency_key

module _ ⦃x : Codec⦄ where
  -- the answer to a repeated request: the tokens are derived again
  unfoldable pub reissue : String → ReplayRecord → Result StoreResponse
  unfolding derive_credentials
  reissue token_secret row =
      require row.credential_recipe (key_error "credential_recipe") >>= λ recipe.
      ok (record row.response {
        credentials = some (
            derive_credentials token_secret recipe.reservation_id recipe.generation
              recipe.expires_at);
        idempotent_replay = true;
      })

  -- the reservation with the hashes of its tokens
  unfoldable pub issued_reservation :
      Reservation → CredentialIssueRequest → IssuedTokens → ℕ → Reservation
  unfolding advance_reservation
  issued_reservation reservation request credentials now =
      advance_reservation
        (record reservation {
          token_hashes = record {
            of_custodian = some (x.sha256_text credentials.custodian_token);
            of_claimant = some (x.sha256_text credentials.claimant_token);
          };
          token_expires_at = some credentials.expires_at;
        })
        tokens_issued "SIMULATED_CREDENTIALS_ISSUED" request.bound.actor request.bound.reason
        request.bound.evidence_refs request.bound.idempotency_key now

  -- the response without the tokens
  unfoldable pub safe_response : Reservation → StoreResponse
  unfolding public_reservation
  safe_response reservation = record {
    reservation = public_reservation reservation;
    item = none;
    attestation = none;
    callback_artifact = none;
    credentials = none;
    idempotent_replay = false;
  }

  -- what is remembered of the command: how to derive the tokens again, not the tokens
  unfoldable pub issued_row : String → CredentialIssueRequest → Reservation → ℕ → ℕ → ReplayRecord
  unfolding safe_response
  issued_row reservation_id request reservation generation expires_at = record {
    fingerprint = x.sha256_json (issue_json request);
    response = safe_response reservation;
    credential_recipe = some (record {
      reservation_id = reservation_id;
      generation = generation;
      expires_at = expires_at;
    });
  }

  -- the new part of `issue_credentials`, for a key that is not known
  unfoldable pub issue_new :
      String → CredentialIssueRequest → String → ℕ → Exec FixtureStore StoreResponse
  unfolding check_credential_request derive_credentials issued_reservation safe_response issued_row
  issue_new reservation_id request token_secret now current =
      on_ok (check_credential_request current reservation_id request now) current (λ found.
        let generation = found.0.version + 1 in
        let credentials =
          derive_credentials token_secret reservation_id generation (isoformat found.1) in
        let reservation = issued_reservation found.0 request credentials now in
        (
          ok (record (safe_response reservation) { credentials = some credentials }),
          record current {
            reservations = put current.reservations reservation_id reservation;
            idempotency_records =
                put current.idempotency_records (issue_scope request)
                  (issued_row reservation_id request reservation generation credentials.expires_at);
          },
        ))

  -- `issue_credentials`
  unfoldable pub issue_credentials :
      String → CredentialIssueRequest → String → ℕ → Exec FixtureStore StoreResponse
  unfolding idempotency_record reissue expire_locked issue_new
  issue_credentials reservation_id request token_secret now store =
      on_ok (idempotency_record store (issue_scope request) (issue_json request)) store (λ known.
        on_some known (λ row. (reissue token_secret row, store))
          (and_then (expire_locked now store)
            (λ _ current. issue_new reservation_id request token_secret now current)))
