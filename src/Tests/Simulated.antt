-- ===== src/Tests/Simulated.antt =====
-- The pouch of the fixture, reserved and handed over in the simulator.
use found_roll.Prelude.{ℕ, String, ◌≡◌, refl, none, [], ◌∷◌, Result, get, keys}
use found_roll.Tests.{show}
use found_roll.Simulator.{FixtureStore, StoreResponse, Role, custodian, claimant}
use found_roll.Simulator.Requests.{
  aware, CredentialIssueRequest, ReservationBoundRequest, ReservationCreateRequest,
  TokenAttestationRequest,
}
use found_roll.Simulator.Codec.{Codec, make_etag, digest_id}
use found_roll.Simulator.Store.{expire_locked}
use found_roll.Simulator.Fixture.{fixture}
use found_roll.Simulator.Reservations.{create_reservation, new_reservation_id}
use found_roll.Simulator.Credentials.{issue_credentials}
use found_roll.Simulator.Attestations.{record_attestation}
use found_roll.Simulator.Handoff.{finalize_handoff_attestation}
use found_roll.Simulator.Frame.{Command, attested, finalized, issued, reserved}
use found_roll.Simulator.Calls.{Reachable, command, next, start}

instance unfoldable pub plain_codec : Codec
plain_codec = record {
  sha256_text = λ s. s;
  sha256_json = show;
  hmac_hex = λ key message. message;
  hmac_urlsafe = λ key message. message;
  canonical_json = show;
  lower = λ s. s;
  upper = λ s. s;
  casefold = λ s. s;
  utc_text = λ t. "t";
}

abbrev pub reserve_request : ReservationCreateRequest
reserve_request = record {
  case_id = "FR-42";
  case_version = 7;
  custodian_id = "northport-air";
  item_id = "NA-PCH-231";
  expected_item_version = 5;
  expected_item_etag = "\"na-231-v5\"";
  destination = "Dropbox";
  expires_at = aware 900_000_000;
  actor = "desk";
  reason = "Hold the pouch.";
  evidence_refs = "e1" ∷ [];
  idempotency_key = "reserve-1";
}

abbrev pub held_id : String
held_id = "SIM-RSV-FR-42|NA-PCH-2"

abbrev pub held_run : Result StoreResponse × FixtureStore
held_run = create_reservation reserve_request 100_000_000 fixture

abbrev pub bound : String → ℕ → ReservationBoundRequest
bound key version = record {
  case_id = "FR-42";
  case_version = 7;
  item_id = "NA-PCH-231";
  custodian_id = "northport-air";
  expected_reservation_version = version;
  expected_reservation_etag = make_etag "reservation" held_id version;
  actor = "desk";
  reason = "Hand over.";
  evidence_refs = "e1" ∷ [];
  idempotency_key = key;
}

abbrev pub issue_request : CredentialIssueRequest
issue_request = record { bound = bound "issue-1" 1; token_expires_at = aware 500_000_000 }

abbrev pub issued_run : Result StoreResponse × FixtureStore
issued_run = issue_credentials held_id issue_request "secret" 110_000_000 held_run.1

abbrev presentation : String → ℕ → Role → String → TokenAttestationRequest
presentation key version role token = record {
  bound = bound key version;
  role = role;
  token = token;
}

abbrev claimant_token : String
claimant_token = "sim_claimant_SIM-RSV-FR-42|NA-PCH-2|CLAIMANT|2|t"

abbrev custodian_token : String
custodian_token = "sim_custodian_SIM-RSV-FR-42|NA-PCH-2|CUSTODIAN|2|t"

abbrev claimant_run : Result StoreResponse × FixtureStore
claimant_run =
    record_attestation held_id (presentation "attest-1" 2 claimant claimant_token) 120_000_000
      issued_run.1

abbrev pub custodian_run : Result StoreResponse × FixtureStore
custodian_run =
    record_attestation held_id (presentation "attest-2" 3 custodian custodian_token) 130_000_000
      claimant_run.1

abbrev pub finalized_run : Result StoreResponse × FixtureStore
finalized_run =
    finalize_handoff_attestation held_id (bound "final-1" 4) "callback" 140_000_000 custodian_run.1

abbrev pub final : FixtureStore
final = finalized_run.1

unused :
    get (expire_locked 100_000_000 fixture).1.reservations (new_reservation_id reserve_request)
    ≡ none
unfolding expire_locked fixture get new_reservation_id digest_id plain_codec keys
unused = refl

pub held_run-Reachable : Reachable held_run.1
held_run-Reachable = next start (command (reserved reserve_request 100_000_000 (λ unknown. unused)))

pub custodian_run-Reachable : Reachable custodian_run.1
custodian_run-Reachable =
    next
      (next (next held_run-Reachable (command (issued held_id issue_request "secret" 110_000_000)))
        (command
          (attested held_id (presentation "attest-1" 2 claimant claimant_token) 120_000_000)))
      (command (attested held_id (presentation "attest-2" 3 custodian custodian_token) 130_000_000))

pub finalizes : Command custodian_run.1 final
finalizes = finalized held_id (bound "final-1" 4) "callback" 140_000_000

pub final-Reachable : Reachable final
final-Reachable = next custodian_run-Reachable (command finalizes)
