-- ===== src/Tests/Vault.antt =====
-- The credentials of the pouch's handoff are issued.
use found_roll.Prelude.{
  ◌+◌, ◌<◌, ◌≤◌, ◌≡◌, refl, some, none, false, [], ◌∷◌, ok, err, Error, Result, get, put, on_some,
}
use found_roll.Domain.{HandoffRecord, reserve_requested, reserved}
use found_roll.StateMachine.{assert_transition}
use found_roll.Repository.{Repo, empty, handoff_id}
use found_roll.Repository.Events.{apply_update}
use found_roll.Repository.Commit.{create_case, apply_mutation}
use found_roll.Service.Credentials.{IssuedAnswer, IssuedCredentials, issue_tokens, ten_minutes}
use found_roll.Service.Credentials.Once.{issued_expiry, issued_once}
use found_roll.Domain.{view_case, view_handoff}
use found_roll.Tests.{show, plain_hashing, command, run}
use found_roll.Tests.Desk.{approved, case_in, handoff, settings}

abbrev bare_handoff : HandoffRecord
bare_handoff = record handoff {
  claimant_token_hash = none;
  custodian_token_hash = none;
  claimant_attested_at = none;
  custodian_attested_at = none;
  tokens_issued = false;
}

abbrev holding : Repo
holding =
    run
      (command "k7" 7 reserve_requested
        ∷ record (command "k8" 8 reserved) {
          updates = handoff_id (some "handoff-1") ∷ [];
          handoff = some bare_handoff;
        }
        ∷ [])
      approved

abbrev credentials : IssuedCredentials
credentials = record {
  claimant_token = "cl";
  custodian_token = "cu";
  expires_at = 500;
  remote_etag = "etag-3";
  remote_version = 3;
}

abbrev issue_run : Result IssuedAnswer × Repo
issue_run = issue_tokens settings "FR-42" 9 "t1" 100 (ok credentials) holding

abbrev no_answer : IssuedAnswer
no_answer = record {
  case = view_case (case_in holding);
  handoff = view_handoff bare_handoff;
  claimant_token = "";
  custodian_token = "";
  expires_at = 0;
}

abbrev answer_of : Result IssuedAnswer → IssuedAnswer
answer_of (ok a) = a
answer_of (err e) = no_answer

abbrev issued_answer : IssuedAnswer
issued_answer = answer_of issue_run.0

holding_found : get holding.cases "FR-42" ≡ some (case_in holding)
unfolding apply_mutation apply_update create_case get put empty plain_hashing show assert_transition
holding_found = refl

holding_own : (case_in holding).id ≡ "FR-42"
unfolding apply_mutation apply_update create_case get put empty plain_hashing show assert_transition
holding_own = refl

holding_points : (case_in holding).handoff_id ≡ some "handoff-1"
unfolding apply_mutation apply_update create_case get put empty plain_hashing show assert_transition
holding_points = refl

holding_handoff : get holding.handoffs "handoff-1" ≡ some bare_handoff
unfolding apply_mutation apply_update create_case get put empty plain_hashing show assert_transition
holding_handoff = refl

holding_unknown : get holding.idempotency "case:FR-42:tokens:t1" ≡ none
unfolding apply_mutation apply_update create_case get put empty plain_hashing show assert_transition
holding_unknown = refl

issued_run : issue_run ≡ (ok issued_answer, issue_run.1)
unfolding issue_tokens apply_mutation apply_update create_case get put empty plain_hashing show
    assert_transition
issued_run = refl

issued_expiry_example :
    (100 < issued_answer.expires_at)
    × (issued_answer.expires_at ≤ 100 + ten_minutes)
    × on_some bare_handoff.expires_at (λ end. issued_answer.expires_at ≤ end) Unit
issued_expiry_example =
    issued_expiry holding issue_run.1 settings "FR-42" 9 "t1" 100 (ok credentials) issued_answer
      (case_in holding) "handoff-1" bare_handoff holding_found holding_points holding_handoff
      issued_run

issued_once_example :
    (e : Error) × (issue_tokens settings "FR-42" 10 "t2" 120 (ok credentials) issue_run.1
      ≡ (err e, issue_run.1))
issued_once_example =
    issued_once holding issue_run.1 settings "FR-42" 9 "t1" 100 (ok credentials) issued_answer
      (case_in holding) "handoff-1" bare_handoff 10 "t2" 120 (ok credentials) holding_found
      holding_own holding_points holding_handoff refl holding_unknown issued_run
