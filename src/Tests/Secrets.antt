-- ===== src/Tests/Secrets.antt =====
-- The claimant's links and the credentials of the pouch.
use found_roll.Prelude.{
  eq_iff, ◌≡◌, refl, true, false, none, some, ◌∷◌, [], ok, err, Error, conflict, get, put, arith,
  Result,
}
use found_roll.StateMachine.{assert_transition}
use found_roll.Domain.{
  AppliedMutation, ClaimLinkRecord, HandoffRecord, HandoffStatus, analyzing, evidence_ready,
  candidates_ready, clarification_required, TokenRecord, claimant,
}
use found_roll.Repository.{Repo, MutationSpec, empty}
use found_roll.Repository.Commit.{apply_mutation, create_case}
use found_roll.Repository.Commit.Inversion.{apply_mutation_raised}
use found_roll.Repository.Links.{
  issue_claim_link, inspect_claim_link, consume_claim_link, ClaimLinkIssue, ClaimEvidenceCommit,
}
use found_roll.Repository.Links.Laws.{inspect-issue, inspect-reissue, consumed_once}
use found_roll.Repository.Tokens.{consume_token, check_token, presentation_spec, attested_handoff}
use found_roll.Repository.Tokens.Laws.{token_once}
use found_roll.Repository.Chain.Methods.{Reachable, Reachable-Consistent}
use found_roll.Tests.{
  show, plain_hashing, pouch, command, opened, opened-Reachable, run, run-Reachable,
}
use found_roll.Tests.Races.{answer, no_answer, ready}

abbrev asked : Repo
asked =
    run
      (ready
        ∷ command "k2" 2 analyzing
        ∷ command "k3" 3 candidates_ready
        ∷ command "k4" 4 clarification_required
        ∷ [])
      opened

asked-Reachable : Reachable asked
asked-Reachable =
    run-Reachable
      (ready
        ∷ command "k2" 2 analyzing
        ∷ command "k3" 3 candidates_ready
        ∷ command "k4" 4 clarification_required
        ∷ [])
      opened-Reachable

abbrev link : ClaimLinkRecord
link = record {
  token_hash = "h1";
  issuance_key_hash = "i1";
  command_fingerprint = "f1";
  case_id = "FR-42";
  issued_case_version = 5;
  issued_at = 30;
  expires_at = 90;
  used_at = none;
  superseded_at = none;
}

abbrev issue_run : Result ClaimLinkIssue × Repo
issue_run = issue_claim_link link 30 asked

abbrev new_issue : ClaimLinkIssue
new_issue = record { issued = link; duplicate = false; active = true }

link_issued : issue_run ≡ (ok new_issue, issue_run.1)
unfolding issue_claim_link apply_mutation create_case get put empty plain_hashing show
    assert_transition
link_issued = refl

inspect-issue_example : inspect_claim_link issue_run.1 "FR-42" "h1" 50 ≡ ok link
inspect-issue_example =
    inspect-issue asked issue_run.1 link 30 50 new_issue (Reachable-Consistent asked-Reachable)
      link_issued refl refl refl (omega arith)

inspect-reissue_example :
    inspect_claim_link issue_run.1 "FR-42" "h0" 50 ≡ err (conflict "claim_link_invalid")
inspect-reissue_example =
    inspect-reissue asked issue_run.1 link "h0" 30 50 new_issue link_issued refl
      (λ p. ground (arith, eq_iff "h0" "h1"))

abbrev first_receipt_spec : MutationSpec
first_receipt_spec = command "c1" 5 analyzing

abbrev consume_run : Result ClaimEvidenceCommit × Repo
consume_run = consume_claim_link "FR-42" "h1" "c" "f" 60 (first_receipt_spec ∷ []) true issue_run.1

abbrev no_commit : ClaimEvidenceCommit
no_commit = record { case = pouch; events = []; accepted = false; duplicate = true }

link_consumed : consume_run ≡ (ok (answer no_commit consume_run), consume_run.1)
unfolding consume_claim_link issue_claim_link apply_mutation create_case get put empty plain_hashing
    show assert_transition
link_consumed = refl

consumed_once_example :
    (inspect_claim_link consume_run.1 "FR-42" "h1" 61 ≡ err (conflict "claim_link_replayed"))
    × ((e : Error) × (consume_claim_link "FR-42" "h1" "d" "f" 61
            (first_receipt_spec ∷ [])
            true
            consume_run.1
          ≡ (err e, consume_run.1)))
unfolding consume_claim_link issue_claim_link apply_mutation create_case get put empty plain_hashing
    show assert_transition
consumed_once_example =
    consumed_once issue_run.1 consume_run.1 "FR-42" "h1" "c" "f" 60 (first_receipt_spec ∷ []) true
      (answer no_commit consume_run) 61 "h1" "d" "f" (first_receipt_spec ∷ []) true link_consumed
      refl refl

abbrev handoff : HandoffRecord
handoff = record {
  id = "handoff-1";
  case_id = "FR-42";
  item_id = "NA-PCH-231";
  provider = "Relay Post (SIMULATED)";
  reservation_id = some "SIM-RSV-1";
  simulator_request_id = none;
  status = HandoffStatus.held;
  reservation_case_version = 1;
  remote_etag = "e";
  remote_version = 1;
  expires_at = some 90;
  claimant_token_hash = some "th";
  custodian_token_hash = none;
  claimant_attested_at = none;
  custodian_attested_at = none;
  staff_confirmed_at = none;
  tokens_issued = true;
}

abbrev pouch_credential : TokenRecord
pouch_credential = record {
  token_hash = "th";
  case_id = "FR-42";
  handoff_id = "handoff-1";
  item_id = "NA-PCH-231";
  purpose = claimant;
  issued_at = 20;
  expires_at = 90;
  used_at = none;
}

abbrev armed : Repo
armed =
    (apply_mutation (record ready { handoff = some handoff; tokens = pouch_credential ∷ [] }) none
      none opened).1

abbrev present_run : Result AppliedMutation × Repo
present_run =
    consume_token "FR-42" "handoff-1" "th" claimant 2 evidence_ready "scanner" "p1" "f" 40 none none
      armed

token_presented : present_run ≡ (ok (answer no_answer present_run), present_run.1)
unfolding consume_token check_token presentation_spec attested_handoff apply_mutation create_case
    get put empty plain_hashing show assert_transition
token_presented = refl

token_once_example :
    consume_token "FR-42" "handoff-1" "th" claimant 3 evidence_ready "scanner" "p2" "f" 41 none none
      present_run.1
    ≡ (err (conflict "token_replayed"), present_run.1)
unfolding consume_token check_token presentation_spec attested_handoff apply_mutation create_case
    get put empty plain_hashing show assert_transition
token_once_example =
    token_once armed present_run.1 "FR-42" "handoff-1" "th" claimant 2 3 evidence_ready
      evidence_ready "scanner" "scanner" "p1" "p2" "f" "f" 40 41 none none none none
      (answer no_answer present_run) token_presented refl refl

abbrev stale_run : Result AppliedMutation × Repo
stale_run = apply_mutation (command "late" 5 evidence_ready) none none opened

stale_refused : stale_run ≡ (err (conflict "stale_case_version"), stale_run.1)
unfolding apply_mutation create_case get put empty plain_hashing show assert_transition
stale_refused = refl

apply_mutation_raised_example : stale_run.1 ≡ opened
apply_mutation_raised_example =
    apply_mutation_raised opened (command "late" 5 evidence_ready) none none
      (conflict "stale_case_version") stale_run.1 (Reachable-Consistent opened-Reachable)
      stale_refused
