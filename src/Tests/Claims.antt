-- ===== src/Tests/Claims.antt =====
-- A private answer for the pouch, through a claimant's link.
use found_roll.Prelude.{
  keep, String, ◌≡◌, ◌≢◌, refl, subst, sym, true, some, none, List, [], ◌∷◌, ok, get, put, length,
}
use found_roll.Domain.{
  Candidate, CaseRecord, ClaimLinkRecord, EventRecord, evidence_ready, analyzing, candidates_ready,
  clarification_required, claim_evidence_accepted,
}
use found_roll.StateMachine.{assert_transition}
use found_roll.Repository.{Repo, MutationSpec, empty, selected_item_id, candidate_ids}
use found_roll.Repository.Events.{apply_update, project_mutations}
use found_roll.Repository.Commit.{create_case, apply_mutation}
use found_roll.Repository.Links.{issue_claim_link, consume_claim_link}
use found_roll.Repository.Chain.Methods.{
  Reachable, Reachable-Consistent, created, issued, next, start,
}
use found_roll.Service.Claim.{claim_specs, submit_claim_evidence}
use found_roll.Service.Claim.Outcomes.{ClaimOutcome, project-claim_specs}
use found_roll.Service.Claim.Gated.{IsAnswered}
use found_roll.Service.Claim.Accepted.{accepted_with_answer}
use found_roll.Service.Packet.{deterministic_candidate_packet}
use found_roll.Service.Packet.Leads.{IsPacket, deterministic_candidate_packet-IsPacket}
use found_roll.Tests.{show, plain_hashing, pouch, command, run, run-Reachable}
use found_roll.Tests.Desk.{candidate, case_in, settings}

abbrev secret_candidate : Candidate
secret_candidate = record candidate {
  restricted_attribute_id = some "lining";
  restricted_value_hash = some "pepper/blue";
}

abbrev raw_token : String
raw_token = "frcl_0123456789012345678901234567890123456789"

abbrev asked_commands : List MutationSpec
asked_commands =
    command "k1" 1 evidence_ready
    ∷ command "k2" 2 analyzing
    ∷ record (command "k3" 3 candidates_ready) {
      updates = selected_item_id (some "NA-PCH-231") ∷ candidate_ids ("NA-PCH-231" ∷ []) ∷ [];
    }
    ∷ command "k4" 4 clarification_required
    ∷ []

abbrev asked : Repo
asked =
    run asked_commands
      (create_case pouch (secret_candidate ∷ []) "actor" "Created." "create" 12 none empty).1

abbrev link : ClaimLinkRecord
link = record {
  token_hash = "pepper/frcl_0123456789012345678901234567890123456789";
  issuance_key_hash = "issue-1";
  command_fingerprint = "f";
  case_id = "FR-42";
  issued_case_version = 5;
  issued_at = 30;
  expires_at = 90;
  used_at = none;
  superseded_at = none;
}

abbrev linked : Repo
linked = (issue_claim_link link 30 asked).1

linked-Reachable : Reachable linked
linked-Reachable =
    next
      (run-Reachable asked_commands
        (next start (created pouch (secret_candidate ∷ []) "actor" "Created." "create" 12 none)))
      (issued link 30)

linked_found : get linked.cases "FR-42" ≡ some (case_in linked)
unfolding issue_claim_link apply_mutation apply_update create_case get put empty plain_hashing show
    assert_transition
linked_found = refl

linked_state : (case_in linked).state ≡ clarification_required
unfolding issue_claim_link apply_mutation apply_update create_case get put empty plain_hashing show
    assert_transition
linked_state = refl

clarification≢accepted : clarification_required ≢ claim_evidence_accepted
clarification≢accepted p = cc

abbrev submitted : Repo
submitted = (submit_claim_evidence settings "FR-42" raw_token 5 "blue" "s1" 60 linked).1

submitted_found : get submitted.cases "FR-42" ≡ some (case_in submitted)
unfolding submit_claim_evidence consume_claim_link issue_claim_link apply_mutation apply_update
    create_case get put empty plain_hashing show assert_transition
submitted_found = refl

submitted_state : (case_in submitted).state ≡ claim_evidence_accepted
unfolding submit_claim_evidence consume_claim_link issue_claim_link apply_mutation apply_update
    create_case get put empty plain_hashing show assert_transition
submitted_state = refl

accepted_with_answer_example : IsAnswered linked settings (case_in linked) "blue"
accepted_with_answer_example =
    accepted_with_answer linked settings "FR-42" raw_token 5 "blue" "s1" 60 (case_in linked)
      (case_in submitted) (Reachable-Consistent linked-Reachable) linked_found
      (subst (λ s. s ≢ claim_evidence_accepted) (sym linked_state) clarification≢accepted)
      submitted_found submitted_state

project-claim_specs_example :
    (u : CaseRecord) × (es : List EventRecord) × (project_mutations (case_in linked) (
        claim_specs true
          (case_in linked)
          (case_in linked).id
          (case_in linked).version
          secret_candidate
          "d"
          "key"
          60)
      ≡ ok (u, es))
    × ClaimOutcome (case_in linked) true u (length es)
project-claim_specs_example =
    project-claim_specs (case_in linked) true secret_candidate "d" "key" 60 linked_state

abbrev weaker_candidate : Candidate
weaker_candidate = record candidate { id = "NA-PCH-900"; frozen_score = 6500 }

packet_made :
    deterministic_candidate_packet pouch (weaker_candidate ∷ secret_candidate ∷ [])
    ≡ ok (secret_candidate ∷ weaker_candidate ∷ [])
unfolding deterministic_candidate_packet keep
packet_made = refl

deterministic_candidate_packet-IsPacket_example :
    IsPacket pouch (secret_candidate ∷ weaker_candidate ∷ [])
deterministic_candidate_packet-IsPacket_example =
    deterministic_candidate_packet-IsPacket pouch (weaker_candidate ∷ secret_candidate ∷ [])
      (secret_candidate ∷ weaker_candidate ∷ []) packet_made
