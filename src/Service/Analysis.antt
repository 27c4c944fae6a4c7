-- ===== src/Service/Analysis.antt =====
-- service/app/custody_service.py: `_process_analysis` and its recovery. What the analyst answers is an
-- argument: the run, the proposal and the evidence of the run, or an error.
pub mod Run
use found_roll.Prelude.{
  ℕ, ◌+◌, String, Bool, false, true, ◌&&◌, ◌||◌, Option, none, some, List, [], ◌∷◌, Result, ok, err,
  Exec, Error, not_found, conflict, forbidden, unavailable, value_error, key_error, not, ◌==◌,
  opt_eq, is_some, any, raise_if, require, on_ok, on_some, and_then, ◌>>=◌, ◌>>◌, ◌<>◌, Dict,
  if◌then◌else◌,
}
use found_roll.Prelude.Json.{
  Json, text, flag, null, array, object, field, end, texts, opt_text, Hashing,
}
use found_roll.Domain.{
  AnalysisProposal, AnalysisDecision, request_private_discriminator, abstain_to_manual_review,
  ManualReviewReason, evidence_inconclusive, visible_signal_conflict, AgentExecutionEvidence,
  Candidate, CaseRecord, CaseView, view_case, CustodyState, CustodyState-discrete, state_eq,
  analyzing, candidates_ready, clarification_required, manual_review, EventRecord, OutboxRecord,
  OutboxStatus, complete, failed, execute, require_review,
}
use found_roll.Policy.{evaluate_release_policy}
use found_roll.Repository.{
  Repo, MutationSpec, CaseUpdate, candidate_ids, selected_item_id, next_question, policy_outcome,
  model_run_id, model_trace_id, model_name, model_mode, model_prompt_version,
  model_output_schema_version, model_invocation_count, model_tool_trajectory,
  model_typed_output_valid,
}
use found_roll.Repository.Commit.{get_case, get_candidate, list_events, apply_mutation}
use found_roll.Repository.Outbox.{mark_outbox_execution}
use found_roll.Service.Claim.{list_candidates}
use found_roll.Service.Commands.{mutation_spec}
use found_roll.Service.Manifest.{sorted_set}
use found_roll.Service.Packet.{deterministic_candidate_packet}

-- the attributes of the analyst
pub record Analyst : Type 0 where
  pub name : String
  pub mode : String
  pub prompt_version : String
  pub output_schema_version : String

-- what an analyst answers
pub record Analysis : Type 0 where
  pub run_id : String
  pub proposal : AnalysisProposal
  pub execution : Option AgentExecutionEvidence

-- the answers of `_process_analysis` and of its recovery
pub record Processed : Type 0 where
  pub outbox : OutboxRecord
  pub case : CaseView
  pub terminal_failure_acknowledged : Bool
  pub agent_abstained : Bool

-- `next((event for event in reversed(events) if …), None)`
unfoldable pub find_last : (EventRecord → Bool) → List EventRecord → Option EventRecord
find_last test [] = none
find_last test (e ∷ es) =
    let rest = find_last test es in
    on_some rest (λ found. some found) (if test e then some e else none)

-- `_analysis_failure_code`
unfoldable pub analysis_failure_code : String → Option String
analysis_failure_code event_type =
    if event_type == "ANALYST_UNAVAILABLE"
    then some "analyst_unavailable"
    else if event_type == "ANALYST_REVIEW_REQUIRED"
    then some "analyst_policy_conflict"
    else none

-- an event of the outbox command that took the case from ANALYZING to MANUAL_REVIEW
unfoldable pub stopped_by : OutboxRecord → String → EventRecord → Bool
unfolding CustodyState-discrete
stopped_by outbox key event =
    event.idempotency_key == key
    && opt_eq event.task_id (some outbox.task_name)
    && state_eq event.from_state analyzing
    && state_eq event.to_state manual_review

unfoldable pub is_failure_event : OutboxRecord → EventRecord → Bool
unfolding stopped_by analysis_failure_code
is_failure_event outbox event =
    stopped_by outbox ("outbox:" <> outbox.id <> ":manual-review") event
    && is_some (analysis_failure_code event.kind)

unfoldable pub is_abstention_event : OutboxRecord → EventRecord → Bool
unfolding stopped_by
is_abstention_event outbox event =
    stopped_by outbox ("outbox:" <> outbox.id <> ":agent-abstained") event
    && event.kind == "ANALYST_ABSTAINED"
    && event.actor == "agent:case-analyst"

-- `self.repository.list_candidates()`, in the order of their identifiers
abbrev keys {ℓ} : {V : Type ℓ} → Dict V → List String
keys [] = []
keys ((k, v) ∷ d) = k ∷ keys d

unfoldable pub all_candidates : Repo → List Candidate
unfolding sorted_set list_candidates
all_candidates repo = list_candidates repo (sorted_set (keys repo.candidates))

abbrev pub candidate_names : List Candidate → List String
candidate_names [] = []
candidate_names (c ∷ cs) = c.id ∷ candidate_names cs

unfoldable pub same_texts : List String → List String → Bool
same_texts [] [] = true
same_texts (x ∷ xs) (y ∷ ys) = let rest = same_texts xs ys in x == y && rest
same_texts _ _ = false

-- `set(xs) - set(ys)` is not empty
unfoldable pub leaves : List String → List String → Bool
unfolding any
leaves xs ys = any (λ x. not (any (λ y. x == y) ys)) xs

abbrev first_name : List String → Option String
first_name [] = none
first_name (x ∷ xs) = some x

-- the checks of a proposal to ask a private question
unfoldable pub check_question : Repo → AnalysisProposal → List String → Result (Unit {0})
unfolding get_candidate
check_question repo proposal packet_ids = do
  raise_if (not (opt_eq proposal.selected_candidate_id (first_name packet_ids)))
      (conflict "agent_candidate_packet_drift")
  id ← require proposal.selected_candidate_id (conflict "agent_selection_missing")
  raise_if (id == "") (conflict "agent_selection_missing")
  selected ← get_candidate repo id
  raise_if (not (opt_eq proposal.restricted_attribute_id selected.restricted_attribute_id))
      (conflict "agent_discriminator_invalid")

-- the `try` statement of `_process_analysis`
unfoldable pub check_analysis : Repo → CaseRecord → Result Analysis → Result Analysis
unfolding all_candidates deterministic_candidate_packet leaves same_texts check_question
check_analysis repo case answer = do
  let candidates = all_candidates repo
  packet ← deterministic_candidate_packet case candidates
  analysis ← answer
  let proposal = analysis.proposal
  raise_if (leaves proposal.ranked_candidate_ids (candidate_names candidates))
      (conflict "agent_scope_violation")
  raise_if (not (same_texts proposal.ranked_candidate_ids (candidate_names packet)))
      (conflict "agent_candidate_packet_drift")
  elim proposal.decision [
    | request_private_discriminator ↦
        check_question repo proposal (candidate_names packet) >> ok analysis
    | abstain_to_manual_review ↦ ok analysis
  ]

-- `except (Unavailable, Conflict)`
abbrev pub stops_analysis : Error → Bool
stops_analysis (conflict code) = true
stops_analysis (unavailable code) = true
stops_analysis _ = false

abbrev pub is_unavailable : Error → Bool
is_unavailable (unavailable code) = true
is_unavailable _ = false

abbrev decision_text : AnalysisDecision → String
decision_text request_private_discriminator = "REQUEST_PRIVATE_DISCRIMINATOR"
decision_text abstain_to_manual_review = "ABSTAIN_TO_MANUAL_REVIEW"

abbrev reason_text : ManualReviewReason → String
reason_text evidence_inconclusive = "evidence_inconclusive"
reason_text visible_signal_conflict = "visible_signal_conflict"

abbrev pub abstention_reason : ManualReviewReason → String
abstention_reason evidence_inconclusive =
    "The bounded Case Analyst abstained from a private question because the authorized evidence was inconclusive."
abstention_reason visible_signal_conflict =
    "The bounded Case Analyst abstained from a private question because the authorized visible signals conflicted."

-- `proposal.model_dump(mode="json")`
unfoldable pub proposal_json : AnalysisProposal → Json
proposal_json p = object (
    field "decision" (text (decision_text p.decision)) (
      field "ranked_candidate_ids" (array (texts p.ranked_candidate_ids)) (
        field "selected_candidate_id" (opt_text p.selected_candidate_id) (
          field "visible_signals" (array (texts p.visible_signals)) (
            field "evidence_sufficient_for_claim" (flag p.evidence_sufficient_for_claim) (
              field "restricted_attribute_id" (opt_text p.restricted_attribute_id) (
                field "next_question" (opt_text p.next_question) (
                  field "manual_review_reason"
                    (on_some p.manual_review_reason (λ r. text (reason_text r)) null)
                    (field "tool_trajectory" (array (texts p.tool_trajectory)) end)))))))))

-- the updates that record the model's run
unfoldable pub run_updates : Analyst → Analysis → List CaseUpdate
run_updates analyst analysis =
    model_run_id (some analysis.run_id)
    ∷ model_trace_id (on_some analysis.execution (λ x. some x.trace_id) none)
    ∷ model_name (some analyst.name)
    ∷ model_mode (some analyst.mode)
    ∷ model_prompt_version (some analyst.prompt_version)
    ∷ model_output_schema_version (some analyst.output_schema_version)
    ∷ model_invocation_count (on_some analysis.execution (λ x. some x.invocation_count) none)
    ∷ model_tool_trajectory (on_some analysis.execution (λ x. x.tool_trajectory) [])
    ∷ model_typed_output_valid (on_some analysis.execution (λ x. x.typed_output_valid) false)
    ∷ []

abbrev pub candidate_refs : List String → List String
candidate_refs [] = []
candidate_refs (x ∷ xs) = ("candidate://" <> x) ∷ candidate_refs xs
