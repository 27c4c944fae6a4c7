-- ===== src/Service/Analysis/Run.antt =====
-- service/app/custody_service.py: the commands of `_process_analysis`, its recovery and its failure.
use found_roll.Prelude.{
  ℕ, String, false, true, Option, none, some, [], ◌∷◌, Result, ok, err, Exec, Error, conflict,
  key_error, on_ok, on_some, and_then, ◌<>◌, if◌then◌else◌,
}
use found_roll.Prelude.Json.{Json, text, object, field, end, opt_text, Hashing}
use found_roll.Domain.{
  abstain_to_manual_review, request_private_discriminator, CaseRecord, view_case,
  CustodyState-discrete, state_eq, analyzing, candidates_ready, clarification_required,
  manual_review, AppliedMutation, OutboxRecord, complete, failed, execute, require_review,
}
use found_roll.Policy.{evaluate_release_policy}
use found_roll.Repository.{
  Repo, MutationSpec, candidate_ids, selected_item_id, next_question, policy_outcome,
}
use found_roll.Repository.Commit.{get_case, list_events, apply_mutation}
use found_roll.Repository.Outbox.{mark_outbox_execution}
use found_roll.Service.Commands.{mutation_spec}
use found_roll.Service.Analysis.{
  Analysis, Analyst, Processed, abstention_reason, analysis_failure_code, candidate_refs,
  check_analysis, find_last, is_abstention_event, is_failure_event, is_unavailable, proposal_json,
  run_updates, stops_analysis,
}

module _ ⦃h : Hashing⦄ where
  -- a command under the execution claim
  abbrev pub mutate_claimed : OutboxRecord → String → MutationSpec → Exec Repo AppliedMutation
  mutate_claimed outbox token spec = apply_mutation spec (some outbox.id) (some token)

  -- `_recover_analysis_failure`
  unfoldable pub recover_failure :
      CaseRecord → OutboxRecord → String → ℕ → Exec Repo (Option Processed)
  unfolding list_events find_last is_failure_event analysis_failure_code CustodyState-discrete
  recover_failure case outbox token now repo =
      if state_eq case.state manual_review
      then on_ok (list_events repo case.id) repo (λ events.
        on_some (find_last (is_failure_event outbox) events)
          (λ event.
            and_then
              (mark_outbox_execution outbox.id failed token now (some execute)
                (analysis_failure_code event.kind) repo)
              (λ marked after. (
                ok (
                    some (record {
                      outbox = marked;
                      case = view_case case;
                      terminal_failure_acknowledged = true;
                      agent_abstained = false;
                    })),
                after,
              )))
          (ok none, repo))
      else (ok none, repo)

  -- `_recover_analysis_abstention`
  unfoldable pub recover_abstention :
      CaseRecord → OutboxRecord → String → ℕ → Exec Repo (Option Processed)
  unfolding list_events find_last is_abstention_event CustodyState-discrete
  recover_abstention case outbox token now repo =
      if state_eq case.state manual_review
      then on_ok (list_events repo case.id) repo (λ events.
        on_some (find_last (is_abstention_event outbox) events)
          (λ event.
            and_then (mark_outbox_execution outbox.id complete token now none none repo)
              (λ marked after. (
                ok (
                    some (record {
                      outbox = marked;
                      case = view_case case;
                      terminal_failure_acknowledged = false;
                      agent_abstained = true;
                    })),
                after,
              )))
          (ok none, repo))
      else (ok none, repo)

  -- the one after the other
  unfoldable pub recover_analysis :
      CaseRecord → OutboxRecord → String → ℕ → Exec Repo (Option Processed)
  unfolding recover_abstention recover_failure
  recover_analysis case outbox token now repo =
      and_then (recover_abstention case outbox token now repo) (λ recovered after.
        on_some recovered (λ answer. (ok (some answer), after))
          (recover_failure case outbox token now after))

  abbrev pub failure_code : Error → String
  failure_code e = if is_unavailable e then "analyst_unavailable" else "analyst_policy_conflict"

  unfoldable pub failure_spec : CaseRecord → OutboxRecord → Error → Option String → ℕ → MutationSpec
  unfolding mutation_spec
  failure_spec case outbox e reason now =
      record (mutation_spec case manual_review
        (if is_unavailable e then "ANALYST_UNAVAILABLE" else "ANALYST_REVIEW_REQUIRED")
        "service:workflow"
        (on_some reason (λ r. r)
          (if is_unavailable e
            then "The bounded analyst was unavailable; custody work stopped for manual review."
            else "The analysis workflow could not produce an acceptable custody proposal; "
              <> "custody work stopped for manual review."))
        ("outbox:" <> outbox.id <> ":manual-review")
        (object (field "outbox_id" (text outbox.id) (field "reason" (text (failure_code e)) end)))
        [] now) { task_id = some outbox.task_name }

  -- `_terminalize_analysis_failure`
  unfoldable pub terminalize_failure :
      CaseRecord → OutboxRecord → Error → String → Option String → ℕ → Exec Repo OutboxRecord
  unfolding failure_spec
  terminalize_failure case outbox e token reason now repo =
      and_then (mutate_claimed outbox token (failure_spec case outbox e reason now) repo)
        (λ result after.
          mark_outbox_execution outbox.id failed token now (some execute) (some (failure_code e))
            after)

  abbrev run_json : OutboxRecord → Analysis → Json
  run_json outbox analysis =
      object (
        field "outbox_id" (text outbox.id) (field "proposal" (proposal_json analysis.proposal) end))

  unfoldable pub abstention_spec :
      Analyst → CaseRecord → OutboxRecord → Analysis → String → ℕ → MutationSpec
  unfolding mutation_spec run_updates proposal_json
  abstention_spec analyst case outbox analysis reason now =
      record (mutation_spec case manual_review "ANALYST_ABSTAINED" "agent:case-analyst" reason
        ("outbox:" <> outbox.id <> ":agent-abstained") (run_json outbox analysis)
        (candidate_ids []
          ∷ selected_item_id none
          ∷ next_question none
          ∷ policy_outcome require_review
          ∷ run_updates analyst analysis)
        now) {
          tool = some "case_analyst.request_manual_review";
          task_id = some outbox.task_name;
          model_run_id = some analysis.run_id;
        }

  unfoldable pub packet_spec : Analyst → CaseRecord → OutboxRecord → Analysis → ℕ → MutationSpec
  unfolding mutation_spec run_updates proposal_json
  packet_spec analyst case outbox analysis now =
      let proposal = analysis.proposal in
      record (mutation_spec case candidates_ready "CANDIDATE_PACKET_PROPOSED" "agent:case-analyst"
        "The bounded Case Analyst ranked authorized candidates and abstained from accepting claim evidence."
        ("outbox:" <> outbox.id <> ":candidates-ready") (run_json outbox analysis)
        (candidate_ids proposal.ranked_candidate_ids
          ∷ selected_item_id proposal.selected_candidate_id
          ∷ next_question proposal.next_question
          ∷ run_updates analyst analysis)
        now) {
          tool = some "case_analyst.submit_observations";
          task_id = some outbox.task_name;
          model_run_id = some analysis.run_id;
          evidence_refs = candidate_refs proposal.ranked_candidate_ids;
        }

  unfoldable pub question_spec : CaseRecord → OutboxRecord → ℕ → MutationSpec
  unfolding mutation_spec evaluate_release_policy
  question_spec case outbox now =
      record (mutation_spec case clarification_required "PRIVATE_EVIDENCE_REQUESTED"
        "service:policy"
        "Visual and route evidence remained insufficient; one non-leading private question was requested."
        ("outbox:" <> outbox.id <> ":clarification-required")
        (object
          (field "outbox_id" (text outbox.id) (field "question" (opt_text case.next_question) end)))
        (policy_outcome (evaluate_release_policy case).outcome ∷ []) now) {
          tool = some "propose_discriminator";
          task_id = some outbox.task_name;
          model_run_id = case.model_run_id;
        }

  -- the end of `_process_analysis`, for a case that is not analysed any more
  unfoldable pub finish_analysis : CaseRecord → OutboxRecord → String → ℕ → Exec Repo Processed
  unfolding CustodyState-discrete
  finish_analysis case outbox token now repo =
      if state_eq case.state clarification_required
      then and_then (mark_outbox_execution outbox.id complete token now none none repo)
          (λ marked after. (
            ok (record {
              outbox = marked;
              case = view_case case;
              terminal_failure_acknowledged = false;
              agent_abstained = false;
            }),
            after,
          ))
      else (err (conflict "analysis_result_state_invalid"), repo)

  -- the private question, if the candidates are ready
  unfoldable pub ask_question : CaseRecord → OutboxRecord → String → ℕ → Exec Repo Processed
  unfolding question_spec finish_analysis get_case CustodyState-discrete
  ask_question case outbox token now repo =
      if state_eq case.state candidates_ready
      then and_then (mutate_claimed outbox token (question_spec case outbox now) repo)
          (λ result after.
            on_ok (get_case after outbox.case_id) after
              (λ current. finish_analysis current outbox token now after))
      else finish_analysis case outbox token now repo

  -- an abstention; a reason that is missing raises
  unfoldable pub abstain :
      Analyst → CaseRecord → OutboxRecord → String → Analysis → ℕ → Exec Repo Processed
  unfolding abstention_spec get_case
  abstain analyst case outbox token analysis now repo =
      on_some analysis.proposal.manual_review_reason
        (λ reason.
          and_then
            (mutate_claimed outbox token
              (abstention_spec analyst case outbox analysis (abstention_reason reason) now) repo)
            (λ result committed.
              and_then (mark_outbox_execution outbox.id complete token now none none committed)
                (λ marked after. on_ok (get_case after case.id) after (λ current. (
                  ok (record {
                    outbox = marked;
                    case = view_case current;
                    terminal_failure_acknowledged = false;
                    agent_abstained = true;
                  }),
                  after,
                )))))
        (err (key_error "None"), repo)

  -- the analysis of a case in ANALYZING
  unfoldable pub analyse :
      Analyst → CaseRecord → OutboxRecord → String → Result Analysis → ℕ → Exec Repo Processed
  unfolding abstain packet_spec ask_question get_case
  analyse analyst case outbox token (err e) now repo =
      let stopped =
        and_then (terminalize_failure case outbox e token none now repo)
          (λ marked after. (err e, after)) in
      if stops_analysis e then stopped else (err e, repo)
  analyse analyst case outbox token (ok analysis) now repo = elim analysis.proposal.decision [
    | abstain_to_manual_review ↦ abstain analyst case outbox token analysis now repo
    | request_private_discriminator ↦
        and_then (mutate_claimed outbox token (packet_spec analyst case outbox analysis now) repo)
          (λ result after.
            on_ok (get_case after outbox.case_id) after
              (λ current. ask_question current outbox token now after))
  ]

  -- `_process_analysis`
  unfoldable pub process_analysis :
      Analyst → OutboxRecord → String → Result Analysis → ℕ → Exec Repo Processed
  unfolding get_case recover_analysis check_analysis analyse ask_question CustodyState-discrete
  process_analysis analyst outbox token answer now repo =
      on_ok (get_case repo outbox.case_id) repo (λ case.
        and_then (recover_analysis case outbox token now repo) (λ recovered after.
          on_some recovered (λ answered. (ok answered, after))
            (if state_eq case.state analyzing
              then analyse analyst case outbox token (check_analysis after case answer) now after
              else ask_question case outbox token now after)))
