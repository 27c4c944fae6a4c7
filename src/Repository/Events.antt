-- ===== src/Repository/Events.antt =====
-- service/app/repository.py: how a command becomes an event and a new version of the case.
use Prim.Native.String.{slice, ◌++◌ as str_append}
use found_roll.Prelude.{
  ◌+◌, String, Bool, false, true, ◌||◌, List, [], ◌∷◌, Result, ok, err, value_error, conflict, not,
  is_empty, eqb, ◌==◌, is_some, raise_if, ◌>>=◌, ◌>>◌, any,
}
use found_roll.Prelude.Json.{
  Json, text, number, array, object, field, end, texts, opt_text, Hashing,
}
use found_roll.Domain.{CaseRecord, EventRecord, MutationReceipt, Unsigned, state_value}
use found_roll.StateMachine.{assert_transition}
use found_roll.Repository.{
  MutationSpec, CaseUpdate, candidate_ids, selected_item_id, accepted_claim_evidence,
  identity_attestation_ref, approval_ref, wrong_answer_count, next_question, policy_outcome,
  handoff_id, model_run_id, model_trace_id, model_name, model_mode, model_prompt_version,
  model_output_schema_version, model_invocation_count, model_tool_trajectory,
  model_typed_output_valid, unsupported,
}

-- The dictionary that is hashed; a time stands for its ISO text.
unfoldable pub unsigned_json : Unsigned → Json
unfolding state_value
unsigned_json u = object (
    field "id" (text u.id) (
      field "case_id" (text u.case_id) (
        field "sequence" (number u.sequence) (
          field "type" (text u.kind) (
            field "actor" (text u.actor) (
              field "from_state" (text (state_value u.from_state)) (
                field "to_state" (text (state_value u.to_state)) (
                  field "reason" (text u.reason) (
                    field "evidence_refs" (array (texts u.evidence_refs)) (
                      field "tool" (opt_text u.tool) (
                        field "task_id" (opt_text u.task_id) (
                          field "model_run_id" (opt_text u.model_run_id) (
                            field "simulator_attestation_id" (opt_text u.simulator_attestation_id) (
                              field "idempotency_key" (text u.idempotency_key) (
                                field "occurred_at" (number u.occurred_at)
                                  (field "previous_hash" (text u.previous_hash) end))))))))))))))))

-- `_receipt`
unfoldable pub make_receipt : EventRecord → CaseRecord → MutationReceipt
make_receipt event case = record {
  case_id = case.id;
  event_id = event.id;
  event_sequence = event.sequence;
  state = case.state;
  version = case.version;
}

-- one entry of `**spec.updates` in `model_copy`
unfoldable pub apply_update : CaseUpdate → CaseRecord → CaseRecord
apply_update (candidate_ids v) c = record c { candidate_ids = v }
apply_update (selected_item_id v) c = record c { selected_item_id = v }
apply_update (accepted_claim_evidence v) c = record c { accepted_claim_evidence = v }
apply_update (identity_attestation_ref v) c = record c { identity_attestation_ref = v }
apply_update (approval_ref v) c = record c { approval_ref = v }
apply_update (wrong_answer_count v) c = record c { wrong_answer_count = v }
apply_update (next_question v) c = record c { next_question = v }
apply_update (policy_outcome v) c = record c { policy_outcome = v }
apply_update (handoff_id v) c = record c { handoff_id = v }
apply_update (model_run_id v) c = record c { model_run_id = v }
apply_update (model_trace_id v) c = record c { model_trace_id = v }
apply_update (model_name v) c = record c { model_name = v }
apply_update (model_mode v) c = record c { model_mode = v }
apply_update (model_prompt_version v) c = record c { model_prompt_version = v }
apply_update (model_output_schema_version v) c = record c { model_output_schema_version = v }
apply_update (model_invocation_count v) c = record c { model_invocation_count = v }
apply_update (model_tool_trajectory v) c = record c { model_tool_trajectory = v }
apply_update (model_typed_output_valid v) c = record c { model_typed_output_valid = v }
apply_update (unsupported key) c = c

unfoldable pub apply_updates : List CaseUpdate → CaseRecord → CaseRecord
apply_updates [] c = c
apply_updates (u ∷ us) c = apply_updates us (apply_update u c)

abbrev is_unsupported : CaseUpdate → Bool
is_unsupported (unsupported key) = true
is_unsupported _ = false

-- `illegal = set(spec.updates) - set(CaseRecord.model_fields)`, raised on if not empty
unfoldable pub check_updates : List CaseUpdate → Result (Unit {0})
unfolding any
check_updates us = raise_if (any is_unsupported us) (value_error "unsupported case update fields")

-- `model_copy(update={**spec.updates, "state": …, …})`; the validation that follows returns the
-- same record.
unfoldable pub next_case : CaseRecord → MutationSpec → EventRecord → CaseRecord
unfolding apply_updates
next_case current spec event = record (apply_updates spec.updates current) {
  state = spec.target_state;
  version = current.version + 1;
  last_event_sequence = event.sequence;
  last_event_hash = event.event_hash;
  updated_at = spec.occurred_at;
}

module _ ⦃h : Hashing⦄ where
  -- `_event_id`
  unfoldable pub make_event_id : String → String → String
  make_event_id case_id key = str_append "evt-" (
      slice (h.uuid5_hex (str_append "found-roll:" (str_append case_id (str_append ":" key)))) 0 24)

  unfoldable pub unsigned_event : CaseRecord → MutationSpec → Unsigned
  unfolding make_event_id
  unsigned_event case spec = record {
    id = make_event_id case.id spec.idempotency_key;
    case_id = case.id;
    sequence = case.last_event_sequence + 1;
    kind = spec.event_type;
    actor = spec.actor;
    from_state = case.state;
    to_state = spec.target_state;
    reason = spec.reason;
    evidence_refs = spec.evidence_refs;
    tool = spec.tool;
    task_id = spec.task_id;
    model_run_id = spec.model_run_id;
    simulator_attestation_id = spec.simulator_attestation_id;
    idempotency_key = spec.idempotency_key;
    occurred_at = spec.occurred_at;
    previous_hash = case.last_event_hash;
  }

  -- `_make_event`
  unfoldable pub make_event : CaseRecord → MutationSpec → EventRecord
  unfolding unsigned_event
  make_event case spec =
      let unsigned = unsigned_event case spec in
      record { unsigned = unsigned; event_hash = h.sha256_json (unsigned_json unsigned) }

  -- one round of the loop of `_project_mutations`
  unfoldable pub project_mutation : CaseRecord → MutationSpec → Result (CaseRecord × EventRecord)
  unfolding check_updates make_event next_case
  project_mutation projected spec = do
    raise_if (not (spec.case_id == projected.id))
        (value_error "claim evidence mutation does not belong to the Item Passport")
    raise_if (not (eqb spec.expected_version projected.version)) (conflict "stale_case_version")
    raise_if (is_some spec.outbox || is_some spec.handoff || not (is_empty spec.tokens))
        (value_error "claim evidence mutations cannot attach custody side records")
    check_updates spec.updates
    assert_transition projected.state spec.target_state spec.allow_fact_event
    let event = make_event projected spec
    ok (next_case projected spec event, event)

  unfoldable pub project_rest :
      CaseRecord → List MutationSpec → Result (CaseRecord × List EventRecord)
  unfolding project_mutation
  project_rest projected [] = ok (projected, [])
  project_rest projected (spec ∷ specs) = do
    (next, event) ← project_mutation projected spec
    (last, events) ← project_rest next specs
    ok (last, event ∷ events)

  -- `_project_mutations`
  unfoldable pub project_mutations :
      CaseRecord → List MutationSpec → Result (CaseRecord × List EventRecord)
  unfolding project_rest
  project_mutations current [] =
      err (value_error "claim evidence commit requires at least one mutation")
  project_mutations current (spec ∷ specs) = project_rest current (spec ∷ specs)
