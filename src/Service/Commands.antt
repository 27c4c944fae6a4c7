-- ===== src/Service/Commands.antt =====
-- service/app/custody_service.py: `_mutation_spec` and `_mutation`, the commands that the methods
-- commit.
use found_roll.Prelude.{ℕ, String, false, none, List, [], Exec}
use found_roll.Prelude.Json.{Json, Hashing}
use found_roll.Domain.{AppliedMutation, CaseRecord, CustodyState}
use found_roll.Repository.{Repo, MutationSpec, CaseUpdate}
use found_roll.Repository.Commit.{apply_mutation}

module _ ⦃h : Hashing⦄ where
  -- `_mutation_spec` without the keyword arguments that it passes on, which the callers set by an
  -- update of the record.
  unfoldable pub mutation_spec :
      CaseRecord
      → CustodyState
      → String
      → String
      → String
      → String
      → Json
      → List CaseUpdate
      → ℕ
      → MutationSpec
  mutation_spec case target event_type actor reason key fingerprint_data updates now = record {
    case_id = case.id;
    expected_version = case.version;
    target_state = target;
    event_type = event_type;
    actor = actor;
    reason = reason;
    idempotency_key = key;
    fingerprint = h.sha256_json fingerprint_data;
    occurred_at = now;
    updates = updates;
    evidence_refs = [];
    tool = none;
    task_id = none;
    model_run_id = none;
    simulator_attestation_id = none;
    outbox = none;
    handoff = none;
    tokens = [];
    allow_fact_event = false;
  }

  -- `_mutation` with no execution claim
  abbrev pub mutate : MutationSpec → Exec Repo AppliedMutation
  mutate spec = apply_mutation spec none none
