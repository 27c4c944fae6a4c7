-- ===== src/Service/Relay/Run.antt =====
-- service/app/custody_service.py: `_process_relay` and its error handler. The relay's answer is an
-- argument.
use found_roll.Prelude.{
  ℕ, String, Bool, false, true, none, some, [], Result, ok, err, Exec, Error, not_found, conflict,
  forbidden, unavailable, value_error, key_error, domain, not, on_ok, and_then, ◌<>◌, if◌then◌else◌,
}
use found_roll.Prelude.Json.{text, object, field, end, Hashing}
use found_roll.Domain.{
  CaseRecord, CustodyState, CustodyState-discrete, state_eq, reserve_requested, release_requested,
  reconciliation_required, OutboxKind, OutboxKind-discrete, kind_eq, reserve_relay, OutboxRecord,
  failed, execute, RelayAttestation,
}
use found_roll.Repository.{Repo, MutationSpec}
use found_roll.Repository.Commit.{get_case}
use found_roll.Repository.Outbox.{mark_outbox}
use found_roll.Service.Commands.{mutation_spec, mutate}
use found_roll.Service.Publish.{kind_value}
use found_roll.Service.Relay.{RelayCommit, handoff_for_case, commit_relay_attestation}

-- `isinstance(exc, (DomainError, ValueError))`
abbrev pub caught : Error → Bool
caught (key_error message) = false
caught _ = true

-- `type(exc).__name__`
abbrev class_name : Error → String
class_name (not_found resource) = "NotFound"
class_name (conflict code) = "Conflict"
class_name (forbidden code) = "Forbidden"
class_name (unavailable code) = "Unavailable"
class_name (value_error message) = "ValueError"
class_name (key_error message) = "KeyError"
class_name (domain status code) = "DomainError"

-- the error that leaves `_process_relay`
abbrev pub reported : Error → Error
reported (value_error message) = unavailable "relay_contract_invalid"
reported e = e

-- the state in which a relay command may run
unfoldable pub expected_state : OutboxKind → CustodyState
unfolding OutboxKind-discrete
expected_state kind = if kind_eq kind reserve_relay then reserve_requested else release_requested

module _ ⦃h : Hashing⦄ where
  unfoldable pub reconciliation_spec : CaseRecord → OutboxRecord → Error → ℕ → MutationSpec
  unfolding mutation_spec kind_value
  reconciliation_spec case outbox e now =
      record (mutation_spec case reconciliation_required "RELAY_RECONCILIATION_REQUIRED"
        "service:workflow"
        ("The disclosed SIMULATED relay result could not be committed safely. "
          <> "Automated custody work stopped for reconciliation; no physical transfer is proven.")
        ("outbox:" <> outbox.id <> ":reconciliation-required")
        (object (
          field "outbox_id" (text outbox.id) (
            field "operation" (text (kind_value outbox.kind))
              (field "failure_class" (text (class_name e)) end))))
        [] now) { task_id = some outbox.task_name }

  -- the handler of an error in `_process_relay`
  unfoldable pub reconcile : OutboxRecord → Error → ℕ → Exec Repo RelayCommit
  unfolding get_case reconciliation_spec expected_state CustodyState-discrete OutboxKind-discrete
  reconcile outbox e now repo = on_ok (get_case repo outbox.case_id) repo (λ current.
      if state_eq current.state (expected_state outbox.kind)
      then and_then (mutate (reconciliation_spec current outbox e now) repo) (λ result committed.
        and_then
          (mark_outbox outbox.id failed none (some now) (some execute)
            (some "relay_execution_failed") committed)
          (λ marked after. (err (reported e), after)))
      else (err (reported e), repo))

  -- the end of the `try` statement of `_process_relay`
  unfoldable pub recover : OutboxRecord → ℕ → Result RelayCommit × Repo → Result RelayCommit × Repo
  unfolding reconcile
  recover outbox now (ok answer, repo) = (ok answer, repo)
  recover outbox now (err e, repo) =
      let handled = reconcile outbox e now repo in if caught e then handled else (err e, repo)

  -- `_process_relay`
  unfoldable pub process_relay :
      OutboxRecord → Result RelayAttestation → String → ℕ → Exec Repo RelayCommit
  unfolding get_case handoff_for_case commit_relay_attestation recover expected_state
      CustodyState-discrete
  process_relay outbox answer correlation now repo =
      on_ok (get_case repo outbox.case_id) repo (λ case.
        on_ok (handoff_for_case repo case) repo (λ handoff.
          if not (state_eq case.state (expected_state outbox.kind))
          then (err (conflict "relay_task_state_invalid"), repo)
          else recover outbox now (
              on_ok answer repo
                (λ attestation. commit_relay_attestation attestation correlation now repo))))
