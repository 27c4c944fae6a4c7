-- ===== src/Repository/Outbox.antt =====
-- service/app/repository.py: the outbox commands of `InMemoryRepository` and their execution claims.
pub mod Claims
use found_roll.Prelude.{
  ℕ, ◌+◌, String, Bool, false, true, ◌&&◌, ◌||◌, Option, none, some, List, Result, ok, err, Exec,
  value_error, conflict, not_found, not, ltb, ◌==◌, is_some, opt_eq, or_else, truthy, raise_if,
  require, on_ok, on_some, ◌>>=◌, ◌>>◌, get, put, values, keep, sort_by, passes, if◌then◌else◌,
}
use found_roll.Prelude.Json.{Hashing}
use found_roll.Domain.{
  OutboxRecord, OutboxExecutionClaim, OutboxStatus, OutboxStatus-discrete, pending, dispatched,
  complete, failed, status_eq, OutboxFailureStage, execute, publish, OutboxKind-discrete,
  analyze_case, kind_eq, ExecutionClaimDisposition, acquired, in_progress, stale_recovery,
}
use found_roll.Repository.{Repo}
use found_roll.Repository.Commit.{claim_token_hash}

-- `get_outbox`
unfoldable pub get_outbox : Repo → String → Result OutboxRecord
get_outbox repo outbox_id = require (get repo.outboxes outbox_id) (not_found "Outbox command")

-- `list_outboxes` of one case, in the order of creation
unfoldable pub list_outboxes : Repo → String → List OutboxRecord
list_outboxes repo case_id =
    sort_by (λ row. row.created_at) (keep (λ row. row.case_id == case_id) (values repo.outboxes))

-- a failure stage, or none, is the given one
abbrev pub stage_is : Option OutboxFailureStage → OutboxFailureStage → Bool
stage_is (some publish) publish = true
stage_is (some execute) execute = true
stage_is _ _ = false

abbrev same_stage : Option OutboxFailureStage → Option OutboxFailureStage → Bool
same_stage none none = true
same_stage s (some t) = stage_is s t
same_stage _ _ = false

-- `status in {COMPLETE, FAILED}`
abbrev pub is_terminal : OutboxStatus → Bool
is_terminal complete = true
is_terminal failed = true
is_terminal _ = false

-- the four markers that `mark_outbox` leaves as they are
unfoldable pub keeps_marker :
    OutboxRecord → OutboxStatus → Option OutboxFailureStage → Option String → Bool
unfolding OutboxStatus-discrete
keeps_marker current status failure_stage failure_code =
    status_eq current.status complete
    || (status_eq current.status failed && stage_is current.failure_stage execute)
    || (status_eq current.status dispatched
        && status_eq status failed
        && stage_is failure_stage publish)
    || (status_eq current.status status
        && same_stage current.failure_stage failure_stage
        && opt_eq current.failure_code failure_code)

unfoldable pub marked :
    OutboxRecord
    → OutboxStatus
    → Option String
    → Option ℕ
    → Option OutboxFailureStage
    → Option String
    → OutboxRecord
unfolding OutboxStatus-discrete
marked current status result_attestation_id completed_at failure_stage failure_code =
    record current {
      status = status;
      attempt = current.attempt + (if status_eq status dispatched then 1 else 0);
      result_attestation_id =
          if truthy result_attestation_id
          then result_attestation_id
          else current.result_attestation_id;
      completed_at = or_else completed_at current.completed_at;
      failure_stage = if status_eq status failed then failure_stage else none;
      failure_code = if status_eq status failed then failure_code else none;
    }

-- `mark_outbox`
unfoldable pub mark_outbox :
    String
    → OutboxStatus
    → Option String
    → Option ℕ
    → Option OutboxFailureStage
    → Option String
    → Exec Repo OutboxRecord
unfolding keeps_marker marked
mark_outbox outbox_id status result_attestation_id completed_at failure_stage failure_code repo =
    on_some (get repo.outboxes outbox_id)
      (λ current.
        if keeps_marker current status failure_stage failure_code
        then (ok current, repo)
        else (let updated =
              marked current status result_attestation_id completed_at failure_stage failure_code in
            (ok updated, record repo { outboxes = put repo.outboxes outbox_id updated })))
      (err (not_found "Outbox command"), repo)

-- `record_outbox_replay`
unfoldable pub record_outbox_replay : String → ℕ → Option String → Exec Repo OutboxRecord
unfolding OutboxStatus-discrete
record_outbox_replay outbox_id occurred_at delivery_task_name repo =
    on_some (get repo.outboxes outbox_id)
      (λ current.
        if not (status_eq current.status complete)
        then (err (conflict "outbox_replay_not_complete"), repo)
        else (let updated = record current {
          replay_count = current.replay_count + 1;
          last_replayed_at = some occurred_at;
          last_replay_task_name = delivery_task_name;
        } in
            (ok updated, record repo { outboxes = put repo.outboxes outbox_id updated })))
      (err (not_found "Outbox command"), repo)

pub record ExecutionClaimResult : Type 0 where
  pub disposition : ExecutionClaimDisposition
  pub claim : OutboxExecutionClaim

-- whether a claim has not ended and its lease has not run out
abbrev holds : Option OutboxExecutionClaim → ℕ → Bool
holds none claimed_at = false
holds (some c) claimed_at = ltb claimed_at c.lease_expires_at

abbrev ended : Option OutboxExecutionClaim → Bool
ended none = false
ended (some c) = is_some c.terminal_status

module _ ⦃h : Hashing⦄ where
  -- the checks of `claim_outbox_execution`
  unfoldable pub check_claimable : Repo → String → Result OutboxRecord
  unfolding OutboxKind-discrete
  check_claimable repo outbox_id = do
    outbox ← require (get repo.outboxes outbox_id) (not_found "Outbox command")
    raise_if (not (kind_eq outbox.kind analyze_case))
        (conflict "outbox_execution_claim_not_allowed")
    raise_if (is_terminal outbox.status) (conflict "outbox_execution_terminal")
    raise_if (ended (get repo.execution_claims outbox_id))
        (conflict "outbox_execution_claim_terminal")
    ok outbox

  -- The new claim. `OutboxExecutionClaim` is refused if its lease does not end after it begins.
  unfoldable pub take_claim :
      OutboxRecord
      → Option OutboxExecutionClaim
      → String
      → String
      → ℕ
      → ℕ
      → Exec Repo ExecutionClaimResult
  unfolding claim_token_hash
  take_claim outbox existing outbox_id claim_token claimed_at lease_expires_at repo =
      if not (ltb claimed_at lease_expires_at)
      then (err (value_error "execution claim lease must expire after it is acquired"), repo)
      else (let claim : OutboxExecutionClaim = record {
        outbox_id = outbox_id;
        case_id = outbox.case_id;
        token_hash = claim_token_hash claim_token;
        claimed_at = claimed_at;
        lease_expires_at = lease_expires_at;
        recovery_required = is_some existing;
        terminal_status = none;
        completed_at = none;
      } in
          (
            ok (record {
              disposition = if is_some existing then stale_recovery else acquired;
              claim = claim;
            }),
            record repo { execution_claims = put repo.execution_claims outbox_id claim },
          ))

  -- `claim_outbox_execution`
  unfoldable pub claim_outbox_execution : String → String → ℕ → ℕ → Exec Repo ExecutionClaimResult
  unfolding check_claimable take_claim
  claim_outbox_execution outbox_id claim_token claimed_at lease_expires_at repo =
      on_ok (check_claimable repo outbox_id) repo (λ outbox.
        let existing = get repo.execution_claims outbox_id in
        let fresh =
          take_claim outbox existing outbox_id claim_token claimed_at lease_expires_at repo in
        on_some existing
          (λ claim.
            if ltb claimed_at claim.lease_expires_at
            then (ok (record { disposition = in_progress; claim = claim }), repo)
            else fresh)
          fresh)

  -- the checks of `mark_outbox_execution` on its arguments
  unfoldable pub check_terminal :
      OutboxStatus → Option OutboxFailureStage → Option String → Result (Unit {0})
  unfolding OutboxStatus-discrete
  check_terminal status failure_stage failure_code = do
    raise_if (not (is_terminal status))
        (value_error "execution terminal status must be COMPLETE or FAILED")
    raise_if (status_eq status failed && not (stage_is failure_stage execute))
        (value_error "failed execution claims require the EXECUTE failure stage")
    raise_if (status_eq status complete && (is_some failure_stage || is_some failure_code))
        (value_error "completed execution claims cannot include failure metadata")

  -- the outbox and the claim of the caller, if it still owns the claim
  unfoldable pub owned_claim : Repo → String → String → Result (OutboxRecord × OutboxExecutionClaim)
  unfolding claim_token_hash
  owned_claim repo outbox_id claim_token = do
    current ← require (get repo.outboxes outbox_id) (not_found "Outbox command")
    claim ← require (get repo.execution_claims outbox_id) (conflict "outbox_execution_claim_lost")
    raise_if (not (claim.token_hash == claim_token_hash claim_token))
        (conflict "outbox_execution_claim_lost")
    ok (current, claim)

  -- the writes of `mark_outbox_execution`: the outbox and its claim end together
  unfoldable pub terminalize :
      OutboxRecord
      → OutboxExecutionClaim
      → String
      → OutboxStatus
      → ℕ
      → Option OutboxFailureStage
      → Option String
      → Exec Repo OutboxRecord
  unfolding OutboxStatus-discrete
  terminalize current claim outbox_id status completed_at failure_stage failure_code repo =
      let updated = record current {
        status = status;
        completed_at = some completed_at;
        failure_stage = if status_eq status failed then failure_stage else none;
        failure_code = if status_eq status failed then failure_code else none;
      } in
      let terminal_claim = record claim {
        terminal_status = some status;
        completed_at = some completed_at;
      } in
      (
        ok updated,
        record repo {
          outboxes = put repo.outboxes outbox_id updated;
          execution_claims = put repo.execution_claims outbox_id terminal_claim;
        },
      )

  -- `mark_outbox_execution`
  unfoldable pub mark_outbox_execution :
      String
      → OutboxStatus
      → String
      → ℕ
      → Option OutboxFailureStage
      → Option String
      → Exec Repo OutboxRecord
  unfolding check_terminal owned_claim terminalize OutboxStatus-discrete
  mark_outbox_execution outbox_id status claim_token completed_at failure_stage failure_code repo =
      on_ok (check_terminal status failure_stage failure_code) repo (λ _.
        on_ok (owned_claim repo outbox_id claim_token) repo (λ owned.
          on_some owned.1.terminal_status
            (λ terminal.
              if status_eq terminal status && status_eq owned.0.status status
              then (ok owned.0, repo)
              else (err (conflict "outbox_execution_claim_terminal"), repo))
            (if is_terminal owned.0.status
              then (err (conflict "outbox_execution_terminal_mismatch"), repo)
              else terminalize owned.0 owned.1 outbox_id status completed_at failure_stage
                  failure_code repo)))
