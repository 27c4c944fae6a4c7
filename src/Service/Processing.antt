-- ===== src/Service/Processing.antt =====
-- service/app/custody_service.py: `process_outbox`, the delivery of a task, and
-- `queue_release_task_replay`.
pub mod Stale
use found_roll.Prelude.{
  ℕ, ◌+◌, String, Bool, false, true, Option, none, some, Result, ok, err, Exec, Error, conflict,
  forbidden, unavailable, not, ◌==◌, raise_if, require, on_ok, on_some, and_then, ◌>>=◌, ◌>>◌,
  if◌then◌else◌,
}
use found_roll.Prelude.Json.{Hashing}
use found_roll.Domain.{
  CaseRecord, CaseView, view_case, CustodyState, CustodyState-discrete, state_eq, analyzing, closed,
  OutboxKind, OutboxKind-discrete, kind_eq, analyze_case, reserve_relay, release_relay,
  OutboxRecord, OutboxStatus, OutboxStatus-discrete, status_eq, pending, dispatched, complete,
  failed, publish, execute, ExecutionClaimDisposition, acquired, in_progress, stale_recovery,
  RelayAttestation,
}
use found_roll.Repository.{Repo}
use found_roll.Repository.Commit.{get_case}
use found_roll.Repository.Outbox.{
  ExecutionClaimResult, claim_outbox_execution, get_outbox, mark_outbox, record_outbox_replay,
}
use found_roll.Service.{Settings}
use found_roll.Service.Analysis.{Analysis, Analyst, Processed}
use found_roll.Service.Analysis.Run.{process_analysis, recover_analysis, terminalize_failure}
use found_roll.Service.Publish.{OpaqueTaskPayload}
use found_roll.Service.Relay.{RelayCommit}
use found_roll.Service.Relay.Run.{process_relay}
use found_roll.Service.Reservation.{last_outbox}

-- the answers of `process_outbox`
pub data Delivered : Type 0 where
  replayed : OutboxRecord → CaseView → Delivered
  acknowledged : OutboxRecord → CaseView → Delivered
  analysed : Processed → Delivered
  relayed : RelayCommit → Delivered

-- What the world answers to one delivery: the random claim token, the analyst, the relay and the
-- correlation identifier.
pub record World : Type 0 where
  pub claim_token : String
  pub analysis : Result Analysis
  pub attestation : Result RelayAttestation
  pub correlation : String

-- `ANALYSIS_EXECUTION_LEASE`
abbrev pub execution_lease : ℕ
execution_lease = 5000000

-- the answer to a delivery of a failed command
unfoldable pub failed_delivery : Repo → OutboxRecord → Result Delivered
unfolding get_case
failed_delivery repo outbox = elim outbox.failure_stage [
  | some publish ↦ err (conflict "outbox_publication_not_recovered")
  | some execute ↦
      get_case repo outbox.case_id >>= λ case. ok (acknowledged outbox (view_case case))
  | none ↦ err (conflict "outbox_execution_failed")
]

-- a delivery marks a pending command as dispatched
unfoldable pub mark_delivered : OutboxRecord → Exec Repo (Unit {0})
unfolding OutboxStatus-discrete
mark_delivered outbox repo =
    if status_eq outbox.status pending
    then and_then (mark_outbox outbox.id dispatched none none none none repo)
        (λ marked after. (ok tt, after))
    else (ok tt, repo)

module _ ⦃h : Hashing⦄ where
  -- A claim that was taken over from a run whose lease ran out: what was committed is finished, and
  -- what is ambiguous is stopped.
  unfoldable pub recover_stale : Analyst → OutboxRecord → World → ℕ → Exec Repo Delivered
  unfolding get_case CustodyState-discrete
  recover_stale analyst outbox world now repo = on_ok (get_case repo outbox.case_id) repo (λ case.
      and_then (recover_analysis case outbox world.claim_token now repo) (λ recovered after.
        on_some recovered (λ answer. (ok (analysed answer), after))
          (if state_eq case.state analyzing
            then and_then
                (terminalize_failure case outbox (unavailable "analysis_execution_ambiguous")
                  world.claim_token
                  (some
                    "An earlier analyst execution became ambiguous; custody work stopped for manual review without a second model call.")
                  now after)
                (λ stopped last. (err (unavailable "analysis_execution_ambiguous"), last))
            else and_then
                (process_analysis analyst outbox world.claim_token world.analysis now after)
                (λ answer last. (ok (analysed answer), last)))))

  -- the delivery of an analysis command
  unfoldable pub deliver_analysis : Analyst → OutboxRecord → World → ℕ → Exec Repo Delivered
  unfolding recover_stale
  deliver_analysis analyst outbox world now repo =
      and_then (claim_outbox_execution outbox.id world.claim_token now (now + execution_lease) repo)
        (λ claim after. elim claim.disposition [
          | in_progress ↦ (err (unavailable "analysis_execution_in_progress"), after)
          | stale_recovery ↦ recover_stale analyst outbox world now after
          | acquired ↦
              and_then (process_analysis analyst outbox world.claim_token world.analysis now after)
                (λ answer last. (ok (analysed answer), last))
        ])

  -- the delivery of a command that has not ended
  unfoldable pub deliver_open : Analyst → OutboxRecord → World → ℕ → Exec Repo Delivered
  unfolding mark_delivered deliver_analysis OutboxKind-discrete
  deliver_open analyst outbox world now repo = and_then (mark_delivered outbox repo) (λ done after.
      if kind_eq outbox.kind analyze_case
      then deliver_analysis analyst outbox world now after
      else and_then (process_relay outbox world.attestation world.correlation now after)
          (λ answer last. (ok (relayed answer), last)))

  -- `process_outbox`
  unfoldable pub process_outbox :
      Analyst → OpaqueTaskPayload → Option String → World → ℕ → Exec Repo Delivered
  unfolding get_outbox failed_delivery deliver_open get_case
  process_outbox analyst payload task_name world now repo =
      on_ok (get_outbox repo payload.outbox_id) repo (λ outbox.
        if not (outbox.case_id == payload.case_id)
        then (err (conflict "task_scope_mismatch"), repo)
        else elim outbox.status [
          | complete ↦ and_then (record_outbox_replay outbox.id now task_name repo) (λ marked after.
              (
                get_case after outbox.case_id >>= λ case. ok (replayed marked (view_case case)),
                after,
              ))
          | failed ↦ (failed_delivery repo outbox, repo)
          | _ ↦ deliver_open analyst outbox world now repo
        ])

-- the command that `queue_release_task_replay` gives to the publisher again
unfoldable pub queue_release_task_replay : Settings → Repo → String → Result OutboxRecord
unfolding get_case last_outbox CustodyState-discrete OutboxStatus-discrete
queue_release_task_replay settings repo case_id = do
  raise_if (not settings.demo_mode) (forbidden "demo_replay_scope_invalid")
  case ← get_case repo case_id
  raise_if (not (state_eq case.state closed)) (conflict "release_replay_not_closed")
  outbox ← require (last_outbox repo case_id release_relay) (conflict "release_outbox_missing")
  raise_if (not (status_eq outbox.status complete)) (conflict "release_replay_not_complete")
  ok outbox
