-- ===== src/Tests/Races.antt =====
-- Retries, races and execution claims of the pouch.
use found_roll.Prelude.{
  eq_iff, ◌≡◌, ◌≢◌, refl, true, false, none, some, [], ok, err, conflict, get, put, arith, Result,
}
use found_roll.StateMachine.{assert_transition}
use found_roll.Domain.{
  AppliedMutation, EventRecord, OutboxRecord, analyze_case, pending, complete, analyzing,
  evidence_ready, in_progress, acquired,
}
use found_roll.Repository.{Repo, MutationSpec, empty}
use found_roll.Repository.Commit.{apply_mutation, create_case, claim_token_hash}
use found_roll.Repository.Commit.Retries.{apply_mutation_retry, first_commit_wins}
use found_roll.Repository.Outbox.{
  claim_outbox_execution, mark_outbox_execution, ExecutionClaimResult, check_terminal,
}
use found_roll.Repository.Outbox.Claims.{claim_exclusive, claim_fencing}
use found_roll.Tests.{show, plain_hashing, command, opened}

-- the answer of a call that returned, and another where it raised
abbrev pub answer : {A : Type 0} → A → Result A × Repo → A
answer default (ok a, repo) = a
answer default (err e, repo) = default

abbrev pub no_answer : AppliedMutation
no_answer = record {
  receipt = record {
    case_id = "";
    event_id = "";
    event_sequence = 0;
    state = analyzing;
    version = 0;
  };
  event = record {
    unsigned = record {
      id = "";
      case_id = "";
      sequence = 0;
      kind = "";
      actor = "";
      from_state = analyzing;
      to_state = analyzing;
      reason = "";
      evidence_refs = [];
      tool = none;
      task_id = none;
      model_run_id = none;
      simulator_attestation_id = none;
      idempotency_key = "";
      occurred_at = 0;
      previous_hash = "";
    };
    event_hash = "";
  };
  duplicate = true;
}

abbrev pub ready : MutationSpec
ready = command "k1" 1 evidence_ready

abbrev ready_run : Result AppliedMutation × Repo
ready_run = apply_mutation ready none none opened

ready_commits : ready_run ≡ (ok (answer no_answer ready_run), ready_run.1)
unfolding apply_mutation create_case get put empty plain_hashing show assert_transition
ready_commits = refl

apply_mutation_retry_example :
    let r = answer no_answer ready_run in
    (e : EventRecord) × (apply_mutation ready none none ready_run.1
      ≡ (ok (record { receipt = r.receipt; event = e; duplicate = true }), ready_run.1))
    × (e.id ≡ r.event.id)
apply_mutation_retry_example =
    apply_mutation_retry opened ready none none (answer no_answer ready_run) ready_run.1
      ready_commits

first_commit_wins_example :
    apply_mutation (command "other" 1 evidence_ready) none none ready_run.1
    ≡ (err (conflict "stale_case_version"), ready_run.1)
unfolding apply_mutation create_case get put empty plain_hashing show assert_transition
first_commit_wins_example =
    first_commit_wins opened ready_run.1 ready (command "other" 1 evidence_ready) none none
      (answer no_answer ready_run) ready_commits refl refl refl refl

abbrev job : OutboxRecord
job = record {
  id = "out-1";
  task_name = "fr-analyze-case-1";
  kind = analyze_case;
  case_id = "FR-42";
  expected_case_version = 2;
  status = pending;
  attempt = 0;
  created_at = 20;
  completed_at = none;
  result_attestation_id = none;
  failure_stage = none;
  failure_code = none;
  replay_count = 0;
  last_replayed_at = none;
  last_replay_task_name = none;
}

abbrev queued : Repo
queued = (apply_mutation (record ready { outbox = some job }) none none opened).1

abbrev claim_run : Result ExecutionClaimResult × Repo
claim_run = claim_outbox_execution "out-1" "t1" 30 35 queued

abbrev first_claim : ExecutionClaimResult
first_claim = record {
  disposition = acquired;
  claim = record {
    outbox_id = "out-1";
    case_id = "FR-42";
    token_hash = "t1;.";
    claimed_at = 30;
    lease_expires_at = 35;
    recovery_required = false;
    terminal_status = none;
    completed_at = none;
  };
}

claim_acquired : claim_run ≡ (ok first_claim, claim_run.1)
unfolding claim_outbox_execution apply_mutation create_case get put empty plain_hashing show
    assert_transition
claim_acquired = refl

claim_exclusive_example :
    claim_outbox_execution "out-1" "t2" 34 90 claim_run.1
    ≡ (ok (record { disposition = in_progress; claim = first_claim.claim }), claim_run.1)
claim_exclusive_example =
    claim_exclusive queued claim_run.1 "out-1" "t1" "t2" 30 35 34 90 first_claim claim_acquired
      (λ p. cc) (omega arith)

hashes_differ : claim_token_hash "t0" ≢ claim_token_hash "t1"
unfolding claim_token_hash plain_hashing show
hashes_differ p = ground (arith, eq_iff "t0;." "t1;.")

claim_fencing_example :
    (mark_outbox_execution "out-1" complete "t0" 33 none none claim_run.1
      ≡ (err (conflict "outbox_execution_claim_lost"), claim_run.1))
    × (apply_mutation (command "k2" 2 analyzing) (some "out-1") (some "t0") claim_run.1
        ≡ (err (conflict "outbox_execution_claim_lost"), claim_run.1))
unfolding check_terminal
claim_fencing_example =
    claim_fencing queued claim_run.1 "out-1" "t1" "t0" 30 35 first_claim complete 33 none none
      (command "k2" 2 analyzing) claim_acquired (λ p. cc) hashes_differ refl
