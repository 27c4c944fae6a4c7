-- ===== src/Tests/Runs.antt =====
-- An analysis run of the pouch whose lease ran out.
use found_roll.Prelude.{
  ◌+◌, ◌≡◌, refl, false, some, none, [], ◌∷◌, ok, err, Result, conflict, unavailable, get, put,
}
use found_roll.Domain.{
  OutboxKind-discrete, OutboxRecord, analyze_case, evidence_ready, analyzing, stale_recovery,
  ExecutionClaimDisposition,
}
use found_roll.StateMachine.{assert_transition}
use found_roll.Repository.{Repo, empty}
use found_roll.Repository.Events.{apply_update}
use found_roll.Repository.Commit.{create_case, apply_mutation}
use found_roll.Repository.Outbox.{ExecutionClaimResult, claim_outbox_execution}
use found_roll.Service.Analysis.{Analyst}
use found_roll.Service.Processing.{World, deliver_analysis, execution_lease}
use found_roll.Service.Processing.Stale.{deliver_stale_same}
use found_roll.Tests.{show, plain_hashing, command, opened, run}
use found_roll.Tests.Desk.{case_in}
use found_roll.Tests.Relays.{relay_command}

abbrev analysis_command : OutboxRecord
analysis_command = record relay_command { id = "out-a"; kind = analyze_case }

-- the command was claimed at 30, with a lease until 40
abbrev running : Repo
running =
    (claim_outbox_execution "out-a" "w1" 30 40 (
      run
        (command "k1" 1 evidence_ready
          ∷ record (command "k2" 2 analyzing) {
            outbox = some (record analysis_command { expected_case_version = 3 });
          }
          ∷ [])
        opened)).1

abbrev world : World
world = record {
  claim_token = "w2";
  analysis = err (unavailable "model_down");
  attestation = err (unavailable "relay_down");
  correlation = "corr";
}

abbrev analyst : Analyst
analyst = record {
  name = "model";
  mode = "fixture";
  prompt_version = "p1";
  output_schema_version = "s1";
}

abbrev takeover : Result ExecutionClaimResult × Repo
takeover = claim_outbox_execution "out-a" "w2" 100 (100 + execution_lease) running

abbrev no_claim : ExecutionClaimResult
no_claim = record {
  disposition = ExecutionClaimDisposition.acquired;
  claim = record {
    outbox_id = "";
    case_id = "";
    token_hash = "";
    claimed_at = 0;
    lease_expires_at = 1;
    recovery_required = false;
    terminal_status = none;
    completed_at = none;
  };
}

abbrev claim_of : Result ExecutionClaimResult → ExecutionClaimResult
claim_of (ok r) = r
claim_of (err e) = no_claim

takeover_run : takeover ≡ (ok (claim_of takeover.0), takeover.1)
unfolding claim_outbox_execution apply_mutation apply_update create_case get put empty plain_hashing
    show assert_transition OutboxKind-discrete
takeover_run = refl

takeover_stale : (claim_of takeover.0).disposition ≡ stale_recovery
unfolding claim_outbox_execution apply_mutation apply_update create_case get put empty plain_hashing
    show assert_transition OutboxKind-discrete
takeover_stale = refl

takeover_found : get takeover.1.cases "FR-42" ≡ some (case_in takeover.1)
unfolding claim_outbox_execution apply_mutation apply_update create_case get put empty plain_hashing
    show assert_transition OutboxKind-discrete
takeover_found = refl

takeover_state : (case_in takeover.1).state ≡ analyzing
unfolding claim_outbox_execution apply_mutation apply_update create_case get put empty plain_hashing
    show assert_transition OutboxKind-discrete
takeover_state = refl

deliver_stale_same_example :
    deliver_analysis analyst analysis_command world 100 running
    ≡ deliver_analysis analyst analysis_command
        (record world { analysis = err (conflict "agent_scope_violation") })
        100
        running
deliver_stale_same_example =
    deliver_stale_same running takeover.1 analyst analysis_command world
      (err (conflict "agent_scope_violation")) 100 (claim_of takeover.0) (case_in takeover.1)
      takeover_run takeover_stale takeover_found takeover_state
