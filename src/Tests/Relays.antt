-- ===== src/Tests/Relays.antt =====
-- The relay of the pouch, and the closing of its passport.
use found_roll.Prelude.{
  put, ◌+◌, ◌≡◌, refl, true, some, none, List, [], ◌∷◌, ok, err, unavailable, get,
}
use found_roll.Domain.{
  OutboxKind-discrete, CaseRecord, CustodyState, evidence_ready, reserve_requested, reserved,
  claimant_present, release_requested, closed, HandoffRecord, HandoffStatus, OutboxRecord,
  OutboxStatus, reserve_relay,
}
use found_roll.StateMachine.{assert_transition}
use found_roll.Repository.{Repo, MutationSpec, empty, handoff_id}
use found_roll.Repository.Events.{apply_update}
use found_roll.Repository.Commit.{create_case, apply_mutation}
use found_roll.Repository.Commit.Success.{
  apply_mutation-Commits, Commits, IsAdmissible, plain-IsAdmissible,
}
use found_roll.Repository.Chain.Methods.{Reachable, Reachable-Consistent}
use found_roll.Service.Relay.{handoff_for_case}
use found_roll.Service.Relay.Run.{process_relay, expected_state}
use found_roll.Service.Relay.Reconcile.{IsReconciling, process_relay-IsReconciling}
use found_roll.Service.Manifest.Closing.{close_case_closes, IsManifestOf}
use found_roll.Service.Manifest.{close_case, check_close, verify_event_chain, EventManifest}
use found_roll.Tests.{show, plain_hashing, command, opened, opened-Reachable, run, run-Reachable}
use found_roll.Tests.Desk.{
  command_to_approval, approved, listed-Reachable, case_in, handoff, presented,
}

abbrev pub relay_command : OutboxRecord
relay_command = record {
  id = "out-1";
  task_name = "fr-reserve-relay-1";
  kind = reserve_relay;
  case_id = "FR-42";
  expected_case_version = 8;
  status = OutboxStatus.pending;
  attempt = 0;
  created_at = 50;
  completed_at = none;
  result_attestation_id = none;
  failure_stage = none;
  failure_code = none;
  replay_count = 0;
  last_replayed_at = none;
  last_replay_task_name = none;
}

abbrev requested : Repo
requested =
    run (record (command "k7" 7 reserve_requested) { outbox = some relay_command } ∷ []) approved

requested_found : get requested.cases "FR-42" ≡ some (case_in requested)
unfolding apply_mutation apply_update create_case get put empty plain_hashing show assert_transition
requested_found = refl

requested_state : (case_in requested).state ≡ expected_state reserve_relay
unfolding expected_state OutboxKind-discrete apply_mutation apply_update create_case get put empty
    plain_hashing show assert_transition
requested_state = refl

requested_unknown : get requested.idempotency "outbox:out-1:reconciliation-required" ≡ none
unfolding apply_mutation apply_update create_case get put empty plain_hashing show assert_transition
requested_unknown = refl

requested_stored : get requested.outboxes "out-1" ≡ some relay_command
unfolding apply_mutation apply_update create_case get put empty plain_hashing show assert_transition
requested_stored = refl

requested_without_handoff : handoff_for_case requested (case_in requested) ≡ ok none
unfolding handoff_for_case apply_mutation apply_update create_case get put empty plain_hashing show
    assert_transition
requested_without_handoff = refl

approved-Reachable : Reachable approved
approved-Reachable = run-Reachable command_to_approval listed-Reachable

requested-Reachable : Reachable requested
requested-Reachable =
    run-Reachable (record (command "k7" 7 reserve_requested) { outbox = some relay_command } ∷ [])
      approved-Reachable

process_relay-IsReconciling_example :
    ((process_relay relay_command (err (unavailable "relay_unreachable")) "corr" 70 requested).0
      ≡ err (unavailable "relay_unreachable"))
    × IsReconciling relay_command 70
        (process_relay relay_command (err (unavailable "relay_unreachable")) "corr" 70 requested).1
process_relay-IsReconciling_example =
    process_relay-IsReconciling requested relay_command relay_command (case_in requested) none
      (err (unavailable "relay_unreachable")) "corr" 70 (unavailable "relay_unreachable")
      (Reachable-Consistent requested-Reachable) requested_found requested_state
      requested_without_handoff refl refl requested_unknown requested_stored refl

abbrev full_handoff : HandoffRecord
full_handoff = record handoff { status = HandoffStatus.released; staff_confirmed_at = some 60 }

abbrev last_commands : List MutationSpec
last_commands =
    command "k10" 10 release_requested
    ∷ record (command "k11" 11 CustodyState.released) { handoff = some full_handoff }
    ∷ []

abbrev released : Repo
released = run last_commands presented

released_found : get released.cases "FR-42" ≡ some (case_in released)
unfolding apply_mutation apply_update create_case get put empty plain_hashing show assert_transition
released_found = refl

released_checks :
    check_close released (case_in released) (case_in released).version ≡ ok full_handoff
unfolding check_close apply_mutation apply_update create_case get put empty plain_hashing show
    assert_transition
released_checks = refl

released_unknown : get released.idempotency "case:FR-42:close:c1" ≡ none
unfolding apply_mutation apply_update create_case get put empty plain_hashing show assert_transition
released_unknown = refl

released-Reachable : Reachable released
released-Reachable = run-Reachable last_commands (
    run-Reachable
      (command "k7" 7 reserve_requested
        ∷ command "k8" 8 reserved
        ∷ record (command "k9" 9 claimant_present) {
          updates = handoff_id (some "handoff-1") ∷ [];
          handoff = some handoff;
        }
        ∷ [])
      approved-Reachable)

close_case_closes_example :
    (after : Repo) × (d : CaseRecord) × (m : EventManifest) × (close_case "FR-42"
        (case_in released).version
        "c1"
        80
        released
      ≡ (ok m, after))
    × (get after.cases "FR-42" ≡ some d)
    × (d.state ≡ closed)
    × (d.last_event_sequence ≡ (case_in released).last_event_sequence + 1)
    × IsManifestOf "FR-42" d m
    × (verify_event_chain after "FR-42" ≡ ok true)
close_case_closes_example =
    close_case_closes released "FR-42" (case_in released) full_handoff "c1" 80
      (Reachable-Consistent released-Reachable) released_found released_checks released_unknown

opened_found : get opened.cases "FR-42" ≡ some (case_in opened)
unfolding apply_mutation apply_update create_case get put empty plain_hashing show assert_transition
opened_found = refl

first-IsAdmissible : IsAdmissible opened (command "k1" 1 evidence_ready) (case_in opened)
unfolding apply_mutation apply_update create_case get put empty plain_hashing show assert_transition
first-IsAdmissible =
    plain-IsAdmissible opened (command "k1" 1 evidence_ready) (case_in opened) refl opened_found
      refl refl refl refl refl refl

apply_mutation-Commits_example : Commits opened (command "k1" 1 evidence_ready) (case_in opened)
apply_mutation-Commits_example =
    apply_mutation-Commits opened (command "k1" 1 evidence_ready) (case_in opened)
      (Reachable-Consistent opened-Reachable) first-IsAdmissible
