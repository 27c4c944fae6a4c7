-- ===== src/Tests/Desk.antt =====
-- The pouch at the desk: a reservation and a release.
use found_roll.Prelude.{
  put, subst, sym, ◌≡◌, ◌≢◌, refl, true, false, some, none, List, [], ◌∷◌, get, on_some,
}
use found_roll.Domain.{
  CaseRecord, evidence_ready, analyzing, candidates_ready, claim_evidence_accepted,
  identity_attested, approval_required, reserve_requested, reserved, claimant_present,
  release_requested, HandoffRecord, held, Candidate,
}
use found_roll.StateMachine.{assert_transition}
use found_roll.Repository.{
  Repo, MutationSpec, empty, selected_item_id, accepted_claim_evidence, identity_attestation_ref,
  approval_ref, handoff_id,
}
use found_roll.Repository.Events.{apply_update}
use found_roll.Repository.Outbox.{mark_outbox}
use found_roll.Repository.Commit.{create_case, apply_mutation}
use found_roll.Repository.Chain.Methods.{Reachable, created, next, start}
use found_roll.Service.{Settings}
use found_roll.Service.Publish.{TaskReceipt}
use found_roll.Service.Reservation.{begin_reservation}
use found_roll.Service.Reservation.Gates.{IsReservable, reserved_with_gates}
use found_roll.Service.Release.{begin_release}
use found_roll.Service.Release.Gates.{IsReleasable, release_with_attestations}
use found_roll.Tests.{show, plain_hashing, pouch, command, run}

abbrev pub settings : Settings
settings = record {
  secret_pepper = "pepper";
  relay_custodian_id = "northport-air";
  claim_link_ttl_microseconds = 900;
  cloud_tasks = true;
  demo_mode = true;
}

abbrev pub candidate : Candidate
candidate = record {
  id = "NA-PCH-231";
  tenant_id = "northport-air";
  tenant_name = "Northport Air";
  category = "camera_pouch";
  coarse_description = "Black padded pouch";
  found_at = 10;
  found_zone = "Terminal C";
  availability = "AVAILABLE";
  public_signals = [];
  route_compatible = true;
  time_compatible = true;
  visible_signal_count = 3;
  frozen_score = 9000;
  remote_etag = "etag-1";
  remote_version = 1;
  restricted_attribute_id = none;
  restricted_value_hash = none;
}

-- the pouch with its candidate
abbrev listed : Repo
listed = (create_case pouch (candidate ∷ []) "actor" "Created." "create" 12 none empty).1

abbrev pub command_to_approval : List MutationSpec
command_to_approval =
    command "k1" 1 evidence_ready
    ∷ command "k2" 2 analyzing
    ∷ command "k3" 3 candidates_ready
    ∷ record (command "k4" 4 claim_evidence_accepted) {
      updates = selected_item_id (some "NA-PCH-231") ∷ accepted_claim_evidence true ∷ [];
    }
    ∷ record (command "k5" 5 identity_attested) {
      updates = identity_attestation_ref (some "identity-att-1") ∷ [];
    }
    ∷ record (command "k6" 6 approval_required) { updates = approval_ref (some "approval-1") ∷ [] }
    ∷ []

abbrev pub approved : Repo
approved = run command_to_approval listed

pub listed-Reachable : Reachable listed
listed-Reachable = next start (created pouch (candidate ∷ []) "actor" "Created." "create" 12 none)

abbrev pub case_in : Repo → CaseRecord
case_in repo = on_some (get repo.cases "FR-42") (λ c. c) pouch

approved_found : get approved.cases "FR-42" ≡ some (case_in approved)
unfolding apply_mutation apply_update create_case get put empty plain_hashing show assert_transition
approved_found = refl

approved_state : (case_in approved).state ≡ approval_required
unfolding apply_mutation apply_update create_case get put empty plain_hashing show assert_transition
approved_state = refl

approval≢reserve : approval_required ≢ reserve_requested
approval≢reserve p = cc

abbrev queued : TaskReceipt
queued = record {
  queued = true;
  mode = "cloud_tasks";
  task_name = "fr-reserve-relay-1";
  payload = none;
  idempotent_replay = false;
}

abbrev reserving : Repo
reserving = (begin_reservation settings "FR-42" 7 "etag-1" "r1" 50 (some queued) approved).1

reserving_found : get reserving.cases "FR-42" ≡ some (case_in reserving)
unfolding begin_reservation mark_outbox apply_mutation apply_update create_case get put empty
    plain_hashing show assert_transition
reserving_found = refl

reserving_state : (case_in reserving).state ≡ reserve_requested
unfolding begin_reservation mark_outbox apply_mutation apply_update create_case get put empty
    plain_hashing show assert_transition
reserving_state = refl

reserved_with_gates_example : IsReservable approved (case_in approved) 7 "etag-1"
reserved_with_gates_example =
    reserved_with_gates approved settings "FR-42" 7 "etag-1" "r1" 50 (some queued)
      (case_in approved) (case_in reserving) approved_found
      (subst (λ s. s ≢ reserve_requested) (sym approved_state) approval≢reserve) reserving_found
      reserving_state

abbrev pub handoff : HandoffRecord
handoff = record {
  id = "handoff-1";
  case_id = "FR-42";
  item_id = "NA-PCH-231";
  provider = "Relay Post (SIMULATED)";
  reservation_id = some "res-1";
  simulator_request_id = some "corr";
  status = held;
  reservation_case_version = 8;
  remote_etag = "etag-2";
  remote_version = 2;
  expires_at = some 900;
  claimant_token_hash = some "th-1";
  custodian_token_hash = some "th-2";
  claimant_attested_at = some 40;
  custodian_attested_at = some 41;
  staff_confirmed_at = none;
  tokens_issued = true;
}

-- both credentials of the pouch have been presented
abbrev pub presented : Repo
presented =
    run
      (command "k7" 7 reserve_requested
        ∷ command "k8" 8 reserved
        ∷ record (command "k9" 9 claimant_present) {
          updates = handoff_id (some "handoff-1") ∷ [];
          handoff = some handoff;
        }
        ∷ [])
      approved

presented_found : get presented.cases "FR-42" ≡ some (case_in presented)
unfolding apply_mutation apply_update create_case get put empty plain_hashing show assert_transition
presented_found = refl

presented_state : (case_in presented).state ≡ claimant_present
unfolding apply_mutation apply_update create_case get put empty plain_hashing show assert_transition
presented_state = refl

present≢release : claimant_present ≢ release_requested
present≢release p = cc

abbrev releasing : Repo
releasing = (begin_release settings "FR-42" 10 "staff-1" "rel" 60 (some queued) presented).1

releasing_found : get releasing.cases "FR-42" ≡ some (case_in releasing)
unfolding begin_release mark_outbox apply_mutation apply_update create_case get put empty
    plain_hashing show assert_transition
releasing_found = refl

releasing_state : (case_in releasing).state ≡ release_requested
unfolding begin_release mark_outbox apply_mutation apply_update create_case get put empty
    plain_hashing show assert_transition
releasing_state = refl

release_with_attestations_example : IsReleasable presented (case_in presented) 10 60
release_with_attestations_example =
    release_with_attestations presented settings "FR-42" 10 "staff-1" "rel" 60 (some queued)
      (case_in presented) (case_in releasing) presented_found
      (subst (λ s. s ≢ release_requested) (sym presented_state) present≢release) releasing_found
      releasing_state
