-- ===== src/Service/Relay.antt =====
-- service/app/custody_service.py: `commit_relay_attestation` and `commit_simulator_callback`.
-- The correlation identifier is an argument.
pub mod Run
pub mod Reconcile
use found_roll.Prelude.{
  ℕ, String, Bool, false, true, ◌&&◌, ◌||◌, Option, none, some, List, [], ◌∷◌, Result, ok, err,
  Exec, Error, not_found, conflict, forbidden, unavailable, value_error, key_error, not, eqb, ◌==◌,
  is_some, opt_eq, truthy, raise_if, require, on_ok, on_some, and_then, ◌>>=◌, ◌>>◌, ◌<>◌, find,
  if◌then◌else◌,
}
use found_roll.Prelude.Json.{Json, null, text, number, flag, object, field, end, Hashing}
use found_roll.Domain.{
  CaseRecord, CaseView, view_case, CustodyState, CustodyState-discrete, state_eq, reserved,
  reserve_requested, release_requested, reconciliation_required, HandoffRecord, HandoffStatus, held,
  HandoffView, view_handoff, OutboxKind, OutboxKind-discrete, kind_eq, reserve_relay, release_relay,
  OutboxRecord, OutboxStatus, OutboxStatus-discrete, status_eq, complete, failed, execute,
  RelayOperation, reserve, release, RelayAttestation, SimulatorHandoffCallback,
}
use found_roll.Repository.{Repo, MutationSpec}
use found_roll.Repository.Commit.{get_case, get_handoff, list_events}
use found_roll.Repository.Outbox.{get_outbox, mark_outbox}
use found_roll.Service.{Settings}
use found_roll.Service.Commands.{mutation_spec, mutate}
use found_roll.Service.Publish.{kind_value}
use found_roll.Service.Reservation.{last_outbox}

-- the answer of `commit_relay_attestation`
pub record RelayCommit : Type 0 where
  pub case : CaseView
  pub handoff : Option HandoffView
  pub outbox : OutboxRecord
  pub replayed : Bool

-- `_handoff_for_case`
unfoldable pub handoff_for_case : Repo → CaseRecord → Result (Option HandoffRecord)
unfolding get_handoff
handoff_for_case repo case =
    if truthy case.handoff_id
    then (get_handoff repo case.handoff_id >>= λ handoff. ok (some handoff))
    else ok none

-- the answer to an attestation of a completed command
unfoldable pub replay_attestation : Repo → OutboxRecord → RelayAttestation → Result RelayCommit
unfolding get_case
replay_attestation repo outbox attestation = do
  case ← get_case repo outbox.case_id
  raise_if
      (not (outbox.case_id == attestation.case_id)
        || not (opt_eq outbox.result_attestation_id (some attestation.attestation_id))
        || not (opt_eq case.selected_item_id (some attestation.item_id)))
      (conflict "relay_replay_mismatch")
  ok (record { case = view_case case; handoff = none; outbox = outbox; replayed = true })

-- the checks of the operation, and the handoff after it
unfoldable pub check_operation :
    CaseRecord → OutboxRecord → HandoffRecord → RelayAttestation → Result (Unit {0})
unfolding OutboxKind-discrete CustodyState-discrete
check_operation case outbox handoff attestation = elim attestation.operation [
  | reserve ↦
      raise_if
        (not (kind_eq outbox.kind reserve_relay) || not (state_eq case.state reserve_requested))
        (conflict "relay_operation_mismatch")
  | release ↦
      raise_if
        (not (kind_eq outbox.kind release_relay) || not (state_eq case.state release_requested))
        (conflict "relay_operation_mismatch")
      >> raise_if (not (opt_eq handoff.reservation_id (some attestation.reservation_id)))
          (conflict "reservation_mismatch")
]

unfoldable pub handoff_after : HandoffRecord → RelayAttestation → String → HandoffRecord
handoff_after handoff attestation correlation = elim attestation.operation [
  | reserve ↦ record handoff {
    reservation_id = some attestation.reservation_id;
    simulator_request_id = some correlation;
    status = held;
    remote_etag = attestation.remote_etag;
    remote_version = attestation.remote_version;
    expires_at = attestation.expires_at;
  }
  | release ↦ record handoff {
    status = HandoffStatus.released;
    simulator_request_id = some correlation;
    remote_etag = attestation.remote_etag;
    remote_version = attestation.remote_version;
  }
]

-- the checks of an attestation that is new: the handoff that it is about
unfoldable pub check_attestation :
    Repo → CaseRecord → OutboxRecord → RelayAttestation → Result HandoffRecord
unfolding handoff_for_case check_operation
check_attestation repo case outbox attestation = do
  raise_if (not (outbox.case_id == case.id) || not (attestation.case_id == case.id))
      (conflict "relay_scope_mismatch")
  raise_if (not (opt_eq case.selected_item_id (some attestation.item_id)))
      (conflict "relay_item_mismatch")
  raise_if
      (not (eqb case.version attestation.expected_case_version)
        || not (eqb case.version outbox.expected_case_version))
      (conflict "stale_case_version")
  maybe ← handoff_for_case repo case
  handoff ← require maybe (conflict "handoff_mismatch")
  raise_if (not (handoff.item_id == attestation.item_id)) (conflict "handoff_mismatch")
  check_operation case outbox handoff attestation
  ok handoff

abbrev operation_text : RelayOperation → String
operation_text reserve = "RESERVE"
operation_text release = "RELEASE"

abbrev status_text : RelayOperation → String
status_text reserve = "HELD"
status_text release = "RELEASED"

abbrev pub operation_target : RelayOperation → CustodyState
operation_target reserve = reserved
operation_target release = CustodyState.released

abbrev operation_event : RelayOperation → String
operation_event reserve = "RELAY_RESERVED"
operation_event release = "RELAY_RELEASED"

abbrev operation_reason : RelayOperation → String
operation_reason reserve =
    "Relay Post returned a SIMULATED service attestation that the reservation is held. "
    <> "This does not prove physical possession."
operation_reason release =
    "Relay Post returned a SIMULATED service release attestation. "
    <> "This records service execution, not proof of a physical transfer."

-- `attestation.model_dump(mode="json")`
unfoldable attestation_json : RelayAttestation → Json
attestation_json a = object (
    field "schema_version" (text "1") (
      field "attestation_id" (text a.attestation_id) (
        field "operation" (text (operation_text a.operation)) (
          field "status" (text (status_text a.operation)) (
            field "case_id" (text a.case_id) (
              field "item_id" (text a.item_id) (
                field "outbox_id" (text a.outbox_id) (
                  field "reservation_id" (text a.reservation_id) (
                    field "remote_etag" (text a.remote_etag) (
                      field "remote_version" (number a.remote_version) (
                        field "expected_case_version" (number a.expected_case_version) (
                          field "occurred_at" (number a.occurred_at) (
                            field "expires_at" (on_some a.expires_at (λ t. number t) null)
                              (field "simulated" (flag true) end))))))))))))))

-- the mark of a completed command
abbrev mark_complete : OutboxRecord → RelayAttestation → ℕ → Exec Repo OutboxRecord
mark_complete outbox attestation now =
    mark_outbox outbox.id complete (some attestation.attestation_id) (some now) none none

-- the release attestation that a final callback of the simulator stands for
unfoldable pub callback_attestation :
    SimulatorHandoffCallback → HandoffRecord → OutboxRecord → RelayAttestation
callback_attestation callback handoff outbox = record {
  attestation_id = callback.event_id;
  operation = release;
  case_id = callback.case_id;
  item_id = callback.item_id;
  outbox_id = outbox.id;
  reservation_id = callback.reservation_id;
  remote_etag = handoff.remote_etag;
  remote_version = callback.reservation_version;
  expected_case_version = outbox.expected_case_version;
  occurred_at = callback.occurred_at;
  expires_at = none;
}

-- the checks of `commit_simulator_callback`
unfoldable pub check_callback :
    Settings → Repo → SimulatorHandoffCallback → Result (HandoffRecord × OutboxRecord)
unfolding get_case get_handoff last_outbox CustodyState-discrete OutboxStatus-discrete
check_callback settings repo callback = do
  case ← get_case repo callback.case_id
  raise_if (not (callback.custodian_id == settings.relay_custodian_id))
      (conflict "relay_custodian_mismatch")
  raise_if (not (truthy case.handoff_id)) (conflict "relay_callback_state_invalid")
  handoff ← get_handoff repo case.handoff_id
  raise_if
      (not (opt_eq handoff.reservation_id (some callback.reservation_id))
        || not (handoff.item_id == callback.item_id))
      (conflict "relay_callback_scope_mismatch")
  raise_if (not (eqb callback.case_version handoff.reservation_case_version))
      (conflict "relay_callback_version_mismatch")
  outbox ← require (last_outbox repo case.id release_relay) (conflict "release_outbox_missing")
  raise_if (not (state_eq case.state release_requested) && not (status_eq outbox.status complete))
      (conflict "relay_callback_state_invalid")
  ok (handoff, outbox)

module _ ⦃h : Hashing⦄ where
  unfoldable pub attestation_spec :
      CaseRecord → OutboxRecord → HandoffRecord → RelayAttestation → ℕ → MutationSpec
  unfolding mutation_spec attestation_json
  attestation_spec case outbox handoff attestation now =
      record (mutation_spec case (operation_target attestation.operation)
        (operation_event attestation.operation) "simulator:relay-post"
        (operation_reason attestation.operation)
        ("relay-attestation:" <> attestation.attestation_id) (attestation_json attestation) []
        now) {
          simulator_attestation_id = some attestation.attestation_id;
          handoff = some handoff;
          task_id = some outbox.task_name;
        }

  -- the writes of an attestation that is new
  unfoldable pub commit_attestation :
      CaseRecord → OutboxRecord → HandoffRecord → RelayAttestation → ℕ → Exec Repo RelayCommit
  unfolding attestation_spec get_case
  commit_attestation case outbox handoff attestation now repo =
      and_then (mutate (attestation_spec case outbox handoff attestation now) repo)
        (λ result committed.
          and_then (mark_complete outbox attestation now committed) (λ completed after. (
            get_case after case.id >>= λ current. ok (record {
              case = view_case current;
              handoff = some (view_handoff handoff);
              outbox = completed;
              replayed = result.duplicate;
            }),
            after,
          )))

  -- an attestation of a command that is not complete
  unfoldable pub commit_open : OutboxRecord → RelayAttestation → String → ℕ → Exec Repo RelayCommit
  unfolding get_case list_events find check_attestation handoff_after commit_attestation
  commit_open outbox attestation correlation now repo =
      on_ok (get_case repo attestation.case_id) repo (λ case.
        on_ok (list_events repo case.id) repo (λ events.
          on_some
            (find (λ event. opt_eq event.simulator_attestation_id (some attestation.attestation_id))
              events)
            (λ event. and_then (mark_complete outbox attestation now repo) (λ completed after. (
              ok (record {
                case = view_case case;
                handoff = none;
                outbox = completed;
                replayed = true;
              }),
              after,
            )))
            (on_ok (check_attestation repo case outbox attestation) repo (λ handoff.
              commit_attestation case outbox (handoff_after handoff attestation correlation)
                attestation now repo))))

  -- `commit_relay_attestation`
  unfoldable pub commit_relay_attestation : RelayAttestation → String → ℕ → Exec Repo RelayCommit
  unfolding get_outbox replay_attestation commit_open OutboxStatus-discrete
  commit_relay_attestation attestation correlation now repo =
      on_ok (get_outbox repo attestation.outbox_id) repo (λ outbox.
        if status_eq outbox.status complete
        then (replay_attestation repo outbox attestation, repo)
        else commit_open outbox attestation correlation now repo)

  -- `commit_simulator_callback`
  unfoldable pub commit_simulator_callback :
      Settings → SimulatorHandoffCallback → String → ℕ → Exec Repo RelayCommit
  unfolding check_callback callback_attestation commit_relay_attestation
  commit_simulator_callback settings callback correlation now repo =
      on_ok (check_callback settings repo callback) repo (λ checked.
        commit_relay_attestation (callback_attestation callback checked.0 checked.1) correlation now
          repo)
