-- ===== src/Service/Reservation.antt =====
-- service/app/custody_service.py: `begin_reservation`.
pub mod Gates
use Prim.Native.String.{slice}
use found_roll.Prelude.{
  ℕ, String, Bool, false, true, ◌&&◌, ◌||◌, Option, none, some, List, [], ◌∷◌, Result, ok, err,
  Exec, conflict, not, eqb, ◌==◌, truthy, raise_if, require, on_ok, on_some, and_then, ◌>>=◌, ◌>>◌,
  ◌<>◌, last, keep, if◌then◌else◌,
}
use found_roll.Prelude.Json.{Json, text, object, field, end, Hashing}
use found_roll.Domain.{
  Candidate, CaseRecord, CaseView, view_case, CustodyState, CustodyState-discrete, state_eq,
  identity_attested, approval_required, reserve_requested, PolicyOutcome-discrete, outcome_eq,
  allow_handoff, HandoffRecord, HandoffStatus, HandoffView, view_handoff, OutboxKind,
  OutboxKind-discrete, kind_eq, reserve_relay, OutboxRecord,
}
use found_roll.Policy.{evaluate_release_policy}
use found_roll.Repository.{Repo, MutationSpec, CaseUpdate, handoff_id, policy_outcome}
use found_roll.Repository.Commit.{get_case, get_candidate, get_handoff}
use found_roll.Repository.Outbox.{list_outboxes}
use found_roll.Service.{Settings}
use found_roll.Service.Commands.{mutation_spec, mutate}
use found_roll.Service.Publish.{TaskReceipt, existing_task_receipt, publish_outbox, make_outbox}

-- the answer of `begin_reservation` and of `begin_release`
pub record Requested : Type 0 where
  pub case : CaseView
  pub handoff : HandoffView
  pub outbox : OutboxRecord
  pub task : TaskReceipt
  pub replayed : Bool

-- the last outbox command of a kind, `rows[-1]`
unfoldable pub last_outbox : Repo → String → OutboxKind → Option OutboxRecord
unfolding list_outboxes keep last OutboxKind-discrete
last_outbox repo case_id kind =
    last (keep (λ row. kind_eq row.kind kind) (list_outboxes repo case_id))

-- the answer to a request whose intent was committed before
unfoldable pub resume_request :
    Settings → CaseRecord → String → OutboxKind → String → Option TaskReceipt → Exec Repo Requested
unfolding last_outbox get_handoff existing_task_receipt
resume_request settings case case_id kind missing answer repo =
    on_ok (require (last_outbox repo case_id kind) (conflict missing)) repo (λ outbox.
      on_ok (get_handoff repo case.handoff_id) repo (λ handoff.
        and_then (existing_task_receipt settings outbox answer repo) (λ task after. (
          ok (record {
            case = view_case case;
            handoff = view_handoff handoff;
            outbox = outbox;
            task = task;
            replayed = true;
          }),
          after,
        ))))

-- the checks of a new reservation: the selected candidate
unfoldable pub check_reservation : Repo → CaseRecord → ℕ → String → Result Candidate
unfolding get_candidate CustodyState-discrete PolicyOutcome-discrete
check_reservation repo case expected_version expected_remote_etag = do
  raise_if (not (state_eq case.state approval_required || state_eq case.state identity_attested))
      (conflict "reservation_not_allowed")
  raise_if (not (eqb case.version expected_version)) (conflict "stale_case_version")
  raise_if (not (outcome_eq (evaluate_release_policy case).outcome allow_handoff))
      (conflict "release_policy_blocked")
  raise_if (not (truthy case.selected_item_id)) (conflict "selected_candidate_missing")
  item_id ← require case.selected_item_id (conflict "selected_candidate_missing")
  candidate ← get_candidate repo item_id
  raise_if (not (candidate.availability == "AVAILABLE")) (conflict "candidate_unavailable")
  raise_if (not (candidate.remote_etag == expected_remote_etag)) (conflict "stale_remote_etag")
  ok candidate

-- the handoff that a reservation asks for
unfoldable pub requested_handoff : String → String → Candidate → OutboxRecord → HandoffRecord
requested_handoff id case_id candidate outbox = record {
  id = id;
  case_id = case_id;
  item_id = candidate.id;
  provider = "Relay Post (SIMULATED)";
  reservation_id = none;
  simulator_request_id = none;
  status = HandoffStatus.pending;
  reservation_case_version = outbox.expected_case_version;
  remote_etag = candidate.remote_etag;
  remote_version = candidate.remote_version;
  expires_at = none;
  claimant_token_hash = none;
  custodian_token_hash = none;
  claimant_attested_at = none;
  custodian_attested_at = none;
  staff_confirmed_at = none;
  tokens_issued = false;
}

module _ ⦃h : Hashing⦄ where
  unfoldable pub new_handoff_id : String → String → String
  new_handoff_id case_id key =
      "handoff-" <> slice (h.uuid5_hex ("found-roll:" <> case_id <> ":" <> key)) 0 20

  unfoldable pub reservation_spec :
      CaseRecord → String → String → String → HandoffRecord → OutboxRecord → ℕ → MutationSpec
  unfolding mutation_spec evaluate_release_policy
  reservation_spec case case_id etag key handoff outbox now =
      record (mutation_spec case reserve_requested "RELAY_RESERVATION_REQUESTED" "service:custody"
        "Committed a disclosed SIMULATED relay reservation intent and deterministic outbox command."
        ("case:" <> case_id <> ":reserve:" <> key)
        (object (
          field "case_id" (text case_id)
            (field "expected_remote_etag" (text etag) (field "handoff_id" (text handoff.id) end))))
        (handoff_id (some handoff.id) ∷ policy_outcome (evaluate_release_policy case).outcome ∷ [])
        now) { task_id = some outbox.task_name; outbox = some outbox; handoff = some handoff }

  -- the rest of a request, once its command is made: the commit, the publication and the answer
  unfoldable pub commit_request :
      MutationSpec
      → String
      → HandoffRecord
      → OutboxRecord
      → Option TaskReceipt
      → Exec Repo Requested
  unfolding publish_outbox get_case
  commit_request spec case_id handoff outbox answer repo =
      and_then (mutate spec repo) (λ result committed.
        and_then (publish_outbox outbox answer committed) (λ task after. (
          get_case after case_id >>= λ case. ok (record {
            case = view_case case;
            handoff = view_handoff handoff;
            outbox = outbox;
            task = task;
            replayed = false;
          }),
          after,
        )))

  -- `begin_reservation`
  unfoldable pub begin_reservation :
      Settings → String → ℕ → String → String → ℕ → Option TaskReceipt → Exec Repo Requested
  unfolding resume_request check_reservation make_outbox requested_handoff new_handoff_id
      reservation_spec commit_request get_case CustodyState-discrete
  begin_reservation settings case_id expected_version etag key now answer repo =
      on_ok (get_case repo case_id) repo (λ case.
        if state_eq case.state reserve_requested && truthy case.handoff_id
        then resume_request settings case case_id reserve_relay "reservation_outbox_missing" answer
            repo
        else on_ok (check_reservation repo case expected_version etag) repo (λ candidate.
          let outbox = make_outbox reserve_relay case now in
          let handoff = requested_handoff (new_handoff_id case_id key) case_id candidate outbox in
          commit_request (reservation_spec case case_id etag key handoff outbox now) case_id handoff
            outbox answer repo))
