-- ===== src/Service/Release.antt =====
-- service/app/custody_service.py: `begin_release`.
pub mod Gates
use found_roll.Prelude.{
  ℕ, String, Bool, false, true, ◌&&◌, ◌||◌, Option, none, some, List, [], ◌∷◌, Result, ok, err,
  Exec, conflict, not, eqb, leb, is_some, truthy, raise_if, on_ok, on_some, ◌>>=◌, ◌>>◌, ◌<>◌,
  if◌then◌else◌,
}
use found_roll.Prelude.Json.{Json, text, object, field, end, Hashing}
use found_roll.Domain.{
  CaseRecord, CustodyState, CustodyState-discrete, state_eq, claimant_present, release_requested,
  HandoffRecord, HandoffStatus, HandoffStatus-discrete, handoff_eq, held, release_relay,
  OutboxRecord,
}
use found_roll.Repository.{Repo, MutationSpec}
use found_roll.Repository.Commit.{get_case, get_handoff}
use found_roll.Service.{Settings}
use found_roll.Service.Commands.{mutation_spec}
use found_roll.Service.Publish.{TaskReceipt, make_outbox}
use found_roll.Service.Reservation.{Requested, resume_request, commit_request}

-- the checks of a new release: the handoff
unfoldable pub check_release : Repo → CaseRecord → ℕ → ℕ → Result HandoffRecord
unfolding get_handoff CustodyState-discrete HandoffStatus-discrete
check_release repo case expected_version now = do
  raise_if (not (state_eq case.state claimant_present) || not (truthy case.handoff_id))
      (conflict "release_not_allowed")
  raise_if (not (eqb case.version expected_version)) (conflict "stale_case_version")
  handoff ← get_handoff repo case.handoff_id
  raise_if (not (handoff_eq handoff.status held)) (conflict "handoff_not_held")
  raise_if
      (not (is_some handoff.claimant_attested_at) || not (is_some handoff.custodian_attested_at))
      (conflict "token_attestations_missing")
  raise_if (on_some handoff.expires_at (λ end. leb end now) false) (conflict "handoff_expired")
  ok handoff

module _ ⦃h : Hashing⦄ where
  unfoldable pub release_spec :
      CaseRecord → String → HandoffRecord → OutboxRecord → String → String → ℕ → MutationSpec
  unfolding mutation_spec
  release_spec case case_id handoff outbox staff key now =
      record (mutation_spec case release_requested "RELAY_RELEASE_REQUESTED" staff
        ("Staff confirmed the scoped release request after both one-time token attestations. "
          <> "This remains a SIMULATED service workflow.")
        ("case:" <> case_id <> ":release:" <> key)
        (object (
          field "case_id" (text case_id)
            (field "handoff_id" (text handoff.id) (field "staff" (text staff) end))))
        [] now) { task_id = some outbox.task_name; outbox = some outbox; handoff = some handoff }

  -- `begin_release`
  unfoldable pub begin_release :
      Settings → String → ℕ → String → String → ℕ → Option TaskReceipt → Exec Repo Requested
  unfolding check_release release_spec resume_request commit_request make_outbox get_case
      CustodyState-discrete
  begin_release settings case_id expected_version staff key now answer repo =
      on_ok (get_case repo case_id) repo (λ case.
        if state_eq case.state release_requested && truthy case.handoff_id
        then resume_request settings case case_id release_relay "release_outbox_missing" answer repo
        else on_ok (check_release repo case expected_version now) repo (λ handoff.
          let outbox = make_outbox release_relay case now in
          let confirmed = record handoff { staff_confirmed_at = some now } in
          commit_request (release_spec case case_id confirmed outbox staff key now) case_id
            confirmed outbox answer repo))
