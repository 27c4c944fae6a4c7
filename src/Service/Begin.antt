-- ===== src/Service/Begin.antt =====
-- service/app/custody_service.py: `begin_analysis`, which asks for one run of the analyst, and the
-- evidence that it needs.
pub mod Gates
use Prim.Native.String.{slice}
use found_roll.Prelude.{
  ℕ, String, Bool, false, true, ◌&&◌, ◌||◌, Option, none, some, List, [], ◌∷◌, Result, ok, err,
  Exec, Error, conflict, value_error, not, eqb, ◌==◌, any, is_some, keep, raise_if, require, on_ok,
  on_some, and_then, ◌>>=◌, ◌>>◌, ◌<>◌, if◌then◌else◌,
}
use found_roll.Prelude.Json.{Json, text, texts, array, object, field, end, Hashing}
use found_roll.Domain.{
  AppliedMutation, CaseRecord, CaseView, view_case, CustodyState, CustodyState-discrete, state_eq,
  received, evidence_ready, analyzing, EventRecord, OutboxKind, analyze_case, OutboxRecord,
}
use found_roll.Evidence.{
  EvidenceOrigin-discrete, EvidenceVisibility-discrete, origin_eq, visibility_eq, original,
  staff_only, model_authorized, EvidenceRecord, EvidenceStore,
}
use found_roll.Evidence.Pairs.{Pair, latest_complete_pair, list_records, sort_by_id}
use found_roll.Repository.{Repo, MutationSpec}
use found_roll.Repository.Commit.{get_case, list_events}
use found_roll.Service.{Settings}
use found_roll.Service.Analysis.{find_last}
use found_roll.Service.Commands.{mutation_spec, mutate}
use found_roll.Service.Publish.{TaskReceipt, existing_task_receipt, publish_outbox, make_outbox}
use found_roll.Service.Reservation.{last_outbox}

abbrev pub demo_case_id : String
demo_case_id = "FR-20260829-0042"

-- the arguments of `begin_analysis`, with `settings.environment` and `analyst.mode`
pub record BeginRequest : Type 0 where
  pub case_id : String
  pub expected_version : ℕ
  pub idempotency_key : String
  pub server_auto : Bool
  pub frozen_evidence_refs : Option (List String)
  pub environment : String
  pub analyst_mode : String

-- the answer: the case, its command and how that was published
pub record Begun : Type 0 where
  pub case : CaseView
  pub outbox : OutboxRecord
  pub task : TaskReceipt

unfoldable pub refs_eq : List String → List String → Bool
refs_eq [] [] = true
refs_eq [] (b ∷ bs) = false
refs_eq (a ∷ rest) [] = false
refs_eq (a ∷ rest) (b ∷ bs) = a == b && refs_eq rest bs

-- `committed_refs == frozen_evidence_refs`
unfoldable pub same_refs : Option (List String) → Option (List String) → Bool
unfolding refs_eq
same_refs none none = true
same_refs none (some b) = false
same_refs (some a) none = false
same_refs (some a) (some b) = refs_eq a b

-- the references to a pair, by identifier
unfoldable pub pair_refs : Pair → List String
unfolding sort_by_id
pair_refs (o, p) = refs (sort_by_id (o ∷ p ∷ []))
  where
    refs : List EvidenceRecord → List String
    refs [] = []
    refs (r ∷ rs) = ("evidence://" <> r.id <> "?sha256=" <> r.sha256) ∷ refs rs

-- the last check of `_analysis_evidence_refs`: the latest pair, if the model may see its preview
unfoldable pub authorized_pair : EvidenceStore → String → String → Result Pair
unfolding latest_complete_pair EvidenceVisibility-discrete
authorized_pair store case_id workflow_epoch = do
  pair ←
      require (latest_complete_pair store case_id workflow_epoch)
        (conflict "model_authorized_preview_required")
  raise_if (not (visibility_eq pair.1.visibility model_authorized))
      (conflict "model_authorized_preview_required")
  ok pair

unfoldable pub staff_records : EvidenceStore → String → String → List EvidenceRecord
unfolding list_records EvidenceVisibility-discrete EvidenceOrigin-discrete
staff_records store case_id workflow_epoch =
    keep
      (λ (r : EvidenceRecord).
        r.workflow_epoch == workflow_epoch
        && visibility_eq r.visibility staff_only
        && origin_eq r.provenance.origin original)
      (list_records store case_id)

unfoldable pub is_demo : BeginRequest → Bool
is_demo r =
    r.case_id == demo_case_id && r.environment == "development" && r.analyst_mode == "fixture"

-- `if not staff_records: raise …`
unfoldable pub require_staff : List EvidenceRecord → Result (Unit {0})
require_staff [] = err (conflict "analysis_evidence_required")
require_staff (r ∷ rs) = ok tt

-- `_analysis_evidence_refs`
unfoldable pub analysis_evidence_refs :
    EvidenceStore → CaseRecord → BeginRequest → Result (List String)
unfolding is_demo staff_records require_staff authorized_pair pair_refs
analysis_evidence_refs store case r =
    if is_demo r
    then ok ("fixture://camera-pouch/intake-photo" ∷ [])
    else require_staff (staff_records store r.case_id case.workflow_epoch)
      >> (authorized_pair store r.case_id case.workflow_epoch >>= λ pair. ok (pair_refs pair))

unfoldable pub base_key : BeginRequest → String
base_key r = "case:" <> r.case_id <> ":analysis:" <> r.idempotency_key

-- `not frozen_evidence_refs`
unfoldable pub no_refs : Option (List String) → Bool
no_refs none = true
no_refs (some []) = true
no_refs (some (x ∷ xs)) = false

-- who may ask for the analysis, and with which evidence
unfoldable pub check_mode : CaseRecord → BeginRequest → Result (Unit {0})
unfolding no_refs
check_mode case r =
    raise_if (case.analysis_auto_start_armed && not r.server_auto)
      (conflict "ordinary_intake_auto_queue_only")
    >> (if r.server_auto
        then raise_if (not case.analysis_auto_start_armed || no_refs r.frozen_evidence_refs)
            (value_error "server-managed analysis requires one frozen authorized evidence pair")
        else raise_if (is_some r.frozen_evidence_refs)
            (value_error "frozen evidence refs are reserved for server-managed analysis"))

unfoldable pub replay_event_suffix : CustodyState → Option String
replay_event_suffix s = elim s [
  | evidence_ready ↦ some "evidence-ready"
  | analyzing ↦ some "analyzing"
  | _ ↦ none
]

-- `exact_inflight_replay`
unfoldable pub exact_inflight_replay : Repo → CaseRecord → BeginRequest → Result Bool
unfolding list_events base_key replay_event_suffix any
exact_inflight_replay repo case r =
    if eqb r.expected_version 1
    then on_some (replay_event_suffix case.state)
        (λ suffix. list_events repo r.case_id >>= λ events.
          ok (any (λ e. e.idempotency_key == (base_key r <> ":" <> suffix)) events))
        (ok false)
    else ok false

unfoldable pub check_current : Repo → CaseRecord → BeginRequest → Result (Unit {0})
unfolding exact_inflight_replay
check_current repo case r = exact_inflight_replay repo case r >>= λ replay.
    raise_if (not (eqb case.version r.expected_version) && not replay)
      (conflict "stale_case_version")

-- `_auto_evidence_ready_refs`
unfoldable pub auto_evidence_ready_refs : Repo → BeginRequest → Result (Option (List String))
unfolding list_events find_last base_key
auto_evidence_ready_refs repo r = list_events repo r.case_id >>= λ events. ok (
    on_some
      (find_last
        (λ e.
          e.idempotency_key == (base_key r <> ":evidence-ready")
          && e.kind == "EVIDENCE_PACKET_READY")
        events)
      (λ e. some e.evidence_refs) none)

-- `_existing_analysis_job`
unfoldable pub existing_analysis_job : Settings → CaseRecord → Option TaskReceipt → Exec Repo Begun
unfolding last_outbox existing_task_receipt
existing_analysis_job settings case answer repo =
    on_ok (require (last_outbox repo case.id analyze_case) (conflict "analysis_outbox_missing"))
      repo
      (λ outbox. and_then (existing_task_receipt settings outbox answer repo) (λ task after.
        (ok (record { case = view_case case; outbox = outbox; task = task }), after)))

-- the server's command is bound to the pair that made the evidence ready
unfoldable pub check_same_pair : Repo → BeginRequest → Result (Unit {0})
unfolding auto_evidence_ready_refs same_refs
check_same_pair repo r =
    if r.server_auto
    then (auto_evidence_ready_refs repo r >>= λ committed.
        raise_if (not (same_refs committed r.frozen_evidence_refs))
          (conflict "ordinary_intake_evidence_pair_mismatch"))
    else ok tt

-- the evidence of a received case: the frozen references, or what the store has
unfoldable pub evidence_for : EvidenceStore → CaseRecord → BeginRequest → Result (List String)
unfolding analysis_evidence_refs
evidence_for store case r =
    if r.server_auto
    then ok (on_some r.frozen_evidence_refs (λ refs. refs) [])
    else analysis_evidence_refs store case r

module _ ⦃h : Hashing⦄ where
  unfoldable pub ready_spec : CaseRecord → BeginRequest → List String → ℕ → MutationSpec
  unfolding mutation_spec base_key any
  ready_spec case r refs now =
      record (mutation_spec case evidence_ready "EVIDENCE_PACKET_READY" "service:intake"
        (if any (λ ref. slice ref 0 10 == "fixture://") refs
          then "Synthetic intake evidence was normalized and restricted facts remained staff-only."
          else "Uploaded staff evidence and its derived model-authorized preview passed the intake gate.")
        (base_key r <> ":evidence-ready")
        (object (
          field "action" (text "evidence-ready")
            (field "case_id" (text r.case_id) (field "evidence_refs" (array (texts refs)) end))))
        [] now) { evidence_refs = refs }

  unfoldable pub analyzing_spec : CaseRecord → BeginRequest → OutboxRecord → ℕ → MutationSpec
  unfolding mutation_spec base_key
  analyzing_spec case r outbox now =
      record (mutation_spec case analyzing "ANALYSIS_REQUESTED" "service:workflow"
        "Queued a bounded proposal-only Case Analyst run with opaque task identifiers."
        (base_key r <> ":analyzing")
        (object (
          field "action" (text "analyzing") (
            field "case_id" (text r.case_id) (
              field "evidence_refs"
                (array (texts (on_some r.frozen_evidence_refs (λ refs. refs) []))) end))))
        [] now) { task_id = some outbox.task_name; outbox = some outbox }

  -- from EVIDENCE_READY: the command of the outbox is committed and published
  unfoldable pub request_analysis :
      CaseRecord → BeginRequest → ℕ → Option TaskReceipt → Exec Repo Begun
  unfolding check_same_pair make_outbox analyzing_spec publish_outbox get_case
  request_analysis case r now answer repo = on_ok (check_same_pair repo r) repo (λ matched.
      let outbox = make_outbox analyze_case case now in
      and_then (mutate (analyzing_spec case r outbox now) repo) (λ result committed.
        and_then (publish_outbox outbox answer committed) (λ task after. (
          get_case after r.case_id >>= λ current.
              ok (record { case = view_case current; outbox = outbox; task = task }),
          after,
        ))))

  unfoldable pub continue_analysis :
      Settings → CaseRecord → BeginRequest → ℕ → Option TaskReceipt → Exec Repo Begun
  unfolding request_analysis existing_analysis_job
  continue_analysis settings case r now answer repo = elim case.state [
    | evidence_ready ↦ request_analysis case r now answer repo
    | analyzing ↦ existing_analysis_job settings case answer repo
    | _ ↦ (err (conflict "analysis_not_allowed"), repo)
  ]

  -- `begin_analysis` of the case that it has read
  unfoldable pub begin_for :
      Settings
      → EvidenceStore
      → BeginRequest
      → ℕ
      → Option TaskReceipt
      → CaseRecord
      → Exec Repo Begun
  unfolding get_case check_mode check_current evidence_for ready_spec continue_analysis
      CustodyState-discrete
  begin_for settings store r now answer case repo =
      on_ok (check_mode case r >> check_current repo case r) repo (λ passed.
        if state_eq case.state received
        then on_ok (evidence_for store case r) repo (λ refs.
          and_then (mutate (ready_spec case r refs now) repo) (λ result committed.
            on_ok (get_case committed r.case_id) committed
              (λ current. continue_analysis settings current r now answer committed)))
        else continue_analysis settings case r now answer repo)

  -- `begin_analysis`
  unfoldable pub begin_analysis :
      Settings → EvidenceStore → BeginRequest → ℕ → Option TaskReceipt → Exec Repo Begun
  unfolding get_case
  begin_analysis settings store r now answer repo =
      on_ok (get_case repo r.case_id) repo (λ case. begin_for settings store r now answer case repo)
