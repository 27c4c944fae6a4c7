-- ===== src/Service/Manifest.antt =====
-- service/app/custody_service.py: `verify_event_chain`, `build_manifest` and `close_case`.
pub mod Verified
pub mod Closing
use Prim.Native.String.{slice, compare, ◌++◌ as str_append}
use Prim.Native.Nat.{Ordering}
use found_roll.Prelude.{
  ℕ, ◌+◌, String, Bool, true, ◌||◌, Option, none, some, List, [], ◌∷◌, ◌++◌, Result, ok, err, Exec,
  key_error, conflict, not, eqb, ◌==◌, is_some, truthy, raise_if, require, on_ok, and_then, ◌>>=◌,
  ◌>>◌, length, last, if◌then◌else◌,
}
use found_roll.Prelude.Json.{
  Json, Items, nil, cons, text, number, array, object, field, end, texts, Hashing,
}
use found_roll.Domain.{
  CaseRecord, CustodyState, CustodyState-discrete, closed, state_eq, EventRecord, HandoffRecord,
  HandoffStatus, HandoffStatus-discrete, handoff_eq,
}
use found_roll.Repository.{Repo, MutationSpec}
use found_roll.Repository.Events.{unsigned_json}
use found_roll.Repository.Commit.{get_case, list_events, zero_hash, get_handoff}
use found_roll.Service.Commands.{mutation_spec, mutate}

-- `EventManifest`, with its constant fields left out
pub record EventManifest : Type 0 where
  pub manifest_id : String
  pub case_id : String
  pub final_version : ℕ
  pub event_count : ℕ
  pub first_event_hash : String
  pub final_event_hash : String
  pub event_ids : List String
  pub evidence_digests : List String

-- `sorted({…})`: in order, and each text once
unfoldable pub insert_text : String → List String → List String
insert_text x [] = x ∷ []
insert_text x (y ∷ ys) =
    let rest = insert_text x ys in
    elim (compare x y) [
      | Ordering.lt ↦ x ∷ (y ∷ ys)
      | Ordering.eq ↦ y ∷ ys
      | Ordering.gt ↦ y ∷ rest
    ]

unfoldable pub sorted_set : List String → List String
unfolding insert_text
sorted_set [] = []
sorted_set (x ∷ xs) = insert_text x (sorted_set xs)

unfoldable pub all_evidence_refs : List EventRecord → List String
all_evidence_refs [] = []
all_evidence_refs (e ∷ es) = e.evidence_refs ++ all_evidence_refs es

abbrev pub event_hashes : List EventRecord → List String
event_hashes [] = []
event_hashes (e ∷ es) = e.event_hash ∷ event_hashes es

abbrev pub ids : List EventRecord → List String
ids [] = []
ids (e ∷ es) = e.id ∷ ids es

-- `events[0]`
abbrev pub first : List EventRecord → Option EventRecord
first [] = none
first (e ∷ es) = some e

module _ ⦃h : Hashing⦄ where
  -- the loop of `verify_event_chain`, which returns the last hash
  unfoldable pub verify_events : ℕ → String → List EventRecord → Result String
  verify_events expected previous [] = ok previous
  verify_events expected previous (e ∷ es) =
      raise_if (not (eqb e.sequence expected) || not (e.previous_hash == previous))
        (conflict "event_chain_invalid")
      >> (raise_if (not (h.sha256_json (unsigned_json e.unsigned) == e.event_hash))
            (conflict "event_chain_invalid")
          >> verify_events (expected + 1) e.event_hash es)

  -- `verify_event_chain`
  unfoldable pub verify_event_chain : Repo → String → Result Bool
  unfolding list_events verify_events get_case
  verify_event_chain repo case_id = do
    events ← list_events repo case_id
    previous ← verify_events 1 zero_hash events
    case ← get_case repo case_id
    raise_if
        (not (eqb case.last_event_sequence (length events))
          || not (case.last_event_hash == previous))
        (conflict "event_chain_invalid")
    ok true

  unfoldable pub evidence_digests : List String → List String
  evidence_digests [] = []
  evidence_digests (ref ∷ refs) =
      h.sha256_json (object (field "evidence_ref" (text ref) end)) ∷ evidence_digests refs

  unfoldable pub manifest_body : CaseRecord → List EventRecord → List String → Json
  manifest_body case events digests = object (
      field "case_id" (text case.id) (
        field "final_version" (number case.version) (
          field "event_hashes" (array (texts (event_hashes events)))
            (field "evidence_digests" (array (texts digests)) end))))

  unfoldable pub make_manifest :
      CaseRecord → List EventRecord → EventRecord → EventRecord → EventManifest
  unfolding sorted_set all_evidence_refs evidence_digests manifest_body
  make_manifest case events head tail =
      let digests = evidence_digests (sorted_set (all_evidence_refs events)) in
      record {
        manifest_id =
            str_append "manifest-" (slice (h.sha256_json (manifest_body case events digests)) 0 24);
        case_id = case.id;
        final_version = case.version;
        event_count = length events;
        first_event_hash = head.event_hash;
        final_event_hash = tail.event_hash;
        event_ids = ids events;
        evidence_digests = digests;
      }

  -- `build_manifest`; the ends of an empty list of events raise
  unfoldable pub build_manifest : Repo → String → Result EventManifest
  unfolding get_case verify_event_chain make_manifest last CustodyState-discrete
  build_manifest repo case_id = do
    case ← get_case repo case_id
    raise_if (not (state_eq case.state closed)) (conflict "manifest_not_ready")
    verified ← verify_event_chain repo case_id
    events ← list_events repo case_id
    head ← require (first events) (key_error "events")
    tail ← require (last events) (key_error "events")
    ok (make_manifest case events head tail)

  -- whether the handoff record lacks a part that closing needs
  unfoldable pub handoff_incomplete : HandoffRecord → Bool
  unfolding HandoffStatus-discrete
  handoff_incomplete handoff =
      not (handoff_eq handoff.status HandoffStatus.released)
      || not (is_some handoff.claimant_attested_at)
      || not (is_some handoff.custodian_attested_at)
      || not (is_some handoff.staff_confirmed_at)

  unfoldable pub close_spec : CaseRecord → HandoffRecord → String → String → ℕ → MutationSpec
  unfolding mutation_spec
  close_spec case handoff case_id key now =
      mutation_spec case closed "ITEM_PASSPORT_CLOSED" "service:custody"
        (str_append
          "Closed the Item Passport after internally consistent SIMULATED service attestations. "
          "Closure does not prove a physical transfer.")
        (str_append "case:" (str_append case_id (str_append ":close:" key)))
        (object (field "case_id" (text case_id) (field "handoff_id" (text handoff.id) end))) [] now

  -- the checks of `close_case`, up to the handoff record
  unfoldable pub check_close : Repo → CaseRecord → ℕ → Result HandoffRecord
  unfolding handoff_incomplete get_handoff CustodyState-discrete
  check_close repo case expected_version = do
    raise_if (not (state_eq case.state CustodyState.released) || not (truthy case.handoff_id))
        (conflict "close_not_allowed")
    raise_if (not (eqb case.version expected_version)) (conflict "stale_case_version")
    handoff ← get_handoff repo case.handoff_id
    raise_if (handoff_incomplete handoff) (conflict "handoff_incomplete")
    ok handoff

  -- `close_case`
  unfoldable pub close_case : String → ℕ → String → ℕ → Exec Repo EventManifest
  unfolding get_case CustodyState-discrete
  close_case case_id expected_version key now repo = on_ok (get_case repo case_id) repo (λ case.
      if state_eq case.state closed
      then (build_manifest repo case_id, repo)
      else on_ok (check_close repo case expected_version) repo (λ handoff.
        on_ok (verify_event_chain repo case_id) repo (λ verified.
          and_then (mutate (close_spec case handoff case_id key now) repo)
            (λ result after. (build_manifest after case_id, after)))))
