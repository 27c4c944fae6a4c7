-- ===== src/Service/Manifest/Closing.antt =====
-- That `close_case` of service/app/custody_service.py ends a released case.
use found_roll.Prelude.{
  Result, List, [], ◌∷◌, ℕ, ◌+◌, String, ◌≡◌, refl, sym, subst, some, none, true, ok, get, length,
  arith, ◌<>◌, last,
}
use found_roll.Prelude.Json.{Hashing}
use found_roll.Domain.{
  AppliedMutation, EventRecord, CaseRecord, CustodyState, closed, HandoffRecord,
}
use found_roll.StateMachine.{assert_transition}
use found_roll.Repository.{Repo}
use found_roll.Repository.Events.{check_updates, make_event, next_case}
use found_roll.Repository.Commit.{list_events, zero_hash}
use found_roll.Repository.Commit.Success.{
  IsAdmissible, plain-IsAdmissible, apply_mutation-Commits, committed_case,
}
use found_roll.Repository.Chain.{History}
use found_roll.Repository.Chain.Commands.{Consistent, apply_mutation-Consistent}
use found_roll.Service.Manifest.{
  EventManifest, close_case, close_spec, check_close, verify_event_chain, build_manifest,
  make_manifest, ids,
}
use found_roll.Service.Manifest.Verified.{
  verify_event_chain-Consistent, HashLinked, History-HashLinked,
}

module _ ⦃h : Hashing⦄ where
  close_spec-IsAdmissible :
      (repo : Repo) (c : CaseRecord) (k : String) (handoff : HandoffRecord) (key : String) (now : ℕ)
      → get repo.cases k ≡ some c
      → c.id ≡ k
      → c.state ≡ CustodyState.released
      → get repo.idempotency ("case:" <> k <> ":close:" <> key) ≡ none
      → IsAdmissible repo (close_spec c handoff k key now) c
  unfolding close_spec check_updates assert_transition
  close_spec-IsAdmissible repo c k handoff key now found own at unknown =
      plain-IsAdmissible repo (close_spec c handoff k key now) c unknown
        (subst (λ i. get repo.cases i ≡ some c) (sym own) found) refl (rw at refl) refl refl refl
        refl

  -- the hash of the last event is the one that the links end with
  last-HashLinked :
      (n : ℕ) (prev : String) (e : EventRecord) (es : List EventRecord) (final : String)
      → HashLinked n prev (e ∷ es) final
      → (t : EventRecord) × (last (e ∷ es) ≡ some t) × (t.event_hash ≡ final)
  unfolding last
  last-HashLinked n prev e [] final l = (e, refl, sym l.3)
  last-HashLinked n prev e (x ∷ xs) final l = last-HashLinked (n + 1) e.event_hash x xs final l.3

  length-ids : (es : List EventRecord) → length (ids es) ≡ length es
  length-ids [] = refl
  length-ids (e ∷ es) = omega (arith, length-ids es)

  -- the manifest of a closed case
  pub record IsManifestOf (k : String) (c : CaseRecord) (manifest : EventManifest) : Type 0 where
    pub own_case : manifest.case_id ≡ k
    pub version : manifest.final_version ≡ c.version
    pub events : manifest.event_count ≡ c.last_event_sequence
    pub final_hash : manifest.final_event_hash ≡ c.last_event_hash
    pub count_ids : length manifest.event_ids ≡ manifest.event_count

  build_manifest_of :
      (repo : Repo) (k : String) (c : CaseRecord) (es : List EventRecord)
      → get repo.cases k ≡ some c
      → c.id ≡ k
      → c.state ≡ closed
      → verify_event_chain repo k ≡ ok true
      → get repo.events k ≡ some es
      → History es c
      → (m : EventManifest) × (build_manifest repo k ≡ ok m) × IsManifestOf k c m
  unfolding build_manifest list_events make_manifest
  build_manifest_of repo k c [] found own at verified logged history = absurd history
  build_manifest_of repo k c (e ∷ es) found own at verified logged history =
      let (links, count) = History-HashLinked (e ∷ es) c history in
      let (t, ends, hash) = last-HashLinked 1 zero_hash e es c.last_event_hash links in
      (
        make_manifest c (e ∷ es) e t,
        ground (arith, found, at, verified, logged, ends),
        record {
          own_case = own;
          version = refl;
          events = sym count;
          final_hash = hash;
          count_ids = length-ids (e ∷ es);
        },
      )

  check_close_state :
      (repo : Repo) (c : CaseRecord) (handoff : HandoffRecord)
      → check_close repo c c.version ≡ ok handoff
      → c.state ≡ CustodyState.released
  unfolding check_close
  check_close_state repo c handoff v = ground arith

  -- Closing succeeds: in a repository whose logs are kept, for a case in RELEASED of the expected
  -- version whose handoff record is complete, under an idempotency key that is not known,
  -- `close_case` answers the manifest of the closed case. It counts one event more than before, ends
  -- with the hash that the case points to, and the log of the closed case verifies.
  pub close_case_closes :
      (repo : Repo) (k : String) (c : CaseRecord) (handoff : HandoffRecord) (key : String) (now : ℕ)
      → Consistent repo
      → get repo.cases k ≡ some c
      → check_close repo c c.version ≡ ok handoff
      → get repo.idempotency ("case:" <> k <> ":close:" <> key) ≡ none
      → (after : Repo) × (d : CaseRecord) × (m : EventManifest) × (close_case k c.version key now
            repo
          ≡ (ok m, after))
        × (get after.cases k ≡ some d)
        × (d.state ≡ closed)
        × (d.last_event_sequence ≡ c.last_event_sequence + 1)
        × IsManifestOf k d m
        × (verify_event_chain after k ≡ ok true)
  unfolding close_case close_spec next_case make_event
  close_case_closes repo k c handoff key now s found checks unknown =
      let own = (s.at k c found).own_id in
      let at = check_close_state repo c handoff checks in
      let w =
        apply_mutation-Commits repo (close_spec c handoff k key now) c s
          (close_spec-IsAdmissible repo c k handoff key now found own at unknown) in
      let kept : Consistent w.after =
        subst (λ (x : Result AppliedMutation × Repo). Consistent x.1) w.run
          (apply_mutation-Consistent repo (close_spec c handoff k key now) none none s) in
      let d = committed_case c (close_spec c handoff k key now) in
      let stored : get w.after.cases k ≡ some d =
        subst (λ i. get w.after.cases i ≡ some d) own w.left.case in
      let l = kept.at k d stored in
      let verified = verify_event_chain-Consistent w.after k d kept stored in
      let (m, built, is_manifest) =
        build_manifest_of w.after k d l.events stored l.own_id refl verified l.logged l.history in
      (
        w.after,
        d,
        m,
        ground (
          arith,
          found,
          at,
          checks,
          verify_event_chain-Consistent repo k c s found,
          w.run,
          built,
        ),
        stored,
        refl,
        refl,
        is_manifest,
        verified,
      )
