-- ===== src/Repository/Chain/Commands.antt =====
-- The commands of service/app/repository.py keep the log of every case.
use found_roll.Prelude.{
  ℕ, String, ◌≡◌, refl, ◌∙◌, inl, inr, Bool, true, Option, some, List, [], ◌∷◌, ok, get, arith,
  Option-cases, Bool-cases, is_some, Result-cases, returned, raised,
}
use found_roll.Prelude.Json.{Hashing}
use found_roll.Domain.{Candidate, CaseRecord, CustodyState, EventRecord, received}
use found_roll.StateMachine.{assert_transition}
use found_roll.Repository.{Repo, MutationSpec, CaseUpdate, unsupported}
use found_roll.Repository.Events.{
  apply_update, apply_updates, next_case, make_event, project_mutation, project_rest,
  project_mutations,
}
use found_roll.Repository.Commit.{
  validate_mutation, commit_mutation, apply_new, apply_mutation, create_case, create_new,
  creation_spec, creation_fingerprint, check_claim,
}
use found_roll.Repository.Chain.{
  Follows, Extends, done, more, IsConsistent, extend-IsConsistent, start-IsConsistent,
}

-- a transition of a fact event, and any other, is admitted for a fact event
admitted_fact :
    (s t : CustodyState) (fact : Bool)
    → assert_transition s t fact ≡ ok tt
    → assert_transition s t true ≡ ok tt
unfolding assert_transition
admitted_fact s t fact a = ground arith

id-apply_update : (u : CaseUpdate) (c : CaseRecord) → (apply_update u c).id ≡ c.id
unfolding apply_update
id-apply_update (unsupported key) c = refl
id-apply_update _ c = refl

id-apply_updates : (us : List CaseUpdate) (c : CaseRecord) → (apply_updates us c).id ≡ c.id
unfolding apply_updates
id-apply_updates [] c = refl
id-apply_updates (u ∷ us) c = id-apply_updates us (apply_update u c) ∙ id-apply_update u c

module _ ⦃h : Hashing⦄ where
  next_case-Follows :
      (c : CaseRecord) (spec : MutationSpec)
      → assert_transition c.state spec.target_state spec.allow_fact_event ≡ ok tt
      → Follows c (make_event c spec) (next_case c spec (make_event c spec))
  unfolding make_event next_case
  next_case-Follows c spec a = record {
    same_id = id-apply_updates spec.updates c;
    next_version = refl;
    sequence = refl;
    owner = refl;
    previous = refl;
    hashed = refl;
    from = refl;
    admitted = admitted_fact c.state spec.target_state spec.allow_fact_event a;
    pointer = refl;
    pointer_hash = refl;
    to = refl;
  }

  -- What the checks of a new command have found when they all passed.
  pub record Validated (repo : Repo) (spec : MutationSpec) (u : CaseRecord) (e : EventRecord)
      : Type 0 where
    pub current : CaseRecord
    pub found : get repo.cases spec.case_id ≡ some current
    pub fresh : current.version ≡ spec.expected_version
    pub follows : Follows current e u
    pub event : e ≡ make_event current spec
    pub updated : u ≡ next_case current spec e

  pub validate_mutation-Validated :
      (repo : Repo) (spec : MutationSpec) (u : CaseRecord) (e : EventRecord)
      → validate_mutation repo spec ≡ ok (u, e)
      → Validated repo spec u e
  unfolding validate_mutation
  validate_mutation-Validated repo spec u e v = elim (Option-cases (get repo.cases spec.case_id)) [
    | inl missing ↦ ground arith
    | inr (c, found) ↦
        let p : e ≡ make_event c spec = ground arith in
        let q : u ≡ next_case c spec (make_event c spec) = ground arith in
        let a : assert_transition c.state spec.target_state spec.allow_fact_event ≡ ok tt =
          ground arith in
        record {
          current = c;
          found = found;
          fresh = ground arith;
          follows = rw (p, q) (next_case-Follows c spec a);
          event = p;
          updated = rw (p, q);
        }
  ]

  abbrev pub Consistent : Repo → Type 0
  Consistent repo = IsConsistent repo.cases repo.events

  commit_mutation-Consistent :
      (repo : Repo) (spec : MutationSpec) (u : CaseRecord) (e : EventRecord)
      → Validated repo spec u e
      → Consistent repo
      → Consistent (commit_mutation spec u e repo).1
  unfolding commit_mutation
  commit_mutation-Consistent repo spec u e v s =
      let l = s.at spec.case_id v.current v.found in
      rw l.logged (
        extend-IsConsistent spec.case_id v.current u l.events (e ∷ []) s v.found l.logged
          (more v.follows done))

  apply_new-Consistent :
      (repo : Repo) (spec : MutationSpec) → Consistent repo → Consistent (apply_new spec repo).1
  unfolding apply_new
  apply_new-Consistent repo spec s = elim (Result-cases (validate_mutation repo spec)) [
    | returned (u, e) p ↦
        rw p
          (commit_mutation-Consistent repo spec u e (validate_mutation-Validated repo spec u e p) s)
    | raised x p ↦ rw p s
  ]

  -- `apply_mutation` keeps every case's log, whether it commits, replays or raises.
  pub apply_mutation-Consistent :
      (repo : Repo) (spec : MutationSpec) (outbox_id token : Option String)
      → Consistent repo
      → Consistent (apply_mutation spec outbox_id token repo).1
  unfolding apply_mutation
  apply_mutation-Consistent repo spec outbox_id token s =
      elim (Result-cases (check_claim repo spec.case_id outbox_id token)) [
        | raised x p ↦ rw p s
        | returned a p ↦ rw p (elim (Option-cases (get repo.idempotency spec.idempotency_key)) [
          | inl new ↦ rw new (apply_new-Consistent repo spec s)
          | inr (r, known) ↦ rw known s
        ])
      ]

  create_new-Consistent :
      (repo : Repo) (spec : MutationSpec) (case : CaseRecord) (candidates : List Candidate)
      → spec.target_state ≡ received
      → spec.updates ≡ []
      → Consistent repo
      → Consistent (create_new spec case candidates repo).1
  unfolding create_new
  create_new-Consistent repo spec case candidates created plain s =
      elim (Bool-cases (is_some (get repo.cases case.id))) [
        | inl there ↦ rw there s
        | inr new ↦ rw new (
            start-IsConsistent case.id _ _ s (
              unfold next_case make_event apply_updates in
              rw plain record {
                own_id = refl;
                counted = refl;
                events = _;
                logged = refl;
                owned = (refl, tt);
                history = (refl, refl, refl, created, (refl, refl, created));
              }))
      ]

  -- `create_case` keeps every case's log and gives the new case a log of one event.
  pub create_case-Consistent :
      (repo : Repo) (case : CaseRecord) (candidates : List Candidate) (actor reason key : String)
      (occurred_at : ℕ) (fingerprint : Option String)
      → Consistent repo
      → Consistent (create_case case candidates actor reason key occurred_at fingerprint repo).1
  unfolding create_case
  create_case-Consistent repo case candidates actor reason key occurred_at fingerprint s =
      elim (Option-cases (get repo.idempotency key)) [
        | inl new ↦ rw new (
            create_new-Consistent repo
              (creation_spec case actor reason key occurred_at
                (creation_fingerprint case reason fingerprint))
              case candidates refl refl s)
        | inr (r, known) ↦ rw known s
      ]

  project_mutation-Follows :
      (c : CaseRecord) (spec : MutationSpec) (u : CaseRecord) (e : EventRecord)
      → project_mutation c spec ≡ ok (u, e)
      → Follows c e u
  unfolding project_mutation
  project_mutation-Follows c spec u e v =
      let p : e ≡ make_event c spec = ground arith in
      let q : u ≡ next_case c spec (make_event c spec) = ground arith in
      rw (p, q) (next_case-Follows c spec (ground arith))

  project_rest-Extends :
      (c : CaseRecord) (specs : List MutationSpec) (u : CaseRecord) (es : List EventRecord)
      → project_rest c specs ≡ ok (u, es)
      → Extends c es u
  unfolding project_rest
  project_rest-Extends c [] u es v =
      let p : c ≡ u = ground arith in let q : [] ≡ es = ground arith in rw (← p, ← q) done
  project_rest-Extends c (spec ∷ specs) u es v = elim (Result-cases (project_mutation c spec)) [
    | raised x p ↦ ground arith
    | returned (n, e) p ↦ elim (Result-cases (project_rest n specs)) [
      | raised x q ↦ ground arith
      | returned (w, rest) q ↦
          let a : w ≡ u = ground arith in
          let b : e ∷ rest ≡ es = ground arith in
          rw (← a, ← b)
            (more (project_mutation-Follows c spec n e p) (project_rest-Extends n specs w rest q))
    ]
  ]

  -- The events of a claim-evidence commit extend the log of its case.
  pub project_mutations-Extends :
      (c : CaseRecord) (specs : List MutationSpec) (u : CaseRecord) (es : List EventRecord)
      → project_mutations c specs ≡ ok (u, es)
      → Extends c es u
  unfolding project_mutations
  project_mutations-Extends c [] u es v = ground arith
  project_mutations-Extends c (spec ∷ specs) u es v = project_rest-Extends c (spec ∷ specs) u es v
