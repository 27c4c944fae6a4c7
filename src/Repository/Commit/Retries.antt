-- ===== src/Repository/Commit/Retries.antt =====
-- Retries and races of `apply_mutation` of service/app/repository.py.
use found_roll.Prelude.{
  String, ◌≡◌, ◌≢◌, refl, sym, ◌∙◌, ap, inl, inr, Bool, true, false, Option, some, none, List, [],
  ◌∷◌, ◌++◌, ok, err, conflict, get, get-put, find, Option-cases, Bool-cases, arith, eq_iff,
  eq_refl, ◌==◌,
}
use mathlib.Core.Bool.{true≢false}
use found_roll.Prelude.Json.{Hashing}
use found_roll.Domain.{AppliedMutation, CaseRecord, EventRecord, IdempotencyRecord}
use found_roll.Repository.{Repo, MutationSpec}
use found_roll.Repository.Events.{make_receipt}
use found_roll.Repository.Commit.{
  apply_mutation, apply_new, check_claim, validate_mutation, commit_mutation, replay_mutation,
  remembered, put_outbox, put_handoff, put_tokens,
}
use found_roll.Repository.Commit.Inversion.{Returned, replay, commit, apply_mutation-Returned}

-- what is appended with the property is found, or something before it
find-append {ℓ} :
    {A : Type ℓ} (test : A → Bool) (xs : List A) (x : A)
    → test x ≡ true
    → (y : A) × (find test (xs ++ x ∷ []) ≡ some y) × (test y ≡ true)
unfolding find
find-append test [] x t = (x, rw t, t)
find-append test (y ∷ ys) x t = elim (Bool-cases (test y)) [
  | inl p ↦ (y, rw p, p)
  | inr q ↦ let (z, found, ok_z) = find-append test ys x t in (z, rw (q, found), ok_z)
]

module _ ⦃h : Hashing⦄ where
  -- What a commit leaves behind.
  pub record Committed (spec : MutationSpec) (u : CaseRecord) (r : AppliedMutation)
      (repo after : Repo) : Type 0 where
    pub before : List EventRecord
    pub logged_before : get repo.events spec.case_id ≡ some before
    pub case : get after.cases spec.case_id ≡ some u
    pub logged : get after.events spec.case_id ≡ some (before ++ r.event ∷ [])
    pub known : get after.idempotency spec.idempotency_key ≡ some (remembered spec r.receipt)
    pub named : r.receipt.event_id ≡ r.event.id
    pub claims : after.execution_claims ≡ repo.execution_claims
    pub outboxes : after.outboxes ≡ put_outbox spec.outbox repo.outboxes
    pub handoffs : after.handoffs ≡ put_handoff spec.handoff repo.handoffs
    pub tokens : after.tokens ≡ put_tokens spec.tokens repo.tokens
    pub new : r.duplicate ≡ false

  pub commit_mutation-Committed :
      (repo : Repo) (spec : MutationSpec) (u : CaseRecord) (e : EventRecord) (r : AppliedMutation)
      (after : Repo)
      → commit_mutation spec u e repo ≡ (ok r, after)
      → Committed spec u r repo after
  unfolding commit_mutation
  commit_mutation-Committed repo spec u e r after v =
      elim (Option-cases (get repo.events spec.case_id)) [
        | inl missing ↦ absurd (ground arith)
        | inr (es, logged) ↦ record {
          before = es;
          logged_before = logged;
          case = ground (
            arith,
            get-put repo.cases spec.case_id spec.case_id u,
            eq_iff spec.case_id spec.case_id,
          );
          logged = ground (
            arith,
            get-put repo.events spec.case_id spec.case_id (es ++ e ∷ []),
            eq_iff spec.case_id spec.case_id,
          );
          known = ground (
            arith,
            get-put repo.idempotency spec.idempotency_key spec.idempotency_key
                (remembered spec (make_receipt e u)),
            eq_iff spec.idempotency_key spec.idempotency_key,
          );
          named = ground arith;
          claims = ground arith;
          outboxes = ground arith;
          handoffs = ground arith;
          tokens = ground arith;
          new = ground arith;
        }
      ]

  replay-Committed :
      (spec : MutationSpec) (u : CaseRecord) (r : AppliedMutation) (repo after : Repo)
      → Committed spec u r repo after
      → (e : EventRecord) × (replay_mutation after spec.case_id spec.fingerprint
            (remembered spec r.receipt)
          ≡ ok (record { receipt = r.receipt; event = e; duplicate = true }))
        × (e.id ≡ r.event.id)
  unfolding replay_mutation remembered
  replay-Committed spec u r repo after c =
      let (e, found, same) =
        find-append (λ (x : EventRecord). x.id == r.receipt.event_id) c.before r.event
          (rw c.named (eq_refl r.event.id)) in
      (
        e,
        ground (arith, c.case, c.logged, found, eq_iff spec.fingerprint spec.fingerprint),
        (eq_iff e.id r.receipt.event_id).0 same ∙ c.named,
      )

  -- the claim check reads nothing that a commit writes
  check_claim-after :
      (repo after : Repo) (case_id : String) (outbox_id token : Option String)
      → after.execution_claims ≡ repo.execution_claims
      → check_claim after case_id outbox_id token ≡ check_claim repo case_id outbox_id token
  unfolding check_claim
  check_claim-after repo after case_id outbox_id token same = ground arith

  -- an answer of `replay_mutation` is marked as a duplicate
  pub replay_mutation-duplicate :
      (repo : Repo) (case_id fingerprint : String) (known : IdempotencyRecord) (r : AppliedMutation)
      → replay_mutation repo case_id fingerprint known ≡ ok r
      → r ≡ record { receipt = r.receipt; event = r.event; duplicate = true }
  unfolding replay_mutation
  replay_mutation-duplicate repo case_id fingerprint known r v = ground arith

  retried :
      (repo : Repo) (spec : MutationSpec) (outbox_id token : Option String) (r : AppliedMutation)
      (after : Repo)
      → apply_mutation spec outbox_id token repo ≡ (ok r, after)
      → check_claim repo spec.case_id outbox_id token ≡ ok tt
      → Returned repo spec r after
      → (e : EventRecord) × (apply_mutation spec outbox_id token after
          ≡ (ok (record { receipt = r.receipt; event = e; duplicate = true }), after))
        × (e.id ≡ r.event.id)
  unfolding apply_mutation
  retried repo spec outbox_id token r after v holder (replay known k w same) = (
    r.event,
    rw (← same, holder, k, w)
        (rw (← replay_mutation-duplicate repo spec.case_id spec.fingerprint known r w) refl),
    refl,
  )
  retried repo spec outbox_id token r after v holder (commit u e new w c) =
      let left = commit_mutation-Committed repo spec u e r after c in
      let (x, answer, same) = replay-Committed spec u r repo after left in
      (
        x,
        rw (
          check_claim-after repo after spec.case_id outbox_id token left.claims,
          holder,
          left.known,
          answer,
        ),
        same,
      )

  -- A command that returned is answered again, with the same receipt and an event of the same
  -- identifier, marked as a duplicate, and the retry changes nothing.
  pub apply_mutation_retry :
      (repo : Repo) (spec : MutationSpec) (outbox_id token : Option String) (r : AppliedMutation)
      (after : Repo)
      → apply_mutation spec outbox_id token repo ≡ (ok r, after)
      → (e : EventRecord) × (apply_mutation spec outbox_id token after
          ≡ (ok (record { receipt = r.receipt; event = e; duplicate = true }), after))
        × (e.id ≡ r.event.id)
  apply_mutation_retry repo spec outbox_id token r after v =
      let (holder, how) = apply_mutation-Returned repo spec outbox_id token r after v in
      retried repo spec outbox_id token r after v holder how

  validate_stale :
      (repo : Repo) (spec : MutationSpec) (c : CaseRecord)
      → get repo.cases spec.case_id ≡ some c
      → c.version ≢ spec.expected_version
      → validate_mutation repo spec ≡ err (conflict "stale_case_version")
  unfolding validate_mutation
  validate_stale repo spec c found stale = ground arith

  apply_stale :
      (repo : Repo) (spec : MutationSpec) (c : CaseRecord)
      → get repo.idempotency spec.idempotency_key ≡ none
      → get repo.cases spec.case_id ≡ some c
      → c.version ≢ spec.expected_version
      → apply_mutation spec none none repo ≡ (err (conflict "stale_case_version"), repo)
  unfolding apply_mutation apply_new check_claim
  apply_stale repo spec c new found stale = rw (new, validate_stale repo spec c found stale)

  -- Of two commands on one case that expect the same version at most one commits: when the first
  -- has committed, the second, under an idempotency key that is not known, is refused as stale and
  -- changes nothing.
  pub first_commit_wins :
      (repo after : Repo) (spec other : MutationSpec) (outbox_id token : Option String)
      (r : AppliedMutation)
      → apply_mutation spec outbox_id token repo ≡ (ok r, after)
      → r.duplicate ≡ false
      → other.case_id ≡ spec.case_id
      → other.expected_version ≡ spec.expected_version
      → get after.idempotency other.idempotency_key ≡ none
      → apply_mutation other none none after ≡ (err (conflict "stale_case_version"), after)
  first_commit_wins repo after spec other outbox_id token r v new same expects unknown =
      elim (apply_mutation-Returned repo spec outbox_id token r after v).1 [
        | replay known k w p ↦ absurd (
            true≢false (
              sym (
                ap (λ (x : AppliedMutation). x.duplicate)
                  (replay_mutation-duplicate repo spec.case_id spec.fingerprint known r w))
              ∙ new))
        | commit u e k w c ↦
            let left = commit_mutation-Committed repo spec u e r after c in
            apply_stale after other u unknown (rw same left.case)
              (λ p. absurd (omega (arith, p, w.fresh, w.follows.next_version, expects)))
      ]
