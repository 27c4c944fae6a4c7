-- ===== src/Repository/Commit/Inversion.antt =====
-- How a call of `apply_mutation` of service/app/repository.py has ended.
use found_roll.Prelude.{
  String, ◌≡◌, inl, inr, Option, some, none, ok, err, Error, get, Option-cases, Result-cases,
  returned, raised, arith,
}
use found_roll.Prelude.Json.{Hashing}
use found_roll.Domain.{AppliedMutation, CaseRecord, EventRecord, IdempotencyRecord}
use found_roll.Repository.{Repo, MutationSpec}
use found_roll.Repository.Commit.{
  apply_mutation, apply_new, check_claim, validate_mutation, commit_mutation, replay_mutation,
}
use found_roll.Repository.Chain.Commands.{Consistent, Validated, validate_mutation-Validated}

module _ ⦃h : Hashing⦄ where
  -- A call that returned was a replay of a known command, or it committed a new one.
  pub data Returned (repo : Repo) (spec : MutationSpec) (r : AppliedMutation) (after : Repo)
      : Type 0 where
    replay :
        (known : IdempotencyRecord)
        → get repo.idempotency spec.idempotency_key ≡ some known
        → replay_mutation repo spec.case_id spec.fingerprint known ≡ ok r
        → repo ≡ after
        → Returned repo spec r after
    commit :
        (u : CaseRecord) (e : EventRecord)
        → get repo.idempotency spec.idempotency_key ≡ none
        → Validated repo spec u e
        → commit_mutation spec u e repo ≡ (ok r, after)
        → Returned repo spec r after

  apply_new-Returned :
      (repo : Repo) (spec : MutationSpec) (r : AppliedMutation) (after : Repo)
      → get repo.idempotency spec.idempotency_key ≡ none
      → apply_new spec repo ≡ (ok r, after)
      → Returned repo spec r after
  unfolding apply_new
  apply_new-Returned repo spec r after new v = elim (Result-cases (validate_mutation repo spec)) [
    | raised e p ↦ absurd (ground arith)
    | returned (u, e) p ↦ commit u e new (validate_mutation-Validated repo spec u e p) (rw p at v)
  ]

  pub apply_mutation-Returned :
      (repo : Repo) (spec : MutationSpec) (outbox_id token : Option String) (r : AppliedMutation)
      (after : Repo)
      → apply_mutation spec outbox_id token repo ≡ (ok r, after)
      → (check_claim repo spec.case_id outbox_id token ≡ ok tt) × Returned repo spec r after
  unfolding apply_mutation
  apply_mutation-Returned repo spec outbox_id token r after v =
      elim (Result-cases (check_claim repo spec.case_id outbox_id token)) [
        | raised e p ↦ absurd (ground arith)
        | returned u p ↦ elim (Option-cases (get repo.idempotency spec.idempotency_key)) [
          | inl new ↦ (p, apply_new-Returned repo spec r after new (rw (p, new) at v))
          | inr (known, q) ↦ (p, replay known q (ground arith) (ground arith))
        ]
      ]

  -- In a repository whose logs are kept, a call that raised changed nothing.
  apply_new_raised :
      (repo : Repo) (spec : MutationSpec) (x : Error) (after : Repo)
      → Consistent repo
      → apply_new spec repo ≡ (err x, after)
      → after ≡ repo
  unfolding apply_new commit_mutation
  apply_new_raised repo spec x after s v = elim (Result-cases (validate_mutation repo spec)) [
    | raised e p ↦ ground arith
    | returned (u, e) p ↦
        let w = validate_mutation-Validated repo spec u e p in
        ground (arith, (s.at spec.case_id w.current w.found).logged)
  ]

  -- A mutation that raises, in a consistent repository, leaves the repository as it was: no error comes
  -- after a write.
  pub apply_mutation_raised :
      (repo : Repo) (spec : MutationSpec) (outbox_id token : Option String) (x : Error)
      (after : Repo)
      → Consistent repo
      → apply_mutation spec outbox_id token repo ≡ (err x, after)
      → after ≡ repo
  unfolding apply_mutation
  apply_mutation_raised repo spec outbox_id token x after s v =
      elim (Result-cases (check_claim repo spec.case_id outbox_id token)) [
        | raised e p ↦ ground arith
        | returned u p ↦ elim (Option-cases (get repo.idempotency spec.idempotency_key)) [
          | inl new ↦ apply_new_raised repo spec x after s (rw (p, new) at v)
          | inr (known, q) ↦ ground arith
        ]
      ]
