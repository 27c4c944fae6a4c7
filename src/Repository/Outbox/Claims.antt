-- ===== src/Repository/Outbox/Claims.antt =====
-- Single flight of the analyst: service/app/repository.py, `claim_outbox_execution` and
-- `mark_outbox_execution`.
use found_roll.Prelude.{
  ℕ, ◌<◌, String, ◌≡◌, ◌≢◌, ◌∙◌, inl, inr, Option, some, none, ok, err, conflict, get, put, get-put,
  Option-cases, Bool-cases, Result-cases, returned, raised, arith, eq_iff, ltb,
}
use found_roll.Prelude.Json.{Hashing}
use found_roll.Domain.{
  OutboxRecord, OutboxExecutionClaim, OutboxStatus, OutboxFailureStage, in_progress,
}
use found_roll.Repository.{Repo, MutationSpec}
use found_roll.Repository.Commit.{claim_token_hash, check_claim, apply_mutation}
use found_roll.Repository.Outbox.{
  ExecutionClaimResult, check_claimable, take_claim, claim_outbox_execution, check_terminal,
  owned_claim, mark_outbox_execution,
}

module _ ⦃h : Hashing⦄ where
  -- A call that took the claim: what was there before was not in its lease, and the new claim is
  -- stored.
  pub record Taken (repo : Repo) (id token : String) (now lease : ℕ) (r : ExecutionClaimResult)
      (after : Repo) : Type 0 where
    pub outbox : OutboxRecord
    pub claimable : check_claimable repo id ≡ ok outbox
    pub claimable_after : check_claimable after id ≡ ok outbox
    pub stored : get after.execution_claims id ≡ some r.claim
    pub lease_end : r.claim.lease_expires_at ≡ lease
    pub owner : r.claim.token_hash ≡ claim_token_hash token
    pub running : r.claim.terminal_status ≡ none
    pub case_of : r.claim.case_id ≡ outbox.case_id

  claimable_open :
      (repo : Repo) (id : String) (o : OutboxRecord) (claim : OutboxExecutionClaim)
      → check_claimable repo id ≡ ok o
      → get repo.execution_claims id ≡ some claim
      → claim.terminal_status ≡ none
  unfolding check_claimable
  claimable_open repo id o claim v found = ground arith

  claimable_put :
      (repo : Repo) (id : String) (o : OutboxRecord) (claim : OutboxExecutionClaim)
      → check_claimable repo id ≡ ok o
      → claim.terminal_status ≡ none
      → check_claimable (record repo { execution_claims = put repo.execution_claims id claim }) id
        ≡ ok o
  unfolding check_claimable
  claimable_put repo id o claim v running =
      ground (arith, get-put repo.execution_claims id id claim, eq_iff id id)

  take_claim-Taken :
      (repo : Repo) (o : OutboxRecord) (old : Option OutboxExecutionClaim) (id token : String)
      (now lease : ℕ) (r : ExecutionClaimResult) (after : Repo)
      → check_claimable repo id ≡ ok o
      → take_claim o old id token now lease repo ≡ (ok r, after)
      → Taken repo id token now lease r after
  unfolding take_claim
  take_claim-Taken repo o old id token now lease r after v t = elim (Bool-cases (ltb now lease)) [
    | inl timely ↦
        let same : after ≡ record repo { execution_claims = put repo.execution_claims id r.claim } =
          ground arith in
        record {
          outbox = o;
          claimable = v;
          claimable_after = rw same (claimable_put repo id o r.claim v (ground arith));
          stored = ground (arith, get-put repo.execution_claims id id r.claim, eq_iff id id);
          lease_end = ground arith;
          owner = ground arith;
          running = ground arith;
          case_of = ground arith;
        }
    | inr late ↦ absurd (ground arith)
  ]

  claim-Taken :
      (repo : Repo) (id token : String) (now lease : ℕ) (r : ExecutionClaimResult) (after : Repo)
      → claim_outbox_execution id token now lease repo ≡ (ok r, after)
      → r.disposition ≢ in_progress
      → Taken repo id token now lease r after
  unfolding claim_outbox_execution
  claim-Taken repo id token now lease r after v won =
      elim (Result-cases (check_claimable repo id)) [
        | raised e p ↦ absurd (ground arith)
        | returned o p ↦ elim (Option-cases (get repo.execution_claims id)) [
          | inl none_there ↦
              take_claim-Taken repo o none id token now lease r after p (rw (p, none_there) at v)
          | inr (old, there) ↦ elim (Bool-cases (ltb now old.lease_expires_at)) [
            | inl busy ↦ absurd (won (ground arith))
            | inr over ↦
                take_claim-Taken repo o (some old) id token now lease r after p
                  (rw (p, there, over) at v)
          ]
        ]
      ]

  -- While a claim is in its lease nobody else gets it: after a call that acquired the claim, or
  -- took it over, every call before the end of the lease is told that the run is in progress, under
  -- any token, and changes nothing.
  pub claim_exclusive :
      (repo after : Repo) (id token other : String) (now lease later until : ℕ)
      (r : ExecutionClaimResult)
      → claim_outbox_execution id token now lease repo ≡ (ok r, after)
      → r.disposition ≢ in_progress
      → later < lease
      → claim_outbox_execution id other later until after
        ≡ (ok (record { disposition = in_progress; claim = r.claim }), after)
  unfolding claim_outbox_execution
  claim_exclusive repo after id token other now lease later until r v won early =
      let t = claim-Taken repo id token now lease r after v won in
      ground (arith, t.claimable_after, t.stored, t.lease_end)

  owned_claim-lost :
      (repo : Repo) (id : String) (o : OutboxRecord) (claim : OutboxExecutionClaim) (old : String)
      → check_claimable repo id ≡ ok o
      → get repo.execution_claims id ≡ some claim
      → claim_token_hash old ≢ claim.token_hash
      → owned_claim repo id old ≡ err (conflict "outbox_execution_claim_lost")
  unfolding owned_claim check_claimable
  owned_claim-lost repo id o claim old v found differ =
      ground (arith, eq_iff claim.token_hash (claim_token_hash old))

  check_claim-lost :
      (repo : Repo) (case_id id : String) (claim : OutboxExecutionClaim) (old : String)
      → get repo.execution_claims id ≡ some claim
      → claim_token_hash old ≢ claim.token_hash
      → check_claim repo case_id (some id) (some old) ≡ err (conflict "outbox_execution_claim_lost")
  unfolding check_claim
  check_claim-lost repo case_id id claim old found differ =
      ground (arith, eq_iff claim.token_hash (claim_token_hash old))

  -- Fencing: once a second token has taken the claim over, the holder of another token can neither
  -- end the run nor commit a mutation under the claim. Both calls raise and change nothing.
  pub claim_fencing :
      (repo after : Repo) (id token old : String) (now lease : ℕ) (r : ExecutionClaimResult)
      (status : OutboxStatus) (at : ℕ) (stage : Option OutboxFailureStage) (code : Option String)
      (spec : MutationSpec)
      → claim_outbox_execution id token now lease repo ≡ (ok r, after)
      → r.disposition ≢ in_progress
      → claim_token_hash old ≢ claim_token_hash token
      → check_terminal status stage code ≡ ok tt
      → (mark_outbox_execution id status old at stage code after
          ≡ (err (conflict "outbox_execution_claim_lost"), after))
        × (apply_mutation spec (some id) (some old) after
            ≡ (err (conflict "outbox_execution_claim_lost"), after))
  unfolding mark_outbox_execution
  claim_fencing repo after id token old now lease r status at stage code spec v won differ valid =
      let t = claim-Taken repo id token now lease r after v won in
      let foreign : claim_token_hash old ≢ r.claim.token_hash = λ p. differ (p ∙ t.owner) in
      (
        rw (
          valid,
          owned_claim-lost after id t.outbox r.claim old t.claimable_after t.stored foreign,
        ),
        unfold apply_mutation in
            rw (check_claim-lost after spec.case_id id r.claim old t.stored foreign),
      )
