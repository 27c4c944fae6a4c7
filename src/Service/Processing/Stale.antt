-- ===== src/Service/Processing/Stale.antt =====
-- That a run which was taken over makes no second model call: `process_outbox` of
-- service/app/custody_service.py.
use found_roll.Prelude.{◌+◌, ℕ, ◌≡◌, refl, some, Result, ok, get, arith}
use found_roll.Prelude.Json.{Hashing}
use found_roll.Domain.{CaseRecord, analyzing, OutboxRecord, stale_recovery}
use found_roll.Repository.{Repo}
use found_roll.Repository.Outbox.{ExecutionClaimResult, claim_outbox_execution}
use found_roll.Service.Analysis.{Analysis, Analyst}
use found_roll.Service.Analysis.Run.{recover_analysis, recover_abstention, recover_failure}
use found_roll.Service.Processing.{World, recover_stale, deliver_analysis, execution_lease}

module _ ⦃h : Hashing⦄ where
  recover_stale_same :
      (repo : Repo) (analyst : Analyst) (outbox : OutboxRecord) (world : World)
      (other : Result Analysis) (now : ℕ) (c : CaseRecord)
      → get repo.cases outbox.case_id ≡ some c
      → c.state ≡ analyzing
      → recover_stale analyst outbox world now repo
        ≡ recover_stale analyst outbox (record world { analysis = other }) now repo
  unfolding recover_stale recover_analysis recover_abstention recover_failure
  recover_stale_same repo analyst outbox world other now c found at = ground (arith, found, at)

  -- When a delivery takes over the claim of an earlier run while the case is in ANALYZING, the analyst
  -- is not asked: whatever it would answer, the delivery answers the same and leaves the same
  -- repository.
  pub deliver_stale_same :
      (repo after : Repo) (analyst : Analyst) (outbox : OutboxRecord) (world : World)
      (other : Result Analysis) (now : ℕ) (claim : ExecutionClaimResult) (c : CaseRecord)
      → claim_outbox_execution outbox.id world.claim_token now (now + execution_lease) repo
        ≡ (ok claim, after)
      → claim.disposition ≡ stale_recovery
      → get after.cases outbox.case_id ≡ some c
      → c.state ≡ analyzing
      → deliver_analysis analyst outbox world now repo
        ≡ deliver_analysis analyst outbox (record world { analysis = other }) now repo
  unfolding deliver_analysis
  deliver_stale_same repo after analyst outbox world other now claim c taken stale found at =
      rw (taken, stale, recover_stale_same after analyst outbox world other now c found at) refl
