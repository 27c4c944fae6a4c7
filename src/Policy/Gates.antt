-- ===== src/Policy/Gates.antt =====
-- When the release policy lets a handoff begin, as a list of gates.
use found_roll.Prelude.{◌≡◌, ◌↔◌, ◌≤◌, true, truthy, arith}
use found_roll.Domain.{CaseRecord, RiskTier, ordinary, valuable, allow_handoff}
use found_roll.Policy.{evaluate_release_policy}

-- The gates that a valuable item has and an ordinary item has not; the other tiers have none that
-- can be met.
abbrev pub TierGates : RiskTier → CaseRecord → Type 0
TierGates ordinary case = Unit
TierGates valuable case =
    (truthy case.identity_attestation_ref ≡ true) × (truthy case.approval_ref ≡ true)
TierGates _ case = ⊥

pub record ReleaseGates (case : CaseRecord) : Type 0 where
  pub few_mistakes : case.wrong_answer_count ≤ 3
  pub evidence : case.accepted_claim_evidence ≡ true
  pub tier : TierGates case.risk_tier case

gates_open :
    (case : CaseRecord) → (evaluate_release_policy case).outcome ≡ allow_handoff → ReleaseGates case
unfolding evaluate_release_policy
gates_open case h = ground arith

gates_suffice :
    (case : CaseRecord) → ReleaseGates case → (evaluate_release_policy case).outcome ≡ allow_handoff
unfolding evaluate_release_policy
gates_suffice case g = ground (arith, g.tier)

-- The policy allows the handoff exactly when the gates hold: at most three wrong answers, accepted
-- claim evidence, and for a valuable item a staff identity attestation and a supervisor approval; it
-- never allows a sensitive or dangerous item.
pub allow_iff_gates :
    (case : CaseRecord)
    → ((evaluate_release_policy case).outcome ≡ allow_handoff) ↔ ReleaseGates case
allow_iff_gates case = (gates_open case, gates_suffice case)
