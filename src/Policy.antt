-- ===== src/Policy.antt =====
-- service/app/policy.py: the deterministic release policy.
pub mod Gates
use found_roll.Prelude.{String, ltb, not, ◌&&◌, [], ◌∷◌, truthy, if◌then◌else◌}
use found_roll.Domain.{
  RiskTier, RiskTier-discrete, tier_eq, valuable, sensitive, dangerous, PolicyOutcome, deny,
  request_evidence, require_review, allow_handoff, CaseRecord, PolicyDecision,
}

abbrev pub policy_version : String
policy_version = "found-roll-release-v1"

abbrev decision : PolicyOutcome → String → String → PolicyDecision
decision o code action = record {
  outcome = o;
  policy_version = policy_version;
  reason_codes = code ∷ [];
  next_action = action;
}

unfoldable pub evaluate_release_policy : CaseRecord → PolicyDecision
unfolding RiskTier-discrete
evaluate_release_policy case =
    if tier_eq case.risk_tier dangerous
    then decision deny "dangerous_items_never_enter_recovery"
        "Follow local emergency or security procedure; do not photograph, move, or release the item."
    else if tier_eq case.risk_tier sensitive
    then decision deny "specialist_policy_required"
        "Route to the tenant specialist policy; the demo cannot execute this return."
    else if ltb 3 case.wrong_answer_count
    then decision require_review "too_many_incorrect_private_answers"
        "Move the Item Passport to manual review without revealing the expected answer."
    else if not case.accepted_claim_evidence
    then decision request_evidence "private_claim_evidence_missing"
        "Request the minimum non-leading private discriminator."
    else if tier_eq case.risk_tier valuable && not (truthy case.identity_attestation_ref)
    then decision require_review "staff_identity_attestation_missing"
        "A staff member must attest an identity check without retaining an ID image."
    else if tier_eq case.risk_tier valuable && not (truthy case.approval_ref)
    then decision require_review "supervisor_approval_missing"
        "An accountable supervisor approval is required for valuable electronics."
    else decision allow_handoff "deterministic_release_gates_satisfied"
        "Create a disclosed SIMULATED relay reservation through the outbox."
