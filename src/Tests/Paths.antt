-- ===== src/Tests/Paths.antt =====
-- The walk of the custody graph to CLOSED, and the release policy at a case.
use mathlib.Core.List.{Memᴰ}
use found_roll.Prelude.{◌≡◌, refl, false, true, some, List, [], ◌∷◌, ◌↔◌}
use found_roll.Domain.{
  CustodyState, received, evidence_ready, analyzing, candidates_ready, claim_evidence_accepted,
  identity_attested, approval_required, reserve_requested, reserved, claimant_present,
  release_requested, closed, CaseRecord, allow_handoff,
}
use found_roll.StateMachine.{assert_transition}
use found_roll.StateMachine.Paths.{
  Walk, here, move, at_closed, released_gates, final_closed, final_absorbs,
}
use found_roll.Policy.{evaluate_release_policy}
use found_roll.Policy.Gates.{ReleaseGates, allow_iff_gates}
use found_roll.Tests.{pouch}

abbrev route : List CustodyState
route =
    evidence_ready ∷ analyzing ∷ candidates_ready ∷ claim_evidence_accepted ∷ identity_attested
    ∷ approval_required ∷ approval_required ∷ reserve_requested ∷ reserved ∷ claimant_present
    ∷ release_requested ∷ CustodyState.released ∷ closed ∷ []

walk : Walk received route closed
unfolding assert_transition
walk = move false refl (
    move false refl (
      move false refl (
        move false refl (
          move false refl (
            move false refl (
              move true refl (
                move false refl (
                  move false refl (
                    move false refl
                      (move false refl (move false refl (move false refl here))))))))))))

released_gates_example :
    Memᴰ claim_evidence_accepted route × Memᴰ identity_attested route × Memᴰ reserve_requested route
released_gates_example = released_gates walk at_closed

final_absorbs_example : closed ≡ closed
final_absorbs_example = final_absorbs final_closed here

abbrev accepted_pouch : CaseRecord
accepted_pouch = record pouch {
  accepted_claim_evidence = true;
  identity_attestation_ref = some "identity-att-1";
  approval_ref = some "approval-1";
}

allow_iff_gates_example :
    ((evaluate_release_policy accepted_pouch).outcome ≡ allow_handoff) ↔ ReleaseGates accepted_pouch
allow_iff_gates_example = allow_iff_gates accepted_pouch

allowed : (evaluate_release_policy accepted_pouch).outcome ≡ allow_handoff
unfolding evaluate_release_policy
allowed = refl
