-- ===== src/StateMachine.antt =====
-- service/app/state_machine.py: the custody graph and the check that every commit makes.
pub mod Paths
use found_roll.Prelude.{Bool, ◌&&◌, List, [], ◌∷◌, Result, ok, err, conflict, any, if◌then◌else◌}
use found_roll.Domain.{
  CustodyState, CustodyState-discrete, state_eq, received, evidence_ready, analyzing,
  candidates_ready, clarification_required, claim_evidence_accepted, identity_attested,
  approval_required, reserve_requested, reserved, claimant_present, release_requested, closed,
  security_escalation, no_match, manual_review, rejected, reconciliation_required,
}

-- `ALLOWED_TRANSITIONS`
unfoldable pub allowed_transitions : CustodyState → List CustodyState
allowed_transitions received = evidence_ready ∷ security_escalation ∷ []
allowed_transitions evidence_ready = analyzing ∷ []
allowed_transitions analyzing =
    candidates_ready ∷ security_escalation ∷ no_match ∷ manual_review ∷ []
allowed_transitions candidates_ready = clarification_required ∷ claim_evidence_accepted ∷ []
allowed_transitions clarification_required = analyzing ∷ []
allowed_transitions claim_evidence_accepted = identity_attested ∷ []
allowed_transitions identity_attested = approval_required ∷ reserve_requested ∷ []
allowed_transitions approval_required = reserve_requested ∷ rejected ∷ []
allowed_transitions reserve_requested = reserved ∷ reconciliation_required ∷ []
allowed_transitions reserved = claimant_present ∷ CustodyState.expired ∷ []
allowed_transitions claimant_present = release_requested ∷ []
allowed_transitions release_requested = CustodyState.released ∷ reconciliation_required ∷ []
allowed_transitions CustodyState.released = closed ∷ []
allowed_transitions manual_review = analyzing ∷ []
allowed_transitions CustodyState.expired = analyzing ∷ []
allowed_transitions reconciliation_required = reserved ∷ CustodyState.released ∷ []
allowed_transitions closed = []
allowed_transitions security_escalation = []
allowed_transitions no_match = []
allowed_transitions rejected = []

-- `assert_transition`: with `allow_fact_event` a state may stay as it is
unfoldable pub assert_transition : CustodyState → CustodyState → Bool → Result (Unit {0})
unfolding allowed_transitions any CustodyState-discrete
assert_transition current target allow_fact_event =
    if state_eq current target && allow_fact_event
    then ok tt
    else if any (state_eq target) (allowed_transitions current)
    then ok tt
    else err (conflict "invalid_transition")
