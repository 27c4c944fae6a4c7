-- ===== src/StateMachine/Paths.antt =====
-- The walks of the custody graph: what `assert_transition` admits, one transition after another.
use mathlib.Core.List.{Memᴰ}
use found_roll.Prelude.{◌≡◌, refl, sym, ◌⊎◌, inl, inr, ok, Bool, false, true, List, [], ◌∷◌, arith}
use found_roll.Domain.{
  CustodyState, received, evidence_ready, analyzing, candidates_ready, clarification_required,
  claim_evidence_accepted, identity_attested, approval_required, reserve_requested, closed,
  security_escalation, no_match, manual_review, rejected,
}
use found_roll.StateMachine.{assert_transition}

-- `Walk s visited t`: custody moves from `s` to `t` through the states `visited`, `t` the last, by
-- transitions that `assert_transition` admits, those of fact events among them.
pub data Walk : CustodyState → List CustodyState → CustodyState → Type 0 where
  here : {s : CustodyState} → Walk s [] s
  move :
      {s t u : CustodyState} {ts : List CustodyState} (fact : Bool)
      → assert_transition s t fact ≡ ok tt
      → Walk t ts u
      → Walk s (t ∷ ts) u

-- A set of states that a walk leaves only by one state: the walk visits that state.
module _ (early : CustodyState → Bool) (gate : CustodyState)
    (kept : (s t : CustodyState) (fact : Bool)
      → early s ≡ true
      → assert_transition s t fact ≡ ok tt
      → (t ≡ gate) ⊎ (early t ≡ true)) where
  walk_visits :
      {s t : CustodyState} {ts : List CustodyState}
      → Walk s ts t
      → early s ≡ true
      → early t ≡ false
      → Memᴰ gate ts
  walk_visits here e l = cc
  walk_visits (move {s} {t = n} fact a w) e l = elim (kept s n fact e a) [
    | inl p ↦ Memᴰ.head (sym p)
    | inr q ↦ Memᴰ.tail (walk_visits w q l)
  ]

abbrev before_claim : CustodyState → Bool
before_claim received = true
before_claim evidence_ready = true
before_claim analyzing = true
before_claim candidates_ready = true
before_claim clarification_required = true
before_claim security_escalation = true
before_claim no_match = true
before_claim manual_review = true
before_claim _ = false

abbrev before_identity : CustodyState → Bool
before_identity claim_evidence_accepted = true
before_identity s = before_claim s

abbrev before_reserve : CustodyState → Bool
before_reserve identity_attested = true
before_reserve approval_required = true
before_reserve rejected = true
before_reserve s = before_identity s

kept_claim :
    (s t : CustodyState) (fact : Bool)
    → before_claim s ≡ true
    → assert_transition s t fact ≡ ok tt
    → (t ≡ claim_evidence_accepted) ⊎ (before_claim t ≡ true)
unfolding assert_transition
kept_claim received t fact e a = ground arith
kept_claim _ t fact e a = ground arith

kept_identity :
    (s t : CustodyState) (fact : Bool)
    → before_identity s ≡ true
    → assert_transition s t fact ≡ ok tt
    → (t ≡ identity_attested) ⊎ (before_identity t ≡ true)
unfolding assert_transition
kept_identity received t fact e a = ground arith
kept_identity _ t fact e a = ground arith

kept_reserve :
    (s t : CustodyState) (fact : Bool)
    → before_reserve s ≡ true
    → assert_transition s t fact ≡ ok tt
    → (t ≡ reserve_requested) ⊎ (before_reserve t ≡ true)
unfolding assert_transition
kept_reserve received t fact e a = ground arith
kept_reserve _ t fact e a = ground arith

-- the states in which the item has been given out
pub data IsReleased : CustodyState → Type 0 where
  at_released : IsReleased CustodyState.released
  at_closed : IsReleased closed

-- Every walk from RECEIVED to RELEASED or CLOSED visits CLAIM_EVIDENCE_ACCEPTED, IDENTITY_ATTESTED
-- and RESERVE_REQUESTED.
pub released_gates :
    {t : CustodyState} {ts : List CustodyState}
    → Walk received ts t
    → IsReleased t
    → Memᴰ claim_evidence_accepted ts × Memᴰ identity_attested ts × Memᴰ reserve_requested ts
released_gates w at_released = (
  walk_visits before_claim claim_evidence_accepted kept_claim w refl refl,
  walk_visits before_identity identity_attested kept_identity w refl refl,
  walk_visits before_reserve reserve_requested kept_reserve w refl refl,
)
released_gates w at_closed = (
  walk_visits before_claim claim_evidence_accepted kept_claim w refl refl,
  walk_visits before_identity identity_attested kept_identity w refl refl,
  walk_visits before_reserve reserve_requested kept_reserve w refl refl,
)

pub data IsFinal : CustodyState → Type 0 where
  final_closed : IsFinal closed
  final_security : IsFinal security_escalation
  final_no_match : IsFinal no_match
  final_rejected : IsFinal rejected

final_stays :
    {s : CustodyState}
    → IsFinal s
    → (t : CustodyState) (fact : Bool) → assert_transition s t fact ≡ ok tt
    → s ≡ t
unfolding assert_transition
final_stays final_closed t fact a = ground arith
final_stays final_security t fact a = ground arith
final_stays final_no_match t fact a = ground arith
final_stays final_rejected t fact a = ground arith

-- A walk from CLOSED, SECURITY_ESCALATION, NO_MATCH or REJECTED ends where it begins.
pub final_absorbs : {s t : CustodyState} {ts : List CustodyState} → IsFinal s → Walk s ts t → s ≡ t
final_absorbs f here = refl
final_absorbs f (move {t = n} fact a w) =
    let p = final_stays f n fact a in rw p (final_absorbs (rw p at f) w)
