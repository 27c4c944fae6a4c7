-- ===== src/Repository/Chain/Gates.antt =====
-- What the log of a case tells of the way that the case has taken.
use mathlib.Core.List.{Memᴰ}
use found_roll.Prelude.{ℕ, ◌+◌, String, ◌≡◌, subst, sym, true, some, List, [], ◌∷◌, ok, get}
use found_roll.StateMachine.{assert_transition}
use found_roll.Prelude.Json.{Hashing}
use found_roll.Domain.{
  CaseRecord, CustodyState, EventRecord, received, claim_evidence_accepted, identity_attested,
  reserve_requested,
}
use found_roll.StateMachine.Paths.{Walk, here, move, IsReleased, released_gates}
use found_roll.Repository.{Repo}
use found_roll.Repository.Chain.{Linked, History}
use found_roll.Repository.Chain.Methods.{Reachable, Reachable-Consistent}

-- the states that the events of a log went to
abbrev pub visited : List EventRecord → List CustodyState
visited [] = []
visited (e ∷ es) = e.to_state ∷ visited es

abbrev pub VisitsGates : List CustodyState → Type 0
VisitsGates states =
    Memᴰ claim_evidence_accepted states
    × Memᴰ identity_attested states
    × Memᴰ reserve_requested states

module _ ⦃h : Hashing⦄ where
  Linked-Walk :
      (n : ℕ) (prev : String) (st : CustodyState) (es : List EventRecord) (c : CaseRecord)
      → Linked n prev st es c
      → Walk st (visited es) c.state
  Linked-Walk n prev st [] c l = subst (λ s. Walk st [] s) (sym l.2) here
  Linked-Walk n prev st (e ∷ es) c l =
      move true (subst (λ s. assert_transition s e.to_state true ≡ ok tt) l.3 l.4)
        (Linked-Walk (n + 1) e.event_hash e.to_state es c l.5)

  History-gates :
      (es : List EventRecord) (c : CaseRecord)
      → History es c
      → IsReleased c.state
      → VisitsGates (visited es)
  History-gates [] c l r = absurd l
  History-gates (e ∷ es) c l r =
      let (a, b, d) = released_gates (Linked-Walk 1 e.event_hash received es c l.4) r in
      (Memᴰ.tail a, Memᴰ.tail b, Memᴰ.tail d)

  -- In every repository that calls of the methods can reach, a case in RELEASED or CLOSED has a
  -- log, and the log has events that went to CLAIM_EVIDENCE_ACCEPTED, to IDENTITY_ATTESTED and to
  -- RESERVE_REQUESTED.
  pub released_has_gates :
      {repo : Repo} (k : String) (c : CaseRecord)
      → Reachable repo
      → get repo.cases k ≡ some c
      → IsReleased c.state
      → (es : List EventRecord) × (get repo.events k ≡ some es) × VisitsGates (visited es)
  released_has_gates k c r found at =
      let l = (Reachable-Consistent r).at k c found in
      (l.events, l.logged, History-gates l.events c l.history at)
