-- ===== src/Simulator/Calls.antt =====
-- The runs of `FixtureStore` in simulator/app/store.py: any sequence of calls from the fixture. Its
-- lock makes every method one step.
use found_roll.Prelude.{
  String, ◌≡◌, refl, inl, inr, none, some, List, [], ◌∷◌, All, get, get-nil, arith, eq_iff,
  Bool-cases, some_inj, none≢some, ◌==◌,
}
use found_roll.Simulator.{FixtureStore, Item, available}
use found_roll.Simulator.Codec.{Codec}
use found_roll.Simulator.Frame.{Command, Frame, Frame-Command}
use found_roll.Simulator.Fixture.{by_item_id, fixture, seed_items}
use found_roll.Simulator.Consistency.{Consistent}
use found_roll.Simulator.Consistency.Expiry.{Round-Consistent}
use found_roll.Simulator.Consistency.Writes.{issue_new-Consistent, reserve_new-Consistent}
use found_roll.Simulator.Consistency.Presentations.{attest_new-Consistent, finalize_new-Consistent}

abbrev IsFresh : Item → Type 0
IsFresh i = (i.status ≡ available) × (i.reservation_id ≡ none)

by_item_id-get :
    (l : List Item) (k : String) (i : Item)
    → All IsFresh l
    → get (by_item_id l) k ≡ some i
    → (i.item_id ≡ k) × IsFresh i
unfolding by_item_id get
by_item_id-get [] k i fresh p = absurd (none≢some p)
by_item_id-get (j ∷ l) k i fresh p = elim (Bool-cases (j.item_id == k)) [
  | inl here ↦
      let same : j ≡ i = some_inj (rw here at p) in
      rw (← same) (ground (arith, eq_iff j.item_id k), fresh.0)
  | inr elsewhere ↦ by_item_id-get l k i fresh.1 (rw elsewhere at p)
]

module _ ⦃x : Codec⦄ where
  seed_items-IsFresh : All IsFresh seed_items
  seed_items-IsFresh = (
    (refl, refl),
    (
      (refl, refl),
      (
        (refl, refl),
        (
          (refl, refl),
          ((refl, refl), ((refl, refl), ((refl, refl), ((refl, refl), ((refl, refl), tt))))),
        ),
      ),
    ),
  )

  fixture-Consistent : Consistent fixture
  unfolding fixture
  fixture-Consistent = record {
    own_reservation = λ id r p. absurd (none≢some (rw get-nil at p));
    own_item = λ k i p. (by_item_id-get seed_items k i seed_items-IsFresh p).0;
    linked = λ id r p. absurd (none≢some (rw get-nil at p));
    backed = λ k i p.
        let (own, fresh) = by_item_id-get seed_items k i seed_items-IsFresh p in rw fresh.1 fresh.0;
  }

  pub data Call (s : FixtureStore) : FixtureStore → Type 0 where
    reset : Call s fixture
    command : {after : FixtureStore} → Command s after → Call s after

  pub data Reachable : FixtureStore → Type 0 where
    start : Reachable fixture
    next : {s after : FixtureStore} → Reachable s → Call s after → Reachable after

  Consistent-frame : Frame (λ s after. Consistent s → Consistent after)
  Consistent-frame = record {
    same = λ s c. c;
    chain = λ s t u f g c. g (f c);
    round = λ now key s after _ w c. Round-Consistent now key s after c w;
    reserve = λ request now s _ fresh c. reserve_new-Consistent s request now c fresh;
    issue = λ id request secret now s _ c. issue_new-Consistent s id request secret now c;
    attest = λ id request now s _ c. attest_new-Consistent s id request now c;
    finalize = λ id request secret now s _ c. finalize_new-Consistent s id request secret now c;
  }

  pub Command-Consistent :
      (s after : FixtureStore) → Consistent s → Command s after → Consistent after
  Command-Consistent s after c call = Frame-Command _ Consistent-frame s after c call c

  Call-Consistent : (s after : FixtureStore) → Consistent s → Call s after → Consistent after
  Call-Consistent s after c reset = fixture-Consistent
  Call-Consistent s after c (command call) = Command-Consistent s after c call

  -- In every store that calls can reach, each reservation and its item agree: a reservation that is
  -- not over holds its item, one that is ready for the callback has both attestations, a finalised one
  -- has both and its item is released, and an expired one is not named by its item. And each item
  -- names a stored reservation for itself, or none, and is available then.
  pub FixtureStore-Consistent : (s : FixtureStore) → Reachable s → Consistent s
  FixtureStore-Consistent s start = fixture-Consistent
  FixtureStore-Consistent s (next {s = before} r call) =
      Call-Consistent before s (FixtureStore-Consistent before r) call
