-- ===== src/Simulator/Holding.antt =====
-- What the runs of the store in simulator/app/store.py guarantee of a held and of a released item.
use found_roll.Prelude.{
  String, ◌≡◌, ◌≢◌, refl, sym, ap, ◌∙◌, subst, inl, inr, true, some, is_some, get, arith,
  Option-cases, some_inj,
}
use found_roll.Simulator.{
  FixtureStore, Item, available, released, Reservation, ReservationStatus, held, tokens_issued,
  partially_attested, callback_ready, handoff_attested, expired,
}
use found_roll.Simulator.Codec.{Codec}
use found_roll.Simulator.Consistency.{Agrees, AgreesAt, Agrees-names, BothAttested}
use found_roll.Simulator.Calls.{Reachable, FixtureStore-Consistent}

released_by :
    (q : Reservation) (i : Item) (t : ReservationStatus)
    → AgreesAt t q i
    → i.status ≡ released
    → i.reservation_id ≡ some q.reservation_id
    → (t ≡ handoff_attested) × BothAttested q
released_by q i held h r names = let e = h.0 in absurd (ground (arith, e, r))
released_by q i tokens_issued h r names = let e = h.0 in absurd (ground (arith, e, r))
released_by q i partially_attested h r names = let e = h.0 in absurd (ground (arith, e, r))
released_by q i callback_ready h r names = let e = h.0.0 in absurd (ground (arith, e, r))
released_by q i handoff_attested h r names = (refl, h.2)
released_by q i expired h r names = absurd (h names)

module _ ⦃x : Codec⦄ where
  -- In every store that calls can reach, two reservations of one item that are not expired are the
  -- same one: an item is never held, or released, for two reservations.
  pub exclusive_hold :
      (s : FixtureStore) (id id' : String) (q r : Reservation)
      → Reachable s
      → get s.reservations id ≡ some q
      → get s.reservations id' ≡ some r
      → q.item_id ≡ r.item_id
      → q.status ≢ expired
      → r.status ≢ expired
      → id ≡ id'
  exclusive_hold s id id' q r reach found found' same_item open_q open_r =
      let c = FixtureStore-Consistent s reach in
      let (i, stored, agrees) = c.linked id q found in
      let (j, stored', agrees') = c.linked id' r found' in
      let same : i ≡ j =
        some_inj (sym stored ∙ subst (λ k. get s.items k ≡ some j) (sym same_item) stored') in
      elim (Agrees-names q i agrees) [
        | inl over ↦ absurd (open_q over)
        | inr names ↦ elim (Agrees-names r j agrees') [
          | inl over ↦ absurd (open_r over)
          | inr names' ↦
              sym (c.own_reservation id q found)
              ∙ (some_inj (sym names ∙ (ap (λ (z : Item). z.reservation_id) same ∙ names'))
                  ∙ c.own_reservation id' r found')
        ]
      ]

  -- In every store that calls can reach, a released item names a stored reservation for itself which
  -- is finalised and carries the attestations of both roles.
  pub released_attested :
      (s : FixtureStore) (k : String) (i : Item)
      → Reachable s
      → get s.items k ≡ some i
      → i.status ≡ released
      → (id : String) × (q : Reservation) × (i.reservation_id ≡ some id)
        × (get s.reservations id ≡ some q)
        × (q.item_id ≡ k)
        × (q.status ≡ handoff_attested)
        × (is_some q.attestations.of_custodian ≡ true)
        × (is_some q.attestations.of_claimant ≡ true)
  released_attested s k i reach stored done =
      let c = FixtureStore-Consistent s reach in
      elim (Option-cases i.reservation_id) [
        | inl nothing ↦
            let free : i.status ≡ available = rw nothing at (c.backed k i stored) in
            absurd (ground (arith, free, done))
        | inr (id, names) ↦
            let (q, found, of_item) = rw names at (c.backed k i stored) in
            let at_k : q.item_id ≡ k = of_item ∙ c.own_item k i stored in
            let (j, stored', agrees) = c.linked id q found in
            let same : j ≡ i =
              some_inj (sym (subst (λ z. get s.items z ≡ some j) at_k stored') ∙ stored) in
            let (over, both) =
              released_by q i q.status (subst (λ z. Agrees q z) same agrees) done
                (names ∙ ap some (sym (c.own_reservation id q found))) in
            (id, q, names, found, at_k, over, both.0, both.1)
      ]
