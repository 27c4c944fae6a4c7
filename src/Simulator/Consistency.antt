-- ===== src/Simulator/Consistency.antt =====
-- How the items and the reservations of the fixture store (simulator/app/store.py) refer to each
-- other, and the rule by which a write to one reservation and its item keeps this.
pub mod Expiry
pub mod Writes
pub mod Presentations
use found_roll.Prelude.{
  String, ◌≡◌, ◌≢◌, refl, sym, ap, ◌∙◌, subst, ◌⊎◌, inl, inr, true, false, Option, none, some,
  is_some, get, on_some, arith, eq_iff, Option-cases, Bool-cases, ◌==◌, if◌then◌else◌, some_inj,
  none≢some,
}
use found_roll.Simulator.{
  FixtureStore, Item, ItemStatus, available, released, Reservation, ReservationStatus, held,
  tokens_issued, partially_attested, callback_ready, handoff_attested, expired,
}

-- the item is held for the reservation
abbrev pub Holds : Reservation → Item → Type 0
Holds r i = (i.status ≡ ItemStatus.held) × (i.reservation_id ≡ some r.reservation_id)

-- both roles have presented their tokens
abbrev pub BothAttested : Reservation → Type 0
BothAttested r =
    (is_some r.attestations.of_custodian ≡ true) × (is_some r.attestations.of_claimant ≡ true)

-- what the status of a reservation says of its item
abbrev pub AgreesAt : ReservationStatus → Reservation → Item → Type 0
AgreesAt held r i = Holds r i
AgreesAt tokens_issued r i = Holds r i
AgreesAt partially_attested r i = Holds r i
AgreesAt callback_ready r i = Holds r i × BothAttested r
AgreesAt handoff_attested r i =
    (i.status ≡ released) × (i.reservation_id ≡ some r.reservation_id) × BothAttested r
AgreesAt expired r i = i.reservation_id ≢ some r.reservation_id

abbrev pub Agrees : Reservation → Item → Type 0
Agrees r i = AgreesAt r.status r i

-- the reservation that an item names is stored, and is one for the item
abbrev pub IsBacked : FixtureStore → Item → Type 0
IsBacked s i =
    on_some i.reservation_id
      (λ id. (r : Reservation) × (get s.reservations id ≡ some r) × (r.item_id ≡ i.item_id))
      (i.status ≡ available)

pub record Consistent (s : FixtureStore) : Type 0 where
  pub own_reservation :
      (id : String) (r : Reservation) → get s.reservations id ≡ some r → r.reservation_id ≡ id
  pub own_item : (k : String) (i : Item) → get s.items k ≡ some i → i.item_id ≡ k
  pub linked :
      (id : String) (r : Reservation)
      → get s.reservations id ≡ some r
      → (i : Item) × (get s.items r.item_id ≡ some i) × Agrees r i
  pub backed : (k : String) (i : Item) → get s.items k ≡ some i → IsBacked s i

-- the item names no reservation, or this one
abbrev pub IsFreeFor : String → Item → Type 0
IsFreeFor id i = (i.reservation_id ≡ none) ⊎ (i.reservation_id ≡ some id)

-- `after` is `s` with one reservation and one item written.
pub record Settles (s after : FixtureStore) : Type 0 where
  pub id : String
  pub r : Reservation
  pub i : Item
  pub old : Item
  pub reservations :
      (j : String) → get after.reservations j ≡ (if id == j then some r else get s.reservations j)
  pub items : (k : String) → get after.items k ≡ (if r.item_id == k then some i else get s.items k)
  pub own_reservation : r.reservation_id ≡ id
  pub own_item : i.item_id ≡ r.item_id
  pub old_item : get s.items r.item_id ≡ some old
  pub agrees : Agrees r i
  pub free : IsFreeFor id i
  pub old_free : IsFreeFor id old
  pub unheld : i.reservation_id ≡ none → i.status ≡ available
  pub same_item : (q : Reservation) → get s.reservations id ≡ some q → q.item_id ≡ r.item_id

-- A reservation that is not over, or that is finalised, is the one that its item names.
pub Agrees-names :
    (q : Reservation) (i : Item)
    → Agrees q i
    → (q.status ≡ expired) ⊎ (i.reservation_id ≡ some q.reservation_id)
Agrees-names q i a = split q.status a
  where
    split :
        (t : ReservationStatus)
        → AgreesAt t q i
        → (t ≡ expired) ⊎ (i.reservation_id ≡ some q.reservation_id)
    split held h = inr h.1
    split tokens_issued h = inr h.1
    split partially_attested h = inr h.1
    split callback_ready h = inr (h.0.1)
    split handoff_attested h = inr h.1
    split expired h = inl refl

-- An expired reservation agrees with every item that does not name it.
pub expired-Agrees :
    (q : Reservation) (i : Item)
    → q.status ≡ expired
    → i.reservation_id ≢ some q.reservation_id
    → Agrees q i
expired-Agrees q i e h = rw e h

-- Another reservation of the same item agrees with what is written.
other-Agrees :
    (q : Reservation) (old i : Item) (id : String)
    → Agrees q old
    → q.reservation_id ≢ id
    → IsFreeFor id old
    → IsFreeFor id i
    → Agrees q i
other-Agrees q old i id a ne free_old free = elim (Agrees-names q old a) [
  | inr names ↦ absurd (elim free_old [
    | inl nothing ↦ none≢some (sym nothing ∙ names)
    | inr mine ↦ ne (some_inj (sym names ∙ mine))
  ])
  | inl over ↦ expired-Agrees q i over (λ names. elim free [
    | inl nothing ↦ none≢some (sym nothing ∙ names)
    | inr mine ↦ ne (some_inj (sym names ∙ mine))
  ])
]

module _ (s after : FixtureStore) (c : Consistent s) (w : Settles s after) where
  settles_linked :
      (j : String) (q : Reservation)
      → get after.reservations j ≡ some q
      → (i : Item) × (get after.items q.item_id ≡ some i) × Agrees q i
  settles_linked j q p = elim (Bool-cases (w.id == j)) [
    | inl mine ↦
        let same : w.r ≡ q = some_inj (rw (w.reservations j, mine) at p) in
        subst (λ (z : Reservation). (i : Item) × (get after.items z.item_id ≡ some i) × Agrees z i)
          same
          (w.i, rw (w.items w.r.item_id) (ground (arith, eq_iff w.r.item_id w.r.item_id)), w.agrees)
    | inr other ↦
        let before : get s.reservations j ≡ some q = rw (w.reservations j, other) at p in
        let (i, stored, agrees) = c.linked j q before in
        elim (Bool-cases (w.r.item_id == q.item_id)) [
          | inl here ↦
              let at_item : w.r.item_id ≡ q.item_id =
                ground (arith, eq_iff w.r.item_id q.item_id) in
              let same : i ≡ w.old =
                some_inj
                  (sym stored ∙ subst (λ k. get s.items k ≡ some w.old) at_item w.old_item) in
              (
                w.i,
                rw (w.items q.item_id, here) refl,
                other-Agrees q w.old w.i w.id (subst (λ z. Agrees q z) same agrees)
                    (λ e. ground (arith, eq_iff w.id j, c.own_reservation j q before, e)) w.old_free
                    w.free,
              )
          | inr elsewhere ↦ (i, rw (w.items q.item_id, elsewhere) stored, agrees)
        ]
  ]

  settles-IsBacked : (k : String) (i : Item) → get after.items k ≡ some i → IsBacked after i
  settles-IsBacked k i p = elim (Bool-cases (w.r.item_id == k)) [
    | inl here ↦
        let same : w.i ≡ i = some_inj (rw (w.items k, here) at p) in
        subst (λ z. IsBacked after z) same
          (elim w.free [
            | inl nothing ↦ rw nothing (w.unheld nothing)
            | inr mine ↦
                rw mine
                  (w.r, rw (w.reservations w.id) (ground (arith, eq_iff w.id w.id)), sym w.own_item)
          ])
    | inr elsewhere ↦
        let before : get s.items k ≡ some i = rw (w.items k, elsewhere) at p in
        elim (Option-cases i.reservation_id) [
          | inl nothing ↦ rw nothing (rw nothing at (c.backed k i before))
          | inr (id, names) ↦
              let (q, stored, of_item) = rw names at (c.backed k i before) in
              rw names (
                q,
                elim (Bool-cases (w.id == id)) [
                  | inl mine ↦
                      let e : w.id ≡ id = ground (arith, eq_iff w.id id) in
                      let at_k : w.r.item_id ≡ k =
                        sym (
                          w.same_item q (subst (λ z. get s.reservations z ≡ some q) (sym e) stored))
                        ∙ (of_item ∙ c.own_item k i before) in
                      absurd (ground (arith, eq_iff w.r.item_id k))
                  | inr other ↦ rw (w.reservations id, other) stored
                ],
                of_item,
              )
        ]
  ]

  pub settles-Consistent : Consistent after
  settles-Consistent = record {
    own_reservation = λ j q p. elim (Bool-cases (w.id == j)) [
      | inl mine ↦
          let same : w.r ≡ q = some_inj (rw (w.reservations j, mine) at p) in
          ap (λ (z : Reservation). z.reservation_id) (sym same)
          ∙ (w.own_reservation ∙ ground (arith, eq_iff w.id j))
      | inr other ↦ c.own_reservation j q (rw (w.reservations j, other) at p)
    ];
    own_item = λ k i p. elim (Bool-cases (w.r.item_id == k)) [
      | inl here ↦
          let same : w.i ≡ i = some_inj (rw (w.items k, here) at p) in
          ap (λ (z : Item). z.item_id) (sym same)
          ∙ (w.own_item ∙ ground (arith, eq_iff w.r.item_id k))
      | inr elsewhere ↦ c.own_item k i (rw (w.items k, elsewhere) at p)
    ];
    linked = settles_linked;
    backed = settles-IsBacked;
  }
