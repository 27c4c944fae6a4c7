-- ===== src/Simulator/Inventory/Listing.antt =====
-- What `list_inventory` of simulator/app/store.py lists, and in which order.
use found_roll.Prelude.{
  ℕ, ◌≤◌, String, ◌≡◌, sym, ◌∙◌, ap, subst, ◌⊎◌, inl, inr, ◌↔◌, true, false, List, [], ◌∷◌, In, All,
  ok, raised, returned, values, arith, Bool-cases, Result-cases, ok_inj, ok≢err, >>=-eq-ok,
  and_then-eq-ok, if◌then◌else◌,
}
use found_roll.Simulator.{FixtureStore, Item}
use found_roll.Simulator.Codec.{Codec}
use found_roll.Simulator.Store.{expire_locked, require_custodian}
use found_roll.Simulator.Inventory.Wanted.{IsWanted, matches_iff}
use found_roll.Simulator.Inventory.{
  InventoryQuery, collect, goes_before, insert_item, list_inventory, matches, newest_first,
}

-- every item was found no earlier than the items after it
abbrev pub IsNewestFirst : List Item → Type 0
IsNewestFirst [] = Unit
IsNewestFirst (a ∷ rest) = All (λ (b : Item). b.found_at ≤ a.found_at) rest × IsNewestFirst rest

In-insert : (i a : Item) (l : List Item) → In i (insert_item a l) ↔ ((a ≡ i) ⊎ In i l)
unfolding insert_item
In-insert i a [] = (λ h. h, λ h. h)
In-insert i a (b ∷ rest) = elim (Bool-cases (goes_before a b)) [
  | inl first ↦ rw first (λ h. h, λ h. h)
  | inr later ↦
      let ih = In-insert i a rest in
      rw later (
        λ h. elim h [
          | inl here ↦ inr (inl here)
          | inr there ↦ elim (ih.0 there) [ inl mine ↦ inl mine | inr other ↦ inr (inr other) ]
        ],
        λ h. elim h [
          | inl mine ↦ inr (ih.1 (inl mine))
          | inr (inl here) ↦ inl here
          | inr (inr other) ↦ inr (ih.1 (inr other))
        ],
      )
]

In-newest_first : (i : Item) (l : List Item) → In i (newest_first l) ↔ In i l
unfolding newest_first
In-newest_first i [] = (λ h. h, λ h. h)
In-newest_first i (a ∷ rest) =
    let ih = In-newest_first i rest in
    let step = In-insert i a (newest_first rest) in
    (
      λ h. elim (step.0 h) [ inl mine ↦ inl mine | inr other ↦ inr (ih.0 other) ],
      λ h. step.1 (elim h [ inl mine ↦ inl mine | inr other ↦ inr (ih.1 other) ]),
    )

goes_before_le : (a b : Item) → goes_before a b ≡ true → b.found_at ≤ a.found_at
unfolding goes_before
goes_before_le a b h = ground arith

not_before_le : (a b : Item) → goes_before a b ≡ false → a.found_at ≤ b.found_at
unfolding goes_before
not_before_le a b h = ground arith

All-insert :
    (P : Item → Type 0) (a : Item) (l : List Item) → P a → All P l → All P (insert_item a l)
unfolding insert_item
All-insert P a [] h all = (h, tt)
All-insert P a (b ∷ rest) h all = elim (Bool-cases (goes_before a b)) [
  | inl first ↦ rw first (h, all)
  | inr later ↦ rw later (all.0, All-insert P a rest h all.1)
]

All-le :
    (a b : Item) (l : List Item)
    → b.found_at ≤ a.found_at
    → All (λ (c : Item). c.found_at ≤ b.found_at) l
    → All (λ (c : Item). c.found_at ≤ a.found_at) l
All-le a b [] le all = tt
All-le a b (c ∷ rest) le all = (omega (arith, all.0, le), All-le a b rest le all.1)

insert-IsNewestFirst :
    (a : Item) (l : List Item) → IsNewestFirst l → IsNewestFirst (insert_item a l)
unfolding insert_item
insert-IsNewestFirst a [] h = (tt, tt)
insert-IsNewestFirst a (b ∷ rest) h = elim (Bool-cases (goes_before a b)) [
  | inl first ↦ let le = goes_before_le a b first in rw first ((le, All-le a b rest le h.0), h)
  | inr later ↦ rw later (
    All-insert (λ (c : Item). c.found_at ≤ b.found_at) a rest (not_before_le a b later) h.0,
    insert-IsNewestFirst a rest h.1,
  )
]

newest_first-IsNewestFirst : (l : List Item) → IsNewestFirst (newest_first l)
unfolding newest_first
newest_first-IsNewestFirst [] = tt
newest_first-IsNewestFirst (a ∷ rest) =
    insert-IsNewestFirst a (newest_first rest) (newest_first-IsNewestFirst rest)

module _ ⦃x : Codec⦄ where
  In-collect :
      (custodian_id : String) (q : InventoryQuery) (l found : List Item) (i : Item)
      → collect custodian_id q l ≡ ok found
      → In i found ↔ (In i l × (matches custodian_id q i ≡ ok true))
  unfolding collect
  In-collect custodian_id q [] found i v =
      (λ h. absurd (subst (λ z. In i z) (sym (ok_inj v)) h), λ h. absurd h.0)
  In-collect custodian_id q (a ∷ rest) found i v =
      let (wanted, m, v1) = >>=-eq-ok (matches custodian_id q a) _ v in
      let (others, c, v2) = >>=-eq-ok (collect custodian_id q rest) _ v1 in
      let ih = In-collect custodian_id q rest others i c in
      let e : (if wanted then a ∷ others else others) ≡ found = ok_inj v2 in
      elim (Bool-cases wanted) [
        | inl taken ↦
            let e' : a ∷ others ≡ found =
              subst (λ b. (if b then a ∷ others else others) ≡ found) taken e in
            (
              λ h. elim (subst (λ z. In i z) (sym e') h) [
                | inl here ↦ (
                  inl here,
                  subst (λ z. matches custodian_id q z ≡ ok true) here (m ∙ ap ok taken),
                )
                | inr there ↦ (inr (ih.0 there).0, (ih.0 there).1)
              ],
              λ h.
                  subst (λ z. In i z) e'
                    (elim h.0 [ inl here ↦ inl here | inr there ↦ inr (ih.1 (there, h.1)) ]),
            )
        | inr dropped ↦
            let e' : others ≡ found =
              subst (λ b. (if b then a ∷ others else others) ≡ found) dropped e in
            (
              λ h. let w = ih.0 (subst (λ z. In i z) (sym e') h) in (inr w.0, w.1),
              λ h.
                  subst (λ z. In i z) e'
                    (elim h.0 [
                      | inl here ↦ absurd (
                          ground (
                            arith,
                            m,
                            dropped,
                            subst (λ z. matches custodian_id q z ≡ ok true) (sym here) h.1,
                          ))
                      | inr there ↦ ih.1 (there, h.1)
                    ]),
            )
      ]

  abbrev IsListing : String → InventoryQuery → List Item → FixtureStore → Type 0
  IsListing custodian_id q listed after =
      ((i : Item)
        → In i listed ↔ (In i (values after.items) × (matches custodian_id q i ≡ ok true)))
      × IsNewestFirst listed

  sorted-IsListing :
      (custodian_id : String) (q : InventoryQuery) (s : FixtureStore) (found : List Item)
      → collect custodian_id q (values s.items) ≡ ok found
      → IsListing custodian_id q (newest_first found) s
  sorted-IsListing custodian_id q s found c = (
    λ i.
        let a = In-newest_first i found in
        let b = In-collect custodian_id q (values s.items) found i c in
        (λ h. b.0 (a.0 h), λ h. a.1 (b.1 h)),
    newest_first-IsNewestFirst found,
  )

  list_inventory-IsListing :
      (custodian_id : String) (q : InventoryQuery) (now : ℕ) (s after : FixtureStore)
      (listed : List Item)
      → list_inventory custodian_id q now s ≡ (ok listed, after)
      → IsListing custodian_id q listed after × (after ≡ (expire_locked now s).1)
  unfolding list_inventory
  list_inventory-IsListing custodian_id q now s after listed v =
      elim (Result-cases (require_custodian s custodian_id)) [
        | raised e p ↦ absurd (ok≢err (sym (ap (λ z. z.0) (rw p at v))))
        | returned owner p ↦
            let (u, mid, swept, w) = and_then-eq-ok (expire_locked now s) _ (rw p at v) in
            let (found, c, e) =
              >>=-eq-ok (collect custodian_id q (values mid.items)) _ (ap (λ z. z.0) w) in
            (
              subst (λ z. IsListing custodian_id q listed z) (ap (λ z. z.1) w)
                  (subst (λ z. IsListing custodian_id q z mid) (ok_inj e)
                    (sorted-IsListing custodian_id q mid found c)),
              sym (ap (λ z. z.1) w) ∙ sym (ap (λ z. z.1) swept),
            )
      ]

  -- A listing that returns holds exactly the items of the store after the sweep of expired reservations
  -- that belong to the custodian and meet every filter that is given: the category, the status, a tag of
  -- the route, the two bounds of the time found, which are aware, and the text somewhere in the item's
  -- words. The items found later stand before those found earlier.
  pub list_inventory_lem :
      (custodian_id : String) (q : InventoryQuery) (now : ℕ) (s after : FixtureStore)
      (listed : List Item)
      → list_inventory custodian_id q now s ≡ (ok listed, after)
      → ((i : Item) → In i listed ↔ (In i (values after.items) × IsWanted custodian_id q i))
        × IsNewestFirst listed
        × (after ≡ (expire_locked now s).1)
  list_inventory_lem custodian_id q now s after listed v =
      let (listing, swept) = list_inventory-IsListing custodian_id q now s after listed v in
      (
        λ i. (
          λ h.
              let (there, matched) = (listing.0 i).0 h in
              (there, (matches_iff custodian_id q i).0 matched),
          λ h. (listing.0 i).1 (h.0, (matches_iff custodian_id q i).1 h.1),
        ),
        listing.1,
        swept,
      )
