-- ===== src/Simulator/Consistency/Expiry.antt =====
-- `_expire_locked` of simulator/app/store.py on a consistent store: it never raises, and it keeps the
-- store consistent.
use found_roll.Prelude.{
  ℕ, String, ◌≡◌, refl, sym, ap, ◌∙◌, inl, inr, true, false, none, some, List, [], ◌∷◌, ok, get,
  put, get-put, keys, ltb, ◌||◌, arith, eq_refl, Option-cases, Bool-cases, some_inj, none≢some,
}
use found_roll.Simulator.{
  FixtureStore, Item, ItemStatus-discrete, available, Reservation, ReservationStatus, held,
  tokens_issued, partially_attested, callback_ready, handoff_attested, expired,
  ReservationStatus-discrete, parse_datetime,
}
use found_roll.Simulator.Codec.{Codec}
use found_roll.Simulator.Store.{
  is_over, expired_reservation, freed_item, expire_one, expire_each, expire_locked,
}
use found_roll.Simulator.Consistency.{
  Agrees, AgreesAt, Consistent, Holds, Settles, settles-Consistent,
}

-- A reservation that is not over holds its item.
pub active-Holds : (r : Reservation) (i : Item) → is_over r.status ≡ false → Agrees r i → Holds r i
unfolding is_over ReservationStatus-discrete
active-Holds r i = split r.status
  where
    split : (t : ReservationStatus) → is_over t ≡ false → AgreesAt t r i → Holds r i
    split held e h = h
    split tokens_issued e h = h
    split partially_attested e h = h
    split callback_ready e h = h.0
    split handoff_attested e h = absurd (ground arith)
    split expired e h = absurd (ground arith)

module _ ⦃x : Codec⦄ where
  -- a held item is freed when its reservation expires
  pub freed_item-Holds :
      (i : Item) (r : Reservation)
      → Holds r i
      → ((freed_item i r).reservation_id ≡ none)
        × ((freed_item i r).status ≡ available)
        × ((freed_item i r).item_id ≡ i.item_id)
  unfolding freed_item ItemStatus-discrete
  freed_item-Holds i r h =
      let same = eq_refl r.reservation_id in rw (h.0, h.1, same) (refl, refl, refl)

  -- what a round does to the reservation of its key
  pub data Round (now : ℕ) (key : String) (s after : FixtureStore) : Type 0 where
    skipped : get s.reservations key ≡ none → after ≡ s → Round now key s after
    kept :
        (r : Reservation)
        → get s.reservations key ≡ some r
        → is_over r.status || ltb now (parse_datetime r.expires_at) ≡ true
        → after ≡ s
        → Round now key s after
    lapsed :
        (r : Reservation) (i : Item)
        → get s.reservations key ≡ some r
        → get s.items r.item_id ≡ some i
        → is_over r.status || ltb now (parse_datetime r.expires_at) ≡ false
        → after ≡ record s {
          reservations = put s.reservations key (expired_reservation r now);
          items = put s.items r.item_id (freed_item i r);
        }
        → Round now key s after

  -- A round on a consistent store does not raise.
  pub expire_one-Round :
      (now : ℕ) (key : String) (s : FixtureStore)
      → Consistent s
      → ((expire_one now key s).0 ≡ ok tt) × Round now key s (expire_one now key s).1
  unfolding expire_one
  expire_one-Round now key s c = elim (Option-cases (get s.reservations key)) [
    | inl missing ↦ rw missing (refl, skipped missing refl)
    | inr (r, found) ↦
        let (i, stored, agrees) = c.linked key r found in
        elim (Bool-cases (is_over r.status || ltb now (parse_datetime r.expires_at))) [
          | inl stays ↦ rw (found, stays) (refl, kept r found stays refl)
          | inr ends ↦ rw (found, ends, stored) (refl, lapsed r i found stored ends refl)
        ]
  ]

  lapsed-Settles :
      (now : ℕ) (key : String) (s : FixtureStore) (r : Reservation) (i : Item)
      → Consistent s
      → get s.reservations key ≡ some r
      → get s.items r.item_id ≡ some i
      → is_over r.status || ltb now (parse_datetime r.expires_at) ≡ false
      → Settles s (record s {
        reservations = put s.reservations key (expired_reservation r now);
        items = put s.items r.item_id (freed_item i r);
      })
  unfolding expired_reservation
  lapsed-Settles now key s r i c found stored ends =
      let (i', stored', agrees) = c.linked key r found in
      let same : i' ≡ i = some_inj (sym stored' ∙ stored) in
      let h : Holds r i = active-Holds r i (ground (arith, ends)) (rw same at agrees) in
      let (nothing, free, named) = freed_item-Holds i r h in
      record {
        id = key;
        r = expired_reservation r now;
        i = freed_item i r;
        old = i;
        reservations = λ j. get-put s.reservations key j (expired_reservation r now);
        items = λ k. get-put s.items r.item_id k (freed_item i r);
        own_reservation = c.own_reservation key r found;
        own_item = named ∙ c.own_item r.item_id i stored;
        old_item = stored;
        agrees = λ e. none≢some (sym nothing ∙ e);
        free = inl nothing;
        old_free = inr (h.1 ∙ ap some (c.own_reservation key r found));
        unheld = λ e. free;
        same_item = λ q p. ap (λ (z : Reservation). z.item_id) (some_inj (sym p ∙ found));
      }

  pub Round-Consistent :
      (now : ℕ) (key : String) (s after : FixtureStore)
      → Consistent s
      → Round now key s after
      → Consistent after
  Round-Consistent now key s after c (skipped missing same) = rw same c
  Round-Consistent now key s after c (kept r found stays same) = rw same c
  Round-Consistent now key s after c (lapsed r i found stored ends same) =
      rw same (settles-Consistent s _ c (lapsed-Settles now key s r i c found stored ends))

  pub expire_one-Consistent :
      (now : ℕ) (key : String) (s : FixtureStore)
      → Consistent s
      → Consistent (expire_one now key s).1
  expire_one-Consistent now key s c =
      Round-Consistent now key s (expire_one now key s).1 c (expire_one-Round now key s c).1

  -- a round that did not raise is followed by the others
  pub expire_each-cons :
      (now : ℕ) (key : String) (rest : List String) (s : FixtureStore)
      → Consistent s
      → expire_each now (key ∷ rest) s ≡ expire_each now rest (expire_one now key s).1
  unfolding expire_each
  expire_each-cons now key rest s c = ground (arith, (expire_one-Round now key s c).0)

  pub expire_each-Consistent :
      (now : ℕ) (ids : List String) (s : FixtureStore)
      → Consistent s
      → ((expire_each now ids s).0 ≡ ok tt) × Consistent (expire_each now ids s).1
  unfolding expire_each
  expire_each-Consistent now [] s c = (refl, c)
  expire_each-Consistent now (key ∷ rest) s c =
      rw (expire_each-cons now key rest s c) (
        expire_each-Consistent now rest (expire_one now key s).1
          (expire_one-Consistent now key s c))

  pub expire_locked-Consistent :
      (now : ℕ) (s : FixtureStore)
      → Consistent s
      → (expire_locked now s ≡ (ok tt, (expire_locked now s).1))
        × Consistent (expire_locked now s).1
  unfolding expire_locked
  expire_locked-Consistent now s c =
      let (returns, keeps) = expire_each-Consistent now (keys s.reservations) s c in
      (λ i. (returns i, (expire_locked now s).1), keeps)
