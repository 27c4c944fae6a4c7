-- ===== src/Simulator/Inventory/Wanted.antt =====
-- The items that a query of `list_inventory` in simulator/app/store.py asks for, apart from the tests of
-- the code.
use found_roll.Prelude.{
  ℕ, ◌≤◌, String, ◌≡◌, refl, ap, ◌∙◌, ◌↔◌, Bool, true, false, not, ◌||◌, some, In, Result, ok,
  arith, eq_iff, ltb, any, ok_inj, >>=-eq-ok, ◌==◌, ◌<>◌, if◌then◌else◌,
}
use found_roll.Simulator.{Item, parse_datetime}
use found_roll.Simulator.Requests.{Timestamp, aware}
use found_roll.Simulator.Codec.{Codec}
use found_roll.Simulator.Inventory.{
  InventoryQuery, contains, excluded_by_time, given, item_status_word, join_tags, matches,
}
use found_roll.Simulator.Inventory.Filters.{
  Within, Asks, contains_iff, given_iff, any_iff, excluded_iff,
}

abbrev searched : Item → String
searched item =
    item.item_id
    <> " "
    <> item.category
    <> " "
    <> item.coarse_description
    <> " "
    <> item.found_zone
    <> join_tags item.route_tags

pub record IsWanted ⦃x : Codec⦄ (custodian_id : String) (q : InventoryQuery) (item : Item)
    : Type 0 where
  pub own : item.custodian_id ≡ custodian_id
  pub category : Asks q.category (λ c. x.casefold item.category ≡ x.casefold c)
  pub status : Asks q.status (λ s. item_status_word item.status ≡ x.upper s)
  pub route :
      Asks q.route (λ r. (tag : String) × In tag item.route_tags × (x.casefold tag ≡ x.casefold r))
  pub found_after :
      (t : Timestamp)
      → q.found_after ≡ some t
      → (instant : ℕ) × (t ≡ aware instant) × (instant ≤ parse_datetime item.found_at)
  pub found_before :
      (t : Timestamp)
      → q.found_before ≡ some t
      → (instant : ℕ) × (t ≡ aware instant) × (parse_datetime item.found_at ≤ instant)
  pub query : Asks q.query (λ t. Within (x.casefold t) (x.casefold (searched item)))

kept_on :
    (skip : Bool) (rest : Result Bool)
    → (if skip then ok false else rest) ≡ ok true
    → (skip ≡ false) × (rest ≡ ok true)
kept_on true rest e = absurd (ground arith)
kept_on false rest e = (refl, e)

no_one :
    (a b c e : Bool)
    → a || b || c || e ≡ false
    → (a ≡ false) × (b ≡ false) × (c ≡ false) × (e ≡ false)
no_one a b c e v = (ground arith, ground arith, ground arith, ground arith)

passes_eq : (a b : String) → not (a == b) ≡ false → a ≡ b
passes_eq a b e = ground (arith, eq_iff a b)

eq_passes : (a b : String) → a ≡ b → not (a == b) ≡ false
eq_passes a b e = ground (arith, e, eq_iff a b)

refuted_twice : (b : Bool) → not b ≡ false → b ≡ true
refuted_twice b e = ground arith

refuted : (b : Bool) → not b ≡ true → b ≡ false
refuted b e = ground arith

ltb_not : (a b : ℕ) → ltb a b ≡ false → b ≤ a
ltb_not a b e = ground arith

not_ltb : (a b : ℕ) → b ≤ a → ltb a b ≡ false
not_ltb a b e = ground arith

module _ ⦃x : Codec⦄ where
  matches-IsWanted :
      (custodian_id : String) (q : InventoryQuery) (item : Item)
      → matches custodian_id q item ≡ ok true
      → IsWanted custodian_id q item
  unfolding matches
  matches-IsWanted custodian_id q item v =
      let not_category = λ (c : String). not (x.casefold item.category == x.casefold c) in
      let not_status = λ (s : String). not (item_status_word item.status == x.upper s) in
      let on_route = λ (r tag : String). x.casefold tag == x.casefold r in
      let not_route = λ (r : String). not (any (on_route r) item.route_tags) in
      let not_text = λ (t : String). not (contains (x.casefold (searched item)) (x.casefold t)) in
      let instant = parse_datetime item.found_at in
      let (plain, v1) = kept_on _ _ v in
      let (early, at_early, v2) =
        >>=-eq-ok (excluded_by_time q.found_after (λ t. ltb instant t)) _ v1 in
      let (not_early, v3) = kept_on early _ v2 in
      let (late, at_late, v4) =
        >>=-eq-ok (excluded_by_time q.found_before (λ t. ltb t instant)) _ v3 in
      let (not_late, v5) = kept_on late _ v4 in
      let (own, category, status, route) =
        no_one (not (item.custodian_id == custodian_id)) (given q.category not_category)
          (given q.status not_status) (given q.route not_route) plain in
      record {
        own = passes_eq item.custodian_id custodian_id own;
        category = λ c p full.
            passes_eq (x.casefold item.category) (x.casefold c)
              ((given_iff q.category not_category).0 category c p full);
        status = λ s p full.
            passes_eq (item_status_word item.status) (x.upper s)
              ((given_iff q.status not_status).0 status s p full);
        route = λ r p full.
            let (tag, there, same) = (any_iff (on_route r) item.route_tags).0 (
              refuted_twice (any (on_route r) item.route_tags)
                ((given_iff q.route not_route).0 route r p full)) in
            (tag, there, ground (arith, same, eq_iff (x.casefold tag) (x.casefold r)));
        found_after = λ t p.
            let (when, same, inside) =
              (excluded_iff q.found_after (λ t. ltb instant t)).0 (at_early ∙ ap ok not_early) t
                p in
            (when, same, ltb_not instant when inside);
        found_before = λ t p.
            let (when, same, inside) =
              (excluded_iff q.found_before (λ t. ltb t instant)).0 (at_late ∙ ap ok not_late) t p in
            (when, same, ltb_not when instant inside);
        query = λ t p full. (contains_iff (x.casefold (searched item)) (x.casefold t)).0 (
            refuted_twice (contains (x.casefold (searched item)) (x.casefold t)) (
              (given_iff q.query not_text).0 (refuted (given q.query not_text) (ok_inj v5)) t p
                full));
      }

  IsWanted-matches :
      (custodian_id : String) (q : InventoryQuery) (item : Item)
      → IsWanted custodian_id q item
      → matches custodian_id q item ≡ ok true
  unfolding matches
  IsWanted-matches custodian_id q item w =
      let on_route = λ (r tag : String). x.casefold tag == x.casefold r in
      let instant = parse_datetime item.found_at in
      let category =
        (given_iff q.category (λ c. not (x.casefold item.category == x.casefold c))).1
          (λ c p full. eq_passes (x.casefold item.category) (x.casefold c) (w.category c p full)) in
      let status =
        (given_iff q.status (λ s. not (item_status_word item.status == x.upper s))).1
          (λ s p full. eq_passes (item_status_word item.status) (x.upper s) (w.status s p full)) in
      let route = (given_iff q.route (λ r. not (any (on_route r) item.route_tags))).1 (λ r p full.
        let (tag, there, same) = w.route r p full in
        let found =
          (any_iff (on_route r) item.route_tags).1
            (tag, there, ground (arith, same, eq_iff (x.casefold tag) (x.casefold r))) in
        rw found refl) in
      let early = (excluded_iff q.found_after (λ t. ltb instant t)).1 (λ t p.
        let (when, same, inside) = w.found_after t p in
        (when, same, not_ltb instant when inside)) in
      let late = (excluded_iff q.found_before (λ t. ltb t instant)).1 (λ t p.
        let (when, same, inside) = w.found_before t p in
        (when, same, not_ltb when instant inside)) in
      let text =
        (given_iff q.query (λ t. not (contains (x.casefold (searched item)) (x.casefold t)))).1
          (λ t p full.
            let found =
              (contains_iff (x.casefold (searched item)) (x.casefold t)).1 (w.query t p full) in
            rw found refl) in
      let own = eq_passes item.custodian_id custodian_id w.own in
      rw (own, category, status, route, early, late, text) refl

  pub matches_iff :
      (custodian_id : String) (q : InventoryQuery) (item : Item)
      → (matches custodian_id q item ≡ ok true) ↔ IsWanted custodian_id q item
  matches_iff custodian_id q item =
      (matches-IsWanted custodian_id q item, IsWanted-matches custodian_id q item)
