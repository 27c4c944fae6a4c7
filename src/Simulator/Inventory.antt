-- ===== src/Simulator/Inventory.antt =====
-- `list_inventory` and `get_inventory_item` of simulator/app/store.py.
pub mod Filters
pub mod Wanted
pub mod Listing
use Prim.Native.Nat.{Ordering}
use Prim.Native.String.{compare as compare_text}
use text.Mathlib.Text.{starts_with}
use found_roll.Prelude.{
  ℕ, String, Bool, true, false, not, ◌&&◌, ◌||◌, Option, none, some, List, [], ◌∷◌, ◌++◌, Result,
  ok, err, Exec, domain, ltb, ◌==◌, eqb, any, values, raise_if, and_then, on_ok, on_some, ◌>>=◌,
  ◌>>◌, ◌<>◌, if◌then◌else◌,
}
use found_roll.Simulator.{FixtureStore, Item, ItemStatus, available, released, parse_datetime}
use found_roll.Simulator.Requests.{Timestamp, aware_instant}
use found_roll.Simulator.Codec.{Codec}
use found_roll.Simulator.Store.{expire_locked, require_custodian, require_item}

-- the optional arguments of `list_inventory`
pub record InventoryQuery : Type 0 where
  pub category : Option String
  pub status : Option String
  pub route : Option String
  pub found_after : Option Timestamp
  pub found_before : Option Timestamp
  pub query : Option String

abbrev pub item_status_word : ItemStatus → String
item_status_word available = "AVAILABLE"
item_status_word ItemStatus.held = "HELD"
item_status_word released = "RELEASED"

-- `t in s`
unfoldable pub contains : String → String → Bool
contains String.[] t = t == ""
contains (String.◌∷◌ c s) t = starts_with (String.◌∷◌ c s) t || contains s t

-- `value and test(value)`
abbrev pub given : Option String → (String → Bool) → Bool
given value test = on_some value (λ v. not (v == "") && test v) false

unfoldable pub join_tags : List String → String
join_tags [] = ""
join_tags (t ∷ ts) = " " <> t <> join_tags ts

-- `found_at < self._aware(found_after)` and its mirror image
unfoldable pub excluded_by_time : Option Timestamp → (ℕ → Bool) → Result Bool
unfolding aware_instant
excluded_by_time bound test =
    on_some bound (λ t. aware_instant t >>= λ instant. ok (test instant)) (ok false)

-- newest first: a later `found_at`, or the same and a later identifier
unfoldable pub goes_before : Item → Item → Bool
goes_before a b =
    if ltb b.found_at a.found_at
    then true
    else if eqb a.found_at b.found_at
    then elim (compare_text a.item_id b.item_id) [ Ordering.lt ↦ false | _ ↦ true ]
    else false

-- `sorted(items, key=…, reverse=True)`, by insertion
unfoldable pub insert_item : Item → List Item → List Item
unfolding goes_before
insert_item a [] = a ∷ []
insert_item a (b ∷ rest) =
    let later = insert_item a rest in if goes_before a b then a ∷ (b ∷ rest) else b ∷ later

unfoldable pub newest_first : List Item → List Item
unfolding insert_item
newest_first [] = []
newest_first (a ∷ rest) = insert_item a (newest_first rest)

module _ ⦃x : Codec⦄ where
  -- whether the loop of `list_inventory` appends the item
  unfoldable pub matches : String → InventoryQuery → Item → Result Bool
  unfolding contains join_tags excluded_by_time parse_datetime
  matches custodian_id q item =
      if not (item.custodian_id == custodian_id)
        || given q.category (λ c. not (x.casefold item.category == x.casefold c))
        || given q.status (λ s. not (item_status_word item.status == x.upper s))
        || given q.route (λ r. not (any (λ tag. x.casefold tag == x.casefold r) item.route_tags))
      then ok false
      else (excluded_by_time q.found_after (λ t. ltb (parse_datetime item.found_at) t) >>= λ early.
          if early
          then ok false
          else (excluded_by_time q.found_before (λ t. ltb t (parse_datetime item.found_at))
              >>= λ late.
                  if late
                  then ok false
                  else ok (
                      not (
                        given q.query (λ text. not (
                          contains
                            (x.casefold (
                              item.item_id
                              <> " "
                              <> item.category
                              <> " "
                              <> item.coarse_description
                              <> " "
                              <> item.found_zone
                              <> join_tags item.route_tags))
                            (x.casefold text)))))))

  unfoldable pub collect : String → InventoryQuery → List Item → Result (List Item)
  unfolding matches
  collect custodian_id q [] = ok []
  collect custodian_id q (item ∷ rest) =
      let others = collect custodian_id q rest in
      matches custodian_id q item >>= λ wanted.
      others >>= λ found. ok (if wanted then item ∷ found else found)

  -- `list_inventory`
  unfoldable pub list_inventory : String → InventoryQuery → ℕ → Exec FixtureStore (List Item)
  unfolding require_custodian expire_locked collect newest_first
  list_inventory custodian_id q now store =
      on_ok (require_custodian store custodian_id) store (λ owner.
        and_then (expire_locked now store) (λ _ current. (
          collect custodian_id q (values current.items) >>= λ found. ok (newest_first found),
          current,
        )))

  -- `get_inventory_item`
  unfoldable pub get_inventory_item : String → String → ℕ → Exec FixtureStore Item
  unfolding require_custodian require_item expire_locked
  get_inventory_item custodian_id item_id now store =
      on_ok (require_custodian store custodian_id) store (λ owner.
        and_then (expire_locked now store) (λ _ current. (
          require_item current item_id >>= λ item.
              raise_if (not (item.custodian_id == custodian_id)) (domain 404 "ITEM_NOT_FOUND")
              >> ok item,
          current,
        )))
