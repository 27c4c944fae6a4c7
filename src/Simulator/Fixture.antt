-- ===== src/Simulator/Fixture.antt =====
-- The fixture of simulator/app/store.py: `reset`, `fixture_summary` and `list_custodians`.
use found_roll.Prelude.{ℕ, String, Option, none, some, List, [], ◌∷◌, Dict, length, on_some}
use found_roll.Simulator.{Custodian, FixtureStore, Item, available}
use found_roll.Simulator.Codec.{Codec, make_etag}

abbrev custodian_row : String → String → String → String → String × Custodian
custodian_row id name operator_type namespace = (
  id,
  record { custodian_id = id; name = name; operator_type = operator_type; namespace = namespace },
)

abbrev pub fixture_custodians : Dict Custodian
fixture_custodians =
    custodian_row "northport-air" "Northport Air" "fictional airport" "NPA"
    ∷ custodian_row "metro-loop" "Metro Loop" "fictional transit operator" "MTL"
    ∷ custodian_row "grand-hall" "Grand Hall" "fictional conference venue" "GHH"
    ∷ []

pub record FixtureSummary : Type 0 where
  pub custodian_count : ℕ
  pub inventory_item_count : ℕ
  pub reservation_count : ℕ

-- `fixture_summary`, without the constant version
unfoldable pub fixture_summary : FixtureStore → FixtureSummary
fixture_summary store = record {
  custodian_count = length store.custodians;
  inventory_item_count = length store.items;
  reservation_count = length store.reservations;
}

-- the items by their identifiers
unfoldable pub by_item_id : List Item → Dict Item
by_item_id [] = []
by_item_id (item ∷ rest) = (item.item_id, item) ∷ by_item_id rest

module _ ⦃x : Codec⦄ where
  -- an item of the fixture, with its first version and eTag
  abbrev pub seed :
      String
      → String
      → String
      → String
      → String
      → ℕ
      → String
      → List String
      → String
      → String
      → ℕ
      → Option String
      → Item
  seed item_id custodian_id remote_key category coarse_description found_at found_zone route_tags
        storage_slot risk_tier version initial_etag =
      record {
        item_id = item_id;
        custodian_id = custodian_id;
        remote_key = remote_key;
        category = category;
        coarse_description = coarse_description;
        found_at = found_at;
        found_zone = found_zone;
        route_tags = route_tags;
        storage_slot = storage_slot;
        risk_tier = risk_tier;
        status = available;
        version = version;
        etag = on_some initial_etag (λ etag. etag) (make_etag "item" item_id version);
        reservation_id = none;
      }

  abbrev pub seed_items : List Item
  seed_items =
      seed "NA-PCH-231" "northport-air" "na-terminal-c-20260828-231" "camera_pouch"
        "Compact black padded camera pouch with a grey pull and repaired corner seam." 1787951220
        "Terminal C security return" ("conference-airport" ∷ "metro-blue" ∷ "terminal-c" ∷ [])
        "SIM-NPA-B17" "VALUABLE" 5 (some "\"na-231-v5\"")
      ∷ seed "NPA-UMB-011" "northport-air" "npa-intake-20260829-011" "umbrella"
          "Compact navy umbrella with a curved handle." 1788008520 "Terminal 2 security benches"
          ("terminal-2" ∷ []) "SIM-NPA-A03" "ORDINARY" 1 (none)
      ∷ seed "NPA-AUD-019" "northport-air" "npa-intake-20260829-019" "headphones"
          "Black over-ear headphones in a fabric sleeve." 1788007440 "Gate N18 seating"
          ("terminal-2" ∷ "gate-n18" ∷ []) "SIM-NPA-C09" "VALUABLE" 1 (none)
      ∷ seed "ML-PCH-219" "metro-loop" "ml-blue-20260828-219" "camera_pouch"
          "Small black camera pouch with a grey zipper pull." 1787948100 "Blue Line car 714"
          ("conference-airport" ∷ "metro-blue" ∷ "car-714" ∷ []) "SIM-MTL-LF22" "VALUABLE" 2
          (some "\"ml-219-v2\"")
      ∷ seed "MTL-TOT-064" "metro-loop" "mtl-red-20260829-064" "tote"
          "Empty tan canvas tote with blue handles." 1787998620 "Red Line platform 3"
          ("metro-red" ∷ "platform-3" ∷ []) "SIM-MTL-LF08" "ORDINARY" 1 (none)
      ∷ seed "MTL-BOK-031" "metro-loop" "mtl-green-20260829-031" "book"
          "Paperback travel guide with a green cover." 1787994480 "Green Line interchange"
          ("metro-green" ∷ "interchange" ∷ []) "SIM-MTL-LF04" "ORDINARY" 1 (none)
      ∷ seed "GH-PCH-104" "grand-hall" "gh-coat-check-20260828-104" "camera_pouch"
          "Compact black padded camera pouch with a top zip." 1787942520 "Coat Check B"
          ("conference-airport" ∷ "grand-hall" ∷ "coat-check-b" ∷ []) "SIM-GHH-D12" "VALUABLE" 3
          (some "\"gh-104-v3\"")
      ∷ seed "GHH-CHG-024" "grand-hall" "ghh-halla-20260829-024" "charger"
          "White laptop charger with a coiled cable." 1788003360 "Hall A press table"
          ("grand-hall" ∷ "hall-a" ∷ []) "SIM-GHH-E02" "VALUABLE" 1 (none)
      ∷ seed "GHH-GLS-015" "grand-hall" "ghh-cafe-20260829-015" "glasses"
          "Reading glasses in a blue hard case." 1788000660 "Atrium cafe"
          ("grand-hall" ∷ "atrium" ∷ []) "SIM-GHH-C06" "ORDINARY" 1 (none)
      ∷ []

  -- the store after `reset`
  unfoldable pub fixture : FixtureStore
  unfolding by_item_id
  fixture = record {
    custodians = fixture_custodians;
    items = by_item_id seed_items;
    reservations = [];
    idempotency_records = [];
  }
