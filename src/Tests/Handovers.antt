-- ===== src/Tests/Handovers.antt =====
-- What the simulator answers to the handover of the pouch.
use found_roll.Prelude.{
  String, ◌≡◌, refl, ◌↔◌, Bool, true, false, is_some, some, none, Option, List, [], In, Result, ok,
  err, get, put, values, keys, decimal, on_some,
}
use found_roll.Tests.{show}
use found_roll.Simulator.{
  CallbackArtifact, FixtureStore, Item, ItemStatus, available, released, Reservation, expired,
  handoff_attested, StoreResponse, isoformat, parse_datetime, not_issued,
}
use found_roll.Simulator.Codec.{make_etag, digest_id}
use found_roll.Simulator.Store.{expire_locked}
use found_roll.Simulator.Fixture.{fixture}
use found_roll.Simulator.Retries.{create_retry}
use found_roll.Simulator.Hashed.{StoresHashes}
use found_roll.Simulator.Signatures.{finalized_verifies, issue_retry}
use found_roll.Simulator.Versions.{Grows, item_version, reservation_version, versions_guard}
use found_roll.Simulator.Inventory.{InventoryQuery, list_inventory}
use found_roll.Simulator.Inventory.Wanted.{IsWanted}
use found_roll.Simulator.Inventory.Listing.{IsNewestFirst, list_inventory_lem}
use found_roll.Simulator.Reservations.{new_reservation, create_reservation, new_reservation_id}
use found_roll.Simulator.Credentials.{issue_credentials}
use found_roll.Simulator.Attestations.{record_attestation}
use found_roll.Simulator.Handoff.{finalize_handoff_attestation, verify_callback_artifact}
use found_roll.Simulator.Consistency.{Consistent}
use found_roll.Simulator.Holding.{exclusive_hold, released_attested}
use found_roll.Simulator.Calls.{FixtureStore-Consistent}
use found_roll.Tests.Simulated.{
  plain_codec, reserve_request, held_id, held_run, bound, issue_request, issued_run, custodian_run,
  finalized_run, final, held_run-Reachable, custodian_run-Reachable, finalizes, final-Reachable,
}

abbrev no_item : Item
no_item = record {
  item_id = "";
  custodian_id = "";
  remote_key = "";
  category = "";
  coarse_description = "";
  found_at = 0;
  found_zone = "";
  route_tags = [];
  storage_slot = "";
  risk_tier = "";
  status = released;
  version = 0;
  etag = "";
  reservation_id = none;
}

abbrev pouch_in : FixtureStore → Item
pouch_in s = on_some (get s.items "NA-PCH-231") (λ i. i) no_item

abbrev is_released : ItemStatus → Bool
is_released released = true
is_released ItemStatus.held = false
is_released available = false

final_item : get final.items "NA-PCH-231" ≡ some (pouch_in final)
unfolding get put fixture create_reservation issue_credentials record_attestation
    finalize_handoff_attestation plain_codec show keys digest_id isoformat make_etag decimal
final_item = refl

final-IsReleased : (pouch_in final).status ≡ released
unfolding get put fixture create_reservation issue_credentials record_attestation
    finalize_handoff_attestation plain_codec show keys digest_id isoformat make_etag decimal
final-IsReleased = refl

FixtureStore-Consistent_example : Consistent final
FixtureStore-Consistent_example = FixtureStore-Consistent final final-Reachable

released_attested_example :
    (id : String) × (q : Reservation) × ((pouch_in final).reservation_id ≡ some id)
    × (get final.reservations id ≡ some q)
    × (q.item_id ≡ "NA-PCH-231")
    × (q.status ≡ handoff_attested)
    × (is_some q.attestations.of_custodian ≡ true)
    × (is_some q.attestations.of_claimant ≡ true)
released_attested_example =
    released_attested final "NA-PCH-231" (pouch_in final) final-Reachable final_item
      final-IsReleased

abbrev blank : StoreResponse
blank = record {
  reservation = record {
    reservation_id = "";
    case_id = "";
    case_version = 0;
    custodian_id = "";
    item_id = "";
    destination = "";
    status = expired;
    version = 0;
    etag = "";
    expires_at = 0;
    token_expires_at = none;
    attestations = record { of_custodian = none; of_claimant = none };
    created_at = 0;
    updated_at = 0;
    history = [];
    token_status = record { of_custodian = not_issued; of_claimant = not_issued };
  };
  item = none;
  attestation = none;
  callback_artifact = none;
  credentials = none;
  idempotent_replay = false;
}

abbrev answer_of : Result StoreResponse → StoreResponse
answer_of (ok r) = r
answer_of (err e) = blank

held_returns : held_run ≡ (ok (answer_of held_run.0), held_run.1)
unfolding get put fixture create_reservation plain_codec show keys digest_id isoformat make_etag
    decimal
held_returns = refl

issued_returns : issued_run ≡ (ok (answer_of issued_run.0), issued_run.1)
unfolding get put fixture create_reservation issue_credentials plain_codec show keys digest_id
    isoformat make_etag decimal parse_datetime
issued_returns = refl

final_returns : finalized_run ≡ (ok (answer_of finalized_run.0), final)
unfolding get put fixture create_reservation issue_credentials record_attestation
    finalize_handoff_attestation plain_codec show keys digest_id isoformat make_etag decimal
final_returns = refl

final_new : (answer_of finalized_run.0).idempotent_replay ≡ false
unfolding get put fixture create_reservation issue_credentials record_attestation
    finalize_handoff_attestation plain_codec show keys digest_id isoformat make_etag decimal
final_new = refl

create_retry_example :
    create_reservation reserve_request 150_000_000 held_run.1
    ≡ (ok (record (answer_of held_run.0) { idempotent_replay = true }), held_run.1)
create_retry_example =
    create_retry reserve_request 100_000_000 150_000_000 fixture held_run.1 (answer_of held_run.0)
      held_returns

issue_retry_example :
    (issue_credentials held_id issue_request "secret" 150_000_000 issued_run.1
      ≡ (ok (record (answer_of issued_run.0) { idempotent_replay = true }), issued_run.1))
    × StoresHashes held_id
        (λ (any : String). issue_credentials held_id issue_request any 110_000_000 held_run.1)
issue_retry_example =
    issue_retry held_id issue_request "secret" 110_000_000 150_000_000 held_run.1 issued_run.1
      (answer_of issued_run.0) issued_returns

finalized_verifies_example :
    (a : CallbackArtifact) × ((answer_of finalized_run.0).callback_artifact ≡ some a)
    × (a.body.reservation_id ≡ held_id)
    × (verify_callback_artifact a.body a.timestamp a.signature "callback" ≡ true)
finalized_verifies_example =
    finalized_verifies held_id (bound "final-1" 4) "callback" 140_000_000 custodian_run.1 final
      (answer_of finalized_run.0) final_returns final_new

versions_guard_example :
    Grows item_version custodian_run.1.items final.items
    × Grows reservation_version custodian_run.1.reservations final.reservations
versions_guard_example = versions_guard custodian_run.1 final custodian_run-Reachable finalizes

abbrev everything : InventoryQuery
everything = record {
  category = some "camera_pouch";
  status = none;
  route = none;
  found_after = none;
  found_before = none;
  query = none;
}

abbrev listing : Result (List Item) × FixtureStore
listing = list_inventory "northport-air" everything 150_000_000 held_run.1

abbrev listed_of : Result (List Item) → List Item
listed_of (ok l) = l
listed_of (err e) = []

listing_returns : listing ≡ (ok (listed_of listing.0), listing.1)
unfolding get put fixture create_reservation plain_codec show keys digest_id isoformat make_etag
    decimal list_inventory values
listing_returns = refl

list_inventory_lem_example :
    ((i : Item)
      → In i (listed_of listing.0)
        ↔ (In i (values listing.1.items) × IsWanted "northport-air" everything i))
    × IsNewestFirst (listed_of listing.0)
    × (listing.1 ≡ (expire_locked 150_000_000 held_run.1).1)
list_inventory_lem_example =
    list_inventory_lem "northport-air" everything 150_000_000 held_run.1 listing.1
      (listed_of listing.0) listing_returns

abbrev reservation_in : FixtureStore → Option Reservation
reservation_in s = get s.reservations held_id

abbrev held_reservation : Reservation
held_reservation =
    new_reservation reserve_request (new_reservation_id reserve_request) 900_000_000 100_000_000

held_found : get held_run.1.reservations held_id ≡ some held_reservation
unfolding get put fixture create_reservation plain_codec show keys digest_id isoformat make_etag
    decimal
held_found = refl

exclusive_hold_example : ◌≡◌ {A = String} held_id held_id
unfolding new_reservation
exclusive_hold_example =
    exclusive_hold held_run.1 held_id held_id held_reservation held_reservation held_run-Reachable
      held_found held_found refl (λ e. cc) (λ e. cc)
