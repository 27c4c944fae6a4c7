-- ===== src/Simulator.antt =====
-- The relay simulator, simulator/app: what `FixtureStore` of store.py keeps, as records. Instants are
-- microseconds, as the clock and the requests give them. A stored timestamp is the text of
-- `isoformat`, which has whole seconds: it is modelled as their number.
pub mod Requests
pub mod Codec
pub mod Store
pub mod Fixture
pub mod Reservations
pub mod Credentials
pub mod Attestations
pub mod Handoff
pub mod Consistency
pub mod Frame
pub mod Calls
pub mod Holding
pub mod Lifecycle
pub mod Versions
pub mod Sweep
pub mod Retries
pub mod Hashed
pub mod Signatures
pub mod Inventory
use found_roll.Prelude.{ℕ, String, Bool, ◌/◌, ◌*◌, Option, List, Dict, passes}

pub data ItemStatus : Type 0 where
  available held released : ItemStatus

pub data ReservationStatus : Type 0 where
  held tokens_issued partially_attested callback_ready handoff_attested expired : ReservationStatus

pub data Role : Type 0 where
  custodian claimant : Role

unfoldable pub ItemStatus-discrete : Discrete ItemStatus
ItemStatus-discrete = hlevel

unfoldable pub ReservationStatus-discrete : Discrete ReservationStatus
ReservationStatus-discrete = hlevel

abbrev pub item_status_eq : ItemStatus → ItemStatus → Bool
item_status_eq a b = passes (ItemStatus-discrete a b)

abbrev pub reservation_status_eq : ReservationStatus → ReservationStatus → Bool
reservation_status_eq a b = passes (ReservationStatus-discrete a b)

-- `isoformat(value)`: fractions of a second are dropped
unfoldable pub isoformat : ℕ → ℕ
isoformat value = value / 1_000_000

-- `parse_datetime(value)`
unfoldable pub parse_datetime : ℕ → ℕ
parse_datetime value = value * 1_000_000

-- a dictionary with the two roles as keys
pub record ByRole {ℓ} (A : Type ℓ) : Type ℓ where
  pub of_custodian : A
  pub of_claimant : A

unfoldable pub at_role {ℓ} : {A : Type ℓ} → ByRole A → Role → A
at_role d custodian = d.of_custodian
at_role d claimant = d.of_claimant

unfoldable pub set_role {ℓ} : {A : Type ℓ} → ByRole A → Role → A → ByRole A
set_role d custodian a = record d { of_custodian = a }
set_role d claimant a = record d { of_claimant = a }

pub record Custodian : Type 0 where
  pub custodian_id : String
  pub name : String
  pub operator_type : String
  pub namespace : String

-- without the constant `record_scope`
pub record Item : Type 0 where
  pub item_id : String
  pub custodian_id : String
  pub remote_key : String
  pub category : String
  pub coarse_description : String
  pub found_at : ℕ
  pub found_zone : String
  pub route_tags : List String
  pub storage_slot : String
  pub risk_tier : String
  pub status : ItemStatus
  pub version : ℕ
  pub etag : String
  pub reservation_id : Option String

pub record HistoryEvent : Type 0 where
  pub event_type : String
  pub actor : String
  pub reason : String
  pub evidence_refs : List String
  pub idempotency_key : String
  pub occurred_at : ℕ

-- without the constant statement
pub record Attestation : Type 0 where
  pub attestation_id : String
  pub role : Role
  pub presented_at : ℕ

-- A role has a token hash, or an attestation, where it is a key of that dictionary.
pub record Reservation : Type 0 where
  pub reservation_id : String
  pub case_id : String
  pub case_version : ℕ
  pub custodian_id : String
  pub item_id : String
  pub destination : String
  pub status : ReservationStatus
  pub version : ℕ
  pub etag : String
  pub expires_at : ℕ
  pub token_expires_at : Option ℕ
  pub token_hashes : ByRole (Option String)
  pub token_consumed : ByRole Bool
  pub attestations : ByRole (Option Attestation)
  pub created_at : ℕ
  pub updated_at : ℕ
  pub history : List HistoryEvent

pub data TokenStatus : Type 0 where
  attested issued not_issued : TokenStatus

-- `_public_reservation`: a reservation without its hashes
pub record PublicReservation : Type 0 where
  pub reservation_id : String
  pub case_id : String
  pub case_version : ℕ
  pub custodian_id : String
  pub item_id : String
  pub destination : String
  pub status : ReservationStatus
  pub version : ℕ
  pub etag : String
  pub expires_at : ℕ
  pub token_expires_at : Option ℕ
  pub attestations : ByRole (Option Attestation)
  pub created_at : ℕ
  pub updated_at : ℕ
  pub history : List HistoryEvent
  pub token_status : ByRole TokenStatus

pub record IssuedTokens : Type 0 where
  pub claimant_token : String
  pub custodian_token : String
  pub expires_at : ℕ

-- the body, without its constant texts
pub record CallbackBody : Type 0 where
  pub event_id : String
  pub reservation_id : String
  pub case_id : String
  pub case_version : ℕ
  pub item_id : String
  pub custodian_id : String
  pub reservation_version : ℕ
  pub item_version : ℕ
  pub occurred_at : ℕ

pub record CallbackArtifact : Type 0 where
  pub body : CallbackBody
  pub timestamp : String
  pub signature : String

-- A response is a dictionary; a key that it lacks is `none`.
pub record StoreResponse : Type 0 where
  pub reservation : PublicReservation
  pub item : Option Item
  pub attestation : Option Attestation
  pub callback_artifact : Option CallbackArtifact
  pub credentials : Option IssuedTokens
  pub idempotent_replay : Bool

pub record CredentialRecipe : Type 0 where
  pub reservation_id : String
  pub generation : ℕ
  pub expires_at : ℕ

pub record ReplayRecord : Type 0 where
  pub fingerprint : String
  pub response : StoreResponse
  pub credential_recipe : Option CredentialRecipe

pub record FixtureStore : Type 0 where
  pub custodians : Dict Custodian
  pub items : Dict Item
  pub reservations : Dict Reservation
  pub idempotency_records : Dict ReplayRecord
