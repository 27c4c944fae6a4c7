-- ===== src/Domain/Relay.antt =====
-- What the relay says: `RelayAttestation` and `SimulatorHandoffCallback` of service/app/domain.py.
use found_roll.Prelude.{ℕ, String, Option}

pub data RelayOperation : Type 0 where
  reserve release : RelayOperation

-- The status is the operation's, by the record's own validation, and is not kept twice.
pub record RelayAttestation : Type 0 where
  pub attestation_id : String
  pub operation : RelayOperation
  pub case_id : String
  pub item_id : String
  pub outbox_id : String
  pub reservation_id : String
  pub remote_etag : String
  pub remote_version : ℕ
  pub expected_case_version : ℕ
  pub occurred_at : ℕ
  pub expires_at : Option ℕ

-- without the disclosure texts
pub record SimulatorHandoffCallback : Type 0 where
  pub event_id : String
  pub reservation_id : String
  pub case_id : String
  pub case_version : ℕ
  pub item_id : String
  pub custodian_id : String
  pub reservation_version : ℕ
  pub item_version : ℕ
  pub occurred_at : ℕ
