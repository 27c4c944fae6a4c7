-- ===== src/Domain/Effects.antt =====
-- Outbox commands, execution claims, handoffs, credentials, claim links and receipts:
-- service/app/domain.py.
use found_roll.Prelude.{ℕ, String, Bool, Option, List}
use found_roll.Domain.Enums.{
  CustodyState, PolicyOutcome, OutboxKind, OutboxStatus, OutboxFailureStage, HandoffStatus,
  TokenPurpose,
}
use found_roll.Domain.Cases.{CaseRecord, EventRecord}

pub record OutboxRecord : Type 0 where
  pub id : String
  pub task_name : String
  pub kind : OutboxKind
  pub case_id : String
  pub expected_case_version : ℕ
  pub status : OutboxStatus
  pub attempt : ℕ
  pub created_at : ℕ
  pub completed_at : Option ℕ
  pub result_attestation_id : Option String
  pub failure_stage : Option OutboxFailureStage
  pub failure_code : Option String
  pub replay_count : ℕ
  pub last_replayed_at : Option ℕ
  pub last_replay_task_name : Option String

pub record OutboxExecutionClaim : Type 0 where
  pub outbox_id : String
  pub case_id : String
  pub token_hash : String
  pub claimed_at : ℕ
  pub lease_expires_at : ℕ
  pub recovery_required : Bool
  pub terminal_status : Option OutboxStatus
  pub completed_at : Option ℕ

pub record HandoffRecord : Type 0 where
  pub id : String
  pub case_id : String
  pub item_id : String
  pub provider : String
  pub reservation_id : Option String
  pub simulator_request_id : Option String
  pub status : HandoffStatus
  pub reservation_case_version : ℕ
  pub remote_etag : String
  pub remote_version : ℕ
  pub expires_at : Option ℕ
  pub claimant_token_hash : Option String
  pub custodian_token_hash : Option String
  pub claimant_attested_at : Option ℕ
  pub custodian_attested_at : Option ℕ
  pub staff_confirmed_at : Option ℕ
  pub tokens_issued : Bool

pub record TokenRecord : Type 0 where
  pub token_hash : String
  pub case_id : String
  pub handoff_id : String
  pub item_id : String
  pub purpose : TokenPurpose
  pub issued_at : ℕ
  pub expires_at : ℕ
  pub used_at : Option ℕ

pub record ClaimLinkRecord : Type 0 where
  pub token_hash : String
  pub issuance_key_hash : String
  pub command_fingerprint : String
  pub case_id : String
  pub issued_case_version : ℕ
  pub issued_at : ℕ
  pub expires_at : ℕ
  pub used_at : Option ℕ
  pub superseded_at : Option ℕ

pub record MutationReceipt : Type 0 where
  pub case_id : String
  pub event_id : String
  pub event_sequence : ℕ
  pub state : CustodyState
  pub version : ℕ

-- The `response` dictionaries that the repository stores: a mutation's receipt, or the answer to a
-- claim-evidence command.
pub data Response : Type 0 where
  receipt : MutationReceipt → Response
  claim : (case_id : String) → CaseRecord → (event_ids : List String) → (accepted : Bool) → Response

pub record IdempotencyRecord : Type 0 where
  pub key : String
  pub case_id : Option String
  pub fingerprint : String
  pub response : Response
  pub created_at : ℕ

pub record AppliedMutation : Type 0 where
  pub receipt : MutationReceipt
  pub event : EventRecord
  pub duplicate : Bool

pub record PolicyDecision : Type 0 where
  pub outcome : PolicyOutcome
  pub policy_version : String
  pub reason_codes : List String
  pub next_action : String
