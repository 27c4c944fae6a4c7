-- ===== src/Domain/Cases.antt =====
-- Candidates, Item Passports and their events: the first records of service/app/domain.py.
use found_roll.Prelude.{ℕ, String, Bool, Option, List}
use found_roll.Domain.Enums.{CustodyState, RiskTier, PolicyOutcome}

pub record AgentToolOutcome : Type 0 where
  pub name : String
  pub outcome : String

-- `frozen_score` is a float between 0 and 1, kept here in units of 1/10000.
pub record Candidate : Type 0 where
  pub id : String
  pub tenant_id : String
  pub tenant_name : String
  pub category : String
  pub coarse_description : String
  pub found_at : ℕ
  pub found_zone : String
  pub availability : String
  pub public_signals : List String
  pub route_compatible : Bool
  pub time_compatible : Bool
  pub visible_signal_count : ℕ
  pub frozen_score : ℕ
  pub remote_etag : String
  pub remote_version : ℕ
  pub restricted_attribute_id : Option String
  pub restricted_value_hash : Option String

pub record CaseRecord : Type 0 where
  pub id : String
  pub workflow_epoch : String
  pub state : CustodyState
  pub version : ℕ
  pub category : String
  pub risk_tier : RiskTier
  pub assigned_tenant : String
  pub current_holder : String
  pub public_description : String
  pub found_at : ℕ
  pub found_zone : String
  pub report_route : List String
  pub candidate_ids : List String
  pub selected_item_id : Option String
  pub accepted_claim_evidence : Bool
  pub identity_attestation_ref : Option String
  pub approval_ref : Option String
  pub wrong_answer_count : ℕ
  pub next_question : Option String
  pub policy_outcome : PolicyOutcome
  pub policy_version : String
  pub handoff_id : Option String
  pub model_run_id : Option String
  pub model_trace_id : Option String
  pub model_name : Option String
  pub model_mode : Option String
  pub model_prompt_version : Option String
  pub model_output_schema_version : Option String
  pub model_invocation_count : Option ℕ
  pub model_tool_trajectory : List AgentToolOutcome
  pub model_typed_output_valid : Bool
  pub analysis_auto_start_armed : Bool
  pub last_event_hash : String
  pub last_event_sequence : ℕ
  pub created_at : ℕ
  pub updated_at : ℕ

-- An event without its hash: what `_make_event` and `verify_event_chain` serialise and hash.
pub record Unsigned : Type 0 where
  pub id : String
  pub case_id : String
  pub sequence : ℕ
  pub kind : String
  pub actor : String
  pub from_state : CustodyState
  pub to_state : CustodyState
  pub reason : String
  pub evidence_refs : List String
  pub tool : Option String
  pub task_id : Option String
  pub model_run_id : Option String
  pub simulator_attestation_id : Option String
  pub idempotency_key : String
  pub occurred_at : ℕ
  pub previous_hash : String

pub record EventRecord : Type 0 where
  pub unsigned : Unsigned
  pub open unsigned use *
  pub event_hash : String
