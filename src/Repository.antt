-- ===== src/Repository.antt =====
-- service/app/repository.py: the state of `InMemoryRepository` and the command record that its
-- methods commit.
pub mod Events
pub mod Commit
pub mod Outbox
pub mod Links
pub mod Tokens
pub mod Chain
use found_roll.Prelude.{ℕ, String, Bool, Option, List, [], Dict}
use found_roll.Domain.{
  AgentToolOutcome, Candidate, CaseRecord, CustodyState, EventRecord, HandoffRecord,
  IdempotencyRecord, OutboxExecutionClaim, OutboxRecord, PolicyOutcome, TokenRecord,
  ClaimLinkRecord,
}

pub record Repo : Type 0 where
  pub cases : Dict CaseRecord
  pub candidates : Dict Candidate
  pub events : Dict (List EventRecord)
  pub idempotency : Dict IdempotencyRecord
  pub outboxes : Dict OutboxRecord
  pub execution_claims : Dict OutboxExecutionClaim
  pub handoffs : Dict HandoffRecord
  pub tokens : Dict TokenRecord
  pub claim_links : Dict ClaimLinkRecord
  pub claim_link_issuances : Dict ClaimLinkRecord

-- `__init__`, and what `reset` leaves
unfoldable pub empty : Repo
empty = record {
  cases = [];
  candidates = [];
  events = [];
  idempotency = [];
  outboxes = [];
  execution_claims = [];
  handoffs = [];
  tokens = [];
  claim_links = [];
  claim_link_issuances = [];
}

-- An entry of the `updates` dictionary of a command: the fields of `CaseRecord` that the service
-- updates, and a key that `CaseRecord` does not have.
pub data CaseUpdate : Type 0 where
  candidate_ids : List String → CaseUpdate
  selected_item_id : Option String → CaseUpdate
  accepted_claim_evidence : Bool → CaseUpdate
  identity_attestation_ref : Option String → CaseUpdate
  approval_ref : Option String → CaseUpdate
  wrong_answer_count : ℕ → CaseUpdate
  next_question : Option String → CaseUpdate
  policy_outcome : PolicyOutcome → CaseUpdate
  handoff_id : Option String → CaseUpdate
  model_run_id : Option String → CaseUpdate
  model_trace_id : Option String → CaseUpdate
  model_name : Option String → CaseUpdate
  model_mode : Option String → CaseUpdate
  model_prompt_version : Option String → CaseUpdate
  model_output_schema_version : Option String → CaseUpdate
  model_invocation_count : Option ℕ → CaseUpdate
  model_tool_trajectory : List AgentToolOutcome → CaseUpdate
  model_typed_output_valid : Bool → CaseUpdate
  unsupported : String → CaseUpdate

pub record MutationSpec : Type 0 where
  pub case_id : String
  pub expected_version : ℕ
  pub target_state : CustodyState
  pub event_type : String
  pub actor : String
  pub reason : String
  pub idempotency_key : String
  pub fingerprint : String
  pub occurred_at : ℕ
  pub updates : List CaseUpdate
  pub evidence_refs : List String
  pub tool : Option String
  pub task_id : Option String
  pub model_run_id : Option String
  pub simulator_attestation_id : Option String
  pub outbox : Option OutboxRecord
  pub handoff : Option HandoffRecord
  pub tokens : List TokenRecord
  pub allow_fact_event : Bool
