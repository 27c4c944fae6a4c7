-- ===== src/Domain/Analysis.antt =====
-- The analyst's proposal and the evidence of its run: service/app/domain.py.
use found_roll.Prelude.{ℕ, String, Bool, Option, List}
use found_roll.Domain.Cases.{AgentToolOutcome}

pub data AnalysisDecision : Type 0 where
  request_private_discriminator abstain_to_manual_review : AnalysisDecision

pub data ManualReviewReason : Type 0 where
  evidence_inconclusive visible_signal_conflict : ManualReviewReason

pub record AnalysisProposal : Type 0 where
  pub decision : AnalysisDecision
  pub ranked_candidate_ids : List String
  pub selected_candidate_id : Option String
  pub visible_signals : List String
  pub evidence_sufficient_for_claim : Bool
  pub restricted_attribute_id : Option String
  pub next_question : Option String
  pub manual_review_reason : Option ManualReviewReason
  pub tool_trajectory : List String

pub record AgentExecutionEvidence : Type 0 where
  pub trace_id : String
  pub invocation_count : ℕ
  pub tool_trajectory : List AgentToolOutcome
  pub typed_output_valid : Bool
