-- ===== src/Domain/Views.antt =====
-- What the service answers of a case and a handoff: `CaseView` and `HandoffView` of
-- service/app/domain.py.
use found_roll.Prelude.{
  ℕ, String, Bool, Option, List, is_some, length, decimal, eqb, ◌<>◌, if◌then◌else◌,
}
use found_roll.Domain.Enums.{CustodyState, RiskTier, PolicyOutcome, HandoffStatus}
use found_roll.Domain.Cases.{AgentToolOutcome, CaseRecord}
use found_roll.Domain.Effects.{HandoffRecord}

pub record CaseView : Type 0 where
  pub id : String
  pub workflow_epoch : String
  pub state : CustodyState
  pub version : ℕ
  pub category : String
  pub risk_tier : RiskTier
  pub assigned_tenant : String
  pub current_holder : String
  pub public_description : String
  pub found_at : ℕ
  pub found_zone : String
  pub report_route : List String
  pub candidate_ids : List String
  pub selected_item_id : Option String
  pub accepted_claim_evidence : Bool
  pub identity_attested : Bool
  pub approval_recorded : Bool
  pub wrong_answer_count : ℕ
  pub next_question : Option String
  pub policy_outcome : PolicyOutcome
  pub policy_version : String
  pub handoff_id : Option String
  pub model_run_id : Option String
  pub model_trace_id : Option String
  pub model_name : Option String
  pub model_mode : Option String
  pub model_prompt_version : Option String
  pub model_output_schema_version : Option String
  pub model_invocation_count : Option ℕ
  pub model_tool_trajectory : List AgentToolOutcome
  pub model_typed_output_valid : Bool
  pub analysis_auto_start_armed : Bool
  pub event_count : ℕ
  pub created_at : ℕ
  pub updated_at : ℕ

-- `CaseView.from_record`
unfoldable pub view_case : CaseRecord → CaseView
view_case case = record {
  id = case.id;
  workflow_epoch = case.workflow_epoch;
  state = case.state;
  version = case.version;
  category = case.category;
  risk_tier = case.risk_tier;
  assigned_tenant = case.assigned_tenant;
  current_holder = case.current_holder;
  public_description = case.public_description;
  found_at = case.found_at;
  found_zone = case.found_zone;
  report_route = case.report_route;
  candidate_ids = case.candidate_ids;
  selected_item_id = case.selected_item_id;
  accepted_claim_evidence = case.accepted_claim_evidence;
  identity_attested = is_some case.identity_attestation_ref;
  approval_recorded = is_some case.approval_ref;
  wrong_answer_count = case.wrong_answer_count;
  next_question = case.next_question;
  policy_outcome = case.policy_outcome;
  policy_version = case.policy_version;
  handoff_id = case.handoff_id;
  model_run_id = case.model_run_id;
  model_trace_id = case.model_trace_id;
  model_name = case.model_name;
  model_mode = case.model_mode;
  model_prompt_version = case.model_prompt_version;
  model_output_schema_version = case.model_output_schema_version;
  model_invocation_count = case.model_invocation_count;
  model_tool_trajectory = case.model_tool_trajectory;
  model_typed_output_valid = case.model_typed_output_valid;
  analysis_auto_start_armed = case.analysis_auto_start_armed;
  event_count = case.last_event_sequence;
  created_at = case.created_at;
  updated_at = case.updated_at;
}

-- `HandoffView`, without its constant field `simulated`
pub record HandoffView : Type 0 where
  pub id : String
  pub case_id : String
  pub item_id : String
  pub provider : String
  pub reservation_id : Option String
  pub simulator_request_id : Option String
  pub status : HandoffStatus
  pub reservation_case_version : ℕ
  pub remote_etag : String
  pub remote_version : ℕ
  pub expires_at : Option ℕ
  pub claimant_attested : Bool
  pub custodian_attested : Bool
  pub staff_confirmed : Bool
  pub tokens_issued : Bool

-- `HandoffView.from_record`
unfoldable pub view_handoff : HandoffRecord → HandoffView
view_handoff handoff = record {
  id = handoff.id;
  case_id = handoff.case_id;
  item_id = handoff.item_id;
  provider = handoff.provider;
  reservation_id = handoff.reservation_id;
  simulator_request_id = handoff.simulator_request_id;
  status = handoff.status;
  reservation_case_version = handoff.reservation_case_version;
  remote_etag = handoff.remote_etag;
  remote_version = handoff.remote_version;
  expires_at = handoff.expires_at;
  claimant_attested = is_some handoff.claimant_attested_at;
  custodian_attested = is_some handoff.custodian_attested_at;
  staff_confirmed = is_some handoff.staff_confirmed_at;
  tokens_issued = handoff.tokens_issued;
}

pub record ClaimantLinkView : Type 0 where
  pub active : Bool
  pub issued_case_version : ℕ
  pub issued_at : Option ℕ
  pub expires_at : Option ℕ

-- `ClaimantCaseProjection`, without its constant field and without the label of the date
pub record ClaimantCaseProjection : Type 0 where
  pub id : String
  pub state : CustodyState
  pub version : ℕ
  pub public_description : String
  pub route_label : String
  pub next_question : Option String
  pub attempt_count : ℕ
  pub link : ClaimantLinkView

-- `ClaimantCaseProjection.from_record`
unfoldable pub project_case : CaseRecord → ClaimantLinkView → ClaimantCaseProjection
project_case case link =
    let stops = length case.report_route in
    record {
      id = case.id;
      state = case.state;
      version = case.version;
      public_description = case.public_description;
      route_label = decimal stops <> " reported route stop" <> (if eqb stops 1 then "" else "s");
      next_question = case.next_question;
      attempt_count = case.wrong_answer_count;
      link = link;
    }
