-- ===== src/Domain/Enums.antt =====
-- The enumerations of service/app/domain.py, each with the test for equality of its values.
use mathlib.Core.Bool.{Bool}
use Prim.Native.String.{String}
use found_roll.Prelude.{passes}

pub data CustodyState : Type 0 where
  received evidence_ready analyzing candidates_ready clarification_required : CustodyState
  claim_evidence_accepted identity_attested approval_required reserve_requested : CustodyState
  reserved claimant_present release_requested released closed security_escalation : CustodyState
  no_match manual_review rejected expired reconciliation_required : CustodyState

pub data RiskTier : Type 0 where
  ordinary valuable sensitive dangerous : RiskTier

pub data PolicyOutcome : Type 0 where
  deny request_evidence require_review allow_handoff : PolicyOutcome

pub data OutboxKind : Type 0 where
  analyze_case reserve_relay release_relay : OutboxKind

pub data OutboxStatus : Type 0 where
  pending dispatched complete failed : OutboxStatus

pub data OutboxFailureStage : Type 0 where
  publish execute : OutboxFailureStage

pub data ExecutionClaimDisposition : Type 0 where
  acquired in_progress stale_recovery : ExecutionClaimDisposition

pub data HandoffStatus : Type 0 where
  pending held released expired : HandoffStatus

pub data TokenPurpose : Type 0 where
  claimant custodian : TokenPurpose

unfoldable pub CustodyState-discrete : Discrete CustodyState
CustodyState-discrete = hlevel

unfoldable pub RiskTier-discrete : Discrete RiskTier
RiskTier-discrete = hlevel

unfoldable pub PolicyOutcome-discrete : Discrete PolicyOutcome
PolicyOutcome-discrete = hlevel

unfoldable pub OutboxKind-discrete : Discrete OutboxKind
OutboxKind-discrete = hlevel

unfoldable pub OutboxStatus-discrete : Discrete OutboxStatus
OutboxStatus-discrete = hlevel

unfoldable pub HandoffStatus-discrete : Discrete HandoffStatus
HandoffStatus-discrete = hlevel

unfoldable pub TokenPurpose-discrete : Discrete TokenPurpose
TokenPurpose-discrete = hlevel

-- `a == b` between states, tiers, kinds and purposes
abbrev pub state_eq : CustodyState → CustodyState → Bool
state_eq a b = passes (CustodyState-discrete a b)

abbrev pub tier_eq : RiskTier → RiskTier → Bool
tier_eq a b = passes (RiskTier-discrete a b)

abbrev pub outcome_eq : PolicyOutcome → PolicyOutcome → Bool
outcome_eq a b = passes (PolicyOutcome-discrete a b)

abbrev pub kind_eq : OutboxKind → OutboxKind → Bool
kind_eq a b = passes (OutboxKind-discrete a b)

abbrev pub status_eq : OutboxStatus → OutboxStatus → Bool
status_eq a b = passes (OutboxStatus-discrete a b)

abbrev pub handoff_eq : HandoffStatus → HandoffStatus → Bool
handoff_eq a b = passes (HandoffStatus-discrete a b)

abbrev pub purpose_eq : TokenPurpose → TokenPurpose → Bool
purpose_eq a b = passes (TokenPurpose-discrete a b)

-- the texts that the enumeration serialises to
unfoldable pub state_value : CustodyState → String
state_value received = "RECEIVED"
state_value evidence_ready = "EVIDENCE_READY"
state_value analyzing = "ANALYZING"
state_value candidates_ready = "CANDIDATES_READY"
state_value clarification_required = "CLARIFICATION_REQUIRED"
state_value claim_evidence_accepted = "CLAIM_EVIDENCE_ACCEPTED"
state_value identity_attested = "IDENTITY_ATTESTED"
state_value approval_required = "APPROVAL_REQUIRED"
state_value reserve_requested = "RESERVE_REQUESTED"
state_value reserved = "RESERVED"
state_value claimant_present = "CLAIMANT_PRESENT"
state_value release_requested = "RELEASE_REQUESTED"
state_value CustodyState.released = "RELEASED"
state_value closed = "CLOSED"
state_value security_escalation = "SECURITY_ESCALATION"
state_value no_match = "NO_MATCH"
state_value manual_review = "MANUAL_REVIEW"
state_value rejected = "REJECTED"
state_value CustodyState.expired = "EXPIRED"
state_value reconciliation_required = "RECONCILIATION_REQUIRED"
