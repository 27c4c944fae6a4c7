-- ===== src/Tests.antt =====
-- A case of the fixtures, driven through the repository: the data of the tests and witnesses.
mod Paths
mod Logs
mod Races
mod Secrets
mod Texts
mod Desk
mod Relays
mod Claims
mod Vault
mod Runs
mod Simulated
mod Handovers
mod Uploads
mod Begins
use Prim.Native.Char.{Char}
use Prim.Native.String.{slice, len, ◌++◌ as str_append}
use found_roll.Prelude.{ℕ, String, Bool, false, true, none, some, List, [], ◌∷◌}
use found_roll.Prelude.Json.{
  Json, null, text, number, flag, array, object, Items, nil, cons, Fields, end, field, Hashing,
}
use found_roll.Domain.{
  CaseRecord, CustodyState, received, evidence_ready, analyzing, candidates_ready,
  claim_evidence_accepted, identity_attested, approval_required, reserve_requested, reserved,
  claimant_present, release_requested, closed, RiskTier, valuable, PolicyOutcome, request_evidence,
}
use found_roll.Repository.{Repo, MutationSpec, empty}
use found_roll.Repository.Commit.{create_case, apply_mutation, zero_hash}
use found_roll.Repository.Chain.Methods.{Reachable, start, next, created, mutated}

-- a serialisation of JSON, in place of a digest of it
unfoldable mutual
  pub show : Json → String
  show null = "null"
  show (text s) = s
  show (number n) = "n"
  show (flag b) = "b"
  show (array xs) = show_items xs
  show (object fs) = show_fields fs

  pub show_items : Items → String
  show_items nil = "."
  show_items (cons x xs) = str_append (show x) (str_append "," (show_items xs))

  pub show_fields : Fields → String
  show_fields end = "."
  show_fields (field k v fs) = str_append (show v) (str_append ";" (show_fields fs))

-- the name without the prefix that all names share
abbrev pub name_digest : String → String
name_digest s = slice s 11 (len s)

-- the text of one character
abbrev single : Char → String
single c = String.◌∷◌ c ""

instance unfoldable pub plain_hashing : Hashing
plain_hashing = record {
  sha256_json = show;
  hmac_sha256 = λ key message. str_append key (str_append "/" message);
  uuid5_hex = name_digest;
  upper = single;
  is_alnum = λ c. true;
}

abbrev pub pouch : CaseRecord
pouch = record {
  id = "FR-42";
  workflow_epoch = "e1";
  state = received;
  version = 0;
  category = "camera_pouch";
  risk_tier = valuable;
  assigned_tenant = "northport-air";
  current_holder = "Northport Air secure dropbox";
  public_description = "Black padded camera pouch";
  found_at = 10;
  found_zone = "Terminal C";
  report_route = [];
  candidate_ids = [];
  selected_item_id = none;
  accepted_claim_evidence = false;
  identity_attestation_ref = none;
  approval_ref = none;
  wrong_answer_count = 0;
  next_question = none;
  policy_outcome = request_evidence;
  policy_version = "found-roll-release-v1";
  handoff_id = none;
  model_run_id = none;
  model_trace_id = none;
  model_name = none;
  model_mode = none;
  model_prompt_version = none;
  model_output_schema_version = none;
  model_invocation_count = none;
  model_tool_trajectory = [];
  model_typed_output_valid = false;
  analysis_auto_start_armed = false;
  last_event_hash = zero_hash;
  last_event_sequence = 0;
  created_at = 11;
  updated_at = 11;
}

-- a command on the pouch
abbrev pub command : String → ℕ → CustodyState → MutationSpec
command key version target = record {
  case_id = "FR-42";
  expected_version = version;
  target_state = target;
  event_type = key;
  actor = "service:test";
  reason = "A test command.";
  idempotency_key = key;
  fingerprint = key;
  occurred_at = 20;
  updates = [];
  evidence_refs = [];
  tool = none;
  task_id = none;
  model_run_id = none;
  simulator_attestation_id = none;
  outbox = none;
  handoff = none;
  tokens = [];
  allow_fact_event = false;
}

abbrev pub opened : Repo
opened = (create_case pouch [] "actor" "Created." "create" 12 none empty).1

abbrev pub run : List MutationSpec → Repo → Repo
run [] repo = repo
run (c ∷ cs) repo = run cs (apply_mutation c none none repo).1

-- the commands that take the pouch to CLOSED
abbrev pub journey : List MutationSpec
journey =
    command "k1" 1 evidence_ready
    ∷ command "k2" 2 analyzing
    ∷ command "k3" 3 candidates_ready
    ∷ command "k4" 4 claim_evidence_accepted
    ∷ command "k5" 5 identity_attested
    ∷ command "k6" 6 approval_required
    ∷ command "k7" 7 reserve_requested
    ∷ command "k8" 8 reserved
    ∷ command "k9" 9 claimant_present
    ∷ command "k10" 10 release_requested
    ∷ command "k11" 11 CustodyState.released
    ∷ command "k12" 12 closed
    ∷ []

abbrev pub journey_end : Repo
journey_end = run journey opened

pub run-Reachable :
    (cs : List MutationSpec) {repo : Repo} → Reachable repo → Reachable (run cs repo)
run-Reachable [] r = r
run-Reachable (c ∷ cs) r = run-Reachable cs (next r (mutated c none none))

pub opened-Reachable : Reachable opened
opened-Reachable = next start (created pouch [] "actor" "Created." "create" 12 none)

pub journey_end-Reachable : Reachable journey_end
journey_end-Reachable = run-Reachable journey opened-Reachable
