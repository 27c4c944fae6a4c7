-- ===== src/Tests/Begins.antt =====
-- The analysis of the pouch, asked for by hand once its photograph is uploaded.
use found_roll.Prelude.{
  get, on_some, put, ◌≡◌, ◌≢◌, refl, sym, subst, true, false, some, none, List, [], ◌∷◌, ok, err,
}
use found_roll.Domain.{analyzing, received}
use found_roll.StateMachine.{assert_transition}
use found_roll.Repository.{Repo, empty}
use found_roll.Repository.Commit.{apply_mutation, create_case}
use found_roll.Repository.Outbox.{mark_outbox}
use found_roll.Evidence.{put_evidence}
use found_roll.Evidence.Upload.{original_request, preview_request}
use found_roll.Service.Publish.{TaskReceipt}
use found_roll.Service.Begin.{begin_analysis, begin_for, BeginRequest}
use found_roll.Service.Begin.Gates.{begun_with_evidence, HasEvidence}
use found_roll.Tests.{opened, plain_hashing, show}
use found_roll.Tests.Desk.{case_in, settings}
use found_roll.Tests.Uploads.{filled, plain_digests}

abbrev request : BeginRequest
request = record {
  case_id = "FR-42";
  expected_version = 1;
  idempotency_key = "a1";
  server_auto = false;
  frozen_evidence_refs = none;
  environment = "production";
  analyst_mode = "adk";
}

abbrev receipt : TaskReceipt
receipt = record {
  queued = true;
  mode = "cloud_tasks";
  task_name = "fr-analyze-case-1";
  payload = none;
  idempotent_replay = false;
}

abbrev begun : Repo
begun = (begin_analysis settings filled request 50 (some receipt) opened).1

opened_found : get opened.cases "FR-42" ≡ some (case_in opened)
unfolding create_case get put empty
opened_found = refl

opened_state : (case_in opened).state ≡ received
unfolding create_case get put empty
opened_state = refl

begun_found : get begun.cases "FR-42" ≡ some (case_in begun)
unfolding begin_analysis begin_for put_evidence mark_outbox apply_mutation create_case get put empty
    plain_hashing plain_digests show assert_transition found_roll.Prelude.values original_request
    preview_request
begun_found = refl

begun_state : (case_in begun).state ≡ analyzing
unfolding begin_analysis begin_for put_evidence mark_outbox apply_mutation create_case get put empty
    plain_hashing plain_digests show assert_transition found_roll.Prelude.values original_request
    preview_request
begun_state = refl

analyzing≢received : analyzing ≢ received
analyzing≢received p = cc

begun_with_evidence_example :
    ((case_in opened).version ≡ 1) × HasEvidence filled (case_in opened) request
begun_with_evidence_example =
    begun_with_evidence settings filled request 50 (some receipt) opened (case_in opened)
      (case_in begun) opened_found opened_state begun_found
      (subst (λ s. s ≢ received) (sym begun_state) analyzing≢received)
