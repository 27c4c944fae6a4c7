-- ===== src/Service/Claim.antt =====
-- service/app/custody_service.py: `submit_claim_evidence`, the private answer of a claimant. A score
-- is in units of 1/10000, so that the margin 0.10 is 1000.
pub mod Outcomes
pub mod Gated
pub mod Accepted
use found_roll.Prelude.{
  ℕ, ◌+◌, String, Bool, false, true, ◌&&◌, Option, none, some, List, [], ◌∷◌, ◌++◌, Result, ok, err,
  Exec, conflict, not, ltb, leb, ◌==◌, is_some, truthy, raise_if, require, on_ok, on_some, and_then,
  ◌>>=◌, ◌>>◌, ◌<>◌, get, if◌then◌else◌,
}
use found_roll.Prelude.Json.{Json, text, number, object, field, end, Hashing}
use found_roll.Domain.{
  Candidate, CaseRecord, ClaimLinkRecord, ClaimantCaseProjection, ClaimantLinkView, project_case,
  CustodyState, clarification_required, analyzing, manual_review, candidates_ready,
  claim_evidence_accepted, PolicyOutcome, deny, request_evidence, require_review, allow_handoff,
}
use found_roll.Policy.{evaluate_release_policy}
use found_roll.Repository.{
  Repo, MutationSpec, CaseUpdate, wrong_answer_count, accepted_claim_evidence, next_question,
  policy_outcome,
}
use found_roll.Repository.Commit.{get_case, get_candidate}
use found_roll.Repository.Links.{issue_claim_link, inspect_claim_link, consume_claim_link}
use found_roll.Service.{Settings}
use found_roll.Service.Commands.{mutation_spec}
use found_roll.Service.Secrets.{secret_digest, claim_link_hash}

-- `list_candidates` of the given identifiers
unfoldable pub list_candidates : Repo → List String → List Candidate
list_candidates repo [] = []
list_candidates repo (id ∷ ids) =
    on_some (get repo.candidates id) (λ c. c ∷ list_candidates repo ids) (list_candidates repo ids)

-- the best score of the other candidates, 0 where there is none
unfoldable pub runner_up : String → List Candidate → ℕ
runner_up id [] = 0
runner_up id (c ∷ cs) =
    let rest = runner_up id cs in
    if c.id == id then rest else (if ltb rest c.frozen_score then c.frozen_score else rest)

-- `hard_gates`
unfoldable pub hard_gates : CaseRecord → Candidate → List Candidate → Bool
unfolding runner_up
hard_gates case selected ranked =
    selected.category == case.category
    && selected.route_compatible
    && selected.time_compatible
    && selected.availability == "AVAILABLE"
    && leb 2 selected.visible_signal_count
    && leb (runner_up selected.id ranked + 1000) selected.frozen_score
    && is_some selected.restricted_value_hash

-- the selected candidate
unfoldable pub selected_candidate : Repo → CaseRecord → Result Candidate
unfolding get_candidate
selected_candidate repo case = do
  raise_if (not (truthy case.selected_item_id)) (conflict "selected_candidate_missing")
  item_id ← require case.selected_item_id (conflict "selected_candidate_missing")
  get_candidate repo item_id

-- `decision.outcome` as text
abbrev outcome_value : PolicyOutcome → String
outcome_value deny = "DENY"
outcome_value request_evidence = "REQUEST_EVIDENCE"
outcome_value require_review = "REQUIRE_REVIEW"
outcome_value allow_handoff = "ALLOW_HANDOFF"

-- the answer of `submit_claim_evidence`
pub record Submitted : Type 0 where
  pub accepted : Bool
  pub case : ClaimantCaseProjection
  pub replayed : Bool

module _ ⦃h : Hashing⦄ where
  -- `base_key`
  abbrev pub claim_key : String → String → String
  claim_key case_id key = "case:" <> case_id <> ":claim:" <> key

  -- whether the answer is the secret of the selected candidate
  unfoldable pub answer_correct : Settings → CaseRecord → Candidate → List Candidate → String → Bool
  unfolding hard_gates secret_digest
  answer_correct settings case selected ranked answer =
      hard_gates case selected ranked
      && secret_digest answer settings.secret_pepper
        == on_some selected.restricted_value_hash (λ digest. digest) ""

  -- the case as the n-th command of the submission expects it
  unfoldable pub spec_case : CaseRecord → CustodyState → ℕ → CaseRecord
  spec_case case state version = record case { state = state; version = version }

  abbrev submitted_json : String → String → Json
  submitted_json case_id digest =
      object (field "case_id" (text case_id) (field "submitted_digest" (text digest) end))

  unfoldable rejected_spec : CaseRecord → String → ℕ → String → String → ℕ → ℕ → MutationSpec
  unfolding mutation_spec spec_case
  rejected_spec case case_id version digest key wrong now =
      record (mutation_spec (spec_case case clarification_required version) clarification_required
        "CLAIM_EVIDENCE_REJECTED" "claimant:private-link"
        "The submitted private evidence did not satisfy deterministic claim-evidence gates."
        (key <> ":rejected") (submitted_json case_id digest) (wrong_answer_count wrong ∷ []) now) {
          allow_fact_event = true;
        }

  -- the two commands that follow the fourth wrong answer
  unfoldable limit_specs : CaseRecord → String → ℕ → String → ℕ → ℕ → List MutationSpec
  unfolding mutation_spec spec_case
  limit_specs case case_id version key wrong now =
      let counted =
        object (field "case_id" (text case_id) (field "wrong_count" (number wrong) end)) in
      mutation_spec (spec_case case clarification_required (version + 1)) analyzing
        "CLAIM_ATTEMPT_LIMIT_REACHED" "service:policy"
        "More than three incorrect private answers require a manual review."
        (key <> ":attempt-limit") counted [] now
      ∷ mutation_spec (spec_case case analyzing (version + 2)) manual_review
          "MANUAL_REVIEW_REQUIRED" "service:policy"
          "Custody work paused after repeated incorrect private evidence." (key <> ":manual-review")
          counted (policy_outcome require_review ∷ []) now
      ∷ []

  unfoldable pub wrong_specs : CaseRecord → String → ℕ → String → String → ℕ → List MutationSpec
  unfolding rejected_spec limit_specs
  wrong_specs case case_id version digest key now =
      let wrong = case.wrong_answer_count + 1 in
      let limit = limit_specs case case_id version key wrong now in
      rejected_spec case case_id version digest key wrong now ∷ (if ltb 3 wrong then limit else [])

  unfoldable received_spec : CaseRecord → String → ℕ → String → String → ℕ → MutationSpec
  unfolding mutation_spec spec_case
  received_spec case case_id version digest key now =
      mutation_spec (spec_case case clarification_required version) analyzing
        "PRIVATE_EVIDENCE_RECEIVED" "claimant:private-link"
        "Private evidence was received through the claimant link and compared only in policy code."
        (key <> ":received") (submitted_json case_id digest) [] now

  unfoldable rechecked_spec : CaseRecord → String → ℕ → Candidate → String → ℕ → MutationSpec
  unfolding mutation_spec spec_case
  rechecked_spec case case_id version selected key now =
      mutation_spec (spec_case case analyzing (version + 1)) candidates_ready
        "CANDIDATE_PACKET_RECHECKED" "service:policy"
        "Deterministic category, route, time, availability, signal, and score-margin gates passed."
        (key <> ":rechecked")
        (object (field "case_id" (text case_id) (field "candidate_id" (text selected.id) end))) []
        now

  unfoldable accepted_spec : CaseRecord → String → ℕ → Candidate → String → ℕ → MutationSpec
  unfolding mutation_spec spec_case evaluate_release_policy
  accepted_spec case case_id version selected key now =
      let decision =
        evaluate_release_policy
          (record case { accepted_claim_evidence = true; next_question = none }) in
      record (mutation_spec (spec_case case candidates_ready (version + 2)) claim_evidence_accepted
        "CLAIM_EVIDENCE_ACCEPTED" "service:policy"
        ("Deterministic claim-evidence gates accepted the evidence packet. "
          <> "This is not an ownership or identity determination.")
        (key <> ":accepted")
        (object (
          field "case_id" (text case_id) (
            field "candidate_id" (text selected.id)
              (field "policy" (text (outcome_value decision.outcome)) end))))
        (accepted_claim_evidence true ∷ next_question none ∷ policy_outcome decision.outcome ∷ [])
        now) {
          evidence_refs =
              ("restricted-attribute://"
                <> on_some selected.restricted_attribute_id (λ attribute. attribute) "None")
              ∷ [];
        }

  unfoldable pub correct_specs :
      CaseRecord → String → ℕ → Candidate → String → String → ℕ → List MutationSpec
  unfolding received_spec rechecked_spec accepted_spec
  correct_specs case case_id version selected digest key now =
      received_spec case case_id version digest key now
      ∷ rechecked_spec case case_id version selected key now
      ∷ accepted_spec case case_id version selected key now
      ∷ []

  -- the commands of a submission
  unfoldable pub claim_specs :
      Bool → CaseRecord → String → ℕ → Candidate → String → String → ℕ → List MutationSpec
  unfolding correct_specs wrong_specs
  claim_specs correct case case_id version selected digest key now =
      if correct
      then correct_specs case case_id version selected digest key now
      else wrong_specs case case_id version digest key now

  unfoldable pub claim_fingerprint : String → ℕ → String → String → String
  claim_fingerprint case_id version digest token_hash = h.sha256_json (
      object (
        field "case_id" (text case_id) (
          field "expected_version" (number version)
            (field "submitted_digest" (text digest) (field "token_hash" (text token_hash) end)))))

  -- the commit and the answer
  unfoldable pub consume_and_answer :
      String → String → String → String → ℕ → List MutationSpec → Bool → ℕ → Exec Repo Submitted
  consume_and_answer case_id token_hash key fingerprint now specs accepted version repo =
      and_then (consume_claim_link case_id token_hash key fingerprint now specs accepted repo)
        (λ committed after. (
          ok (record {
            accepted = committed.accepted;
            case = project_case committed.case (record {
              active = false;
              issued_case_version = version;
              issued_at = none;
              expires_at = none;
            });
            replayed = committed.duplicate;
          }),
          after,
        ))

  -- `submit_claim_evidence`
  unfoldable pub submit_claim_evidence :
      Settings → String → String → ℕ → String → String → ℕ → Exec Repo Submitted
  unfolding claim_link_hash get_case selected_candidate list_candidates answer_correct claim_specs
      claim_fingerprint consume_and_answer secret_digest
  submit_claim_evidence settings case_id raw_token version answer key now repo =
      on_ok (claim_link_hash settings raw_token) repo (λ token_hash.
        on_ok (get_case repo case_id) repo (λ case.
          on_ok (selected_candidate repo case) repo (λ selected.
            let ranked = list_candidates repo case.candidate_ids in
            let correct = answer_correct settings case selected ranked answer in
            let digest = secret_digest answer settings.secret_pepper in
            let base = claim_key case_id key in
            consume_and_answer case_id token_hash base
              (claim_fingerprint case_id version digest token_hash) now
              (claim_specs correct case case_id version selected digest base now) correct version
              repo)))
