-- ===== src/Service/Approvals.antt =====
-- service/app/custody_service.py: `record_identity_attestation` and `record_approval`.

use Prim.Native.String.{slice, count}
use found_roll.Prelude.{
  ℕ, String, Bool, false, true, ◌||◌, Option, none, some, [], ◌∷◌, Result, ok, err, Exec, conflict,
  not, ltb, eqb, ◌==◌, truthy, raise_if, on_ok, and_then, ◌>>=◌, ◌>>◌, ◌<>◌, strip, if◌then◌else◌,
}
use found_roll.Prelude.Json.{text, flag, object, field, end, Hashing}
use found_roll.Domain.{
  CaseRecord, CaseView, view_case, CustodyState, CustodyState-discrete, state_eq,
  claim_evidence_accepted, identity_attested, approval_required, rejected, RiskTier-discrete,
  tier_eq, valuable, require_review, deny,
}
use found_roll.Policy.{evaluate_release_policy}
use found_roll.Repository.{
  Repo, MutationSpec, identity_attestation_ref, approval_ref, policy_outcome,
}
use found_roll.Repository.Commit.{get_case}
use found_roll.Service.Commands.{mutation_spec, mutate}

-- `allowed_methods`, each with `method.replace("_", " ")`
unfoldable method_words : String → Option String
method_words method =
    if method == "government_id_visual_check"
    then some "government id visual check"
    else if method == "booking_record_check"
    then some "booking record check"
    else if method == "employee_badge_check"
    then some "employee badge check"
    else none

-- the answers of the two methods
pub record Attested : Type 0 where
  pub case : CaseView
  pub replayed : Bool

pub record Approved : Type 0 where
  pub case : CaseView
  pub approved : Bool

abbrev may_attest : CustodyState → Bool
may_attest state =
    state_eq state claim_evidence_accepted
    || state_eq state identity_attested
    || state_eq state approval_required

-- `CaseView.from_record(self.repository.get_case(case_id))`
abbrev pub viewed : Repo → String → Result CaseView
viewed repo case_id = get_case repo case_id >>= λ case. ok (view_case case)

unfoldable check_approval : CaseRecord → ℕ → String → Result (Unit {0})
unfolding CustodyState-discrete strip
check_approval case expected_version reason = do
  raise_if (not (state_eq case.state approval_required)) (conflict "approval_not_expected")
  raise_if (not (eqb case.version expected_version)) (conflict "stale_case_version")
  raise_if (ltb (count (strip reason)) 8) (conflict "approval_reason_required")

module _ ⦃h : Hashing⦄ where
  unfoldable identity_reference : String → String → String → String
  identity_reference case_id staff method =
      "identity-att-"
      <> slice
          (h.sha256_json (
            object (
              field "case" (text case_id)
                (field "staff" (text staff) (field "method" (text method) end)))))
          0 20

  unfoldable identity_spec :
      CaseRecord → String → String → String → String → String → ℕ → MutationSpec
  unfolding mutation_spec identity_reference evaluate_release_policy
  identity_spec case case_id staff method words key now =
      let reference = identity_reference case_id staff method in
      let decision =
        evaluate_release_policy (record case { identity_attestation_ref = some reference }) in
      record (mutation_spec case identity_attested "IDENTITY_ATTESTED" staff
        ("Staff recorded a " <> words <> " attestation. No ID number, text, or image was retained.")
        (key <> ":attested")
        (object (
          field "case_id" (text case_id)
            (field "staff" (text staff) (field "method" (text method) end))))
        (identity_attestation_ref (some reference) ∷ policy_outcome decision.outcome ∷ []) now) {
          evidence_refs = ("identity-attestation://" <> reference) ∷ [];
        }

  unfoldable approval_needed_spec : CaseRecord → String → String → ℕ → MutationSpec
  unfolding mutation_spec
  approval_needed_spec case case_id key now =
      mutation_spec case approval_required "SUPERVISOR_APPROVAL_REQUIRED" "service:policy"
        "Valuable electronics require accountable supervisor approval before a relay reservation."
        (key <> ":approval-required")
        (object (field "case_id" (text case_id) (field "risk_tier" (text "VALUABLE") end)))
        (policy_outcome require_review ∷ []) now

  -- what follows the attestation: a valuable item needs an approval
  unfoldable ask_approval : String → String → ℕ → Exec Repo Attested
  unfolding approval_needed_spec RiskTier-discrete
  ask_approval case_id key now repo = on_ok (get_case repo case_id) repo (λ case.
      if tier_eq case.risk_tier valuable
      then and_then (mutate (approval_needed_spec case case_id key now) repo) (λ result after.
        (viewed after case_id >>= λ v. ok (record { case = v; replayed = false }), after))
      else (viewed repo case_id >>= λ v. ok (record { case = v; replayed = false }), repo))

  -- `record_identity_attestation`
  unfoldable pub record_identity_attestation :
      String → ℕ → String → String → String → ℕ → Exec Repo Attested
  unfolding method_words identity_spec ask_approval CustodyState-discrete
  record_identity_attestation case_id expected_version staff method key now repo =
      elim (method_words method) [
        | none ↦ (err (conflict "identity_method_invalid"), repo)
        | some words ↦ on_ok (get_case repo case_id) repo (λ case.
            if not (may_attest case.state)
            then (err (conflict "identity_attestation_not_allowed"), repo)
            else if truthy case.identity_attestation_ref
            then (ok (record { case = view_case case; replayed = true }), repo)
            else if not (eqb case.version expected_version)
            then (err (conflict "stale_case_version"), repo)
            else (let base = "case:" <> case_id <> ":identity:" <> key in
                and_then (mutate (identity_spec case case_id staff method words base now) repo)
                  (λ result after. ask_approval case_id base now after)))
      ]

  unfoldable rejection_spec : CaseRecord → String → String → String → String → ℕ → MutationSpec
  unfolding mutation_spec strip
  rejection_spec case case_id supervisor reason key now =
      mutation_spec case rejected "SUPERVISOR_REJECTED" supervisor (strip reason)
        (key <> ":rejected")
        (object (
          field "case_id" (text case_id)
            (field "approved" (flag false) (field "reason" (text (strip reason)) end))))
        (policy_outcome deny ∷ []) now

  unfoldable approval_reference : String → String → String → String
  approval_reference case_id supervisor reason =
      "approval-"
      <> slice
          (h.sha256_json (
            object (
              field "case" (text case_id)
                (field "supervisor" (text supervisor) (field "reason" (text reason) end)))))
          0 20

  unfoldable approval_spec : CaseRecord → String → String → String → String → ℕ → MutationSpec
  unfolding mutation_spec approval_reference evaluate_release_policy strip
  approval_spec case case_id supervisor reason key now =
      let reference = approval_reference case_id supervisor reason in
      let decision = evaluate_release_policy (record case { approval_ref = some reference }) in
      record (mutation_spec case case.state "SUPERVISOR_APPROVED" supervisor (strip reason)
        (key <> ":approved")
        (object (
          field "case_id" (text case_id)
            (field "approved" (flag true) (field "reason" (text (strip reason)) end))))
        (approval_ref (some reference) ∷ policy_outcome decision.outcome ∷ []) now) {
          evidence_refs = ("approval://" <> reference) ∷ [];
          allow_fact_event = true;
        }

  -- `record_approval`
  unfoldable pub record_approval :
      String → ℕ → String → Bool → String → String → ℕ → Exec Repo Approved
  unfolding check_approval approval_spec rejection_spec
  record_approval case_id expected_version supervisor approved reason key now repo =
      on_ok (get_case repo case_id) repo (λ case.
        on_ok (check_approval case expected_version reason) repo (λ passed.
          let base = "case:" <> case_id <> ":approval:" <> key in
          let spec =
            if approved
            then approval_spec case case_id supervisor reason base now
            else rejection_spec case case_id supervisor reason base now in
          and_then (mutate spec repo) (λ result after.
            (viewed after case_id >>= λ v. ok (record { case = v; approved = approved }), after))))
