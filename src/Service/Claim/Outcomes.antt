-- ===== src/Service/Claim/Outcomes.antt =====
-- What the commands of `submit_claim_evidence` of service/app/custody_service.py do to the case.
use found_roll.Prelude.{
  ℕ, ◌+◌, ◌<◌, ◌≤◌, String, ◌≡◌, refl, Bool, true, false, none, List, [], ◌∷◌, ok, eq_iff, ltb,
  arith, Bool-cases, inl, inr, length,
}
use found_roll.Prelude.Json.{Hashing}
use found_roll.Domain.{
  CaseRecord, Candidate, EventRecord, clarification_required, manual_review,
  claim_evidence_accepted,
}
use found_roll.StateMachine.{assert_transition}
use found_roll.Repository.{MutationSpec}
use found_roll.Repository.Events.{
  apply_update, check_updates, make_event, next_case, project_mutation, project_mutations,
  project_rest,
}
use found_roll.Service.Claim.{
  claim_specs, correct_specs, wrong_specs, received_spec, rechecked_spec, accepted_spec,
  rejected_spec, limit_specs,
}

module _ ⦃h : Hashing⦄ where
  -- A command without side records that agrees with the case is projected.
  pub record IsNext (c : CaseRecord) (spec : MutationSpec) : Type 0 where
    pub own : spec.case_id ≡ c.id
    pub current : spec.expected_version ≡ c.version
    pub no_outbox : spec.outbox ≡ none
    pub no_handoff : spec.handoff ≡ none
    pub no_tokens : spec.tokens ≡ []
    pub updates_ok : check_updates spec.updates ≡ ok tt
    pub admitted : assert_transition c.state spec.target_state spec.allow_fact_event ≡ ok tt

  plain-IsNext :
      {c : CaseRecord} {spec : MutationSpec}
      → spec.case_id ≡ c.id
      → spec.expected_version ≡ c.version
      → spec.outbox ≡ none
      → spec.handoff ≡ none
      → spec.tokens ≡ []
      → check_updates spec.updates ≡ ok tt
      → assert_transition c.state spec.target_state spec.allow_fact_event ≡ ok tt
      → IsNext c spec
  plain-IsNext a b d e f g i = record {
    own = a;
    current = b;
    no_outbox = d;
    no_handoff = e;
    no_tokens = f;
    updates_ok = g;
    admitted = i;
  }

  project_step :
      (c : CaseRecord) (spec : MutationSpec)
      → IsNext c spec
      → project_mutation c spec ≡ ok (next_case c spec (make_event c spec), make_event c spec)
  unfolding project_mutation
  project_step c spec n = ground (
    arith,
    n.own,
    n.current,
    n.no_outbox,
    n.no_handoff,
    n.no_tokens,
    n.updates_ok,
    n.admitted,
    eq_iff spec.case_id c.id,
  )

  -- the case after a list of commands that are all projected
  abbrev after_all : CaseRecord → List MutationSpec → CaseRecord
  after_all c [] = c
  after_all c (spec ∷ specs) = after_all (next_case c spec (make_event c spec)) specs

  abbrev events_all : CaseRecord → List MutationSpec → List EventRecord
  events_all c [] = []
  events_all c (spec ∷ specs) =
      make_event c spec ∷ events_all (next_case c spec (make_event c spec)) specs

  abbrev AllNext : CaseRecord → List MutationSpec → Type 0
  AllNext c [] = Unit
  AllNext c (spec ∷ specs) = IsNext c spec × AllNext (next_case c spec (make_event c spec)) specs

  project_all :
      (c : CaseRecord) (specs : List MutationSpec)
      → AllNext c specs
      → project_rest c specs ≡ ok (after_all c specs, events_all c specs)
  unfolding project_rest
  project_all c [] n = refl
  project_all c (spec ∷ specs) n =
      rw (project_step c spec n.0, project_all (next_case c spec (make_event c spec)) specs n.1)
        refl

  correct-AllNext :
      (c : CaseRecord) (selected : Candidate) (digest key : String) (now : ℕ)
      → c.state ≡ clarification_required
      → AllNext c (correct_specs c c.id c.version selected digest key now)
  unfolding correct_specs received_spec rechecked_spec accepted_spec next_case check_updates
      assert_transition
  correct-AllNext c selected digest key now at = (
    plain-IsNext refl refl refl refl refl refl (rw at refl),
    (
      plain-IsNext refl refl refl refl refl refl refl,
      (plain-IsNext refl (omega arith) refl refl refl refl refl, tt),
    ),
  )

  wrong-AllNext :
      (c : CaseRecord) (digest key : String) (now : ℕ)
      → c.state ≡ clarification_required
      → AllNext c (wrong_specs c c.id c.version digest key now)
  unfolding wrong_specs rejected_spec limit_specs next_case make_event apply_update check_updates
      assert_transition
  wrong-AllNext c digest key now at = elim (Bool-cases (ltb 3 (c.wrong_answer_count + 1))) [
    | inl limit ↦ rw limit (
      plain-IsNext refl refl refl refl refl refl (rw at refl),
      (
        plain-IsNext refl refl refl refl refl refl refl,
        (plain-IsNext refl (omega arith) refl refl refl refl refl, tt),
      ),
    )
    | inr more ↦ rw more (plain-IsNext refl refl refl refl refl refl (rw at refl), tt)
  ]

  -- What a submission does to the case.
  pub data ClaimOutcome (c : CaseRecord) : Bool → CaseRecord → ℕ → Type 0 where
    accepted :
        {u : CaseRecord}
        → u.state ≡ claim_evidence_accepted
        → u.accepted_claim_evidence ≡ true
        → u.next_question ≡ none
        → u.wrong_answer_count ≡ c.wrong_answer_count
        → ClaimOutcome c true u 3
    refused :
        {u : CaseRecord}
        → c.wrong_answer_count < 3
        → u.state ≡ clarification_required
        → u.wrong_answer_count ≡ c.wrong_answer_count + 1
        → u.accepted_claim_evidence ≡ c.accepted_claim_evidence
        → ClaimOutcome c false u 1
    stopped :
        {u : CaseRecord}
        → 3 ≤ c.wrong_answer_count
        → u.state ≡ manual_review
        → u.wrong_answer_count ≡ c.wrong_answer_count + 1
        → u.accepted_claim_evidence ≡ c.accepted_claim_evidence
        → ClaimOutcome c false u 3

  -- The commands that a submission makes for a case in CLARIFICATION_REQUIRED are always projected.
  -- A correct answer takes the case to CLAIM_EVIDENCE_ACCEPTED with three events; a wrong one is
  -- counted and leaves the case where it is with one event, until the fourth, which takes it to
  -- MANUAL_REVIEW with three.
  pub project-claim_specs :
      (c : CaseRecord) (correct : Bool) (selected : Candidate) (digest key : String) (now : ℕ)
      → c.state ≡ clarification_required
      → (u : CaseRecord) × (es : List EventRecord) × (project_mutations c
            (claim_specs correct c c.id c.version selected digest key now)
          ≡ ok (u, es))
        × ClaimOutcome c correct u (length es)
  unfolding claim_specs project_mutations correct_specs wrong_specs received_spec rechecked_spec
      accepted_spec rejected_spec limit_specs next_case apply_update
  project-claim_specs c true selected digest key now at =
      let specs = correct_specs c c.id c.version selected digest key now in
      (
        after_all c specs,
        events_all c specs,
        project_all c specs (correct-AllNext c selected digest key now at),
        accepted refl refl refl refl,
      )
  project-claim_specs c false selected digest key now at =
      let first = rejected_spec c c.id c.version digest key (c.wrong_answer_count + 1) now in
      let rest = limit_specs c c.id c.version key (c.wrong_answer_count + 1) now in
      let valid = wrong-AllNext c digest key now at in
      elim (Bool-cases (ltb 3 (c.wrong_answer_count + 1))) [
        | inl limit ↦ (
          after_all c (first ∷ rest),
          events_all c (first ∷ rest),
          rw limit (project_all c (first ∷ rest) (rw limit at valid)),
          stopped (ground (arith, limit)) refl refl refl,
        )
        | inr more ↦ (
          after_all c (first ∷ []),
          events_all c (first ∷ []),
          rw more (project_all c (first ∷ []) (rw more at valid)),
          refused (ground (arith, more)) refl refl refl,
        )
      ]
