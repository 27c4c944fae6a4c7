-- ===== src/Service/Claim/Accepted.antt =====
-- When `submit_claim_evidence` of service/app/custody_service.py accepts a claim.
use found_roll.Prelude.{
  ℕ, String, ◌≡◌, ◌≢◌, refl, sym, subst, ap, ◌∙◌, Bool, true, false, some, List, Result, ok, err,
  conflict, get, get-put, arith, eq_iff, Bool-cases, Option-cases, inl, inr, length, and_then_state,
  Result-cases, returned, raised, some_inj,
}
use found_roll.Prelude.Json.{Hashing}
use found_roll.Domain.{
  Candidate, CaseRecord, EventRecord, clarification_required, claim_evidence_accepted,
}
use found_roll.Repository.{Repo, MutationSpec}
use found_roll.Repository.Events.{project_mutations}
use found_roll.Repository.Links.{
  ClaimChecked, check_consume, commit_claim, consume_claim_link, first_version, validate_claim_link,
}
use found_roll.Repository.Chain.Commands.{Consistent}
use found_roll.Service.{Settings}
use found_roll.Service.Secrets.{claim_link_hash, secret_digest}
use found_roll.Service.Claim.{
  answer_correct, claim_fingerprint, claim_key, claim_specs, consume_and_answer, list_candidates,
  selected_candidate, submit_claim_evidence, correct_specs, wrong_specs, received_spec,
  rejected_spec,
}
use found_roll.Service.Claim.Gated.{IsAnswered, answer_correct-IsAnswered}
use found_roll.Service.Claim.Outcomes.{ClaimOutcome, refused, stopped, project-claim_specs}

-- a claim link is valid only for the version that the commands expect
validate_claim_link_version :
    (c : CaseRecord) (v : ℕ) (repo : Repo) (k token_hash : String) (t : ℕ)
    → c.version ≢ v
    → validate_claim_link c (get repo.claim_links k) token_hash t (some v)
      ≡ err (conflict "stale_case_version")
unfolding validate_claim_link
validate_claim_link_version c v repo k token_hash t differ = ground arith

projected_alike :
    {m : Result (CaseRecord × List EventRecord)} {a b : CaseRecord} {xs ys : List EventRecord}
    → m ≡ ok (a, xs)
    → m ≡ ok (b, ys)
    → a ≡ b
projected_alike p q = ground (arith, p, q)

module _ ⦃h : Hashing⦄ where
  -- What a call that passed its checks has found.
  check_consume_projects :
      (repo : Repo) (k token_hash : String) (t : ℕ) (specs : List MutationSpec) (r : ClaimChecked)
      (c : CaseRecord)
      → check_consume repo k token_hash t specs ≡ ok r
      → get repo.cases k ≡ some c
      → (c.state ≡ clarification_required) × (project_mutations c specs ≡ ok (r.updated, r.events))
  unfolding check_consume
  check_consume_projects repo k token_hash t specs r c v found =
      (ground (arith, found), ground (arith, found))

  cases-commit_claim :
      (repo : Repo) (k key fingerprint : String) (t : ℕ) (accepted : Bool) (r : ClaimChecked)
      → get (commit_claim k key fingerprint t accepted r repo).1.cases k ≡ some r.updated
  unfolding commit_claim
  cases-commit_claim repo k key fingerprint t accepted r =
      ground (arith, get-put repo.cases k k r.updated, eq_iff k k)

  first_version-claim_specs :
      (correct : Bool) (c : CaseRecord) (k : String) (v : ℕ) (selected : Candidate)
      (digest key : String) (now : ℕ)
      → first_version (claim_specs correct c k v selected digest key now) ≡ some v
  unfolding claim_specs correct_specs wrong_specs received_spec rejected_spec
  first_version-claim_specs true c k v selected digest key now = refl
  first_version-claim_specs false c k v selected digest key now = refl

  check_consume_version :
      (repo : Repo) (k token_hash : String) (t : ℕ) (specs : List MutationSpec) (r : ClaimChecked)
      (c : CaseRecord) (v : ℕ)
      → check_consume repo k token_hash t specs ≡ ok r
      → get repo.cases k ≡ some c
      → first_version specs ≡ some v
      → v ≡ c.version
  unfolding check_consume validate_claim_link
  check_consume_version repo k token_hash t specs r c v w found starts =
      ground (arith, found, starts)

  -- the commands of a wrong answer do not lead to CLAIM_EVIDENCE_ACCEPTED
  refused_state :
      (c u : CaseRecord) (n : ℕ) → ClaimOutcome c false u n → u.state ≢ claim_evidence_accepted
  refused_state c u n (refused few at count same) p = ground (arith, at, p)
  refused_state c u n (stopped many at count same) p = ground (arith, at, p)

  wrong_not_accepted :
      (repo : Repo) (k token_hash : String) (t : ℕ) (v : ℕ) (selected : Candidate)
      (digest key : String) (r : ClaimChecked) (c : CaseRecord)
      → check_consume repo k token_hash t (claim_specs false c k v selected digest key t) ≡ ok r
      → get repo.cases k ≡ some c
      → c.id ≡ k
      → r.updated.state ≢ claim_evidence_accepted
  wrong_not_accepted repo k token_hash t v selected digest key r c w found own =
      let specs = claim_specs false c k v selected digest key t in
      let (at, projects) = check_consume_projects repo k token_hash t specs r c w found in
      let version =
        check_consume_version repo k token_hash t specs r c v w found
          (first_version-claim_specs false c k v selected digest key t) in
      let (u, es, expected, outcome) = project-claim_specs c false selected digest key t at in
      let same : r.updated ≡ u = projected_alike projects (
        subst
          (λ x. project_mutations c (claim_specs false c k x selected digest key t) ≡ ok (u, es))
          (sym version)
          (subst
            (λ i.
              project_mutations c (claim_specs false c i c.version selected digest key t)
              ≡ ok (u, es))
            own expected)) in
      λ p. refused_state c u (length es) outcome (ap (λ (x : CaseRecord). x.state) (sym same) ∙ p)

  consume_wrong :
      (repo : Repo) (k token_hash : String) (t : ℕ) (v : ℕ) (selected : Candidate)
      (digest base key fingerprint : String) (c u : CaseRecord)
      → get repo.cases k ≡ some c
      → c.id ≡ k
      → c.state ≢ claim_evidence_accepted
      → get
          (consume_claim_link k token_hash key fingerprint t
            (claim_specs false c k v selected digest base t)
            false
            repo).1.cases
          k
        ≡ some u
      → u.state ≢ claim_evidence_accepted
  unfolding consume_claim_link
  consume_wrong repo k token_hash t v selected digest base key fingerprint c u found own before
        stored =
      elim (Option-cases (get repo.idempotency key)) [
        | inr (old, known) ↦ ground (arith, found, known, before, stored)
        | inl unknown ↦
            elim (Result-cases (
              check_consume repo k token_hash t (claim_specs false c k v selected digest base t))) [
                | raised e p ↦ ground (arith, found, unknown, p, before, stored)
                | returned r p ↦
                    let now_stored = cases-commit_claim repo k key fingerprint t false r in
                    let same : r.updated ≡ u =
                      some_inj (sym now_stored ∙ (rw (unknown, p) at stored)) in
                    subst (λ (x : CaseRecord). x.state ≢ claim_evidence_accepted) same
                      (wrong_not_accepted repo k token_hash t v selected digest base r c p found
                        own)
              ]
      ]

  -- the repository after a submission is the one after its commit
  submit_wrong :
      (repo : Repo) (settings : Settings) (k raw_token token_hash : String) (v : ℕ)
      (answer key : String) (now : ℕ) (c : CaseRecord) (selected : Candidate)
      → get repo.cases k ≡ some c
      → claim_link_hash settings raw_token ≡ ok token_hash
      → selected_candidate repo c ≡ ok selected
      → answer_correct settings c selected (list_candidates repo c.candidate_ids) answer ≡ false
      → (submit_claim_evidence settings k raw_token v answer key now repo).1
        ≡ (consume_claim_link k token_hash
            (claim_key k key)
            (claim_fingerprint k v (secret_digest answer settings.secret_pepper) token_hash)
            now
            (claim_specs false c k v selected
              (secret_digest answer settings.secret_pepper)
              (claim_key k key)
              now)
            false
            repo).1
  unfolding submit_claim_evidence consume_and_answer
  submit_wrong repo settings k raw_token token_hash v answer key now c selected found p q wrong =
      rw (p, found, q, wrong)
        (and_then_state
          (consume_claim_link k token_hash (claim_key k key)
            (claim_fingerprint k v (secret_digest answer settings.secret_pepper) token_hash) now
            (claim_specs false c k v selected (secret_digest answer settings.secret_pepper)
              (claim_key k key) now)
            false repo)
          _ (λ a s. refl))

  -- In a consistent repository a submission takes a case to CLAIM_EVIDENCE_ACCEPTED only with the right
  -- answer to the selected candidate: it is of the case's category, fits its route and time, is
  -- available, has two visible signals, scores at least 0.10 and leads the score of every other
  -- candidate of the case by 0.10, and the digest of the answer is that of its restricted value.
  pub accepted_with_answer :
      (repo : Repo) (settings : Settings) (k raw_token : String) (v : ℕ) (answer key : String)
      (now : ℕ) (c u : CaseRecord)
      → Consistent repo
      → get repo.cases k ≡ some c
      → c.state ≢ claim_evidence_accepted
      → get (submit_claim_evidence settings k raw_token v answer key now repo).1.cases k ≡ some u
      → u.state ≡ claim_evidence_accepted
      → IsAnswered repo settings c answer
  unfolding submit_claim_evidence consume_and_answer
  accepted_with_answer repo settings k raw_token v answer key now c u s found before stored to =
      elim (Result-cases (claim_link_hash settings raw_token)) [
        | raised e p ↦ absurd (ground (arith, found, p))
        | returned token_hash p ↦ elim (Result-cases (selected_candidate repo c)) [
          | raised e q ↦ absurd (ground (arith, found, p, q))
          | returned selected q ↦
              let ranked = list_candidates repo c.candidate_ids in
              elim (Bool-cases (answer_correct settings c selected ranked answer)) [
                | inl correct ↦ answer_correct-IsAnswered repo settings c selected answer q correct
                | inr wrong ↦ absurd (
                    consume_wrong repo k token_hash now v selected
                      (secret_digest answer settings.secret_pepper) (claim_key k key)
                      (claim_key k key)
                      (claim_fingerprint k v (secret_digest answer settings.secret_pepper)
                        token_hash)
                      c u found (s.at k c found).own_id before
                      (subst (λ (x : Repo). get x.cases k ≡ some u)
                        (submit_wrong repo settings k raw_token token_hash v answer key now c
                          selected found p q wrong)
                        stored)
                      to)
              ]
        ]
      ]
