-- ===== src/Repository/Chain/Kept.antt =====
-- The methods of service/app/repository.py that write keep a repository consistent.
use found_roll.Prelude.{
  ℕ, String, ◌≡◌, inl, inr, Bool, Option, some, none, List, ok, get, Option-cases, Result-cases,
  returned, raised, arith, Result, err, and_then,
}
use found_roll.Prelude.Json.{Hashing}
use found_roll.Domain.{
  Candidate, CaseRecord, ClaimLinkRecord, CustodyState, OutboxStatus, OutboxFailureStage,
  TokenPurpose, TokenRecord, HandoffRecord, state_eq,
}
use found_roll.Repository.{Repo, MutationSpec, empty}
use found_roll.Repository.Events.{project_mutations}
use found_roll.Repository.Outbox.{
  mark_outbox, record_outbox_replay, claim_outbox_execution, take_claim, mark_outbox_execution,
}
use found_roll.Repository.Links.{
  issue_claim_link, check_issue, ClaimChecked, check_consume, commit_claim, consume_claim_link,
}
use found_roll.Repository.Tokens.{
  consume_token, check_token, present, attested_handoff, presentation_spec,
  replace_synthetic_fixture, without_case,
}
use found_roll.Repository.Chain.{Extends, extend-IsConsistent, drop-IsConsistent}
use found_roll.Repository.Chain.Commands.{
  Consistent, apply_mutation-Consistent, create_case-Consistent, project_mutations-Extends,
}

module _ ⦃h : Hashing⦄ where
  pub empty-Consistent : Consistent empty
  unfolding empty get
  empty-Consistent = record { at = λ k c e. cc }

  -- a method that leaves the cases and the logs alone
  same-Consistent :
      (repo after : Repo)
      → after.cases ≡ repo.cases
      → after.events ≡ repo.events
      → Consistent repo
      → Consistent after
  same-Consistent repo after p q s = rw (p, q) s

  -- the events that a claim-evidence command commits extend the log of its case
  pub check_consume-Extends :
      (repo : Repo) (case_id token_hash : String) (occurred_at : ℕ) (specs : List MutationSpec)
      (r : ClaimChecked)
      → check_consume repo case_id token_hash occurred_at specs ≡ ok r
      → (c : CaseRecord) × (get repo.cases case_id ≡ some c) × Extends c r.events r.updated
  unfolding check_consume
  check_consume-Extends repo case_id token_hash occurred_at specs r v =
      elim (Option-cases (get repo.cases case_id)) [
        | inl missing ↦ absurd (ground arith)
        | inr (c, found) ↦ elim (Result-cases (project_mutations c specs)) [
          | raised x p ↦ absurd (ground arith)
          | returned (u, es) p ↦
              let a : r.events ≡ es = ground arith in
              let b : r.updated ≡ u = ground arith in
              (c, found, rw (a, b) (project_mutations-Extends c specs u es p))
        ]
      ]

  commit_claim-Consistent :
      (repo : Repo) (case_id key fingerprint : String) (occurred_at : ℕ) (accepted : Bool)
      (r : ClaimChecked) (c : CaseRecord)
      → get repo.cases case_id ≡ some c
      → Extends c r.events r.updated
      → Consistent repo
      → Consistent (commit_claim case_id key fingerprint occurred_at accepted r repo).1
  unfolding commit_claim
  commit_claim-Consistent repo case_id key fingerprint occurred_at accepted r c found x s =
      let l = s.at case_id c found in
      rw l.logged (extend-IsConsistent case_id c r.updated l.events r.events s found l.logged x)

  pub consume_claim_link-Consistent :
      (repo : Repo) (case_id token_hash key fingerprint : String) (occurred_at : ℕ)
      (specs : List MutationSpec) (accepted : Bool)
      → Consistent repo
      → Consistent
          (consume_claim_link case_id token_hash key fingerprint occurred_at specs accepted repo).1
  unfolding consume_claim_link
  consume_claim_link-Consistent repo case_id token_hash key fingerprint occurred_at specs accepted
        s =
      elim (Option-cases (get repo.idempotency key)) [
        | inr (r, known) ↦ rw known s
        | inl new ↦
            rw new (elim (Result-cases (check_consume repo case_id token_hash occurred_at specs)) [
              | raised e p ↦ rw p s
              | returned r p ↦
                  let (c, found, x) =
                    check_consume-Extends repo case_id token_hash occurred_at specs r p in
                  rw p (
                    commit_claim-Consistent repo case_id key fingerprint occurred_at accepted r c
                      found x s)
            ])
      ]

  pub issue_claim_link-Consistent :
      (repo : Repo) (link : ClaimLinkRecord) (occurred_at : ℕ)
      → Consistent repo
      → Consistent (issue_claim_link link occurred_at repo).1
  unfolding issue_claim_link
  issue_claim_link-Consistent repo link occurred_at s =
      elim (Option-cases (get repo.claim_link_issuances link.issuance_key_hash)) [
        | inr (r, known) ↦ rw known s
        | inl new ↦ rw new (elim (Result-cases (check_issue repo link)) [
          | raised e p ↦ rw p s
          | returned u p ↦ rw p (elim (Option-cases (get repo.claim_links link.case_id)) [
            | inl q ↦ rw q s
            | inr (b, q) ↦ rw q s
          ])
        ])
      ]

  pub mark_outbox-Consistent :
      (repo : Repo) (id : String) (status : OutboxStatus) (result : Option String)
      (completed_at : Option ℕ) (stage : Option OutboxFailureStage) (code : Option String)
      → Consistent repo
      → Consistent (mark_outbox id status result completed_at stage code repo).1
  unfolding mark_outbox
  mark_outbox-Consistent repo id status result completed_at stage code s =
      same-Consistent repo (mark_outbox id status result completed_at stage code repo).1
        (ground arith) (ground arith) s

  pub record_outbox_replay-Consistent :
      (repo : Repo) (id : String) (occurred_at : ℕ) (task : Option String)
      → Consistent repo
      → Consistent (record_outbox_replay id occurred_at task repo).1
  unfolding record_outbox_replay
  record_outbox_replay-Consistent repo id occurred_at task s =
      same-Consistent repo (record_outbox_replay id occurred_at task repo).1 (ground arith)
        (ground arith) s

  pub claim_outbox_execution-Consistent :
      (repo : Repo) (id token : String) (claimed_at lease : ℕ)
      → Consistent repo
      → Consistent (claim_outbox_execution id token claimed_at lease repo).1
  unfolding claim_outbox_execution take_claim
  claim_outbox_execution-Consistent repo id token claimed_at lease s =
      same-Consistent repo (claim_outbox_execution id token claimed_at lease repo).1 (ground arith)
        (ground arith) s

  pub mark_outbox_execution-Consistent :
      (repo : Repo) (id : String) (status : OutboxStatus) (token : String) (completed_at : ℕ)
      (stage : Option OutboxFailureStage) (code : Option String)
      → Consistent repo
      → Consistent (mark_outbox_execution id status token completed_at stage code repo).1
  unfolding mark_outbox_execution
  mark_outbox_execution-Consistent repo id status token completed_at stage code s =
      same-Consistent repo (mark_outbox_execution id status token completed_at stage code repo).1
        (ground arith) (ground arith) s

  -- what follows an action that may have raised, and leaves the cases and the logs alone
  and_then-Consistent :
      {A B : Type 0} (m : Result A × Repo) (f : A → Repo → Result B × Repo)
      → Consistent m.1
      → ((a : A) (after : Repo) → Consistent after → Consistent (f a after).1)
      → Consistent (and_then m f).1
  and_then-Consistent (ok a, after) f s keep = keep a after s
  and_then-Consistent (err e, after) f s keep = s

  present-Consistent :
      (repo : Repo) (case_id token_hash : String) (purpose : TokenPurpose) (version : ℕ)
      (target : CustodyState) (actor key fingerprint : String) (occurred_at : ℕ)
      (etag : Option String) (remote : Option ℕ) (token : TokenRecord) (handoff : HandoffRecord)
      → Consistent repo
      → Consistent
          (present case_id token_hash purpose version target actor key fingerprint occurred_at etag
            remote token handoff repo).1
  unfolding present
  present-Consistent repo case_id token_hash purpose version target actor key fingerprint
        occurred_at etag remote token handoff s =
      elim (Option-cases (get repo.cases case_id)) [
        | inl missing ↦ rw missing s
        | inr (c, found) ↦ rw found (
            and_then-Consistent _ _
              (apply_mutation-Consistent repo
                (presentation_spec case_id purpose version target actor key fingerprint occurred_at
                  (attested_handoff handoff purpose occurred_at etag remote)
                  (state_eq target c.state))
                none none s)
              (λ a b t. t))
      ]

  pub consume_token-Consistent :
      (repo : Repo) (case_id handoff_id token_hash : String) (purpose : TokenPurpose) (version : ℕ)
      (target : CustodyState) (actor key fingerprint : String) (occurred_at : ℕ)
      (etag : Option String) (remote : Option ℕ)
      → Consistent repo
      → Consistent
          (consume_token case_id handoff_id token_hash purpose version target actor key fingerprint
            occurred_at etag remote repo).1
  unfolding consume_token
  consume_token-Consistent repo case_id handoff_id token_hash purpose version target actor key
        fingerprint occurred_at etag remote s =
      elim (Option-cases (get repo.idempotency key)) [
        | inr (r, known) ↦ rw known s
        | inl new ↦
            rw new
              (elim (Result-cases
                (check_token repo case_id handoff_id token_hash purpose occurred_at)) [
                  | raised e p ↦ rw p s
                  | returned (token, handoff) p ↦ rw p (
                      present-Consistent repo case_id token_hash purpose version target actor key
                        fingerprint occurred_at etag remote token handoff s)
                ])
      ]

  pub replace_synthetic_fixture-Consistent :
      (repo : Repo) (case : CaseRecord) (candidates : List Candidate) (actor reason key : String)
      (occurred_at : ℕ)
      → Consistent repo
      → Consistent (replace_synthetic_fixture case candidates actor reason key occurred_at repo).1
  unfolding replace_synthetic_fixture
  replace_synthetic_fixture-Consistent repo case candidates actor reason key occurred_at s =
      create_case-Consistent (without_case repo case.id candidates) case candidates actor reason key
        occurred_at none (unfold without_case in drop-IsConsistent case.id s)
  -- A call of a writing method: what the repository is after it, whether it returned or raised.
