-- ===== src/Repository/Chain/Methods.antt =====
-- Every method of service/app/repository.py that writes keeps the log of every case, so that the
-- logs hold in each repository that the methods can reach.
use found_roll.Prelude.{ℕ, String, Bool, Option, List}
use found_roll.Prelude.Json.{Hashing}
use found_roll.Domain.{
  Candidate, CaseRecord, ClaimLinkRecord, CustodyState, OutboxStatus, OutboxFailureStage,
  TokenPurpose,
}
use found_roll.Repository.{Repo, MutationSpec, empty}
use found_roll.Repository.Commit.{apply_mutation, create_case}
use found_roll.Repository.Outbox.{
  mark_outbox, record_outbox_replay, claim_outbox_execution, mark_outbox_execution,
}
use found_roll.Repository.Links.{issue_claim_link, consume_claim_link}
use found_roll.Repository.Tokens.{consume_token, replace_synthetic_fixture}
use found_roll.Repository.Chain.Commands.{
  Consistent, apply_mutation-Consistent, create_case-Consistent,
}
use found_roll.Repository.Chain.Kept.{
  empty-Consistent, consume_claim_link-Consistent, issue_claim_link-Consistent,
  mark_outbox-Consistent, record_outbox_replay-Consistent, claim_outbox_execution-Consistent,
  mark_outbox_execution-Consistent, consume_token-Consistent, replace_synthetic_fixture-Consistent,
}

module _ ⦃h : Hashing⦄ where
  pub data Call (repo : Repo) : Repo → Type 0 where
    created :
        (case : CaseRecord) (candidates : List Candidate) (actor reason key : String)
        (occurred_at : ℕ) (fingerprint : Option String)
        → Call repo (create_case case candidates actor reason key occurred_at fingerprint repo).1
    mutated :
        (spec : MutationSpec) (outbox_id token : Option String)
        → Call repo (apply_mutation spec outbox_id token repo).1
    marked :
        (id : String) (status : OutboxStatus) (result : Option String) (completed_at : Option ℕ)
        (stage : Option OutboxFailureStage) (code : Option String)
        → Call repo (mark_outbox id status result completed_at stage code repo).1
    replayed :
        (id : String) (occurred_at : ℕ) (task : Option String)
        → Call repo (record_outbox_replay id occurred_at task repo).1
    claimed :
        (id token : String) (claimed_at lease : ℕ)
        → Call repo (claim_outbox_execution id token claimed_at lease repo).1
    executed :
        (id : String) (status : OutboxStatus) (token : String) (completed_at : ℕ)
        (stage : Option OutboxFailureStage) (code : Option String)
        → Call repo (mark_outbox_execution id status token completed_at stage code repo).1
    issued :
        (link : ClaimLinkRecord) (occurred_at : ℕ)
        → Call repo (issue_claim_link link occurred_at repo).1
    consumed :
        (case_id token_hash key fingerprint : String) (occurred_at : ℕ) (specs : List MutationSpec)
        (accepted : Bool)
        → Call repo
            (consume_claim_link case_id token_hash key fingerprint occurred_at specs accepted
              repo).1
    presented :
        (case_id handoff_id token_hash : String) (purpose : TokenPurpose) (version : ℕ)
        (target : CustodyState) (actor key fingerprint : String) (occurred_at : ℕ)
        (etag : Option String) (remote : Option ℕ)
        → Call repo
            (consume_token case_id handoff_id token_hash purpose version target actor key
              fingerprint occurred_at etag remote repo).1
    replaced :
        (case : CaseRecord) (candidates : List Candidate) (actor reason key : String)
        (occurred_at : ℕ)
        → Call repo (replace_synthetic_fixture case candidates actor reason key occurred_at repo).1
    reset : Call repo empty

  -- any calls, one after the other, on a new repository
  pub data Reachable : Repo → Type 0 where
    start : Reachable empty
    next : {repo after : Repo} → Reachable repo → Call repo after → Reachable after

  call-Consistent : {repo after : Repo} → Call repo after → Consistent repo → Consistent after
  call-Consistent (created case cs a r k t f) s = create_case-Consistent _ case cs a r k t f s
  call-Consistent (mutated spec o t) s = apply_mutation-Consistent _ spec o t s
  call-Consistent (marked i st r c g code) s = mark_outbox-Consistent _ i st r c g code s
  call-Consistent (replayed i o t) s = record_outbox_replay-Consistent _ i o t s
  call-Consistent (claimed i t c l) s = claim_outbox_execution-Consistent _ i t c l s
  call-Consistent (executed i st t c g code) s =
      mark_outbox_execution-Consistent _ i st t c g code s
  call-Consistent (issued link o) s = issue_claim_link-Consistent _ link o s
  call-Consistent (consumed c t k f o specs a) s =
      consume_claim_link-Consistent _ c t k f o specs a s
  call-Consistent (presented c hd t p v g a k f o e r) s =
      consume_token-Consistent _ c hd t p v g a k f o e r s
  call-Consistent (replaced case cs a r k t) s =
      replace_synthetic_fixture-Consistent _ case cs a r k t s
  call-Consistent reset s = empty-Consistent

  -- In every repository that the methods can reach, each case has its own complete log.
  pub Reachable-Consistent : {repo : Repo} → Reachable repo → Consistent repo
  Reachable-Consistent start = empty-Consistent
  Reachable-Consistent (next r c) = call-Consistent c (Reachable-Consistent r)
