-- ===== src/Repository/Links/Consumption.antt =====
-- A call that consumes a claimant's link, in service/app/repository.py.
use found_roll.Prelude.{
  ℕ, String, ◌≡◌, refl, sym, ◌∙◌, inl, inr, Bool, true, false, Option, some, none, List, ok, get,
  get-put, Option-cases, Result-cases, returned, raised, arith, eq_iff,
}
use mathlib.Core.Bool.{true≢false}
use found_roll.Prelude.Json.{Hashing}
use found_roll.Domain.{CaseRecord, ClaimLinkRecord, EventRecord, IdempotencyRecord}
use found_roll.Repository.{Repo, MutationSpec}
use found_roll.Repository.Links.{
  ClaimEvidenceCommit, ClaimChecked, validate_claim_link, first_version, check_consume,
  commit_claim, consume_claim_link, replay_claim,
}
use found_roll.Repository.Chain.{Extends, done, more}
use found_roll.Repository.Chain.Kept.{check_consume-Extends}

module _ ⦃h : Hashing⦄ where
  id-Extends : {a b : CaseRecord} {es : List EventRecord} → Extends a es b → b.id ≡ a.id
  id-Extends done = refl
  id-Extends (more f x) = id-Extends x ∙ f.same_id

  -- A call that consumed a link: the link was valid, and its used copy is stored.
  pub record Consumed (case_id token_hash : String) (t : ℕ) (after : Repo) : Type 0 where
    pub link : ClaimLinkRecord
    pub case : CaseRecord
    pub found : get after.cases case_id ≡ some case
    pub stored : get after.claim_links case_id ≡ some link
    pub owner : link.case_id ≡ case.id
    pub token : link.token_hash ≡ token_hash
    pub used : link.used_at ≡ some t

  validate_claim_link-ok :
      (c : CaseRecord) (l : Option ClaimLinkRecord) (token_hash : String) (t : ℕ) (v : Option ℕ)
      (link : ClaimLinkRecord)
      → validate_claim_link c l token_hash t v ≡ ok link
      → (l ≡ some link)
        × (link.case_id ≡ c.id)
        × (link.token_hash ≡ token_hash)
        × (link.used_at ≡ none)
  unfolding validate_claim_link
  validate_claim_link-ok c none token_hash t v link w = absurd (ground arith)
  validate_claim_link-ok c (some l) token_hash t v link w = (
    ground arith,
    ground (arith, eq_iff l.case_id c.id),
    ground (arith, eq_iff l.token_hash token_hash),
    ground arith,
  )

  pub check_consume-ok :
      (repo : Repo) (case_id token_hash : String) (t : ℕ) (specs : List MutationSpec)
      (r : ClaimChecked)
      → check_consume repo case_id token_hash t specs ≡ ok r
      → (c : CaseRecord) × (get repo.cases case_id ≡ some c)
        × (r.updated.id ≡ c.id)
        × (get repo.claim_links case_id ≡ some r.link)
        × (r.link.case_id ≡ c.id)
        × (r.link.token_hash ≡ token_hash)
        × (r.link.used_at ≡ none)
  unfolding check_consume
  check_consume-ok repo case_id token_hash t specs r v =
      let (c, found, x) = check_consume-Extends repo case_id token_hash t specs r v in
      elim (Result-cases
        (validate_claim_link c (get repo.claim_links case_id) token_hash t (first_version specs))) [
          | raised e p ↦ absurd (ground arith)
          | returned link p ↦
              let same : link ≡ r.link = ground arith in
              let w =
                validate_claim_link-ok c (get repo.claim_links case_id) token_hash t
                  (first_version specs) r.link (rw same at p) in
              (c, found, id-Extends x, w.0, w.1, w.2, w.3)
        ]

  commit_claim-Consumed :
      (repo after : Repo) (case_id token_hash key fingerprint : String) (t : ℕ) (accepted : Bool)
      (r : ClaimChecked) (c : CaseRecord) (answer : ClaimEvidenceCommit)
      → commit_claim case_id key fingerprint t accepted r repo ≡ (ok answer, after)
      → r.updated.id ≡ c.id
      → r.link.case_id ≡ c.id
      → r.link.token_hash ≡ token_hash
      → Consumed case_id token_hash t after
  unfolding commit_claim
  commit_claim-Consumed repo after case_id token_hash key fingerprint t accepted r c answer v same
        own token =
      record {
        link = record r.link { used_at = some t };
        case = r.updated;
        found =
            ground (arith, get-put repo.cases case_id case_id r.updated, eq_iff case_id case_id);
        stored = ground (
          arith,
          get-put repo.claim_links case_id case_id (record r.link { used_at = some t }),
          eq_iff case_id case_id,
        );
        owner = own ∙ sym same;
        token = token;
        used = refl;
      }

  replay_claim-duplicate :
      (repo : Repo) (case_id fingerprint : String) (known : IdempotencyRecord)
      (answer : ClaimEvidenceCommit)
      → replay_claim repo case_id fingerprint known ≡ ok answer
      → answer.duplicate ≡ true
  unfolding replay_claim
  replay_claim-duplicate repo case_id fingerprint known answer v = ground arith

  pub consume-Consumed :
      (repo after : Repo) (case_id token_hash key fingerprint : String) (t : ℕ)
      (specs : List MutationSpec) (accepted : Bool) (answer : ClaimEvidenceCommit)
      → consume_claim_link case_id token_hash key fingerprint t specs accepted repo
        ≡ (ok answer, after)
      → answer.duplicate ≡ false
      → Consumed case_id token_hash t after
  unfolding consume_claim_link
  consume-Consumed repo after case_id token_hash key fingerprint t specs accepted answer v new =
      elim (Option-cases (get repo.idempotency key)) [
        | inr (old, known) ↦ absurd (
            true≢false (
              sym (replay_claim-duplicate repo case_id fingerprint old answer (ground arith))
              ∙ new))
        | inl unknown ↦ elim (Result-cases (check_consume repo case_id token_hash t specs)) [
          | raised e p ↦ absurd (ground arith)
          | returned r p ↦
              let (c, found, same, stored, own, token, fresh) =
                check_consume-ok repo case_id token_hash t specs r p in
              commit_claim-Consumed repo after case_id token_hash key fingerprint t accepted r c
                answer (rw (unknown, p) at v) same own token
        ]
      ]
