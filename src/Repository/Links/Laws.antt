-- ===== src/Repository/Links/Laws.antt =====
-- One-time claimant links of service/app/repository.py: a link works once, for its own case, and
-- only until a newer one is issued.
use found_roll.Prelude.{
  ℕ, ◌<◌, String, ◌≡◌, ◌≢◌, refl, sym, ◌∙◌, inl, inr, Bool, false, Option, some, none, List, ok,
  err, Error, conflict, get, get-put, Option-cases, Result-cases, returned, raised, arith, eq_iff,
  some_inj, none≢some, ap,
}
use found_roll.Prelude.Json.{Hashing}
use found_roll.Domain.{CaseRecord, ClaimLinkRecord}
use found_roll.Repository.{Repo, MutationSpec}
use found_roll.Repository.Links.{
  ClaimLinkIssue, ClaimEvidenceCommit, issue_claim_link, check_issue, supersede, write_link,
  inspect_claim_link, check_consume, consume_claim_link,
}
use found_roll.Repository.Chain.Commands.{Consistent}
use found_roll.Repository.Links.Consumption.{check_consume-ok, consume-Consumed}

-- A call that issued a new link.
pub record Issued (repo : Repo) (link : ClaimLinkRecord) (after : Repo) : Type 0 where
  pub case : CaseRecord
  pub found : get repo.cases link.case_id ≡ some case
  pub fresh : case.version ≡ link.issued_case_version
  pub cases : after.cases ≡ repo.cases
  pub stored : get after.claim_links link.case_id ≡ some link

check_issue-found :
    (repo : Repo) (link : ClaimLinkRecord)
    → check_issue repo link ≡ ok tt
    → (c : CaseRecord) × (get repo.cases link.case_id ≡ some c)
      × (c.version ≡ link.issued_case_version)
unfolding check_issue
check_issue-found repo link v = elim (Option-cases (get repo.cases link.case_id)) [
  | inl missing ↦ absurd (ground arith)
  | inr (c, found) ↦ (c, found, ground arith)
]

cases-supersede :
    (repo : Repo) (k : String) (previous : Option ClaimLinkRecord) (t : ℕ)
    → (supersede repo k previous t).cases ≡ repo.cases
unfolding supersede
cases-supersede repo k none t = refl
cases-supersede repo k (some p) t = refl

issue-Issued :
    (repo after : Repo) (link : ClaimLinkRecord) (t : ℕ) (i : ClaimLinkIssue)
    → issue_claim_link link t repo ≡ (ok i, after)
    → i.duplicate ≡ false
    → Issued repo link after
unfolding issue_claim_link
issue-Issued repo after link t i v new =
    elim (Option-cases (get repo.claim_link_issuances link.issuance_key_hash)) [
      | inr (old, known) ↦ absurd (ground arith)
      | inl unknown ↦ elim (Result-cases (check_issue repo link)) [
        | raised e p ↦ absurd (ground arith)
        | returned u p ↦
            let (c, found, fresh) = check_issue-found repo link p in
            let base = supersede repo link.case_id (get repo.claim_links link.case_id) t in
            let same : after ≡ write_link base link = ground arith in
            record {
              case = c;
              found = found;
              fresh = fresh;
              cases =
                  rw same (cases-supersede repo link.case_id (get repo.claim_links link.case_id) t);
              stored = rw same (
                  ground (
                    arith,
                    get-put base.claim_links link.case_id link.case_id link,
                    eq_iff link.case_id link.case_id,
                  ));
            }
      ]
    ]

module _ ⦃h : Hashing⦄ where
  -- A new link that was issued opens its case until it expires.
  pub inspect-issue :
      (repo after : Repo) (link : ClaimLinkRecord) (t later : ℕ) (i : ClaimLinkIssue)
      → Consistent repo
      → issue_claim_link link t repo ≡ (ok i, after)
      → i.duplicate ≡ false
      → link.used_at ≡ none
      → link.superseded_at ≡ none
      → later < link.expires_at
      → inspect_claim_link after link.case_id link.token_hash later ≡ ok link
  unfolding inspect_claim_link
  inspect-issue repo after link t later i s v new unused current early =
      let w = issue-Issued repo after link t i v new in
      let own = (s.at link.case_id w.case w.found).own_id in
      ground (
        arith,
        w.cases,
        w.found,
        w.stored,
        w.fresh,
        own,
        eq_iff link.case_id w.case.id,
        eq_iff link.token_hash link.token_hash,
      )

  -- When a newer link has been issued, the token of an older one opens nothing.
  pub inspect-reissue :
      (repo after : Repo) (link : ClaimLinkRecord) (old : String) (t later : ℕ) (i : ClaimLinkIssue)
      → issue_claim_link link t repo ≡ (ok i, after)
      → i.duplicate ≡ false
      → old ≢ link.token_hash
      → inspect_claim_link after link.case_id old later ≡ err (conflict "claim_link_invalid")
  unfolding inspect_claim_link
  inspect-reissue repo after link old t later i v new differ =
      let w = issue-Issued repo after link t i v new in
      ground (arith, w.cases, w.found, w.stored, eq_iff link.token_hash old)

  -- A link works once: after a call that consumed it with a new command, inspecting it is answered
  -- by "claim_link_replayed", and every further call that would consume a link of the case under an
  -- idempotency key that is not known raises and changes nothing, whatever token, time and commands
  -- it brings.
  pub consumed_once :
      (repo after : Repo) (case_id token_hash key fingerprint : String) (t : ℕ)
      (specs : List MutationSpec) (accepted : Bool) (answer : ClaimEvidenceCommit) (later : ℕ)
      (token' key' fingerprint' : String) (specs' : List MutationSpec) (accepted' : Bool)
      → consume_claim_link case_id token_hash key fingerprint t specs accepted repo
        ≡ (ok answer, after)
      → answer.duplicate ≡ false
      → get after.idempotency key' ≡ none
      → (inspect_claim_link after case_id token_hash later ≡ err (conflict "claim_link_replayed"))
        × ((e : Error) × (consume_claim_link case_id token' key' fingerprint' later specs' accepted'
                after
              ≡ (err e, after)))
  unfolding inspect_claim_link consume_claim_link
  consumed_once repo after case_id token_hash key fingerprint t specs accepted answer later token'
        key' fingerprint' specs' accepted' v new unknown =
      let w =
        consume-Consumed repo after case_id token_hash key fingerprint t specs accepted answer v
          new in
      (
        ground (
          arith,
          w.found,
          w.stored,
          w.owner,
          w.token,
          w.used,
          eq_iff w.link.case_id w.case.id,
          eq_iff w.link.token_hash token_hash,
        ),
        elim (Result-cases (check_consume after case_id token' later specs')) [
          | raised e p ↦ (e, rw (unknown, p))
          | returned r p ↦
              let (c, found, same, stored, own, token, fresh) =
                check_consume-ok after case_id token' later specs' r p in
              let link : r.link ≡ w.link = some_inj (sym stored ∙ w.stored) in
              absurd (none≢some (sym fresh ∙ ap (λ (x : ClaimLinkRecord). x.used_at) link ∙ w.used))
        ],
      )
