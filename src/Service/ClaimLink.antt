-- ===== src/Service/ClaimLink.antt =====
-- service/app/custody_service.py: the claimant's links at the service, `issue_claim_link` and
-- `inspect_claim_link`.
use found_roll.Prelude.{
  ℕ, ◌+◌, String, Bool, true, none, some, Result, ok, Exec, on_ok, and_then, ◌>>=◌, ◌<>◌,
}
use found_roll.Prelude.Json.{text, number, object, field, end, Hashing}
use found_roll.Domain.{ClaimLinkRecord, ClaimantCaseProjection, project_case}
use found_roll.Repository.{Repo}
use found_roll.Repository.Commit.{get_case}
use found_roll.Repository.Links.{issue_claim_link, inspect_claim_link}
use found_roll.Service.{Settings}
use found_roll.Service.Secrets.{secret_digest, claim_link_hash}

-- the answer of `issue_claim_link`, without the clear token
pub record LinkAnswer : Type 0 where
  pub case_id : String
  pub issued_case_version : ℕ
  pub issued_at : ℕ
  pub expires_at : ℕ
  pub active : Bool
  pub token : String

module _ ⦃h : Hashing⦄ where
  -- the token and the record of `issue_claim_link`
  unfoldable pub link_token : Settings → String → String → String
  unfolding secret_digest
  link_token settings case_id key =
      "frcl_"
      <> secret_digest
          (h.sha256_json
            (object (field "case_id" (text case_id) (field "idempotency_key" (text key) end))))
          settings.secret_pepper

  unfoldable pub new_link : Settings → String → ℕ → String → String → ℕ → ClaimLinkRecord
  unfolding secret_digest
  new_link settings case_id version key token_hash now = record {
    token_hash = token_hash;
    issuance_key_hash = secret_digest ("claim-link-issuance:" <> key) settings.secret_pepper;
    command_fingerprint = h.sha256_json (
        object (
          field "case_id" (text case_id) (
            field "expected_version" (number version) (field "token_hash" (text token_hash) end))));
    case_id = case_id;
    issued_case_version = version;
    issued_at = now;
    expires_at = now + settings.claim_link_ttl_microseconds;
    used_at = none;
    superseded_at = none;
  }

  -- `CustodyService.issue_claim_link`
  unfoldable pub issue_link : Settings → String → ℕ → String → ℕ → Exec Repo LinkAnswer
  unfolding link_token new_link claim_link_hash
  issue_link settings case_id version key now repo =
      let token = link_token settings case_id key in
      on_ok (claim_link_hash settings token) repo (λ token_hash.
        and_then (issue_claim_link (new_link settings case_id version key token_hash now) now repo)
          (λ result after. (
            ok (record {
              case_id = result.issued.case_id;
              issued_case_version = result.issued.issued_case_version;
              issued_at = result.issued.issued_at;
              expires_at = result.issued.expires_at;
              active = result.active;
              token = token;
            }),
            after,
          )))

  -- `CustodyService.inspect_claim_link`, whose answer is the claimant's view of the case
  unfoldable pub inspect_link :
      Settings → Repo → String → String → ℕ → Result ClaimantCaseProjection
  unfolding claim_link_hash get_case
  inspect_link settings repo case_id raw_token now = do
    token_hash ← claim_link_hash settings raw_token
    found ← inspect_claim_link repo case_id token_hash now
    case ← get_case repo case_id
    ok (
        project_case case (record {
          active = true;
          issued_case_version = found.issued_case_version;
          issued_at = some found.issued_at;
          expires_at = some found.expires_at;
        }))
