-- ===== src/Service/Credentials.antt =====
-- service/app/custody_service.py: `issue_tokens` and `attest_token`. What the relay answers is an
-- argument.
pub mod Once
use found_roll.Prelude.{
  ℕ, ◌+◌, String, Bool, false, true, ◌&&◌, ◌||◌, Option, none, some, List, [], ◌∷◌, Result, ok, err,
  Exec, conflict, not, eqb, ltb, leb, opt_eq, truthy, raise_if, on_ok, on_some, and_then, ◌>>=◌,
  ◌>>◌, ◌<>◌, if◌then◌else◌,
}
use found_roll.Prelude.Json.{Json, text, object, field, end, Hashing}
use found_roll.Domain.{
  CaseRecord, CaseView, view_case, CustodyState, CustodyState-discrete, state_eq, reserved,
  claimant_present, HandoffRecord, HandoffView, view_handoff, TokenPurpose, TokenPurpose-discrete,
  purpose_eq, claimant, custodian, TokenRecord,
}
use found_roll.Repository.{Repo, MutationSpec}
use found_roll.Repository.Commit.{get_case, get_handoff}
use found_roll.Repository.Tokens.{consume_token, purpose_word}
use found_roll.Service.{Settings}
use found_roll.Service.Commands.{mutation_spec, mutate}
use found_roll.Service.Secrets.{secret_digest}

-- `IssuedCredentials` and `TokenPresentation` of service/app/relay.py
pub record IssuedCredentials : Type 0 where
  pub claimant_token : String
  pub custodian_token : String
  pub expires_at : ℕ
  pub remote_etag : String
  pub remote_version : ℕ

pub record TokenPresentation : Type 0 where
  pub attestation_id : String
  pub presented_at : ℕ
  pub remote_etag : String
  pub remote_version : ℕ

-- the answers of the two methods, without their constant texts
pub record IssuedAnswer : Type 0 where
  pub case : CaseView
  pub handoff : HandoffView
  pub claimant_token : String
  pub custodian_token : String
  pub expires_at : ℕ

pub record PresentedAnswer : Type 0 where
  pub case : CaseView
  pub handoff : HandoffView
  pub replayed : Bool

-- `timedelta(minutes=10)`
abbrev pub ten_minutes : ℕ
ten_minutes = 600000000

-- `min(handoff.expires_at or now + …, now + …)`
unfoldable pub requested_expiry : HandoffRecord → ℕ → ℕ
requested_expiry handoff now =
    let limit = now + ten_minutes in
    on_some handoff.expires_at (λ t. if ltb limit t then limit else t) limit

-- the checks before the relay is asked
unfoldable pub check_issuable : Repo → CaseRecord → ℕ → Result HandoffRecord
unfolding get_handoff CustodyState-discrete
check_issuable repo case expected_version = do
  raise_if (not (state_eq case.state reserved) || not (truthy case.handoff_id))
      (conflict "token_issue_not_allowed")
  raise_if (not (eqb case.version expected_version)) (conflict "stale_case_version")
  handoff ← get_handoff repo case.handoff_id
  raise_if handoff.tokens_issued (conflict "tokens_already_issued")
  ok handoff

-- the checks before a credential is attested
unfoldable pub check_presentable : Repo → CaseRecord → String → ℕ → Result HandoffRecord
unfolding get_handoff CustodyState-discrete
check_presentable repo case handoff_id expected_version = do
  raise_if
      (not (opt_eq case.handoff_id (some handoff_id))
        || not (state_eq case.state reserved || state_eq case.state claimant_present))
      (conflict "token_attestation_not_allowed")
  raise_if (not (eqb case.version expected_version)) (conflict "stale_case_version")
  get_handoff repo (some handoff_id)

-- the state after a presentation
unfoldable pub presentation_target : CaseRecord → TokenPurpose → CustodyState
unfolding CustodyState-discrete TokenPurpose-discrete
presentation_target case purpose =
    if purpose_eq purpose claimant && state_eq case.state reserved
    then claimant_present
    else case.state

abbrev purpose_value : TokenPurpose → String
purpose_value claimant = "CLAIMANT"
purpose_value custodian = "CUSTODIAN"

unfoldable pub credential : CaseRecord → HandoffRecord → TokenPurpose → String → ℕ → ℕ → TokenRecord
credential case handoff purpose token_hash now expires_at = record {
  token_hash = token_hash;
  case_id = case.id;
  handoff_id = handoff.id;
  item_id = handoff.item_id;
  purpose = purpose;
  issued_at = now;
  expires_at = expires_at;
  used_at = none;
}

module _ ⦃h : Hashing⦄ where
  -- the handoff after the issue
  unfoldable pub issued_handoff : Settings → HandoffRecord → IssuedCredentials → HandoffRecord
  unfolding secret_digest
  issued_handoff settings handoff issued = record handoff {
    claimant_token_hash = some (secret_digest issued.claimant_token settings.secret_pepper);
    custodian_token_hash = some (secret_digest issued.custodian_token settings.secret_pepper);
    tokens_issued = true;
    remote_etag = issued.remote_etag;
    remote_version = issued.remote_version;
  }

  unfoldable pub issue_spec :
      Settings → CaseRecord → String → HandoffRecord → IssuedCredentials → String → ℕ → MutationSpec
  unfolding mutation_spec issued_handoff credential secret_digest
  issue_spec settings case case_id handoff issued key now =
      record (mutation_spec case case.state "ONE_TIME_CREDENTIALS_ISSUED" "service:token-vault"
        "Issued two short-lived one-time credentials; only their keyed hashes were persisted."
        ("case:" <> case_id <> ":tokens:" <> key)
        (object (field "case_id" (text case_id) (field "handoff_id" (text handoff.id) end))) []
        now) {
          handoff = some (issued_handoff settings handoff issued);
          tokens =
              credential case handoff claimant
                (secret_digest issued.claimant_token settings.secret_pepper) now issued.expires_at
              ∷ credential case handoff custodian
                  (secret_digest issued.custodian_token settings.secret_pepper) now
                  issued.expires_at
              ∷ [];
          allow_fact_event = true;
        }

  -- the check of the relay's answer
  unfoldable pub check_issued :
      Result IssuedCredentials → HandoffRecord → ℕ → Result IssuedCredentials
  unfolding requested_expiry
  check_issued answer handoff now = do
    issued ← answer
    raise_if (leb issued.expires_at now || ltb (requested_expiry handoff now) issued.expires_at)
        (conflict "relay_token_expiry_invalid")
    ok issued

  -- `issue_tokens`
  unfoldable pub issue_tokens :
      Settings → String → ℕ → String → ℕ → Result IssuedCredentials → Exec Repo IssuedAnswer
  unfolding get_case check_issuable check_issued issue_spec
  issue_tokens settings case_id expected_version key now answer repo =
      on_ok (get_case repo case_id) repo (λ case.
        on_ok (check_issuable repo case expected_version) repo (λ handoff.
          on_ok (check_issued answer handoff now) repo (λ issued.
            and_then (mutate (issue_spec settings case case_id handoff issued key now) repo)
              (λ result after. (
                get_case after case_id >>= λ current. ok (record {
                  case = view_case current;
                  handoff = view_handoff (issued_handoff settings handoff issued);
                  claimant_token = issued.claimant_token;
                  custodian_token = issued.custodian_token;
                  expires_at = issued.expires_at;
                }),
                after,
              )))))

  unfoldable presentation_fingerprint : String → String → TokenPurpose → String → String
  presentation_fingerprint case_id handoff_id purpose token_hash = h.sha256_json (
      object (
        field "case_id" (text case_id) (
          field "handoff_id" (text handoff_id) (
            field "purpose" (text (purpose_value purpose))
              (field "token_hash" (text token_hash) end)))))

  -- the answer of `attest_token`
  unfoldable pub answer_presented : String → String → Bool → Exec Repo PresentedAnswer
  unfolding get_case get_handoff
  answer_presented case_id handoff_id replayed repo = (
    get_handoff repo (some handoff_id) >>= λ handoff. get_case repo case_id >>= λ case.
        ok (record { case = view_case case; handoff = view_handoff handoff; replayed = replayed }),
    repo,
  )

  -- `attest_token`
  unfoldable pub attest_token :
      Settings
      → String
      → ℕ
      → String
      → TokenPurpose
      → String
      → String
      → ℕ
      → Result TokenPresentation
      → Exec Repo PresentedAnswer
  unfolding get_case check_presentable presentation_target presentation_fingerprint secret_digest
      answer_presented
  attest_token settings case_id expected_version handoff_id purpose token key now answer repo =
      on_ok (get_case repo case_id) repo (λ case.
        on_ok (check_presentable repo case handoff_id expected_version) repo (λ handoff.
          on_ok answer repo (λ presentation.
            let token_hash = secret_digest token settings.secret_pepper in
            and_then
              (consume_token case_id handoff_id token_hash purpose expected_version
                (presentation_target case purpose)
                ("simulator:" <> purpose_word purpose <> "-scanner")
                ("case:" <> case_id <> ":token-attest:" <> key)
                (presentation_fingerprint case_id handoff_id purpose token_hash) now
                (some presentation.remote_etag) (some presentation.remote_version) repo)
              (λ result after. answer_presented case_id handoff_id result.duplicate after))))
