-- ===== src/Repository/Tokens.antt =====
-- service/app/repository.py: `consume_token` and `replace_synthetic_fixture` of
-- `InMemoryRepository`.
pub mod Laws
use Prim.Native.String.{◌++◌ as str_append}
use found_roll.Prelude.{
  ℕ, String, Bool, ◌||◌, Option, none, some, List, [], ◌∷◌, Result, ok, err, Exec, key_error,
  conflict, not_found, not, leb, ◌==◌, is_some, truthy, or_else, raise_if, require, on_ok, on_some,
  and_then, ◌>>=◌, ◌>>◌, get, put, pop, retain, Dict, if◌then◌else◌,
}
use found_roll.Prelude.Json.{Hashing}
use found_roll.Domain.{
  AppliedMutation, Candidate, CaseRecord, CustodyState, CustodyState-discrete, state_eq,
  HandoffRecord, IdempotencyRecord, Response, receipt, claim, TokenPurpose, TokenPurpose-discrete,
  TokenRecord, claimant, custodian, purpose_eq,
}
use found_roll.Repository.{Repo, MutationSpec}
use found_roll.Repository.Commit.{apply_mutation, create_case, replay_mutation}

-- `purpose.value.lower()`
abbrev pub purpose_word : TokenPurpose → String
purpose_word claimant = "claimant"
purpose_word custodian = "custodian"

-- the credential and the handoff, if the credential can be consumed
unfoldable pub check_token :
    Repo → String → String → String → TokenPurpose → ℕ → Result (TokenRecord × HandoffRecord)
unfolding TokenPurpose-discrete
check_token repo case_id handoff_id token_hash purpose occurred_at = do
  token ← require (get repo.tokens token_hash) (conflict "invalid_token")
  raise_if
      (not (token.case_id == case_id)
        || not (token.handoff_id == handoff_id)
        || not (purpose_eq token.purpose purpose))
      (conflict "invalid_token")
  raise_if (is_some token.used_at) (conflict "token_replayed")
  raise_if (leb token.expires_at occurred_at) (conflict "token_expired")
  handoff ← require (get repo.handoffs handoff_id) (not_found "Handoff")
  ok (token, handoff)

-- the handoff after the presentation
unfoldable pub attested_handoff :
    HandoffRecord → TokenPurpose → ℕ → Option String → Option ℕ → HandoffRecord
attested_handoff handoff purpose occurred_at remote_etag remote_version = record handoff {
  claimant_attested_at = elim purpose [
    | claimant ↦ some occurred_at
    | custodian ↦ handoff.claimant_attested_at
  ];
  custodian_attested_at = elim purpose [
    | claimant ↦ handoff.custodian_attested_at
    | custodian ↦ some occurred_at
  ];
  remote_etag =
      on_some remote_etag (λ etag. if etag == "" then handoff.remote_etag else etag)
        handoff.remote_etag;
  remote_version = on_some remote_version (λ version. version) handoff.remote_version;
}

-- the command that records the presentation
unfoldable pub presentation_spec :
    String
    → TokenPurpose
    → ℕ
    → CustodyState
    → String
    → String
    → String
    → ℕ
    → HandoffRecord
    → Bool
    → MutationSpec
presentation_spec case_id purpose expected_version target_state actor key fingerprint occurred_at
      handoff fact =
    record {
      case_id = case_id;
      expected_version = expected_version;
      target_state = target_state;
      event_type = "TOKEN_PRESENTED";
      actor = actor;
      reason = str_append "The " (
          str_append (purpose_word purpose) (
            str_append " one-time credential was presented. "
              "This records a service token attestation, not physical possession."));
      idempotency_key = key;
      fingerprint = fingerprint;
      occurred_at = occurred_at;
      updates = [];
      evidence_refs = [];
      tool = none;
      task_id = none;
      model_run_id = none;
      simulator_attestation_id = none;
      outbox = none;
      handoff = some handoff;
      tokens = [];
      allow_fact_event = fact;
    }

-- `row.response.get("case_id")`
abbrev response_case : Response → String
response_case (receipt r) = r.case_id
response_case (claim case_id case event_ids accepted) = case_id

-- whether a remembered command belongs to another case
unfoldable pub of_other_case : String → IdempotencyRecord → Bool
of_other_case id row =
    let owner =
      on_some row.case_id (λ o. if o == "" then response_case row.response else o)
        (response_case row.response) in
    not (owner == id)

unfoldable pub pop_candidates : List Candidate → Dict Candidate → Dict Candidate
pop_candidates [] table = table
pop_candidates (c ∷ cs) table = pop_candidates cs (pop table c.id)

-- what `replace_synthetic_fixture` leaves of the repository before it creates the case again
unfoldable pub without_case : Repo → String → List Candidate → Repo
unfolding pop_candidates of_other_case
without_case repo id candidates = record repo {
  cases = pop repo.cases id;
  events = pop repo.events id;
  candidates = pop_candidates candidates repo.candidates;
  outboxes = retain (λ key row. not (row.case_id == id)) repo.outboxes;
  execution_claims = retain (λ key row. not (row.case_id == id)) repo.execution_claims;
  handoffs = retain (λ key row. not (row.case_id == id)) repo.handoffs;
  tokens = retain (λ key row. not (row.case_id == id)) repo.tokens;
  claim_links = pop repo.claim_links id;
  claim_link_issuances = retain (λ key row. not (row.case_id == id)) repo.claim_link_issuances;
  idempotency = retain (λ key row. of_other_case id row) repo.idempotency;
}

module _ ⦃h : Hashing⦄ where
  -- `replace_synthetic_fixture`
  unfoldable pub replace_synthetic_fixture :
      CaseRecord → List Candidate → String → String → String → ℕ → Exec Repo AppliedMutation
  replace_synthetic_fixture case candidates actor reason key occurred_at repo =
      create_case case candidates actor reason key occurred_at none
        (without_case repo case.id candidates)

  -- The new part of `consume_token`: the mutation, and then the mark on the credential. The test
  -- for a fact event reads the case before the mutation does.
  unfoldable pub present :
      String
      → String
      → TokenPurpose
      → ℕ
      → CustodyState
      → String
      → String
      → String
      → ℕ
      → Option String
      → Option ℕ
      → TokenRecord
      → HandoffRecord
      → Exec Repo AppliedMutation
  unfolding CustodyState-discrete
  present case_id token_hash purpose expected_version target_state actor key fingerprint occurred_at
        remote_etag remote_version token handoff repo =
      on_some (get repo.cases case_id)
        (λ case.
          let updated = attested_handoff handoff purpose occurred_at remote_etag remote_version in
          let spec =
            presentation_spec case_id purpose expected_version target_state actor key fingerprint
              occurred_at updated (state_eq target_state case.state) in
          and_then (apply_mutation spec none none repo) (λ result after. (
            ok result,
            record after {
              tokens = put after.tokens token_hash (record token { used_at = some occurred_at });
            },
          )))
        (err (key_error case_id), repo)

  -- `consume_token`
  unfoldable pub consume_token :
      String
      → String
      → String
      → TokenPurpose
      → ℕ
      → CustodyState
      → String
      → String
      → String
      → ℕ
      → Option String
      → Option ℕ
      → Exec Repo AppliedMutation
  unfolding present
  consume_token case_id handoff_id token_hash purpose expected_version target_state actor key
        fingerprint occurred_at remote_etag remote_version repo =
      on_some (get repo.idempotency key)
        (λ existing. (replay_mutation repo case_id fingerprint existing, repo))
        (on_ok (check_token repo case_id handoff_id token_hash purpose occurred_at) repo (λ found.
          present case_id token_hash purpose expected_version target_state actor key fingerprint
            occurred_at remote_etag remote_version found.0 found.1 repo))
