-- ===== src/Repository/Links.antt =====
-- service/app/repository.py: the one-time claimant links of `InMemoryRepository`.
pub mod Consumption
pub mod Laws
use found_roll.Prelude.{
  ℕ, String, Bool, false, true, ◌&&◌, ◌||◌, Option, none, some, List, [], ◌∷◌, ◌++◌, Result, ok,
  err, Exec, value_error, key_error, conflict, not_found, not, ltb, leb, eqb, ◌==◌, is_some,
  raise_if, require, on_ok, on_some, ◌>>=◌, ◌>>◌, get, put, any, if◌then◌else◌,
}
use found_roll.Prelude.Json.{Hashing}
use found_roll.Domain.{
  CaseRecord, CustodyState-discrete, clarification_required, state_eq, ClaimLinkRecord, EventRecord,
  IdempotencyRecord, Response, receipt, claim,
}
use found_roll.Repository.{Repo, MutationSpec}
use found_roll.Repository.Events.{project_mutations}
use found_roll.Repository.Commit.{get_event}

pub record ClaimLinkIssue : Type 0 where
  pub issued : ClaimLinkRecord
  pub duplicate : Bool
  pub active : Bool

pub record ClaimEvidenceCommit : Type 0 where
  pub case : CaseRecord
  pub events : List EventRecord
  pub accepted : Bool
  pub duplicate : Bool

-- `_validate_claim_link`
unfoldable pub validate_claim_link :
    CaseRecord → Option ClaimLinkRecord → String → ℕ → Option ℕ → Result ClaimLinkRecord
validate_claim_link case link token_hash occurred_at expected_version = do
  raise_if (on_some expected_version (λ v. not (eqb case.version v)) false)
      (conflict "stale_case_version")
  found ← require link (conflict "claim_link_invalid")
  raise_if (not (found.case_id == case.id) || not (found.token_hash == token_hash))
      (conflict "claim_link_invalid")
  raise_if (is_some found.used_at) (conflict "claim_link_replayed")
  raise_if (is_some found.superseded_at) (conflict "claim_link_invalid")
  raise_if (not (eqb found.issued_case_version case.version)) (conflict "claim_link_invalid")
  raise_if (leb found.expires_at occurred_at) (conflict "claim_link_expired")
  ok found

-- `_claim_link_is_active`
unfoldable pub claim_link_is_active :
    Option CaseRecord → Option ClaimLinkRecord → ClaimLinkRecord → ℕ → Bool
claim_link_is_active (some case) (some active) link occurred_at =
    active.issuance_key_hash == link.issuance_key_hash
    && active.token_hash == link.token_hash
    && not (is_some active.used_at)
    && not (is_some active.superseded_at)
    && not (is_some link.used_at)
    && not (is_some link.superseded_at)
    && eqb link.issued_case_version case.version
    && ltb occurred_at link.expires_at
claim_link_is_active _ _ link occurred_at = false

-- The answer of `issue_claim_link` to a known issuance key.
unfoldable pub replay_issue : Repo → ClaimLinkRecord → ClaimLinkRecord → ℕ → Result ClaimLinkIssue
unfolding claim_link_is_active
replay_issue repo existing link occurred_at = do
  raise_if (not (existing.command_fingerprint == link.command_fingerprint))
      (conflict "idempotency_conflict")
  ok (record {
    issued = existing;
    duplicate = true;
    active =
        claim_link_is_active (get repo.cases existing.case_id)
          (get repo.claim_links existing.case_id) existing occurred_at;
  })

-- the checks of a new link
unfoldable pub check_issue : Repo → ClaimLinkRecord → Result (Unit {0})
unfolding CustodyState-discrete
check_issue repo link = do
  case ← require (get repo.cases link.case_id) (not_found "Item Passport")
  raise_if (not (state_eq case.state clarification_required)) (conflict "claim_link_not_allowed")
  raise_if (not (eqb case.version link.issued_case_version)) (conflict "stale_case_version")

-- the link before is superseded, in both tables
unfoldable pub supersede : Repo → String → Option ClaimLinkRecord → ℕ → Repo
supersede repo case_id none occurred_at = repo
supersede repo case_id (some previous) occurred_at =
    let superseded = record previous { superseded_at = some occurred_at } in
    record repo {
      claim_links = put repo.claim_links case_id superseded;
      claim_link_issuances = put repo.claim_link_issuances previous.issuance_key_hash superseded;
    }

-- the new link is written to both tables
unfoldable pub write_link : Repo → ClaimLinkRecord → Repo
write_link repo link = record repo {
  claim_links = put repo.claim_links link.case_id link;
  claim_link_issuances = put repo.claim_link_issuances link.issuance_key_hash link;
}

-- `issue_claim_link`
unfoldable pub issue_claim_link : ClaimLinkRecord → ℕ → Exec Repo ClaimLinkIssue
unfolding replay_issue check_issue supersede write_link
issue_claim_link link occurred_at repo =
    on_some (get repo.claim_link_issuances link.issuance_key_hash)
      (λ existing. (replay_issue repo existing link occurred_at, repo))
      (on_ok (check_issue repo link) repo (λ _. (
        ok (record { issued = link; duplicate = false; active = true }),
        write_link (supersede repo link.case_id (get repo.claim_links link.case_id) occurred_at)
            link,
      )))

-- `inspect_claim_link`
unfoldable pub inspect_claim_link : Repo → String → String → ℕ → Result ClaimLinkRecord
unfolding validate_claim_link
inspect_claim_link repo case_id token_hash occurred_at = do
  case ← require (get repo.cases case_id) (conflict "claim_link_invalid")
  validate_claim_link case (get repo.claim_links case_id) token_hash occurred_at none

-- the events of a remembered claim-evidence command, by their identifiers
unfoldable pub get_events : Repo → String → List String → Result (List EventRecord)
unfolding get_event
get_events repo case_id [] = ok []
get_events repo case_id (event_id ∷ ids) = do
  event ← get_event repo case_id event_id
  events ← get_events repo case_id ids
  ok (event ∷ events)

-- `existing.response["case"]` and the entries beside it
unfoldable pub replay_response : Repo → String → Response → Result ClaimEvidenceCommit
unfolding get_events
replay_response repo case_id (receipt r) = err (key_error "case")
replay_response repo case_id (claim owner case event_ids accepted) = do
  events ← get_events repo case_id event_ids
  ok (record { case = case; events = events; accepted = accepted; duplicate = true })

unfoldable pub replay_claim :
    Repo → String → String → IdempotencyRecord → Result ClaimEvidenceCommit
unfolding replay_response
replay_claim repo case_id fingerprint existing = do
  raise_if (not (existing.fingerprint == fingerprint)) (conflict "idempotency_conflict")
  replay_response repo case_id existing.response

-- whether an event of the list is in the log already
unfoldable pub event_known : List EventRecord → List EventRecord → Bool
unfolding any
event_known log events = any (λ event. any (λ old. old.id == event.id) log) events

-- `specs[0].expected_version if specs else None`
abbrev pub first_version : List MutationSpec → Option ℕ
first_version [] = none
first_version (spec ∷ specs) = some spec.expected_version

abbrev pub event_ids : List EventRecord → List String
event_ids [] = []
event_ids (e ∷ es) = e.id ∷ event_ids es

-- What the checks of a claim-evidence command find.
pub record ClaimChecked : Type 0 where
  pub link : ClaimLinkRecord
  pub updated : CaseRecord
  pub events : List EventRecord

module _ ⦃h : Hashing⦄ where
  -- the checks of `consume_claim_link_and_apply_mutations`
  unfoldable pub check_consume :
      Repo → String → String → ℕ → List MutationSpec → Result ClaimChecked
  unfolding validate_claim_link project_mutations event_known CustodyState-discrete
  check_consume repo case_id token_hash occurred_at specs = do
    case ← require (get repo.cases case_id) (conflict "claim_link_invalid")
    link ←
        validate_claim_link case (get repo.claim_links case_id) token_hash occurred_at
          (first_version specs)
    raise_if (not (state_eq case.state clarification_required))
        (conflict "claim_evidence_not_expected")
    (updated, events) ← project_mutations case specs
    raise_if (event_known (on_some (get repo.events case_id) (λ log. log) []) events)
        (conflict "idempotency_conflict")
    ok (record { link = link; updated = updated; events = events })

  -- its writes; a missing list of events raises after the first one
  unfoldable pub commit_claim :
      String → String → String → ℕ → Bool → ClaimChecked → Exec Repo ClaimEvidenceCommit
  commit_claim case_id key fingerprint occurred_at accepted checked repo =
      let cases = put repo.cases case_id checked.updated in
      let consumed = record checked.link { used_at = some occurred_at } in
      on_some (get repo.events case_id)
        (λ log. (
          ok (record {
            case = checked.updated;
            events = checked.events;
            accepted = accepted;
            duplicate = false;
          }),
          record repo {
            cases = cases;
            events = put repo.events case_id (log ++ checked.events);
            claim_links = put repo.claim_links case_id consumed;
            claim_link_issuances =
                put repo.claim_link_issuances consumed.issuance_key_hash consumed;
            idempotency = put repo.idempotency key (record {
              key = key;
              case_id = some case_id;
              fingerprint = fingerprint;
              response = claim case_id checked.updated (event_ids checked.events) accepted;
              created_at = occurred_at;
            });
          },
        ))
        (err (key_error case_id), record repo { cases = cases })

  -- `consume_claim_link_and_apply_mutations`
  unfoldable pub consume_claim_link :
      String
      → String
      → String
      → String
      → ℕ
      → List MutationSpec
      → Bool
      → Exec Repo ClaimEvidenceCommit
  unfolding replay_claim check_consume commit_claim
  consume_claim_link case_id token_hash key fingerprint occurred_at specs accepted repo =
      on_some (get repo.idempotency key)
        (λ existing. (replay_claim repo case_id fingerprint existing, repo))
        (on_ok (check_consume repo case_id token_hash occurred_at specs) repo
          (λ checked. commit_claim case_id key fingerprint occurred_at accepted checked repo))
