-- ===== src/Repository/Commit.antt =====
-- service/app/repository.py: `InMemoryRepository.create_case`, the reads, and `apply_mutation`.
pub mod Inversion
pub mod Retries
pub mod Success
use found_roll.Prelude.{
  ℕ, ◌+◌, String, Bool, false, true, ◌||◌, Option, none, some, List, [], ◌∷◌, ◌++◌, Result, ok, err,
  Exec, Error, value_error, key_error, conflict, not_found, not, eqb, ltb, ◌==◌, is_some, raise_if,
  require, on_ok, on_some, ◌>>=◌, ◌>>◌, get, put, find, if◌then◌else◌, Dict,
}
use found_roll.Prelude.Json.{Json, text, object, field, end, Hashing}
use found_roll.Domain.{
  AppliedMutation, Candidate, CaseRecord, EventRecord, HandoffRecord, IdempotencyRecord,
  MutationReceipt, OutboxExecutionClaim, OutboxRecord, Response, receipt, claim, TokenRecord,
  received,
}
use found_roll.StateMachine.{assert_transition}
use found_roll.Repository.{Repo, MutationSpec}
use found_roll.Repository.Events.{check_updates, make_event, make_receipt, next_case}

abbrev pub zero_hash : String
zero_hash = "0000000000000000000000000000000000000000000000000000000000000000"

-- `get_case`
unfoldable pub get_case : Repo → String → Result CaseRecord
get_case repo case_id = require (get repo.cases case_id) (not_found "Item Passport")

-- `get_candidate`
unfoldable pub get_candidate : Repo → String → Result Candidate
get_candidate repo candidate_id = require (get repo.candidates candidate_id) (not_found "Candidate")

-- `get_handoff`, and the reference of a case to it, which the callers have tested
unfoldable pub get_handoff : Repo → Option String → Result HandoffRecord
get_handoff repo handoff_id =
    on_some handoff_id (λ id. require (get repo.handoffs id) (not_found "Handoff"))
      (err (not_found "Handoff"))

-- `list_events`: `self._events.get(case_id, [])` of a known case
unfoldable pub list_events : Repo → String → Result (List EventRecord)
list_events repo case_id = do
  raise_if (not (is_some (get repo.cases case_id))) (not_found "Item Passport")
  ok (on_some (get repo.events case_id) (λ events. events) [])

-- `get_event`
unfoldable pub get_event : Repo → String → String → Result EventRecord
unfolding list_events
get_event repo case_id event_id = do
  events ← list_events repo case_id
  require (find (λ event. event.id == event_id) events) (not_found "Custody event")

-- `MutationReceipt.model_validate(existing.response)`
unfoldable pub as_receipt : Response → Result MutationReceipt
as_receipt (receipt r) = ok r
as_receipt (claim case_id case event_ids accepted) = err (value_error "response is no receipt")

-- The answer to a command whose idempotency key is known already.
unfoldable pub replay_mutation : Repo → String → String → IdempotencyRecord → Result AppliedMutation
unfolding as_receipt get_event
replay_mutation repo case_id fingerprint existing = do
  raise_if (not (existing.fingerprint == fingerprint)) (conflict "idempotency_conflict")
  answer ← as_receipt existing.response
  event ← get_event repo case_id answer.event_id
  ok (record { receipt = answer; event = event; duplicate = true })

-- The answer of `create_case` to a known key looks for the case first.
unfoldable pub replay_creation : Repo → String → IdempotencyRecord → Result AppliedMutation
unfolding as_receipt get_event
replay_creation repo fingerprint existing = do
  raise_if (not (existing.fingerprint == fingerprint)) (conflict "idempotency_conflict")
  answer ← as_receipt existing.response
  stored_case ← require (get repo.cases answer.case_id) (conflict "idempotency_receipt_invalid")
  raise_if (ltb stored_case.version 1) (conflict "idempotency_receipt_invalid")
  event ← get_event repo answer.case_id answer.event_id
  ok (record { receipt = answer; event = event; duplicate = true })

-- `_clone(candidate)` into the table, one after the other
unfoldable pub put_candidates : List Candidate → Dict Candidate → Dict Candidate
put_candidates [] table = table
put_candidates (c ∷ cs) table = put_candidates cs (put table c.id c)

-- `self._tokens[token.token_hash] = …`
unfoldable pub put_tokens : List TokenRecord → Dict TokenRecord → Dict TokenRecord
put_tokens [] table = table
put_tokens (t ∷ ts) table = put_tokens ts (put table t.token_hash t)

-- the loop over `spec.tokens` that comes before the commit
unfoldable pub check_tokens : Repo → String → List TokenRecord → Result (Unit {0})
check_tokens repo case_id [] = ok tt
check_tokens repo case_id (t ∷ ts) =
    raise_if (not (t.case_id == case_id)) (value_error "token does not belong to the Item Passport")
    >> (raise_if (is_some (get repo.tokens t.token_hash)) (conflict "token_hash_exists")
        >> check_tokens repo case_id ts)

unfoldable pub check_outbox : Repo → String → ℕ → Option OutboxRecord → Result (Unit {0})
check_outbox repo case_id version none = ok tt
check_outbox repo case_id version (some outbox) = do
  raise_if (is_some (get repo.outboxes outbox.id)) (conflict "outbox_exists")
  raise_if (not (outbox.case_id == case_id) || not (eqb outbox.expected_case_version version))
      (value_error "outbox does not match the committed Item Passport version")

unfoldable pub check_handoff : String → Option HandoffRecord → Result (Unit {0})
check_handoff case_id none = ok tt
check_handoff case_id (some handoff) =
    raise_if (not (handoff.case_id == case_id))
      (value_error "handoff does not belong to the Item Passport")

-- what `spec.outbox`, if it is given, adds to the outboxes, and `spec.handoff` to the handoffs
unfoldable pub put_outbox : Option OutboxRecord → Dict OutboxRecord → Dict OutboxRecord
put_outbox none table = table
put_outbox (some outbox) table = put table outbox.id outbox

unfoldable pub put_handoff : Option HandoffRecord → Dict HandoffRecord → Dict HandoffRecord
put_handoff none table = table
put_handoff (some handoff) table = put table handoff.id handoff

-- the record that remembers a command by its idempotency key
unfoldable pub remembered : MutationSpec → MutationReceipt → IdempotencyRecord
remembered spec r = record {
  key = spec.idempotency_key;
  case_id = some spec.case_id;
  fingerprint = spec.fingerprint;
  response = receipt r;
  created_at = spec.occurred_at;
}

module _ ⦃h : Hashing⦄ where
  unfoldable pub claim_token_hash : String → String
  claim_token_hash token = h.sha256_json (object (field "execution_claim_token" (text token) end))

  -- the command of `create_case`, and the case that it starts from
  unfoldable pub creation_spec : CaseRecord → String → String → String → ℕ → String → MutationSpec
  creation_spec case actor reason idempotency_key occurred_at fingerprint = record {
    case_id = case.id;
    expected_version = 0;
    target_state = received;
    event_type = "ITEM_PASSPORT_CREATED";
    actor = actor;
    reason = reason;
    idempotency_key = idempotency_key;
    fingerprint = fingerprint;
    occurred_at = occurred_at;
    updates = [];
    evidence_refs = [];
    tool = none;
    task_id = none;
    model_run_id = none;
    simulator_attestation_id = none;
    outbox = none;
    handoff = none;
    tokens = [];
    allow_fact_event = true;
  }

  unfoldable pub base_case : CaseRecord → CaseRecord
  base_case case = record case { version = 0; last_event_hash = zero_hash; last_event_sequence = 0 }

  unfoldable pub create_new : MutationSpec → CaseRecord → List Candidate → Exec Repo AppliedMutation
  unfolding base_case next_case make_event make_receipt remembered put_candidates
  create_new spec case candidates repo =
      if is_some (get repo.cases case.id)
      then (err (conflict "case_exists"), repo)
      else (let base = base_case case in
          let event = make_event base spec in
          let updated = next_case base spec event in
          let answer = make_receipt event updated in
          (
            ok (record { receipt = answer; event = event; duplicate = false }),
            record repo {
              cases = put repo.cases case.id updated;
              candidates = put_candidates candidates repo.candidates;
              events = put repo.events case.id (event ∷ []);
              idempotency = put repo.idempotency spec.idempotency_key (remembered spec answer);
            },
          ))

  -- `fingerprint or sha256_hex({"case_id": …, "reason": …})`
  unfoldable pub creation_fingerprint : CaseRecord → String → Option String → String
  creation_fingerprint case reason fingerprint =
      let default =
        h.sha256_json
          (object (field "case_id" (text case.id) (field "reason" (text reason) end))) in
      on_some fingerprint (λ f. if f == "" then default else f) default

  -- `create_case`
  unfoldable pub create_case :
      CaseRecord
      → List Candidate
      → String
      → String
      → String
      → ℕ
      → Option String
      → Exec Repo AppliedMutation
  unfolding creation_spec create_new replay_creation creation_fingerprint
  create_case case candidates actor reason key occurred_at fingerprint repo =
      let spec =
        creation_spec case actor reason key occurred_at
          (creation_fingerprint case reason fingerprint) in
      on_some (get repo.idempotency key)
        (λ existing. (replay_creation repo spec.fingerprint existing, repo))
        (create_new spec case candidates repo)

  -- whether the caller holds no execution claim for the case
  unfoldable pub claim_lost : Repo → String → String → String → Bool
  unfolding claim_token_hash
  claim_lost repo case_id outbox_id token =
      on_some (get repo.execution_claims outbox_id)
        (λ claim.
          not (claim.case_id == case_id)
          || is_some claim.terminal_status
          || not (claim.token_hash == claim_token_hash token))
        true

  -- the checks on `execution_claim_outbox_id` and `execution_claim_token`
  unfoldable pub check_claim : Repo → String → Option String → Option String → Result (Unit {0})
  unfolding claim_lost
  check_claim repo case_id none none = ok tt
  check_claim repo case_id (some outbox_id) (some token) =
      raise_if (claim_lost repo case_id outbox_id token) (conflict "outbox_execution_claim_lost")
  check_claim repo case_id _ _ =
      err (value_error "execution claim outbox ID and token must be supplied together")

  -- The checks of a new command: the new version of the case and the event, if all pass.
  unfoldable pub validate_mutation : Repo → MutationSpec → Result (CaseRecord × EventRecord)
  unfolding check_updates check_outbox check_handoff check_tokens make_event next_case
  validate_mutation repo spec = do
    current ← require (get repo.cases spec.case_id) (not_found "Item Passport")
    raise_if (not (eqb current.version spec.expected_version)) (conflict "stale_case_version")
    assert_transition current.state spec.target_state spec.allow_fact_event
    check_updates spec.updates
    let event = make_event current spec
    let updated = next_case current spec event
    check_outbox repo spec.case_id updated.version spec.outbox
    check_handoff spec.case_id spec.handoff
    check_tokens repo spec.case_id spec.tokens
    ok (updated, event)

  -- The writes of a new command. A missing list of events raises after the first write.
  unfoldable pub commit_mutation :
      MutationSpec → CaseRecord → EventRecord → Exec Repo AppliedMutation
  unfolding put_outbox put_handoff put_tokens remembered make_receipt
  commit_mutation spec updated event repo =
      let cases = put repo.cases spec.case_id updated in
      let answer = make_receipt event updated in
      on_some (get repo.events spec.case_id)
        (λ events. (
          ok (record { receipt = answer; event = event; duplicate = false }),
          record repo {
            cases = cases;
            events = put repo.events spec.case_id (events ++ event ∷ []);
            outboxes = put_outbox spec.outbox repo.outboxes;
            handoffs = put_handoff spec.handoff repo.handoffs;
            tokens = put_tokens spec.tokens repo.tokens;
            idempotency = put repo.idempotency spec.idempotency_key (remembered spec answer);
          },
        ))
        (err (key_error spec.case_id), record repo { cases = cases })

  unfoldable pub apply_new : MutationSpec → Exec Repo AppliedMutation
  unfolding validate_mutation commit_mutation
  apply_new spec repo =
      on_ok (validate_mutation repo spec) repo
        (λ checked. commit_mutation spec checked.0 checked.1 repo)

  -- `apply_mutation`
  unfoldable pub apply_mutation :
      MutationSpec → Option String → Option String → Exec Repo AppliedMutation
  unfolding check_claim replay_mutation apply_new
  apply_mutation spec outbox_id token repo =
      on_ok (check_claim repo spec.case_id outbox_id token) repo (λ _.
        on_some (get repo.idempotency spec.idempotency_key)
          (λ existing. (replay_mutation repo spec.case_id spec.fingerprint existing, repo))
          (apply_new spec repo))
