-- ===== src/Repository/Commit/Success.antt =====
-- When `apply_mutation` of service/app/repository.py commits.
use found_roll.Prelude.{◌+◌, ◌≡◌, refl, some, none, [], false, ok, get, arith}
use found_roll.Prelude.Json.{Hashing}
use found_roll.StateMachine.{assert_transition}
use found_roll.Domain.{AppliedMutation, CaseRecord}
use found_roll.Repository.{Repo, MutationSpec}
use found_roll.Repository.Events.{check_updates, make_event, make_receipt, next_case}
use found_roll.Repository.Commit.{
  apply_mutation, apply_new, check_claim, validate_mutation, commit_mutation, check_outbox,
  check_handoff, check_tokens,
}
use found_roll.Repository.Commit.Retries.{Committed, commit_mutation-Committed}
use found_roll.Repository.Chain.Commands.{Consistent}

module _ ⦃h : Hashing⦄ where
  -- A new command that agrees with the case and whose side records are in order.
  pub record IsAdmissible (repo : Repo) (spec : MutationSpec) (c : CaseRecord) : Type 0 where
    pub unknown : get repo.idempotency spec.idempotency_key ≡ none
    pub found : get repo.cases spec.case_id ≡ some c
    pub current : c.version ≡ spec.expected_version
    pub admitted : assert_transition c.state spec.target_state spec.allow_fact_event ≡ ok tt
    pub updates_ok : check_updates spec.updates ≡ ok tt
    pub outbox_ok : check_outbox repo spec.case_id (c.version + 1) spec.outbox ≡ ok tt
    pub handoff_ok : check_handoff spec.case_id spec.handoff ≡ ok tt
    pub tokens_ok : check_tokens repo spec.case_id spec.tokens ≡ ok tt

  -- A command without side records needs no checks of them.
  pub plain-IsAdmissible :
      (repo : Repo) (spec : MutationSpec) (c : CaseRecord)
      → get repo.idempotency spec.idempotency_key ≡ none
      → get repo.cases spec.case_id ≡ some c
      → c.version ≡ spec.expected_version
      → assert_transition c.state spec.target_state spec.allow_fact_event ≡ ok tt
      → check_updates spec.updates ≡ ok tt
      → spec.outbox ≡ none
      → spec.handoff ≡ none
      → spec.tokens ≡ []
      → IsAdmissible repo spec c
  unfolding check_outbox check_handoff check_tokens
  plain-IsAdmissible repo spec c unknown found current admitted updates_ok a b d = record {
    unknown = unknown;
    found = found;
    current = current;
    admitted = admitted;
    updates_ok = updates_ok;
    outbox_ok = rw a refl;
    handoff_ok = rw b refl;
    tokens_ok = rw d refl;
  }

  -- the new version of the case
  abbrev pub committed_case : CaseRecord → MutationSpec → CaseRecord
  committed_case c spec = next_case c spec (make_event c spec)

  abbrev pub new_answer : CaseRecord → MutationSpec → AppliedMutation
  new_answer c spec = record {
    receipt = make_receipt (make_event c spec) (committed_case c spec);
    event = make_event c spec;
    duplicate = false;
  }

  pub record Commits (repo : Repo) (spec : MutationSpec) (c : CaseRecord) : Type 0 where
    pub after : Repo
    pub run : apply_mutation spec none none repo ≡ (ok (new_answer c spec), after)
    pub left : Committed spec (committed_case c spec) (new_answer c spec) repo after

  validate_mutation_ok :
      (repo : Repo) (spec : MutationSpec) (c : CaseRecord)
      → IsAdmissible repo spec c
      → validate_mutation repo spec ≡ ok (committed_case c spec, make_event c spec)
  unfolding validate_mutation next_case
  validate_mutation_ok repo spec c a =
      ground (
        arith, a.found, a.current, a.admitted, a.updates_ok, a.outbox_ok, a.handoff_ok, a.tokens_ok,
      )

  -- In a repository whose logs are kept, every admissible command commits.
  pub apply_mutation-Commits :
      (repo : Repo) (spec : MutationSpec) (c : CaseRecord)
      → Consistent repo
      → IsAdmissible repo spec c
      → Commits repo spec c
  unfolding apply_mutation apply_new check_claim commit_mutation
  apply_mutation-Commits repo spec c s a =
      let l = s.at spec.case_id c a.found in
      let after = (commit_mutation spec (committed_case c spec) (make_event c spec) repo).1 in
      let done : commit_mutation spec (committed_case c spec) (make_event c spec) repo
          ≡ (ok (new_answer c spec), after) =
        rw l.logged refl in
      record {
        after = after;
        run = rw (a.unknown, validate_mutation_ok repo spec c a) done;
        left =
            commit_mutation-Committed repo spec (committed_case c spec) (make_event c spec)
              (new_answer c spec) after done;
      }
