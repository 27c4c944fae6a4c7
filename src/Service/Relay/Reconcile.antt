-- ===== src/Service/Relay/Reconcile.antt =====
-- What `_process_relay` of service/app/custody_service.py leaves when the relay fails.
use found_roll.Prelude.{
  Result, on_ok, ap, eq_refl, subst, sym, ℕ, String, ◌≡◌, refl, Option, some, none, true, false, ok,
  err, Error, get, put, get-put, arith, ◌<>◌,
}
use found_roll.Prelude.Json.{Hashing}
use found_roll.Domain.{
  RelayAttestation, CaseRecord, OutboxKind, OutboxKind-discrete, reconciliation_required,
  OutboxRecord, OutboxStatus-discrete, failed, execute, reserve_relay, release_relay, analyze_case,
  HandoffRecord,
}
use found_roll.StateMachine.{assert_transition}
use found_roll.Repository.{Repo}
use found_roll.Repository.Events.{check_updates, next_case}
use found_roll.Repository.Commit.{put_outbox}
use found_roll.Repository.Commit.Success.{
  IsAdmissible, plain-IsAdmissible, committed_case, apply_mutation-Commits,
}
use found_roll.Repository.Outbox.{mark_outbox, marked, is_terminal}
use found_roll.Repository.Chain.Commands.{Consistent}
use found_roll.Service.Relay.{RelayCommit, commit_relay_attestation, handoff_for_case}
use found_roll.Service.Relay.Run.{
  process_relay, reconcile, recover, caught, reported, expected_state, reconciliation_spec,
}

-- a request state may always go to RECONCILIATION_REQUIRED
request_reconciles :
    (kind : OutboxKind)
    → assert_transition (expected_state kind) reconciliation_required false ≡ ok tt
unfolding assert_transition expected_state OutboxKind-discrete
request_reconciles reserve_relay = refl
request_reconciles release_relay = refl
request_reconciles analyze_case = refl

module _ ⦃h : Hashing⦄ where
  reconciliation_spec-IsAdmissible :
      (repo : Repo) (outbox : OutboxRecord) (e : Error) (now : ℕ) (c : CaseRecord)
      → get repo.cases outbox.case_id ≡ some c
      → c.id ≡ outbox.case_id
      → c.state ≡ expected_state outbox.kind
      → get repo.idempotency ("outbox:" <> outbox.id <> ":reconciliation-required") ≡ none
      → IsAdmissible repo (reconciliation_spec c outbox e now) c
  unfolding reconciliation_spec check_updates
  reconciliation_spec-IsAdmissible repo outbox e now c found own at unknown =
      plain-IsAdmissible repo (reconciliation_spec c outbox e now) c unknown
        (subst (λ k. get repo.cases k ≡ some c) (sym own) found) refl
        (rw at (request_reconciles outbox.kind)) refl refl refl refl

  -- What a failed relay command leaves: the case waits for an operator, and its command has failed.
  pub record IsReconciling (outbox : OutboxRecord) (now : ℕ) (after : Repo) : Type 0 where
    pub case : CaseRecord
    pub stored_case : get after.cases outbox.case_id ≡ some case
    pub waits : case.state ≡ reconciliation_required
    pub command : OutboxRecord
    pub stored_command : get after.outboxes outbox.id ≡ some command
    pub has_failed : command.status ≡ failed
    pub stage : command.failure_stage ≡ some execute
    pub code : command.failure_code ≡ some "relay_execution_failed"

  mark_failed :
      (repo : Repo) (outbox : OutboxRecord) (now : ℕ) (o : OutboxRecord)
      → get repo.outboxes outbox.id ≡ some o
      → is_terminal o.status ≡ false
      → (o' : OutboxRecord) × (mark_outbox outbox.id failed none
            (some now)
            (some execute)
            (some "relay_execution_failed")
            repo
          ≡ (ok o', record repo { outboxes = put repo.outboxes outbox.id o' }))
        × (o'.status ≡ failed)
        × (o'.failure_stage ≡ some execute)
        × (o'.failure_code ≡ some "relay_execution_failed")
  unfolding mark_outbox marked OutboxStatus-discrete
  mark_failed repo outbox now o found at = (
    marked o failed none (some now) (some execute) (some "relay_execution_failed"),
    ground (arith, found, at),
    refl,
    refl,
    refl,
  )

  -- the case and its command after the two writes of the handler
  reconcile-IsReconciling :
      (repo : Repo) (outbox : OutboxRecord) (e : Error) (now : ℕ) (c : CaseRecord)
      (o : OutboxRecord)
      → Consistent repo
      → get repo.cases outbox.case_id ≡ some c
      → c.state ≡ expected_state outbox.kind
      → get repo.idempotency ("outbox:" <> outbox.id <> ":reconciliation-required") ≡ none
      → get repo.outboxes outbox.id ≡ some o
      → is_terminal o.status ≡ false
      → ((reconcile outbox e now repo).0 ≡ err (reported e))
        × IsReconciling outbox now (reconcile outbox e now repo).1
  unfolding reconcile reconciliation_spec put_outbox next_case
  reconcile-IsReconciling repo outbox e now c o s found at unknown stored open_o =
      let own = (s.at outbox.case_id c found).own_id in
      let w =
        apply_mutation-Commits repo (reconciliation_spec c outbox e now) c s
          (reconciliation_spec-IsAdmissible repo outbox e now c found own at unknown) in
      let kept : w.after.outboxes ≡ repo.outboxes = w.left.outboxes in
      let (m, marks, a, b, d) = mark_failed w.after outbox now o (rw kept stored) open_o in
      let run : reconcile outbox e now repo
          ≡ (err (reported e), record w.after { outboxes = put w.after.outboxes outbox.id m }) =
        ground (arith, found, at, w.run, marks) in
      (
        ap (λ x. x.0) run,
        subst (λ x. IsReconciling outbox now x) (sym (ap (λ x. x.1) run))
            (record {
              case = committed_case c (reconciliation_spec c outbox e now);
              stored_case =
                  subst
                    (λ k.
                      get w.after.cases k
                      ≡ some (committed_case c (reconciliation_spec c outbox e now)))
                    own w.left.case;
              waits = refl;
              command = m;
              stored_command = rw (get-put, (eq_refl outbox.id)) refl;
              has_failed = a;
              stage = b;
              code = d;
            }),
      )

  -- When the relay raises, or its attestation is refused, while the case is in the state of the
  -- command, `_process_relay` raises in turn, the case goes to RECONCILIATION_REQUIRED and the
  -- command to FAILED at EXECUTE. This is in a repository whose logs are kept, for a command that
  -- has not ended and was not reconciled before, and an error that is caught.
  pub process_relay-IsReconciling :
      (repo : Repo) (outbox o : OutboxRecord) (c : CaseRecord) (handoff : Option HandoffRecord)
      (answer : Result RelayAttestation) (correlation : String) (now : ℕ) (e : Error)
      → Consistent repo
      → get repo.cases outbox.case_id ≡ some c
      → c.state ≡ expected_state outbox.kind
      → handoff_for_case repo c ≡ ok handoff
      → on_ok answer repo (λ a. commit_relay_attestation a correlation now repo) ≡ (err e, repo)
      → caught e ≡ true
      → get repo.idempotency ("outbox:" <> outbox.id <> ":reconciliation-required") ≡ none
      → get repo.outboxes outbox.id ≡ some o
      → is_terminal o.status ≡ false
      → ((process_relay outbox answer correlation now repo).0 ≡ err (reported e))
        × IsReconciling outbox now (process_relay outbox answer correlation now repo).1
  unfolding process_relay recover
  process_relay-IsReconciling repo outbox o c handoff answer correlation now e s found at has fails
        is_caught unknown stored open_o =
      let done : process_relay outbox answer correlation now repo ≡ reconcile outbox e now repo =
        ground (arith, found, at, has, fails, is_caught) in
      subst
        (λ (x : Result RelayCommit × Repo). (x.0 ≡ err (reported e)) × IsReconciling outbox now x.1)
        (sym done) (reconcile-IsReconciling repo outbox e now c o s found at unknown stored open_o)
