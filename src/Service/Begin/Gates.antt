-- ===== src/Service/Begin/Gates.antt =====
-- What `begin_analysis` of service/app/custody_service.py asks for before a received case moves.
use found_roll.Prelude.{
  ℕ, String, ◌≡◌, ◌≢◌, sym, ◌∙◌, ap, inl, inr, refl, true, false, Option, none, some, List, [], ◌∷◌,
  ok, eq_iff, get, ◌>>◌, ◌>>=◌, >>=-eq-ok, check-ok, arith, Bool-cases, Option-cases, Result-cases,
  returned, raised, some_inj,
}
use found_roll.Prelude.Json.{Hashing}
use found_roll.Domain.{CaseRecord, received}
use found_roll.Evidence.{
  EvidenceRecord, EvidenceStore, EvidenceVisibility-discrete, model_authorized,
}
use found_roll.Evidence.Pairs.{Pair, latest_complete_pair}
use found_roll.Evidence.Latest.{latest_complete_pair-IsPairOf}
use found_roll.Evidence.OnePair.{IsPairOf}
use found_roll.Repository.{Repo}
use found_roll.Service.{Settings}
use found_roll.Service.Publish.{TaskReceipt}
use found_roll.Service.Begin.{
  analysis_evidence_refs, authorized_pair, begin_analysis, begin_for, BeginRequest, check_current,
  check_mode, evidence_for, is_demo, no_refs, staff_records, require_staff, pair_refs,
  exact_inflight_replay, replay_event_suffix,
}

-- the evidence on which an analysis begins
pub data HasEvidence (store : EvidenceStore) (case : CaseRecord) (r : BeginRequest) : Type 0 where
  by_server :
      r.server_auto ≡ true
      → case.analysis_auto_start_armed ≡ true
      → (ref : String) (refs : List String) → r.frozen_evidence_refs ≡ some (ref ∷ refs)
      → HasEvidence store case r
  fixed_demo :
      r.server_auto ≡ false
      → case.analysis_auto_start_armed ≡ false
      → r.case_id ≡ "FR-20260829-0042"
      → r.environment ≡ "development"
      → r.analyst_mode ≡ "fixture"
      → HasEvidence store case r
  by_hand :
      r.server_auto ≡ false
      → case.analysis_auto_start_armed ≡ false
      → (o p : EvidenceRecord)
      → latest_complete_pair store r.case_id case.workflow_epoch ≡ some (o, p)
      → IsPairOf store r.case_id case.workflow_epoch o p
      → p.visibility ≡ model_authorized
      → HasEvidence store case r

refs-given :
    (frozen : Option (List String))
    → no_refs frozen ≡ false
    → (ref : String) × (refs : List String) × (frozen ≡ some (ref ∷ refs))
unfolding no_refs
refs-given none e = absurd (ground arith)
refs-given (some []) e = absurd (ground arith)
refs-given (some (ref ∷ refs)) e = (ref, refs, refl)

is_demo-true :
    (r : BeginRequest)
    → is_demo r ≡ true
    → (r.case_id ≡ "FR-20260829-0042")
      × (r.environment ≡ "development")
      × (r.analyst_mode ≡ "fixture")
unfolding is_demo
is_demo-true r e = (
  ground (arith, eq_iff r.case_id "FR-20260829-0042"),
  ground (arith, eq_iff r.environment "development"),
  ground (arith, eq_iff r.analyst_mode "fixture"),
)

authorized_pair-ok :
    (store : EvidenceStore) (case_id workflow_epoch : String) (p : Pair)
    → authorized_pair store case_id workflow_epoch ≡ ok p
    → (latest_complete_pair store case_id workflow_epoch ≡ some p)
      × (p.1.visibility ≡ model_authorized)
unfolding authorized_pair EvidenceVisibility-discrete
authorized_pair-ok store case_id workflow_epoch p v =
    elim (Option-cases (latest_complete_pair store case_id workflow_epoch)) [
      | inl missing ↦ absurd (ground arith)
      | inr (q, found) ↦ let e : q ≡ p = ground arith in (found ∙ ap some e, ground arith)
    ]

evidence-HasEvidence :
    (store : EvidenceStore) (case : CaseRecord) (r : BeginRequest) (refs : List String)
    (repo : Repo) (u : Unit {0})
    → (check_mode case r >> check_current repo case r) ≡ ok u
    → evidence_for store case r ≡ ok refs
    → HasEvidence store case r
unfolding check_mode evidence_for analysis_evidence_refs
evidence-HasEvidence store case r refs repo u passed v = elim (Bool-cases r.server_auto) [
  | inl auto ↦
      let (ref, refs', given) = refs-given r.frozen_evidence_refs (ground arith) in
      by_server auto (ground arith) ref refs' given
  | inr hand ↦
      let plain : case.analysis_auto_start_armed ≡ false = ground arith in
      elim (Bool-cases (is_demo r)) [
        | inl demo ↦
            let (known, development, fixture) = is_demo-true r demo in
            fixed_demo hand plain known development fixture
        | inr other ↦
            let epoch = case.workflow_epoch in
            let checks =
              check-ok (require_staff (staff_records store r.case_id epoch))
                (authorized_pair store r.case_id epoch >>= λ pair. ok (pair_refs pair))
                (rw (hand, other) at v) in
            let (pair, authorized, same) =
              >>=-eq-ok (authorized_pair store r.case_id epoch) (λ pair. ok (pair_refs pair))
                checks in
            let (found, seen) = authorized_pair-ok store r.case_id epoch pair authorized in
            by_hand hand plain pair.0 pair.1 found
              (latest_complete_pair-IsPairOf store r.case_id epoch pair found) seen
      ]
]

current_version :
    (repo : Repo) (case : CaseRecord) (r : BeginRequest) (u : Unit {0})
    → case.state ≡ received
    → (check_mode case r >> check_current repo case r) ≡ ok u
    → case.version ≡ r.expected_version
unfolding check_current exact_inflight_replay replay_event_suffix
current_version repo case r u at passed = ground (arith, at, passed)

module _ ⦃h : Hashing⦄ where
  begin_for-HasEvidence :
      (settings : Settings) (store : EvidenceStore) (r : BeginRequest) (now : ℕ)
      (answer : Option TaskReceipt) (repo : Repo) (before after : CaseRecord)
      → get repo.cases r.case_id ≡ some before
      → before.state ≡ received
      → get (begin_for settings store r now answer before repo).1.cases r.case_id ≡ some after
      → after.state ≢ received
      → (before.version ≡ r.expected_version) × HasEvidence store before r
  unfolding begin_for
  begin_for-HasEvidence settings store r now answer repo before after found at stored moved =
      elim (Result-cases (check_mode before r >> check_current repo before r)) [
        | raised e p ↦ absurd (same (rw p at stored))
        | returned u p ↦ elim (Result-cases (evidence_for store before r)) [
          | raised e q ↦ absurd (same (rw (p, at, q) at stored))
          | returned refs q ↦ (
            current_version repo before r u at p,
            evidence-HasEvidence store before r refs repo u p q,
          )
        ]
      ]
    where
      -- the repository is as it was
      same : get repo.cases r.case_id ≡ some after → ⊥
      same w = moved (ap (λ (c : CaseRecord). c.state) (some_inj (sym w ∙ found)) ∙ at)

  -- When `begin_analysis` moves a received case, the case had the expected version and the analysis has
  -- evidence. Either it is the server's own command of an armed case and names at least one frozen
  -- reference. Or it is a command by hand of a case that is not armed: then the store's latest complete
  -- pair is an original and its preview, both stored, of that case and its epoch and of one upload, and
  -- the model may see the preview; except for the demonstration case FR-20260829-0042, in development and
  -- with the fixture analyst.
  pub begun_with_evidence :
      (settings : Settings) (store : EvidenceStore) (r : BeginRequest) (now : ℕ)
      (answer : Option TaskReceipt) (repo : Repo) (before after : CaseRecord)
      → get repo.cases r.case_id ≡ some before
      → before.state ≡ received
      → get (begin_analysis settings store r now answer repo).1.cases r.case_id ≡ some after
      → after.state ≢ received
      → (before.version ≡ r.expected_version) × HasEvidence store before r
  unfolding begin_analysis
  begun_with_evidence settings store r now answer repo before after found at stored moved =
      begin_for-HasEvidence settings store r now answer repo before after found at
        (rw found at stored) moved
