-- ===== src/Service/Release/Gates.antt =====
-- When `begin_release` of service/app/custody_service.py moves a case.
use found_roll.Prelude.{
  ℕ, String, ◌≡◌, ◌≢◌, ◌<◌, Option, some, ok, get, on_some, arith, Result-cases, Option-cases, inl,
  inr, returned, raised,
}
use found_roll.Prelude.Json.{Hashing}
use found_roll.Domain.{CaseRecord, claimant_present, release_requested, HandoffRecord, held}
use found_roll.Repository.{Repo}
use found_roll.Service.{Settings}
use found_roll.Service.Publish.{TaskReceipt}
use found_roll.Service.Release.{check_release, begin_release}

-- what lets a release begin
pub record IsReleasable (repo : Repo) (case : CaseRecord) (version now : ℕ) : Type 0 where
  pub is_present : case.state ≡ claimant_present
  pub current : case.version ≡ version
  pub id : String
  pub referred : case.handoff_id ≡ some id
  pub handoff : HandoffRecord
  pub found : get repo.handoffs id ≡ some handoff
  pub is_held : handoff.status ≡ held
  pub claimant_at : ℕ
  pub claimant_attested : handoff.claimant_attested_at ≡ some claimant_at
  pub custodian_at : ℕ
  pub custodian_attested : handoff.custodian_attested_at ≡ some custodian_at
  pub unexpired : on_some handoff.expires_at (λ end. now < end) Unit

check_release-IsReleasable :
    (repo : Repo) (case : CaseRecord) (version now : ℕ) (handoff : HandoffRecord)
    → check_release repo case version now ≡ ok handoff
    → IsReleasable repo case version now
unfolding check_release
check_release-IsReleasable repo case version now handoff v = elim (Option-cases case.handoff_id) [
  | inl no_handoff ↦ absurd (ground arith)
  | inr (id, referred) ↦ elim (Option-cases (get repo.handoffs id)) [
    | inl missing ↦ absurd (ground arith)
    | inr (d, found) ↦ elim (Option-cases d.claimant_attested_at) [
      | inl absent ↦ absurd (ground arith)
      | inr (t, claimant_attested) ↦ elim (Option-cases d.custodian_attested_at) [
        | inl absent ↦ absurd (ground arith)
        | inr (u, custodian_attested) ↦ record {
          is_present = ground arith;
          current = ground arith;
          id = id;
          referred = referred;
          handoff = d;
          found = found;
          is_held = ground arith;
          claimant_at = t;
          claimant_attested = claimant_attested;
          custodian_at = u;
          custodian_attested = custodian_attested;
          unexpired = ground arith;
        }
      ]
    ]
  ]
]

module _ ⦃h : Hashing⦄ where
  pub release_with_attestations :
      (repo : Repo) (settings : Settings) (k : String) (version : ℕ) (staff key : String) (now : ℕ)
      (answer : Option TaskReceipt) (before after : CaseRecord)
      → get repo.cases k ≡ some before
      → before.state ≢ release_requested
      → get (begin_release settings k version staff key now answer repo).1.cases k ≡ some after
      → after.state ≡ release_requested
      → IsReleasable repo before version now
  unfolding begin_release
  release_with_attestations repo settings k version staff key now answer before after found new
        stored to =
      elim (Result-cases (check_release repo before version now)) [
        | raised e p ↦ absurd (ground (arith, found, p))
        | returned c p ↦ check_release-IsReleasable repo before version now c p
      ]
