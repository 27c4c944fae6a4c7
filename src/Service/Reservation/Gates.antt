-- ===== src/Service/Reservation/Gates.antt =====
-- When `begin_reservation` of service/app/custody_service.py moves a case.
use found_roll.Prelude.{
  ℕ, String, ◌≡◌, ◌≢◌, Option, some, ok, get, eq_iff, arith, Result-cases, Option-cases, inl, inr,
  returned, raised,
}
use found_roll.Prelude.Json.{Hashing}
use found_roll.Domain.{Candidate, CaseRecord, reserve_requested, allow_handoff}
use found_roll.Policy.{evaluate_release_policy}
use found_roll.Policy.Gates.{ReleaseGates, allow_iff_gates}
use found_roll.Repository.{Repo}
use found_roll.Service.{Settings}
use found_roll.Service.Publish.{TaskReceipt}
use found_roll.Service.Reservation.{check_reservation, begin_reservation}

-- what lets a reservation begin
pub record IsReservable (repo : Repo) (case : CaseRecord) (version : ℕ) (etag : String)
    : Type 0 where
  pub gates : ReleaseGates case
  pub current : case.version ≡ version
  pub item_id : String
  pub selected : case.selected_item_id ≡ some item_id
  pub candidate : Candidate
  pub found : get repo.candidates item_id ≡ some candidate
  pub available : candidate.availability ≡ "AVAILABLE"
  pub same_etag : candidate.remote_etag ≡ etag

check_reservation-IsReservable :
    (repo : Repo) (case : CaseRecord) (version : ℕ) (etag : String) (candidate : Candidate)
    → check_reservation repo case version etag ≡ ok candidate
    → IsReservable repo case version etag
unfolding check_reservation
check_reservation-IsReservable repo case version etag candidate v =
    elim (Option-cases case.selected_item_id) [
      | inl none_selected ↦ absurd (ground arith)
      | inr (item_id, selected) ↦ elim (Option-cases (get repo.candidates item_id)) [
        | inl missing ↦ absurd (ground arith)
        | inr (c, found) ↦
            let outcome : (evaluate_release_policy case).outcome ≡ allow_handoff = ground arith in
            record {
              gates = (allow_iff_gates case).0 outcome;
              current = ground arith;
              item_id = item_id;
              selected = selected;
              candidate = c;
              found = found;
              available = ground (arith, eq_iff c.availability "AVAILABLE");
              same_etag = ground (arith, eq_iff c.remote_etag etag);
            }
      ]
    ]

module _ ⦃h : Hashing⦄ where
  pub reserved_with_gates :
      (repo : Repo) (settings : Settings) (k : String) (version : ℕ) (etag key : String) (now : ℕ)
      (answer : Option TaskReceipt) (before after : CaseRecord)
      → get repo.cases k ≡ some before
      → before.state ≢ reserve_requested
      → get (begin_reservation settings k version etag key now answer repo).1.cases k ≡ some after
      → after.state ≡ reserve_requested
      → IsReservable repo before version etag
  unfolding begin_reservation
  reserved_with_gates repo settings k version etag key now answer before after found new stored to =
      elim (Result-cases (check_reservation repo before version etag)) [
        | raised e p ↦ absurd (ground (arith, found, p))
        | returned c p ↦ check_reservation-IsReservable repo before version etag c p
      ]
