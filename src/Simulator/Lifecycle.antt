-- ===== src/Simulator/Lifecycle.antt =====
-- What the simulator promises of one reservation, as a small machine without hashes, versions and
-- clocks, and that the store of simulator/app/store.py implements it.
pub mod Refined
use found_roll.Prelude.{
  ℕ, String, ◌≡◌, ◌≢◌, refl, sym, ap, ◌∙◌, subst, inl, inr, Bool, true, false, not, Option, none,
  some, is_some, Dict, ok, err, raised, returned, get, put, get-put, ◌&&◌, ◌||◌, arith, eq_iff,
  Bool-cases, Option-cases, Result-cases, some_inj, none≢some, ◌==◌, if◌then◌else◌,
}
use found_roll.Simulator.{
  Attestation, ByRole, FixtureStore, Reservation, ReservationStatus, ReservationStatus-discrete,
  held, tokens_issued, partially_attested, callback_ready, handoff_attested, expired, Role,
  custodian, claimant, at_role, set_role, reservation_status_eq,
}
use found_roll.Simulator.Codec.{Codec}
use found_roll.Simulator.Store.{is_over, expired_reservation}
use found_roll.Simulator.Requests.{
  CredentialIssueRequest, ReservationBoundRequest, ReservationCreateRequest,
  TokenAttestationRequest,
}
use found_roll.Simulator.Reservations.{
  check_reservable, new_reservation, new_reservation_id, reserve_new,
}
use found_roll.Simulator.Credentials.{check_credential_request, issue_new, issued_reservation}
use found_roll.Simulator.Attestations.{
  attest_new, attested_reservation, check_attestable, new_attestation,
}
use found_roll.Simulator.Handoff.{check_finalizable, finalize_new, finalized_reservation}
use found_roll.Simulator.Consistency.{Consistent}
use found_roll.Simulator.Consistency.Expiry.{Round, skipped, kept, lapsed}
use found_roll.Simulator.Consistency.Writes.{check_credential_request-ok}
use found_roll.Simulator.Consistency.Presentations.{
  check_attestable-ok, check_finalizable-ok, presentable,
}
use found_roll.Simulator.Frame.{Frame, Frame-Command, Command}

-- the machine's states
pub data Phase : Type 0 where
  absent holding issued ready finalised over : Phase
  presented : Role → Phase

-- its steps: each role presents once, in either order, before the handoff is finalised, and a
-- reservation that is not finalised may lapse
pub data Step : Phase → Phase → Type 0 where
  hold : Step absent holding
  issue : Step holding issued
  first : (role : Role) → Step issued (presented role)
  second : (role other : Role) → role ≢ other → Step (presented role) ready
  finalise : Step ready finalised
  lapse_holding : Step holding over
  lapse_issued : Step issued over
  lapse_presented : (role : Role) → Step (presented role) over
  lapse_ready : Step ready over

pub data Steps : Phase → Phase → Type 0 where
  rest : {p : Phase} → Steps p p
  more : {p q t : Phase} → Step p q → Steps q t → Steps p t

pub Steps-append : {p q t : Phase} → Steps p q → Steps q t → Steps p t
Steps-append rest b = b
Steps-append (more a as_) b = more a (Steps-append as_ b)

-- the machine's state that a stored reservation stands for
unfoldable pub phase_at : ReservationStatus → ByRole (Option Attestation) → Phase
phase_at held a = holding
phase_at tokens_issued a = issued
phase_at partially_attested a = presented (if is_some a.of_custodian then custodian else claimant)
phase_at callback_ready a = ready
phase_at handoff_attested a = finalised
phase_at expired a = over

unfoldable pub phase : Option Reservation → Phase
unfolding phase_at
phase none = absent
phase (some r) = phase_at r.status r.attestations

-- the attestations that the status counts
abbrev pub PhasedAt : ReservationStatus → ByRole (Option Attestation) → Type 0
PhasedAt held a = (a.of_custodian ≡ none) × (a.of_claimant ≡ none)
PhasedAt tokens_issued a = (a.of_custodian ≡ none) × (a.of_claimant ≡ none)
PhasedAt partially_attested a = is_some a.of_custodian ≡ not (is_some a.of_claimant)
PhasedAt callback_ready a = Unit
PhasedAt handoff_attested a = Unit
PhasedAt expired a = Unit

abbrev pub IsPhased : Dict Reservation → Type 0
IsPhased d = (id : String) (r : Reservation) → get d id ≡ some r → PhasedAt r.status r.attestations

-- The reservations after implement the machine from those before.
abbrev pub Implements : Dict Reservation → Dict Reservation → Type 0
Implements d after =
    IsPhased d → IsPhased after × ((id : String) → Steps (phase (get d id)) (phase (get after id)))

-- A write of one reservation, by at most one step.
pub put-Implements :
    (d : Dict Reservation) (id : String) (r : Reservation)
    → (IsPhased d → PhasedAt r.status r.attestations × Step (phase (get d id)) (phase (some r)))
    → Implements d (put d id r)
put-Implements d id r step phased =
    let (own, moved) = step phased in
    (
      λ j q p. elim (Bool-cases (id == j)) [
        | inl mine ↦
            let same : r ≡ q = some_inj (rw (get-put d id j r, mine) at p) in
            subst (λ (z : Reservation). PhasedAt z.status z.attestations) same own
        | inr other ↦ phased j q (rw (get-put d id j r, other) at p)
      ],
      λ j. elim (Bool-cases (id == j)) [
        | inl mine ↦
            let e : id ≡ j = ground (arith, eq_iff id j) in
            rw (get-put d id j r, mine)
              (subst (λ z. Steps (phase (get d z)) (phase (some r))) e (more moved rest))
        | inr other ↦ rw (get-put d id j r, other) rest
      ],
    )

-- What a presentation does to the attestations is a step of the machine.
pub attest_step :
    (t : ReservationStatus) (a : ByRole (Option Attestation)) (role : Role) (new : Attestation)
    → PhasedAt t a
    → not (reservation_status_eq t tokens_issued || reservation_status_eq t partially_attested)
      ≡ false
    → is_some (at_role a role) ≡ false
    → let b = set_role a role (some new) in
      let u =
        if is_some b.of_custodian && is_some b.of_claimant
        then callback_ready
        else partially_attested in
      PhasedAt u b × Step (phase_at t a) (phase_at u b)
unfolding at_role set_role ReservationStatus-discrete phase_at
attest_step held a role new h is_open fresh = absurd (ground arith)
attest_step tokens_issued a custodian new h is_open fresh = rw h.1 (refl, first custodian)
attest_step tokens_issued a claimant new h is_open fresh = rw h.0 (refl, first claimant)
attest_step partially_attested a custodian new h is_open fresh =
    let other : is_some a.of_claimant ≡ true = ground (arith, h, fresh) in
    rw (other, fresh) (tt, second claimant custodian (λ e. cc))
attest_step partially_attested a claimant new h is_open fresh =
    let other : is_some a.of_custodian ≡ true = ground (arith, h, fresh) in
    rw other (tt, second custodian claimant (λ e. cc))
attest_step callback_ready a role new h is_open fresh = absurd (ground arith)
attest_step handoff_attested a role new h is_open fresh = absurd (ground arith)
attest_step expired a role new h is_open fresh = absurd (ground arith)

pub lapse_step :
    (t : ReservationStatus) (a : ByRole (Option Attestation))
    → is_over t ≡ false
    → Step (phase_at t a) over
unfolding is_over ReservationStatus-discrete phase_at
lapse_step held a e = lapse_holding
lapse_step tokens_issued a e = lapse_issued
lapse_step partially_attested a e = lapse_presented _
lapse_step callback_ready a e = lapse_ready
lapse_step handoff_attested a e = absurd (ground arith)
lapse_step expired a e = absurd (ground arith)
