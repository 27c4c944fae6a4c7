-- ===== src/Simulator/Consistency/Presentations.antt =====
-- `record_attestation` and `finalize_handoff_attestation` of simulator/app/store.py keep the store
-- consistent.
use found_roll.Prelude.{
  ℕ, String, ◌≡◌, refl, sym, ap, ◌∙◌, subst, inl, inr, false, some, ok, raised, returned, get,
  get-put, is_some, ◌&&◌, ◌||◌, not, arith, eq_iff, Option-cases, Bool-cases, Result-cases,
  some_inj, none≢some, require-ok, ok_inj,
}
use found_roll.Simulator.{
  FixtureStore, Item, ItemStatus, ItemStatus-discrete, Reservation, ReservationStatus,
  ReservationStatus-discrete, reservation_status_eq, tokens_issued, partially_attested,
  callback_ready, set_role, at_role,
}
use found_roll.Simulator.Requests.{ReservationBoundRequest, TokenAttestationRequest}
use found_roll.Simulator.Codec.{Codec}
use found_roll.Simulator.Store.{is_over, require_reservation}
use found_roll.Simulator.Attestations.{
  attest_new, attested_reservation, check_attestable, check_presentation, new_attestation,
  token_window_closed,
}
use found_roll.Simulator.Handoff.{
  check_finalizable, finalize_new, finalized_reservation, released_item,
}
use found_roll.Simulator.Consistency.{
  Agrees, AgreesAt, BothAttested, Consistent, Holds, settles-Consistent,
}
use found_roll.Simulator.Consistency.Writes.{advance-Consistent}

module _ ⦃x : Codec⦄ where
  active :
      (t : ReservationStatus)
      → not (reservation_status_eq t tokens_issued || reservation_status_eq t partially_attested)
        ≡ false
      → is_over t ≡ false
  unfolding is_over ReservationStatus-discrete
  active t h = ground arith

  -- What the checks of a presentation have established.
  pub presentable :
      (q : Reservation) (request : TokenAttestationRequest) (now : ℕ)
      → check_presentation q request now ≡ ok tt
      → (not (
            reservation_status_eq q.status tokens_issued
            || reservation_status_eq q.status partially_attested)
          ≡ false)
        × (is_some (at_role q.attestations request.role) ≡ false)
        × (token_window_closed q now ≡ false)
  unfolding check_presentation
  presentable q request now v = (ground arith, ground arith, ground arith)

  pub check_attestable-ok :
      (s : FixtureStore) (id : String) (request : TokenAttestationRequest) (now : ℕ)
      (r : Reservation)
      → check_attestable s id request now ≡ ok r
      → (get s.reservations id ≡ some r) × (check_presentation r request now ≡ ok tt)
  unfolding check_attestable require_reservation
  check_attestable-ok s id request now r v =
      let (q, stored, v1) = require-ok (get s.reservations id) _ _ v in
      elim (Result-cases (check_presentation q request now)) [
        | raised e p ↦ absurd (ground (arith, v1, p))
        | returned u p ↦
            let same : q ≡ r = ok_inj (rw p at v1) in
            (
              stored ∙ ap some same,
              subst (λ (z : Reservation). check_presentation z request now ≡ ok tt) same p,
            )
      ]

  attested-Agrees :
      (id : String) (r : Reservation) (request : TokenAttestationRequest) (now : ℕ) (i : Item)
      → Holds r i
      → Agrees (attested_reservation r request (new_attestation id request now) now) i
  unfolding attested_reservation
  attested-Agrees id r request now i h =
      let a = set_role r.attestations request.role (some (new_attestation id request now)) in
      elim (Bool-cases (is_some a.of_custodian && is_some a.of_claimant)) [
        | inl both ↦ rw both (h, (ground arith, ground arith))
        | inr one ↦ rw one h
      ]

  pub attest_new-Consistent :
      (s : FixtureStore) (id : String) (request : TokenAttestationRequest) (now : ℕ)
      → Consistent s
      → Consistent (attest_new id request now s).1
  unfolding attest_new attested_reservation
  attest_new-Consistent s id request now c =
      elim (Result-cases (check_attestable s id request now)) [
        | raised e p ↦ rw p c
        | returned r p ↦
            let (found, passed) = check_attestable-ok s id request now r p in
            rw p (
              advance-Consistent s _ id r _ c found
                (active r.status (presentable r request now passed).0) refl refl
                (attested-Agrees id r request now) refl refl)
      ]

  pub check_finalizable-ok :
      (s : FixtureStore) (id : String) (request : ReservationBoundRequest) (now : ℕ)
      (r : Reservation) (i : Item)
      → check_finalizable s id request now ≡ ok (r, i)
      → (get s.reservations id ≡ some r)
        × (get s.items r.item_id ≡ some i)
        × (r.status ≡ callback_ready)
        × (i.status ≡ ItemStatus.held)
        × (i.reservation_id ≡ some id)
  unfolding check_finalizable ReservationStatus-discrete ItemStatus-discrete
  check_finalizable-ok s id request now r i v = elim (Option-cases (get s.reservations id)) [
    | inl missing ↦ absurd (ground arith)
    | inr (q, found) ↦ elim (Option-cases (get s.items q.item_id)) [
      | inl missing ↦ absurd (ground arith)
      | inr (j, stored) ↦
          let same : q ≡ r = ground arith in
          let same_item : j ≡ i = ground arith in
          let names : j.reservation_id ≡ some id = elim (Option-cases j.reservation_id) [
            | inl nothing ↦ absurd (ground arith)
            | inr (k, e) ↦ e ∙ ap some (ground (arith, eq_iff k id))
          ] in
          (
            found ∙ ap some same,
            subst (λ (z : Reservation). get s.items z.item_id ≡ some i) same
                (stored ∙ ap some same_item),
            ground arith,
            ground arith,
            subst (λ (z : Item). z.reservation_id ≡ some id) same_item names,
          )
    ]
  ]

  pub finalize_new-Consistent :
      (s : FixtureStore) (id : String) (request : ReservationBoundRequest) (secret : String)
      (now : ℕ)
      → Consistent s
      → Consistent (finalize_new id request secret now s).1
  unfolding finalize_new finalized_reservation released_item
  finalize_new-Consistent s id request secret now c =
      elim (Result-cases (check_finalizable s id request now)) [
        | raised e p ↦ rw p c
        | returned (r, i) p ↦
            let (found, stored, ready, holds, mine) = check_finalizable-ok s id request now r i p in
            let (j, stored', agrees) = c.linked id r found in
            let same : j ≡ i = some_inj (sym stored' ∙ stored) in
            let own = c.own_reservation id r found in
            let both : Holds r i × BothAttested r =
              subst (λ t. AgreesAt t r i) ready (subst (λ z. Agrees r z) same agrees) in
            rw p (
              settles-Consistent s _ c (record {
                id = id;
                r = finalized_reservation r request now;
                i = released_item i;
                old = i;
                reservations =
                    λ k. get-put s.reservations id k (finalized_reservation r request now);
                items = λ k. get-put s.items r.item_id k (released_item i);
                own_reservation = own;
                own_item = c.own_item r.item_id i stored;
                old_item = stored;
                agrees = (refl, both.0.1, both.1);
                free = inr mine;
                old_free = inr mine;
                unheld = λ e. absurd (none≢some (sym e ∙ mine));
                same_item = λ q w. ap (λ (z : Reservation). z.item_id) (some_inj (sym w ∙ found));
              }))
      ]
