-- ===== src/Simulator/Consistency/Writes.antt =====
-- `create_reservation` and `issue_credentials` of simulator/app/store.py keep the store consistent.
use found_roll.Prelude.{
  ℕ, String, ◌≡◌, refl, sym, ap, ◌∙◌, subst, inl, inr, false, none, some, ok, raised, returned, get,
  put, get-put, arith, eq_iff, Option-cases, Result-cases, some_inj, none≢some,
}
use found_roll.Simulator.{
  FixtureStore, Item, ItemStatus-discrete, available, Reservation, ReservationStatus,
  ReservationStatus-discrete, held, tokens_issued, partially_attested, callback_ready,
  handoff_attested, expired,
}
use found_roll.Simulator.Requests.{CredentialIssueRequest, ReservationCreateRequest}
use found_roll.Simulator.Codec.{Codec}
use found_roll.Simulator.Store.{is_over}
use found_roll.Simulator.Reservations.{
  check_reservable, held_item, new_reservation, new_reservation_id, reserve_new,
}
use found_roll.Simulator.Credentials.{check_credential_request, issue_new, issued_reservation}
use found_roll.Simulator.Consistency.{Agrees, AgreesAt, Consistent, Holds, settles-Consistent}
use found_roll.Simulator.Consistency.Expiry.{active-Holds}

-- An available item names no reservation.
pub available_free :
    (s : FixtureStore) (k : String) (i : Item)
    → Consistent s
    → get s.items k ≡ some i
    → i.status ≡ available
    → i.reservation_id ≡ none
available_free s k i c stored free = elim (Option-cases i.reservation_id) [
  | inl nothing ↦ nothing
  | inr (id, names) ↦
      let (r, found, of_item) = rw names at (c.backed k i stored) in
      let (i', stored', agrees) = c.linked id r found in
      let at_k : r.item_id ≡ k = of_item ∙ c.own_item k i stored in
      let same : i' ≡ i =
        some_inj (sym (subst (λ z. get s.items z ≡ some i') at_k stored') ∙ stored) in
      absurd (
        taken r r.status (subst (λ z. Agrees r z) same agrees) (c.own_reservation id r found) names)
]
  where
    taken :
        (r : Reservation) (t : ReservationStatus)
        → AgreesAt t r i
        → {id : String} → r.reservation_id ≡ id
        → i.reservation_id ≡ some id
        → ⊥
    taken r held h own names = cc
    taken r tokens_issued h own names = cc
    taken r partially_attested h own names = cc
    taken r callback_ready h own names = let e = h.0.0 in cc
    taken r handoff_attested h own names = let e = h.0 in cc
    taken r expired h own names = h (names ∙ ap some (sym own))

-- The reservation of a key advances, and its item stays as it is.
pub advance-Consistent :
    (s after : FixtureStore) (id : String) (q r : Reservation)
    → Consistent s
    → get s.reservations id ≡ some q
    → is_over q.status ≡ false
    → r.reservation_id ≡ q.reservation_id
    → r.item_id ≡ q.item_id
    → ((i : Item) → Holds q i → Agrees r i)
    → after.items ≡ s.items
    → after.reservations ≡ put s.reservations id r
    → Consistent after
advance-Consistent s after id q r c found active same_id same_item agrees items reservations =
    let (i, stored, linked) = c.linked id q found in
    let h : Holds q i = active-Holds q i active linked in
    let own : q.reservation_id ≡ id = c.own_reservation id q found in
    let at_r : get s.items r.item_id ≡ some i = rw same_item stored in
    let mine = h.1 ∙ ap some own in
    settles-Consistent s after c (record {
      id = id;
      r = r;
      i = i;
      old = i;
      reservations = λ j. rw reservations (get-put s.reservations id j r);
      items = λ k. rw items (ground (arith, eq_iff r.item_id k, at_r));
      own_reservation = same_id ∙ own;
      own_item = c.own_item r.item_id i at_r;
      old_item = at_r;
      agrees = agrees i h;
      free = inr mine;
      old_free = inr mine;
      unheld = λ e. absurd (none≢some (sym e ∙ mine));
      same_item =
          λ p w. ap (λ (z : Reservation). z.item_id) (some_inj (sym w ∙ found)) ∙ sym same_item;
    })

pub check_reservable-ok :
    (s : FixtureStore) (request : ReservationCreateRequest) (now : ℕ) (i : Item) (t : ℕ)
    → check_reservable s request now ≡ ok (i, t)
    → (get s.items request.item_id ≡ some i) × (i.status ≡ available)
unfolding check_reservable ItemStatus-discrete
check_reservable-ok s request now i t v = elim (Option-cases (get s.items request.item_id)) [
  | inl missing ↦ absurd (ground arith)
  | inr (found, stored) ↦
      let same : found ≡ i = ground arith in (stored ∙ ap some same, ground arith)
]

pub check_credential_request-ok :
    (s : FixtureStore) (id : String) (request : CredentialIssueRequest) (now : ℕ) (r : Reservation)
    (t : ℕ)
    → check_credential_request s id request now ≡ ok (r, t)
    → (get s.reservations id ≡ some r) × (r.status ≡ held)
unfolding check_credential_request ReservationStatus-discrete
check_credential_request-ok s id request now r t v = elim (Option-cases (get s.reservations id)) [
  | inl missing ↦ absurd (ground arith)
  | inr (found, stored) ↦
      let same : found ≡ r = ground arith in (stored ∙ ap some same, ground arith)
]

module _ ⦃x : Codec⦄ where
  pub reserve_new-Consistent :
      (s : FixtureStore) (request : ReservationCreateRequest) (now : ℕ)
      → Consistent s
      → get s.reservations (new_reservation_id request) ≡ none
      → Consistent (reserve_new request now s).1
  unfolding reserve_new held_item new_reservation
  reserve_new-Consistent s request now c fresh =
      elim (Result-cases (check_reservable s request now)) [
        | raised e p ↦ rw p c
        | returned (i, t) p ↦
            let (stored, free) = check_reservable-ok s request now i t p in
            let id = new_reservation_id request in
            rw p (
              settles-Consistent s _ c (record {
                id = id;
                r = new_reservation request id t now;
                i = held_item i id;
                old = i;
                reservations = λ j. get-put s.reservations id j (new_reservation request id t now);
                items = λ k. get-put s.items request.item_id k (held_item i id);
                own_reservation = refl;
                own_item = c.own_item request.item_id i stored;
                old_item = stored;
                agrees = (refl, refl);
                free = inr refl;
                old_free = inl (available_free s request.item_id i c stored free);
                unheld = λ e. absurd (none≢some (sym e));
                same_item = λ q w. absurd (none≢some (sym fresh ∙ w));
              }))
      ]

  pub issue_new-Consistent :
      (s : FixtureStore) (id : String) (request : CredentialIssueRequest) (secret : String)
      (now : ℕ)
      → Consistent s
      → Consistent (issue_new id request secret now s).1
  unfolding issue_new issued_reservation is_over ReservationStatus-discrete
  issue_new-Consistent s id request secret now c =
      elim (Result-cases (check_credential_request s id request now)) [
        | raised e p ↦ rw p c
        | returned (r, t) p ↦
            let (found, was) = check_credential_request-ok s id request now r t p in
            rw p
              (advance-Consistent s _ id r _ c found (rw was refl) refl refl (λ i h. h) refl refl)
      ]
