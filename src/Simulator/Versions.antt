-- ===== src/Simulator/Versions.antt =====
-- The version numbers of simulator/app/store.py, on which clients rely when they name the version that
-- they have read.
use found_roll.Prelude.{
  Dict, ℕ, ◌≤◌, ◌<◌, String, ◌≡◌, refl, sym, ◌∙◌, subst, inl, inr, ◌⊎◌, none, some, raised,
  returned, get, put, get-put, arith, eq_iff, Bool-cases, Result-cases, some_inj, none≢some, ◌==◌,
}
use found_roll.Simulator.{FixtureStore, Item, Reservation}
use found_roll.Simulator.Codec.{Codec}
use found_roll.Simulator.Store.{expired_reservation, freed_item}
use found_roll.Simulator.Requests.{
  CredentialIssueRequest, ReservationBoundRequest, ReservationCreateRequest,
  TokenAttestationRequest,
}
use found_roll.Simulator.Reservations.{
  check_reservable, held_item, new_reservation, new_reservation_id, reserve_new,
}
use found_roll.Simulator.Credentials.{check_credential_request, issue_new, issued_reservation}
use found_roll.Simulator.Attestations.{attest_new, attested_reservation, check_attestable}
use found_roll.Simulator.Handoff.{
  check_finalizable, finalize_new, finalized_reservation, released_item,
}
use found_roll.Simulator.Consistency.Expiry.{Round, skipped, kept, lapsed}
use found_roll.Simulator.Consistency.Writes.{check_credential_request-ok, check_reservable-ok}
use found_roll.Simulator.Consistency.Presentations.{check_attestable-ok, check_finalizable-ok}
use found_roll.Simulator.Frame.{Frame, Frame-Command, Command}
use found_roll.Simulator.Calls.{Reachable, FixtureStore-Consistent}

module _ {V : Type 0} (version : V → ℕ) where
  -- Every entry stays, its version does not fall, and it is the same entry while the version is.
  abbrev pub Grows : Dict V → Dict V → Type 0
  Grows d after =
      (k : String) (v : V)
      → get d k ≡ some v
      → (w : V) × (get after k ≡ some w) × (version v ≤ version w) × (version v ≡ version w → v ≡ w)

  Grows-same : (d : Dict V) → Grows d d
  Grows-same d k v p = (v, p, omega arith, λ e. refl)

  Grows-chain : (a b c : Dict V) → Grows a b → Grows b c → Grows a c
  Grows-chain a b c f g k u p =
      let (v, q, le, same) = f k u p in
      let (w, r, le', same') = g k v q in
      (
        w,
        r,
        omega (arith, le, le'),
        λ e.
            let e1 : version u ≡ version v = omega (arith, le, le', e) in
            let e2 : version v ≡ version w = omega (arith, le, le', e) in same e1 ∙ same' e2,
      )

  -- The entry of a key is new, or it is replaced by one of a later version.
  Grows-put :
      (d : Dict V) (k : String) (new : V)
      → ((old : V) → get d k ≡ some old → (old ≡ new) ⊎ (version old < version new))
      → Grows d (put d k new)
  Grows-put d k new later j v p = elim (Bool-cases (k == j)) [
    | inr other ↦ (v, rw (get-put d k j new, other) p, omega arith, λ e. refl)
    | inl mine ↦
        let e : k ≡ j = ground (arith, eq_iff k j) in
        elim (later v (subst (λ z. get d z ≡ some v) (sym e) p)) [
          | inl same ↦ (new, rw (get-put d k j new, mine) refl, rw same (omega arith), λ q. same)
          | inr lt ↦ (
            new,
            rw (get-put d k j new, mine) refl,
            omega (arith, lt),
            λ q. absurd (omega (arith, lt, q)),
          )
        ]
  ]

  Grows-replace :
      (d : Dict V) (k : String) (old new : V)
      → get d k ≡ some old
      → (old ≡ new) ⊎ (version old < version new)
      → Grows d (put d k new)
  Grows-replace d k old new found later =
      Grows-put d k new
        (λ v p. subst (λ z. (z ≡ new) ⊎ (version z < version new)) (some_inj (sym found ∙ p)) later)

abbrev pub item_version : Item → ℕ
item_version i = i.version

abbrev pub reservation_version : Reservation → ℕ
reservation_version r = r.version

abbrev StoreGrows : FixtureStore → FixtureStore → Type 0
StoreGrows s after =
    Grows item_version s.items after.items
    × Grows reservation_version s.reservations after.reservations

StoreGrows-same : (s : FixtureStore) → StoreGrows s s
StoreGrows-same s = (Grows-same item_version s.items, Grows-same reservation_version s.reservations)

module _ ⦃x : Codec⦄ where
  freed_item_version :
      (i : Item) (r : Reservation) → (i ≡ freed_item i r) ⊎ (i.version < (freed_item i r).version)
  unfolding freed_item
  freed_item_version i r = ground arith

  Round-Grows :
      (now : ℕ) (key : String) (s after : FixtureStore) → Round now key s after → StoreGrows s after
  unfolding expired_reservation
  Round-Grows now key s after (skipped missing same) = rw same (StoreGrows-same s)
  Round-Grows now key s after (kept r found stays same) = rw same (StoreGrows-same s)
  Round-Grows now key s after (lapsed r i found stored ends same) = rw same (
    Grows-replace item_version s.items r.item_id i (freed_item i r) stored (freed_item_version i r),
    Grows-replace reservation_version s.reservations key r (expired_reservation r now) found
        (inr (omega arith)),
  )

  reserve-Grows :
      (request : ReservationCreateRequest) (now : ℕ) (s : FixtureStore)
      → get s.reservations (new_reservation_id request) ≡ none
      → StoreGrows s (reserve_new request now s).1
  unfolding reserve_new held_item
  reserve-Grows request now s fresh = elim (Result-cases (check_reservable s request now)) [
    | raised e p ↦ rw p (StoreGrows-same s)
    | returned (i, t) p ↦
        let id = new_reservation_id request in
        let (stored, free) = check_reservable-ok s request now i t p in
        rw p (
          Grows-replace item_version s.items request.item_id i (held_item i id) stored
              (inr (omega arith)),
          Grows-put reservation_version s.reservations id (new_reservation request id t now)
              (λ old q. absurd (none≢some (sym fresh ∙ q))),
        )
  ]

  issue-Grows :
      (id : String) (request : CredentialIssueRequest) (secret : String) (now : ℕ)
      (s : FixtureStore)
      → StoreGrows s (issue_new id request secret now s).1
  unfolding issue_new issued_reservation
  issue-Grows id request secret now s =
      elim (Result-cases (check_credential_request s id request now)) [
        | raised e p ↦ rw p (StoreGrows-same s)
        | returned (r, t) p ↦
            let (found, was) = check_credential_request-ok s id request now r t p in
            rw p (
              Grows-same item_version s.items,
              Grows-replace reservation_version s.reservations id r _ found (inr (omega arith)),
            )
      ]

  attest-Grows :
      (id : String) (request : TokenAttestationRequest) (now : ℕ) (s : FixtureStore)
      → StoreGrows s (attest_new id request now s).1
  unfolding attest_new attested_reservation
  attest-Grows id request now s = elim (Result-cases (check_attestable s id request now)) [
    | raised e p ↦ rw p (StoreGrows-same s)
    | returned r p ↦
        let (found, passed) = check_attestable-ok s id request now r p in
        rw p (
          Grows-same item_version s.items,
          Grows-replace reservation_version s.reservations id r _ found (inr (omega arith)),
        )
  ]

  finalize-Grows :
      (id : String) (request : ReservationBoundRequest) (secret : String) (now : ℕ)
      (s : FixtureStore)
      → StoreGrows s (finalize_new id request secret now s).1
  unfolding finalize_new finalized_reservation released_item
  finalize-Grows id request secret now s =
      elim (Result-cases (check_finalizable s id request now)) [
        | raised e p ↦ rw p (StoreGrows-same s)
        | returned (r, i) p ↦
            let (found, stored, was, holds, mine) = check_finalizable-ok s id request now r i p in
            rw p (
              Grows-replace item_version s.items r.item_id i _ stored (inr (omega arith)),
              Grows-replace reservation_version s.reservations id r _ found (inr (omega arith)),
            )
      ]

  grows : Frame StoreGrows
  grows = record {
    same = StoreGrows-same;
    chain = λ s t u f g. (
      Grows-chain item_version s.items t.items u.items f.0 g.0,
      Grows-chain reservation_version s.reservations t.reservations u.reservations f.1 g.1,
    );
    round = λ now key s after c w. Round-Grows now key s after w;
    reserve = λ request now s c fresh. reserve-Grows request now s fresh;
    issue = λ id request secret now s c. issue-Grows id request secret now s;
    attest = λ id request now s c. attest-Grows id request now s;
    finalize = λ id request secret now s c. finalize-Grows id request secret now s;
  }

  -- In a store that calls can reach, a call that does not reset the fixture keeps every item and every
  -- reservation, never lowers a version, and leaves each entry whose version it does not raise exactly
  -- as it was: a version read earlier and still current is the same record.
  pub versions_guard :
      (s after : FixtureStore)
      → Reachable s
      → Command s after
      → Grows item_version s.items after.items
        × Grows reservation_version s.reservations after.reservations
  versions_guard s after reach call =
      Frame-Command StoreGrows grows s after (FixtureStore-Consistent s reach) call
