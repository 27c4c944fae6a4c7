-- ===== src/Simulator/Retries.antt =====
-- A command of simulator/app/store.py that is sent again, with the same request and key.
use mathlib.Core.Bool.{true≢false}
use found_roll.Prelude.{
  ℕ, String, ◌≡◌, refl, sym, ◌∙◌, ap, subst, inl, inr, true, false, some, Result, ok, Exec, raised,
  returned, put, get-put, on_some, on_ok, and_then, arith, eq_refl, Option-cases, Result-cases,
  some_inj, ok_inj, ok≢err, and_then-eq-ok,
}
use found_roll.Prelude.Json.{Json}
use found_roll.Simulator.{FixtureStore, StoreResponse}
use found_roll.Simulator.Requests.{
  ReservationBoundRequest, ReservationCreateRequest, TokenAttestationRequest, attest_json,
  create_json, handoff_json,
}
use found_roll.Simulator.Codec.{Codec}
use found_roll.Simulator.Store.{
  expire_locked, idempotency_record, idempotent_replay_of, save_idempotent,
}
use found_roll.Simulator.Reservations.{
  check_reservable, create_reservation, held_item, new_reservation, new_reservation_id,
  reserve_item, reserve_new, reserve_scope,
}
use found_roll.Simulator.Attestations.{
  attest_new, attestation_scope, attested_reservation, attested_response, new_attestation,
  check_attestable, record_attestation,
}
use found_roll.Simulator.Handoff.{
  check_finalizable, finalized_reservation, finalized_response, released_item,
  finalize_handoff_attestation, finalize_new, handoff_scope,
}

-- the answer to a repeated command
abbrev pub replayed : StoreResponse → StoreResponse
replayed r = record r { idempotent_replay = true }

module _ ⦃x : Codec⦄ where
  -- a command with replays, as three of the four are written
  abbrev pub replaying :
      String → Json → ℕ → Exec FixtureStore StoreResponse → Exec FixtureStore StoreResponse
  replaying scope payload now new s = on_ok (idempotent_replay_of s scope payload) s (λ found.
      on_some found (λ response. (ok response, s))
        (and_then (expire_locked now s) (λ _ current. new current)))

  -- The answer is remembered for the request.
  abbrev Remembers : FixtureStore → String → Json → StoreResponse → Type 0
  Remembers s scope payload r = idempotent_replay_of s scope payload ≡ ok (some (replayed r))

  saved :
      (s : FixtureStore) (scope : String) (payload : Json) (r : StoreResponse)
      → Remembers (save_idempotent s scope payload r) scope payload r
  unfolding save_idempotent idempotent_replay_of idempotency_record
  saved s scope payload r =
      let same = eq_refl scope in
      let match = eq_refl (x.sha256_json payload) in rw (get-put, same, match) refl

  -- the store of a new command, after it has answered
  remembered :
      (b after : FixtureStore) (scope : String) (payload : Json) (response r : StoreResponse)
      → ◌≡◌ {A = Result StoreResponse × FixtureStore}
          (ok response, save_idempotent b scope payload response)
          (ok r, after)
      → Remembers after scope payload r
  remembered b after scope payload response r w =
      subst (λ z. Remembers z scope payload r) (ap (λ z. z.1) w)
        (subst (λ z. Remembers (save_idempotent b scope payload response) scope payload z)
          (ok_inj (ap (λ z. z.0) w)) (saved b scope payload response))

  replayed_again :
      (s : FixtureStore) (scope : String) (payload : Json) (r : StoreResponse)
      → idempotent_replay_of s scope payload ≡ ok (some r)
      → r ≡ replayed r
  unfolding idempotent_replay_of
  replayed_again s scope payload r v = elim (Result-cases (idempotency_record s scope payload)) [
    | raised e p ↦ absurd (ground (arith, v, p))
    | returned found p ↦ elim (Option-cases found) [
      | inl nothing ↦ absurd (ground (arith, v, p, nothing))
      | inr (row, q) ↦
          let e : replayed row.response ≡ r = some_inj (ok_inj (rw (p, q) at v)) in
          sym e ∙ ap replayed e
    ]
  ]

  replaying_retry :
      (scope : String) (payload : Json) (now later : ℕ) (new new' : Exec FixtureStore StoreResponse)
      (s after : FixtureStore) (r : StoreResponse)
      → ((t : FixtureStore) → new t ≡ (ok r, after) → Remembers after scope payload r)
      → replaying scope payload now new s ≡ (ok r, after)
      → replaying scope payload later new' after ≡ (ok (replayed r), after)
  replaying_retry scope payload now later new new' s after r saves v =
      elim (Result-cases (idempotent_replay_of s scope payload)) [
        | raised e p ↦ absurd (ok≢err (sym (ap (λ z. z.0) (rw p at v))))
        | returned found p ↦ elim (Option-cases found) [
          | inr (old, q) ↦
              let w : (ok old, s) ≡ (ok r, after) = rw (p, q) at v in
              let same : s ≡ after = ap (λ z. z.1) w in
              let e : old ≡ r = ok_inj (ap (λ z. z.0) w) in
              let known : idempotent_replay_of after scope payload ≡ ok (some r) =
                subst (λ z. idempotent_replay_of z scope payload ≡ ok (some r)) same
                  (p ∙ ap ok (q ∙ ap some e)) in
              let twice = replayed_again after scope payload r known in
              rw known (λ i. (ok (twice i), after))
          | inl unknown ↦
              let (u, mid, swept, ran) =
                and_then-eq-ok (expire_locked now s) (λ _ current. new current)
                  (rw (p, unknown) at v) in
              rw (saves mid ran) refl
        ]
      ]

  reserve_saves :
      (request : ReservationCreateRequest) (now : ℕ) (t after : FixtureStore) (r : StoreResponse)
      → reserve_new request now t ≡ (ok r, after)
      → Remembers after (reserve_scope request) (create_json request) r
  unfolding reserve_new reserve_item
  reserve_saves request now t after r v = elim (Result-cases (check_reservable t request now)) [
    | raised e p ↦ absurd (ok≢err (sym (ap (λ z. z.0) (rw p at v))))
    | returned (i, at_) p ↦
        let id = new_reservation_id request in
        remembered
          (record t {
            items = put t.items request.item_id (held_item i id);
            reservations = put t.reservations id (new_reservation request id at_ now);
          })
          after (reserve_scope request) (create_json request) (reserve_item request now i at_ t).0 r
          (rw p at v)
  ]

  attest_saves :
      (id : String) (request : TokenAttestationRequest) (now : ℕ) (t after : FixtureStore)
      (r : StoreResponse)
      → attest_new id request now t ≡ (ok r, after)
      → Remembers after
          (attestation_scope request)
          (attest_json request (x.sha256_text request.token))
          r
  unfolding attest_new
  attest_saves id request now t after r v =
      elim (Result-cases (check_attestable t id request now)) [
        | raised e p ↦ absurd (ok≢err (sym (ap (λ z. z.0) (rw p at v))))
        | returned q p ↦
            remembered
              (record t {
                reservations =
                    put t.reservations id
                      (attested_reservation q request (new_attestation id request now) now);
              })
              after (attestation_scope request) (attest_json request (x.sha256_text request.token))
              (attested_response id request now q) r (rw p at v)
      ]

  finalize_saves :
      (id : String) (request : ReservationBoundRequest) (secret : String) (now : ℕ)
      (t after : FixtureStore) (r : StoreResponse)
      → finalize_new id request secret now t ≡ (ok r, after)
      → Remembers after (handoff_scope request) (handoff_json request) r
  unfolding finalize_new
  finalize_saves id request secret now t after r v =
      elim (Result-cases (check_finalizable t id request now)) [
        | raised e p ↦ absurd (ok≢err (sym (ap (λ z. z.0) (rw p at v))))
        | returned (q, i) p ↦
            remembered
              (record t {
                reservations = put t.reservations id (finalized_reservation q request now);
                items = put t.items q.item_id (released_item i);
              })
              after (handoff_scope request) (handoff_json request)
              (finalized_response id request secret now q i) r (rw p at v)
      ]

  -- An answer that is not marked as a replay comes from the new part, run after the sweep.
  pub replaying_new :
      (scope : String) (payload : Json) (now : ℕ) (new : Exec FixtureStore StoreResponse)
      (s after : FixtureStore) (r : StoreResponse)
      → replaying scope payload now new s ≡ (ok r, after)
      → r.idempotent_replay ≡ false
      → (mid : FixtureStore) × (new mid ≡ (ok r, after))
  replaying_new scope payload now new s after r v unmarked =
      elim (Result-cases (idempotent_replay_of s scope payload)) [
        | raised e p ↦ absurd (ok≢err (sym (ap (λ z. z.0) (rw p at v))))
        | returned found p ↦ elim (Option-cases found) [
          | inr (old, q) ↦
              let e : old ≡ r = ok_inj (ap (λ z. z.0) (rw (p, q) at v)) in
              let marked = replayed_again s scope payload r (p ∙ ap ok (q ∙ ap some e)) in
              absurd (
                true≢false
                  (sym (ap (λ (z : StoreResponse). z.idempotent_replay) marked) ∙ unmarked))
          | inl unknown ↦
              let (u, mid, swept, ran) =
                and_then-eq-ok (expire_locked now s) (λ _ current. new current)
                  (rw (p, unknown) at v) in
              (mid, ran)
        ]
      ]

  -- A reservation that was made is made once: the same request, sent again at any time to the store
  -- that the first call left, returns the first answer, marked as a replay, and changes nothing.
  pub create_retry :
      (request : ReservationCreateRequest) (now later : ℕ) (s after : FixtureStore)
      (r : StoreResponse)
      → create_reservation request now s ≡ (ok r, after)
      → create_reservation request later after ≡ (ok (record r { idempotent_replay = true }), after)
  unfolding create_reservation
  create_retry request now later s after r v =
      replaying_retry (reserve_scope request) (create_json request) now later
        (reserve_new request now) (reserve_new request later) s after r
        (λ t ran. reserve_saves request now t after r ran) v

  attest_retry :
      (id : String) (request : TokenAttestationRequest) (now later : ℕ) (s after : FixtureStore)
      (r : StoreResponse)
      → record_attestation id request now s ≡ (ok r, after)
      → record_attestation id request later after ≡ (ok (replayed r), after)
  unfolding record_attestation
  attest_retry id request now later s after r v =
      replaying_retry (attestation_scope request)
        (attest_json request (x.sha256_text request.token)) now later (attest_new id request now)
        (attest_new id request later) s after r (λ t ran. attest_saves id request now t after r ran)
        v

  -- A handoff is finalised once: the same request, sent again at any time and with any callback secret
  -- to the store that the first call left, returns the first answer with its signed callback, marked as
  -- a replay, and changes nothing.
  pub finalize_retry :
      (id : String) (request : ReservationBoundRequest) (secret secret' : String) (now later : ℕ)
      (s after : FixtureStore) (r : StoreResponse)
      → finalize_handoff_attestation id request secret now s ≡ (ok r, after)
      → finalize_handoff_attestation id request secret' later after
        ≡ (ok (record r { idempotent_replay = true }), after)
  unfolding finalize_handoff_attestation
  finalize_retry id request secret secret' now later s after r v =
      replaying_retry (handoff_scope request) (handoff_json request) now later
        (finalize_new id request secret now) (finalize_new id request secret' later) s after r
        (λ t ran. finalize_saves id request secret now t after r ran) v
