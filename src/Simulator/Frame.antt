-- ===== src/Simulator/Frame.antt =====
-- The rule for relations between the store before and after a call (simulator/app/store.py): it is
-- enough to look at one expiry and at the new part of each command.
use found_roll.Prelude.{
  ℕ, String, ◌≡◌, refl, inl, inr, Option, none, some, List, [], ◌∷◌, ok, err, Result, Exec, raised,
  returned, get, keys, on_some, on_ok, and_then, Option-cases, Result-cases,
}
use found_roll.Simulator.{FixtureStore, StoreResponse}
use found_roll.Simulator.Requests.{
  CredentialIssueRequest, ReservationBoundRequest, ReservationCreateRequest,
  TokenAttestationRequest, attest_json, create_json, handoff_json, issue_json,
}
use found_roll.Simulator.Codec.{Codec}
use found_roll.Simulator.Store.{
  expire_each, expire_locked, expire_one, idempotency_record, idempotent_replay_of,
}
use found_roll.Simulator.Reservations.{
  create_reservation, new_reservation_id, reserve_new, reserve_scope,
}
use found_roll.Simulator.Credentials.{issue_credentials, issue_new, issue_scope}
use found_roll.Simulator.Attestations.{attest_new, attestation_scope, record_attestation}
use found_roll.Simulator.Handoff.{finalize_handoff_attestation, finalize_new, handoff_scope}
use found_roll.Simulator.Consistency.{Consistent}
use found_roll.Simulator.Consistency.Expiry.{
  Round, expire_each-cons, expire_locked-Consistent, expire_one-Consistent, expire_one-Round,
}

-- The part after the replay: reservations expire, and then the new part of a command runs.
pub after_expiry :
    ⦃x : Codec⦄
    → (now : ℕ) (s : FixtureStore) (next : Exec FixtureStore StoreResponse) → Consistent s
    → and_then (expire_locked now s) (λ _ current. next current) ≡ next (expire_locked now s).1
after_expiry now s next c = rw (expire_locked-Consistent now s c).0 refl

module _ ⦃x : Codec⦄ where
  -- One call that does not reset. A read sweeps the reservations that have expired. The identifier of
  -- a new reservation, a truncated digest, is not in use.
  pub data Command (s : FixtureStore) : FixtureStore → Type 0 where
    swept : (now : ℕ) → Command s (expire_locked now s).1
    reserved :
        (request : ReservationCreateRequest) (now : ℕ)
        → (idempotent_replay_of s (reserve_scope request) (create_json request) ≡ ok none
            → get (expire_locked now s).1.reservations (new_reservation_id request) ≡ none)
        → Command s (create_reservation request now s).1
    issued :
        (id : String) (request : CredentialIssueRequest) (secret : String) (now : ℕ)
        → Command s (issue_credentials id request secret now s).1
    attested :
        (id : String) (request : TokenAttestationRequest) (now : ℕ)
        → Command s (record_attestation id request now s).1
    finalized :
        (id : String) (request : ReservationBoundRequest) (secret : String) (now : ℕ)
        → Command s (finalize_handoff_attestation id request secret now s).1

  pub record Frame (R : FixtureStore → FixtureStore → Type 0) : Type 0 where
    pub same : (s : FixtureStore) → R s s
    pub chain : (s t u : FixtureStore) → R s t → R t u → R s u
    pub round :
        (now : ℕ) (key : String) (s after : FixtureStore)
        → Consistent s
        → Round now key s after
        → R s after
    pub reserve :
        (request : ReservationCreateRequest) (now : ℕ) (s : FixtureStore)
        → Consistent s
        → get s.reservations (new_reservation_id request) ≡ none
        → R s (reserve_new request now s).1
    pub issue :
        (id : String) (request : CredentialIssueRequest) (secret : String) (now : ℕ)
        (s : FixtureStore)
        → Consistent s
        → R s (issue_new id request secret now s).1
    pub attest :
        (id : String) (request : TokenAttestationRequest) (now : ℕ) (s : FixtureStore)
        → Consistent s
        → R s (attest_new id request now s).1
    pub finalize :
        (id : String) (request : ReservationBoundRequest) (secret : String) (now : ℕ)
        (s : FixtureStore)
        → Consistent s
        → R s (finalize_new id request secret now s).1

  module _ (R : FixtureStore → FixtureStore → Type 0) (f : Frame R) where
    Frame-each :
        (now : ℕ) (ids : List String) (s : FixtureStore)
        → Consistent s
        → R s (expire_each now ids s).1
    unfolding expire_each
    Frame-each now [] s c = f.same s
    Frame-each now (key ∷ rest) s c = rw (expire_each-cons now key rest s c) (
        f.chain s (expire_one now key s).1 _
          (f.round now key s (expire_one now key s).1 c (expire_one-Round now key s c).1)
          (Frame-each now rest (expire_one now key s).1 (expire_one-Consistent now key s c)))

    pub Frame-locked : (now : ℕ) (s : FixtureStore) → Consistent s → R s (expire_locked now s).1
    unfolding expire_locked
    Frame-locked now s c = Frame-each now (keys s.reservations) s c

    Frame-replay :
        (s : FixtureStore) (now : ℕ) (replay : Result (Option StoreResponse))
        (new : Exec FixtureStore StoreResponse)
        → Consistent s
        → (replay ≡ ok none → R (expire_locked now s).1 (new (expire_locked now s).1).1)
        → R s
            (on_ok replay s (λ found.
              on_some found
                (λ response. (ok response, s))
                (and_then (expire_locked now s) (λ _ current. new current)))).1
    Frame-replay s now (err e) new c step = f.same s
    Frame-replay s now (ok (some response)) new c step = f.same s
    Frame-replay s now (ok none) new c step =
        rw (after_expiry now s new c)
          (f.chain s (expire_locked now s).1 _ (Frame-locked now s c) (step refl))

    Frame-issue :
        (s : FixtureStore) (id : String) (request : CredentialIssueRequest) (secret : String)
        (now : ℕ)
        → Consistent s
        → R s (issue_credentials id request secret now s).1
    unfolding issue_credentials
    Frame-issue s id request secret now c =
        elim (Result-cases (idempotency_record s (issue_scope request) (issue_json request))) [
          | raised e p ↦ rw p (f.same s)
          | returned known p ↦ elim (Option-cases known) [
            | inr (row, q) ↦ rw (p, q) (f.same s)
            | inl unknown ↦
                rw (p, unknown, after_expiry now s (issue_new id request secret now) c)
                  (f.chain s (expire_locked now s).1 _ (Frame-locked now s c) (
                    f.issue id request secret now (expire_locked now s).1
                      (expire_locked-Consistent now s c).1))
          ]
        ]

    pub Frame-Command : (s after : FixtureStore) → Consistent s → Command s after → R s after
    unfolding create_reservation record_attestation finalize_handoff_attestation
    Frame-Command s after c (swept now) = Frame-locked now s c
    Frame-Command s after c (reserved request now fresh) =
        Frame-replay s now (idempotent_replay_of s (reserve_scope request) (create_json request))
          (reserve_new request now) c
          (λ unknown.
            f.reserve request now (expire_locked now s).1 (expire_locked-Consistent now s c).1
              (fresh unknown))
    Frame-Command s after c (issued id request secret now) = Frame-issue s id request secret now c
    Frame-Command s after c (attested id request now) =
        Frame-replay s now
          (idempotent_replay_of s (attestation_scope request)
            (attest_json request (x.sha256_text request.token)))
          (attest_new id request now) c
          (λ unknown.
            f.attest id request now (expire_locked now s).1 (expire_locked-Consistent now s c).1)
    Frame-Command s after c (finalized id request secret now) =
        Frame-replay s now (idempotent_replay_of s (handoff_scope request) (handoff_json request))
          (finalize_new id request secret now) c
          (λ unknown.
            f.finalize id request secret now (expire_locked now s).1
              (expire_locked-Consistent now s c).1)
