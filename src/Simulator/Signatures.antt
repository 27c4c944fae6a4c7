-- ===== src/Simulator/Signatures.antt =====
-- The secrets of simulator/app/store.py from their making to their check: the signature of a callback
-- and the one-time tokens.
use Prim.Native.String.{slice, len}
use text.Mathlib.TextPositions.{slice-append_left, slice-append_right, len-append}
use found_roll.Prelude.{
  ℕ, ◌+◌, String, ◌≡◌, refl, sym, ◌∙◌, ap, subst, inl, inr, true, false, some, ok, raised, returned,
  get-put, arith, eq_refl, Option-cases, Result-cases, ok_inj, ok≢err, and_then-eq-ok, ◌<>◌,
}
use found_roll.Simulator.Retries.{replayed, replaying_new}
use found_roll.Simulator.{
  ReplayRecord, CallbackArtifact, CallbackBody, FixtureStore, StoreResponse, isoformat,
}
use found_roll.Simulator.Requests.{
  CredentialIssueRequest, ReservationBoundRequest, handoff_json, issue_json,
}
use found_roll.Simulator.Codec.{Codec, derive_credentials}
use found_roll.Simulator.Store.{expire_locked, idempotency_record}
use found_roll.Simulator.Credentials.{
  check_credential_request, issued_reservation, issued_row, issue_credentials, issue_new,
  issue_scope, reissue,
}
use found_roll.Simulator.Handoff.{
  signed_artifact, callback_body, finalized_reservation, released_item, check_finalizable,
  finalize_handoff_attestation, finalize_new, finalized_response, handoff_scope, starts_v1,
  verify_callback_artifact,
}
use found_roll.Simulator.Hashed.{StoresHashes, issue-StoresHashes}

-- `s[3:]` of a signature is what follows its prefix
slice_prefix : (s : String) → slice ("v1=" <> s) 3 (len ("v1=" <> s)) ≡ s
slice_prefix s = rw (len-append "v1=" s) (slice-append_right "v1=" s)

module _ ⦃x : Codec⦄ where
  artifact_verifies :
      (secret : String) (body : CallbackBody) (now : ℕ)
      → let a = signed_artifact secret body now in
        verify_callback_artifact a.body a.timestamp a.signature secret ≡ true
  unfolding signed_artifact verify_callback_artifact starts_v1
  artifact_verifies secret body now =
      rw (slice-append_left "v1=" _, slice_prefix _) (rw (eq_refl _) refl)

  -- The callback of a newly finalised handoff passes the check of its receiver: with the secret that
  -- signed it, `verify_callback_artifact` accepts its body, timestamp and signature, and the body is
  -- about the reservation that was finalised.
  pub finalized_verifies :
      (id : String) (request : ReservationBoundRequest) (secret : String) (now : ℕ)
      (s after : FixtureStore) (r : StoreResponse)
      → finalize_handoff_attestation id request secret now s ≡ (ok r, after)
      → r.idempotent_replay ≡ false
      → (a : CallbackArtifact) × (r.callback_artifact ≡ some a)
        × (a.body.reservation_id ≡ id)
        × (verify_callback_artifact a.body a.timestamp a.signature secret ≡ true)
  unfolding finalize_handoff_attestation finalize_new finalized_response callback_body
  finalized_verifies id request secret now s after r v unmarked =
      let (mid, ran) =
        replaying_new (handoff_scope request) (handoff_json request) now
          (finalize_new id request secret now) s after r v unmarked in
      elim (Result-cases (check_finalizable mid id request now)) [
        | raised e p ↦ absurd (ok≢err (sym (ap (λ z. z.0) (rw p at ran))))
        | returned (q, i) p ↦
            let body =
              callback_body id request (finalized_reservation q request now) (released_item i)
                now in
            let e : finalized_response id request secret now q i ≡ r =
              ok_inj (ap (λ z. z.0) (rw p at ran)) in
            (
              signed_artifact secret body now,
              ap (λ (z : StoreResponse). z.callback_artifact) (sym e),
              ground arith,
              artifact_verifies secret body now,
            )
      ]

  reissued_again :
      (secret : String) (row : ReplayRecord) (r : StoreResponse)
      → reissue secret row ≡ ok r
      → r ≡ replayed r
  unfolding reissue
  reissued_again secret row r v = elim (Option-cases row.credential_recipe) [
    | inl missing ↦ absurd (ok≢err (sym (rw missing at v)))
    | inr (recipe, p) ↦ let e = ok_inj (rw p at v) in sym e ∙ ap replayed e
  ]

  issue_new_known :
      (id : String) (request : CredentialIssueRequest) (secret : String) (now : ℕ)
      (t after : FixtureStore) (r : StoreResponse)
      → issue_new id request secret now t ≡ (ok r, after)
      → (row : ReplayRecord) × (idempotency_record after (issue_scope request) (issue_json request)
          ≡ ok (some row))
        × (reissue secret row ≡ ok (replayed r))
  unfolding issue_new idempotency_record reissue derive_credentials
  issue_new_known id request secret now t after r v =
      elim (Result-cases (check_credential_request t id request now)) [
        | raised e p ↦ absurd (ok≢err (sym (ap (λ z. z.0) (rw p at v))))
        | returned (q, expiry) p ↦
            let w = rw p at v in
            let same = eq_refl (issue_scope request) in
            let match = eq_refl (x.sha256_json (issue_json request)) in
            let credentials = derive_credentials secret id (q.version + 1) (isoformat expiry) in
            let row =
              issued_row id request (issued_reservation q request credentials now) (q.version + 1)
                credentials.expires_at in
            let answer = ok_inj (ap (λ z. z.0) w) in
            (
              row,
              subst
                  (λ z.
                    idempotency_record z (issue_scope request) (issue_json request) ≡ ok (some row))
                  (ap (λ z. z.1) w) (rw (get-put, same, match) refl),
              ap (λ z. ok (replayed z)) answer,
            )
      ]

  issue_again :
      (id : String) (request : CredentialIssueRequest) (secret : String) (now later : ℕ)
      (s after : FixtureStore) (r : StoreResponse)
      → issue_credentials id request secret now s ≡ (ok r, after)
      → issue_credentials id request secret later after
        ≡ (ok (record r { idempotent_replay = true }), after)
  unfolding issue_credentials
  issue_again id request secret now later s after r v =
      elim (Result-cases (idempotency_record s (issue_scope request) (issue_json request))) [
        | raised e p ↦ absurd (ok≢err (sym (ap (λ z. z.0) (rw p at v))))
        | returned found p ↦ elim (Option-cases found) [
          | inr (row, q) ↦
              let w = rw (p, q) at v in
              let again = ap (λ z. z.0) w in
              let twice = reissued_again secret row r again in
              let same : s ≡ after = ap (λ z. z.1) w in
              let known : idempotency_record after (issue_scope request) (issue_json request)
                  ≡ ok (some row) =
                subst
                  (λ z.
                    idempotency_record z (issue_scope request) (issue_json request) ≡ ok (some row))
                  same (p ∙ ap ok q) in
              rw (known, again) (λ i. (ok (twice i), after))
          | inl unknown ↦
              let (u, mid, swept, ran) =
                and_then-eq-ok (expire_locked now s)
                  (λ _ current. issue_new id request secret now current) (rw (p, unknown) at v) in
              let (row, known, again) = issue_new_known id request secret now mid after r ran in
              rw (known, again) refl
        ]
      ]

  -- The same request for credentials, sent again at any time with the same secret to the store that the
  -- first successful call left, returns the first answer with the same tokens, marked as a replay, and
  -- changes nothing; and the store that the first call leaves depends on the secret only by the hashes of
  -- the two tokens that it derives.
  pub issue_retry :
      (id : String) (request : CredentialIssueRequest) (secret : String) (now later : ℕ)
      (s after : FixtureStore) (r : StoreResponse)
      → issue_credentials id request secret now s ≡ (ok r, after)
      → (issue_credentials id request secret later after
          ≡ (ok (record r { idempotent_replay = true }), after))
        × StoresHashes id (λ (any : String). issue_credentials id request any now s)
  issue_retry id request secret now later s after r v =
      (issue_again id request secret now later s after r v, issue-StoresHashes id request now s)
