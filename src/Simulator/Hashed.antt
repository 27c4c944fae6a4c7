-- ===== src/Simulator/Hashed.antt =====
-- What simulator/app/store.py keeps of the one-time tokens that `issue_credentials` makes.
use found_roll.Prelude.{
  ℕ, ◌+◌, String, ◌≡◌, refl, inl, inr, some, Result, ok, err, Error, and_then, put, raised,
  returned, Option-cases, Result-cases,
}
use found_roll.Simulator.{FixtureStore, StoreResponse, isoformat, ByRole, tokens_issued}
use found_roll.Simulator.Requests.{CredentialIssueRequest, issue_json}
use found_roll.Simulator.Codec.{Codec, derive_credentials}
use found_roll.Simulator.Store.{advance_reservation, expire_locked, idempotency_record}
use found_roll.Simulator.Credentials.{
  check_credential_request, issued_reservation, issued_row, issue_credentials, issue_new,
  issue_scope,
}

module _ ⦃x : Codec⦄ where
  -- The store that a call for credentials leaves is the same for all secrets whose tokens have the same
  -- hashes: what it keeps of the tokens is a function of their hashes.
  pub record StoresHashes (id : String) (run : String → Result StoreResponse × FixtureStore)
      : Type 0 where
    pub generation : ℕ
    pub expires_at : ℕ
    pub stored : ByRole String → FixtureStore
    pub same :
        (secret : String)
        → let tokens = derive_credentials secret id generation expires_at in
          (run secret).1
          ≡ stored (record {
            of_custodian = x.sha256_text tokens.custodian_token;
            of_claimant = x.sha256_text tokens.claimant_token;
          })

  untouched : (id : String) (s : FixtureStore) (e : Error) → StoresHashes id (λ secret. (err e, s))
  untouched id s e = record {
    generation = 0;
    expires_at = 0;
    stored = λ hashes. s;
    same = λ secret. refl;
  }

  issue_new-StoresHashes :
      (id : String) (request : CredentialIssueRequest) (now : ℕ) (t : FixtureStore)
      → StoresHashes id (λ secret. issue_new id request secret now t)
  unfolding issue_new issued_reservation
  issue_new-StoresHashes id request now t =
      elim (Result-cases (check_credential_request t id request now)) [
        | raised e p ↦ record {
          generation = 0;
          expires_at = 0;
          stored = λ hashes. t;
          same = λ secret. rw p refl;
        }
        | returned (q, expiry) p ↦
            let kept = λ (hashes : ByRole String).
              advance_reservation
                (record q {
                  token_hashes = record {
                    of_custodian = some hashes.of_custodian;
                    of_claimant = some hashes.of_claimant;
                  };
                  token_expires_at = some (isoformat expiry);
                })
                tokens_issued "SIMULATED_CREDENTIALS_ISSUED" request.bound.actor
                request.bound.reason request.bound.evidence_refs request.bound.idempotency_key
                now in
            record {
              generation = q.version + 1;
              expires_at = isoformat expiry;
              stored = λ hashes. record t {
                reservations = put t.reservations id (kept hashes);
                idempotency_records =
                    put t.idempotency_records (issue_scope request)
                      (issued_row id request (kept hashes) (q.version + 1) (isoformat expiry));
              };
              same = λ secret. rw p refl;
            }
      ]

  swept-StoresHashes :
      (id : String) (request : CredentialIssueRequest) (now : ℕ)
      (swept : Result (Unit {0}) × FixtureStore)
      → StoresHashes id
          (λ secret. and_then swept (λ _ current. issue_new id request secret now current))
  swept-StoresHashes id request now (ok u, t) = issue_new-StoresHashes id request now t
  swept-StoresHashes id request now (err e, t) = untouched id t e

  pub issue-StoresHashes :
      (id : String) (request : CredentialIssueRequest) (now : ℕ) (s : FixtureStore)
      → StoresHashes id (λ secret. issue_credentials id request secret now s)
  unfolding issue_credentials
  issue-StoresHashes id request now s =
      elim (Result-cases (idempotency_record s (issue_scope request) (issue_json request))) [
        | raised e p ↦ rw p (untouched id s e)
        | returned found p ↦ elim (Option-cases found) [
          | inr (row, q) ↦ record {
            generation = 0;
            expires_at = 0;
            stored = λ hashes. s;
            same = λ secret. rw (p, q) refl;
          }
          | inl unknown ↦
              let w = swept-StoresHashes id request now (expire_locked now s) in
              record {
                generation = w.generation;
                expires_at = w.expires_at;
                stored = w.stored;
                same = λ secret. rw (p, unknown) (w.same secret);
              }
        ]
      ]
