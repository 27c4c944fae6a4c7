-- ===== src/Repository/Tokens/Laws.antt =====
-- One-time handoff credentials of service/app/repository.py: a credential is presented once.
use mathlib.Core.Bool.{true≢false}
use found_roll.Prelude.{
  ℕ, String, ◌≡◌, refl, sym, ◌∙◌, ap, inl, inr, false, Option, some, none, ok, err, conflict, get,
  put, get-put, Option-cases, Result-cases, returned, raised, arith, eq_iff, and_then-eq-ok,
}
use found_roll.Prelude.Json.{Hashing}
use found_roll.Domain.{
  AppliedMutation, CustodyState, HandoffRecord, TokenPurpose, TokenRecord, state_eq,
}
use found_roll.Repository.{Repo}
use found_roll.Repository.Commit.{replay_mutation, apply_mutation}
use found_roll.Repository.Commit.Retries.{replay_mutation-duplicate}
use found_roll.Repository.Tokens.{
  consume_token, check_token, present, presentation_spec, attested_handoff,
}

-- A call that consumed a credential: it was valid, and its used copy is stored.
pub record Presented (case_id handoff_id token_hash : String) (purpose : TokenPurpose) (t : ℕ)
    (after : Repo) : Type 0 where
  pub token : TokenRecord
  pub stored : get after.tokens token_hash ≡ some token
  pub of_case : token.case_id ≡ case_id
  pub of_handoff : token.handoff_id ≡ handoff_id
  pub of_purpose : token.purpose ≡ purpose
  pub used : token.used_at ≡ some t

check_token-ok :
    (repo : Repo) (case_id handoff_id token_hash : String) (purpose : TokenPurpose) (t : ℕ)
    (token : TokenRecord) (handoff : HandoffRecord)
    → check_token repo case_id handoff_id token_hash purpose t ≡ ok (token, handoff)
    → (token.case_id ≡ case_id)
      × (token.handoff_id ≡ handoff_id)
      × (token.purpose ≡ purpose)
      × (token.used_at ≡ none)
unfolding check_token
check_token-ok repo case_id handoff_id token_hash purpose t token handoff v =
    elim (Option-cases (get repo.tokens token_hash)) [
      | inl missing ↦ absurd (ground arith)
      | inr (found, stored) ↦
          let same : found ≡ token = ground arith in
          (
            ground (arith, eq_iff token.case_id case_id, eq_iff found.case_id case_id),
            ground (arith, eq_iff token.handoff_id handoff_id, eq_iff found.handoff_id handoff_id),
            ground arith,
            ground arith,
          )
    ]

check_token-used :
    (repo : Repo) (case_id handoff_id token_hash : String) (purpose : TokenPurpose) (t later : ℕ)
    → Presented case_id handoff_id token_hash purpose t repo
    → check_token repo case_id handoff_id token_hash purpose later ≡ err (conflict "token_replayed")
unfolding check_token
check_token-used repo case_id handoff_id token_hash purpose t later p = ground (
  arith,
  p.stored,
  p.of_case,
  p.of_handoff,
  p.of_purpose,
  p.used,
  eq_iff p.token.case_id case_id,
  eq_iff p.token.handoff_id handoff_id,
)

module _ ⦃h : Hashing⦄ where
  present-Presented :
      (repo after : Repo) (case_id handoff_id token_hash : String) (purpose : TokenPurpose)
      (version : ℕ) (target : CustodyState) (actor key fingerprint : String) (t : ℕ)
      (etag : Option String) (remote : Option ℕ) (token : TokenRecord) (handoff : HandoffRecord)
      (r : AppliedMutation)
      → present case_id token_hash purpose version target actor key fingerprint t etag remote token
          handoff repo
        ≡ (ok r, after)
      → token.case_id ≡ case_id
      → token.handoff_id ≡ handoff_id
      → token.purpose ≡ purpose
      → Presented case_id handoff_id token_hash purpose t after
  unfolding present
  present-Presented repo after case_id handoff_id token_hash purpose version target actor key
        fingerprint t etag remote token handoff r v a b c =
      elim (Option-cases (get repo.cases case_id)) [
        | inl missing ↦ absurd (ground arith)
        | inr (case, found) ↦
            let used : TokenRecord = record token { used_at = some t } in
            let spec =
              presentation_spec case_id purpose version target actor key fingerprint t
                (attested_handoff handoff purpose t etag remote) (state_eq target case.state) in
            let (result, before, applied, final) =
              and_then-eq-ok (apply_mutation spec none none repo)
                (λ (x : AppliedMutation) (s : Repo).
                  (ok x, record s { tokens = put s.tokens token_hash used }))
                (rw found at v) in
            record {
              token = used;
              stored = ground (
                arith,
                final,
                get-put before.tokens token_hash token_hash used,
                eq_iff token_hash token_hash,
              );
              of_case = a;
              of_handoff = b;
              of_purpose = c;
              used = refl;
            }
      ]

  consume-Presented :
      (repo after : Repo) (case_id handoff_id token_hash : String) (purpose : TokenPurpose)
      (version : ℕ) (target : CustodyState) (actor key fingerprint : String) (t : ℕ)
      (etag : Option String) (remote : Option ℕ) (r : AppliedMutation)
      → consume_token case_id handoff_id token_hash purpose version target actor key fingerprint t
          etag remote repo
        ≡ (ok r, after)
      → r.duplicate ≡ false
      → Presented case_id handoff_id token_hash purpose t after
  unfolding consume_token
  consume-Presented repo after case_id handoff_id token_hash purpose version target actor key
        fingerprint t etag remote r v new =
      elim (Option-cases (get repo.idempotency key)) [
        | inr (old, known) ↦
            let w : replay_mutation repo case_id fingerprint old ≡ ok r = ground arith in
            absurd (
              true≢false (
                sym (
                  ap (λ (x : AppliedMutation). x.duplicate)
                    (replay_mutation-duplicate repo case_id fingerprint old r w))
                ∙ new))
        | inl unknown ↦
            elim (Result-cases (check_token repo case_id handoff_id token_hash purpose t)) [
              | raised e p ↦ absurd (ground arith)
              | returned (token, handoff) p ↦
                  let (a, b, c, fresh) =
                    check_token-ok repo case_id handoff_id token_hash purpose t token handoff p in
                  present-Presented repo after case_id handoff_id token_hash purpose version target
                    actor key fingerprint t etag remote token handoff r (rw (unknown, p) at v) a b c
            ]
      ]

  -- A credential is presented once: after a call that consumed it with a new command, every further
  -- presentation of it for the same handoff and role, under an idempotency key that is not known, is
  -- refused as "token_replayed" and changes nothing.
  pub token_once :
      (repo after : Repo) (case_id handoff_id token_hash : String) (purpose : TokenPurpose)
      (version version' : ℕ) (target target' : CustodyState)
      (actor actor' key key' fingerprint fingerprint' : String) (t later : ℕ)
      (etag etag' : Option String) (remote remote' : Option ℕ) (r : AppliedMutation)
      → consume_token case_id handoff_id token_hash purpose version target actor key fingerprint t
          etag remote repo
        ≡ (ok r, after)
      → r.duplicate ≡ false
      → get after.idempotency key' ≡ none
      → consume_token case_id handoff_id token_hash purpose version' target' actor' key'
          fingerprint' later etag' remote' after
        ≡ (err (conflict "token_replayed"), after)
  unfolding consume_token
  token_once repo after case_id handoff_id token_hash purpose version version' target target' actor
        actor' key key' fingerprint fingerprint' t later etag etag' remote remote' r v new unknown =
      let p =
        consume-Presented repo after case_id handoff_id token_hash purpose version target actor key
          fingerprint t etag remote r v new in
      rw (unknown, check_token-used after case_id handoff_id token_hash purpose t later p)
