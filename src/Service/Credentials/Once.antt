-- ===== src/Service/Credentials/Once.antt =====
-- When `issue_tokens` of service/app/custody_service.py issues credentials, and for how long.
use found_roll.Prelude.{
  ℕ, ◌+◌, ◌<◌, ◌≤◌, String, ◌≡◌, refl, ◌∙◌, sym, subst, ap, some, none, true, false, ok, err, Error,
  Result, get, get-put, on_some, arith, eq_refl, Option-cases, inl, inr, Result-cases, returned,
  raised, ◌<>◌, and_then-eq-ok, some_inj, none≢some,
}
use mathlib.Core.Bool.{true≢false}
use found_roll.Prelude.Json.{Hashing}
use found_roll.Domain.{AppliedMutation, CaseRecord, HandoffRecord}
use found_roll.Repository.{Repo}
use found_roll.Repository.Events.{apply_updates, next_case}
use found_roll.Repository.Commit.{apply_mutation, get_case, put_handoff}
use found_roll.Repository.Commit.Inversion.{replay, commit, apply_mutation-Returned}
use found_roll.Repository.Commit.Retries.{commit_mutation-Committed}
use found_roll.Service.{Settings}
use found_roll.Service.Credentials.{
  IssuedAnswer, IssuedCredentials, check_issuable, check_issued, issue_spec, issue_tokens,
  issued_handoff, requested_expiry, ten_minutes,
}

requested_expiry_le :
    (handoff : HandoffRecord) (now : ℕ) → requested_expiry handoff now ≤ now + ten_minutes
unfolding requested_expiry
requested_expiry_le handoff now = ground arith

within_handoff :
    (handoff : HandoffRecord) (now t : ℕ)
    → t ≤ requested_expiry handoff now
    → on_some handoff.expires_at (λ end. t ≤ end) Unit
unfolding requested_expiry
within_handoff handoff now t le = elim (Option-cases handoff.expires_at) [
  | inl never ↦ rw never tt
  | inr (end, p) ↦ rw p (ground (arith, le, p))
]

module _ ⦃h : Hashing⦄ where
  -- A call that returned has passed its checks, and its command has returned.
  pub record IsIssued (repo after : Repo) (settings : Settings) (k : String) (version : ℕ)
      (key : String) (now : ℕ) (a : IssuedAnswer) : Type 0 where
    pub case : CaseRecord
    pub found : get repo.cases k ≡ some case
    pub handoff : HandoffRecord
    pub issuable : check_issuable repo case version ≡ ok handoff
    pub issued : IssuedCredentials
    pub later : now < issued.expires_at
    pub bounded : issued.expires_at ≤ requested_expiry handoff now
    pub expiry : a.expires_at ≡ issued.expires_at
    pub result : AppliedMutation
    pub run :
        apply_mutation (issue_spec settings case k handoff issued key now) none none repo
        ≡ (ok result, after)

  check_issued_bounds :
      (answer : Result IssuedCredentials) (handoff : HandoffRecord) (now : ℕ)
      (issued : IssuedCredentials)
      → check_issued answer handoff now ≡ ok issued
      → (now < issued.expires_at) × (issued.expires_at ≤ requested_expiry handoff now)
  unfolding check_issued
  check_issued_bounds answer handoff now issued v = elim (Result-cases answer) [
    | raised e p ↦ absurd (ground arith)
    | returned i p ↦ (ground arith, ground arith)
  ]

  issue_tokens-IsIssued :
      (repo after : Repo) (settings : Settings) (k : String) (version : ℕ) (key : String) (now : ℕ)
      (answer : Result IssuedCredentials) (a : IssuedAnswer)
      → issue_tokens settings k version key now answer repo ≡ (ok a, after)
      → IsIssued repo after settings k version key now a
  unfolding issue_tokens get_case
  issue_tokens-IsIssued repo after settings k version key now answer a v =
      elim (Option-cases (get repo.cases k)) [
        | inl missing ↦ absurd (ground arith)
        | inr (c, found) ↦ elim (Result-cases (check_issuable repo c version)) [
          | raised e p ↦ absurd (ground arith)
          | returned hd p ↦ elim (Result-cases (check_issued answer hd now)) [
            | raised e q ↦ absurd (ground arith)
            | returned issued q ↦
                let (r, m, run, rest) =
                  and_then-eq-ok
                    (apply_mutation (issue_spec settings c k hd issued key now) none none repo) _
                    (rw (found, p, q) at v) in
                let (later, bounded) = check_issued_bounds answer hd now issued q in
                elim (Option-cases (get m.cases k)) [
                  | inl lost ↦ absurd (ground (arith, rest, lost))
                  | inr (u, kept) ↦ record {
                    case = c;
                    found = found;
                    handoff = hd;
                    issuable = p;
                    issued = issued;
                    later = later;
                    bounded = bounded;
                    expiry = ground (arith, rest, kept);
                    result = r;
                    run =
                        subst
                          (λ (x : Repo).
                            apply_mutation (issue_spec settings c k hd issued key now) none none
                              repo
                            ≡ (ok r, x))
                          (ap (λ x. x.1) rest) run;
                  }
                ]
          ]
        ]
      ]

  -- the handoff that passed the checks
  issuable_handoff :
      (repo : Repo) (c : CaseRecord) (version : ℕ) (x handoff : HandoffRecord) (id : String)
      → check_issuable repo c version ≡ ok x
      → c.handoff_id ≡ some id
      → get repo.handoffs id ≡ some handoff
      → (x ≡ handoff) × (handoff.tokens_issued ≡ false)
  unfolding check_issuable
  issuable_handoff repo c version x handoff id v ref stored =
      (ground (arith, ref, stored), ground (arith, ref, stored))

  -- Issued credentials expire after the moment of issue, and no later than ten minutes on, nor later
  -- than the handoff of the case if that expires.
  pub issued_expiry :
      (repo after : Repo) (settings : Settings) (k : String) (version : ℕ) (key : String) (now : ℕ)
      (answer : Result IssuedCredentials) (a : IssuedAnswer) (c : CaseRecord) (id : String)
      (handoff : HandoffRecord)
      → get repo.cases k ≡ some c
      → c.handoff_id ≡ some id
      → get repo.handoffs id ≡ some handoff
      → issue_tokens settings k version key now answer repo ≡ (ok a, after)
      → (now < a.expires_at)
        × (a.expires_at ≤ now + ten_minutes)
        × on_some handoff.expires_at (λ end. a.expires_at ≤ end) Unit
  unfolding requested_expiry
  issued_expiry repo after settings k version key now answer a c id handoff found ref stored v =
      let w = issue_tokens-IsIssued repo after settings k version key now answer a v in
      let same_case : w.case ≡ c = some_inj (sym w.found ∙ found) in
      let same : w.handoff ≡ handoff =
        (issuable_handoff repo c version w.handoff handoff id
          (subst (λ x. check_issuable repo x version ≡ ok w.handoff) same_case w.issuable) ref
          stored).0 in
      let bounded : a.expires_at ≤ requested_expiry handoff now =
        subst (λ x. a.expires_at ≤ requested_expiry x now) same
          (subst (λ t. t ≤ requested_expiry w.handoff now) (sym w.expiry) w.bounded) in
      (
        rw w.expiry w.later,
        omega (arith, bounded, requested_expiry_le handoff now),
        within_handoff handoff now a.expires_at bounded,
      )

  issued_case :
      (repo after : Repo) (settings : Settings) (k key : String) (now : ℕ) (c : CaseRecord)
      (id : String) (handoff : HandoffRecord) (issued : IssuedCredentials) (r : AppliedMutation)
      → get repo.idempotency ("case:" <> k <> ":tokens:" <> key) ≡ none
      → get repo.cases k ≡ some c
      → c.id ≡ k
      → c.handoff_id ≡ some id
      → handoff.id ≡ id
      → apply_mutation (issue_spec settings c k handoff issued key now) none none repo
        ≡ (ok r, after)
      → (u : CaseRecord) × (get after.cases k ≡ some u)
        × (u.handoff_id ≡ some id)
        × (get after.handoffs id ≡ some (issued_handoff settings handoff issued))
  unfolding issue_spec issued_handoff put_handoff next_case apply_updates
  issued_case repo after settings k key now c id handoff issued r unknown found own ref key_id run =
      elim (apply_mutation-Returned repo (issue_spec settings c k handoff issued key now) none none
        r after run).1 [
          | replay known q x y ↦ absurd (none≢some (sym unknown ∙ q))
          | commit u e q valid done ↦
              let spec = issue_spec settings c k handoff issued key now in
              let left = commit_mutation-Committed repo spec u e r after done in
              let same : valid.current ≡ c =
                some_inj
                  (sym valid.found ∙ subst (λ i. get repo.cases i ≡ some c) (sym own) found) in
              (
                u,
                subst (λ i. get after.cases i ≡ some u) own left.case,
                ap (λ (x : CaseRecord). x.handoff_id) valid.updated
                    ∙ (ap (λ (x : CaseRecord). x.handoff_id) same ∙ ref),
                rw (left.handoffs, key_id, get-put, (eq_refl id)) refl,
              )
        ]

  issued_refused :
      (repo : Repo) (u : CaseRecord) (version : ℕ) (handoff : HandoffRecord) (id : String)
      → u.handoff_id ≡ some id
      → get repo.handoffs id ≡ some handoff
      → handoff.tokens_issued ≡ true
      → (e : Error) × (check_issuable repo u version ≡ err e)
  issued_refused repo u version handoff id ref stored issued =
      elim (Result-cases (check_issuable repo u version)) [
        | raised e p ↦ (e, p)
        | returned x p ↦
            let w = issuable_handoff repo u version x handoff id p ref stored in
            absurd (true≢false (sym issued ∙ w.1))
      ]

  -- Credentials are issued once for a handoff: after a call that issued them under an idempotency key
  -- that was not known, every further call for the case raises and changes nothing, whatever version,
  -- key, time and relay answer it brings. The case and its handoff are stored under their own
  -- identifiers.
  pub issued_once :
      (repo after : Repo) (settings : Settings) (k : String) (version : ℕ) (key : String) (now : ℕ)
      (answer : Result IssuedCredentials) (a : IssuedAnswer) (c : CaseRecord) (id : String)
      (handoff : HandoffRecord) (version' : ℕ) (key' : String) (later : ℕ)
      (answer' : Result IssuedCredentials)
      → get repo.cases k ≡ some c
      → c.id ≡ k
      → c.handoff_id ≡ some id
      → get repo.handoffs id ≡ some handoff
      → handoff.id ≡ id
      → get repo.idempotency ("case:" <> k <> ":tokens:" <> key) ≡ none
      → issue_tokens settings k version key now answer repo ≡ (ok a, after)
      → (e : Error) × (issue_tokens settings k version' key' later answer' after ≡ (err e, after))
  unfolding issue_tokens get_case issued_handoff
  issued_once repo after settings k version key now answer a c id handoff version' key' later
        answer' found own ref stored key_id unknown v =
      let w = issue_tokens-IsIssued repo after settings k version key now answer a v in
      let same_case : w.case ≡ c = some_inj (sym w.found ∙ found) in
      let same : w.handoff ≡ handoff =
        (issuable_handoff repo c version w.handoff handoff id
          (subst (λ x. check_issuable repo x version ≡ ok w.handoff) same_case w.issuable) ref
          stored).0 in
      let (u, kept, points, marked) =
        issued_case repo after settings k key now w.case id w.handoff w.issued w.result unknown
          w.found (ap (λ (x : CaseRecord). x.id) same_case ∙ own)
          (ap (λ (x : CaseRecord). x.handoff_id) same_case ∙ ref)
          (ap (λ (x : HandoffRecord). x.id) same ∙ key_id) w.run in
      let (e, refuses) =
        issued_refused after u version' (issued_handoff settings w.handoff w.issued) id points
          marked refl in
      (e, rw (kept, refuses) refl)
