-- ===== src/Repository/Chain.antt =====
-- The invariant of service/app/repository.py that the hash-linked event log rests on: every case
-- has the log of its own history, and points to the end of it.
pub mod Commands
pub mod Kept
pub mod Methods
pub mod Gates
use mathlib.Core.List.{append-nil, append_assoc}
use found_roll.Prelude.{
  ℕ, ◌+◌, String, ◌≡◌, refl, sym, subst, ap, ◌∙◌, ◌⊎◌, inl, inr, Bool, true, false, Option, some,
  none, List, [], ◌∷◌, ◌++◌, ok, get, put, get-put, Dict, arith, eq_iff, Bool-cases, ◌==◌,
  if◌then◌else◌, All, All-append, some_inj, none≢some, pop, get-pop,
}
use found_roll.Prelude.Json.{Hashing}
use found_roll.Domain.{CaseRecord, CustodyState, EventRecord, received}
use found_roll.StateMachine.{assert_transition}
use found_roll.Repository.Events.{unsigned_json}
use found_roll.Repository.Commit.{zero_hash}

module _ ⦃h : Hashing⦄ where
  -- The event `e` takes the case `c` to `c'`.
  pub record Follows (c : CaseRecord) (e : EventRecord) (c' : CaseRecord) : Type 0 where
    pub same_id : c'.id ≡ c.id
    pub next_version : c'.version ≡ c.version + 1
    pub sequence : e.sequence ≡ c.last_event_sequence + 1
    pub owner : e.case_id ≡ c.id
    pub previous : e.previous_hash ≡ c.last_event_hash
    pub hashed : e.event_hash ≡ h.sha256_json (unsigned_json e.unsigned)
    pub from : e.from_state ≡ c.state
    pub admitted : assert_transition e.from_state e.to_state true ≡ ok tt
    pub pointer : c'.last_event_sequence ≡ e.sequence
    pub pointer_hash : c'.last_event_hash ≡ e.event_hash
    pub to : c'.state ≡ e.to_state

  -- The same for some events, one after the other.
  pub data Extends : CaseRecord → List EventRecord → CaseRecord → Type 0 where
    done : {c : CaseRecord} → Extends c [] c
    more :
        {a b c : CaseRecord} {e : EventRecord} {es : List EventRecord}
        → Follows a e b
        → Extends b es c
        → Extends a (e ∷ es) c

  -- The events from number `n` on, after the hash `prev` and the state `st`, end where the case
  -- points.
  abbrev pub Linked : ℕ → String → CustodyState → List EventRecord → CaseRecord → Type 0
  Linked n prev st [] c = (c.last_event_sequence ≡ n) × (c.last_event_hash ≡ prev) × (c.state ≡ st)
  Linked n prev st (e ∷ es) c =
      (e.sequence ≡ n + 1)
      × (e.previous_hash ≡ prev)
      × (e.event_hash ≡ h.sha256_json (unsigned_json e.unsigned))
      × (e.from_state ≡ st)
      × (assert_transition e.from_state e.to_state true ≡ ok tt)
      × Linked (n + 1) e.event_hash e.to_state es c

  -- A whole log: its first event creates the case in RECEIVED.
  abbrev pub History : List EventRecord → CaseRecord → Type 0
  History [] c = ⊥
  History (e ∷ es) c =
      (e.sequence ≡ 1)
      × (e.previous_hash ≡ zero_hash)
      × (e.event_hash ≡ h.sha256_json (unsigned_json e.unsigned))
      × (e.to_state ≡ received)
      × Linked 1 e.event_hash received es c

  Linked-step :
      (n : ℕ) (prev : String) (st : CustodyState) (es : List EventRecord) {c c' : CaseRecord}
      {e : EventRecord}
      → Linked n prev st es c
      → Follows c e c'
      → Linked n prev st (es ++ e ∷ []) c'
  Linked-step n prev st [] l f = (
    f.sequence ∙ ap (λ (k : ℕ). k + 1) l.0,
    f.previous ∙ l.1,
    f.hashed,
    f.from ∙ l.2,
    f.admitted,
    (f.pointer ∙ (f.sequence ∙ ap (λ (k : ℕ). k + 1) l.0), f.pointer_hash, f.to),
  )
  Linked-step n prev st (x ∷ es) l f =
      (l.0, l.1, l.2, l.3, l.4, Linked-step (n + 1) x.event_hash x.to_state es l.5 f)

  History-step :
      (es : List EventRecord) {c c' : CaseRecord} {e : EventRecord}
      → History es c
      → Follows c e c'
      → History (es ++ e ∷ []) c'
  History-step [] l f = absurd l
  History-step (x ∷ es) l f = (l.0, l.1, l.2, l.3, Linked-step 1 x.event_hash received es l.4 f)

  -- What is true of the case `c` under the key `k`, whose log is looked up as `log`.
  pub record CaseIsLogged (k : String) (c : CaseRecord) (log : Option (List EventRecord))
      : Type 0 where
    pub own_id : c.id ≡ k
    pub counted : c.version ≡ c.last_event_sequence
    pub events : List EventRecord
    pub logged : log ≡ some events
    pub owned : All (λ (e : EventRecord). e.case_id ≡ k) events
    pub history : History events c

  pub record IsConsistent (cases : Dict CaseRecord) (logs : Dict (List EventRecord)) : Type 0 where
    pub at : (k : String) (c : CaseRecord) → get cases k ≡ some c → CaseIsLogged k c (get logs k)

  step-CaseIsLogged :
      {k : String} {c c' : CaseRecord} {e : EventRecord} {es : List EventRecord}
      → CaseIsLogged k c (some es)
      → Follows c e c'
      → CaseIsLogged k c' (some (es ++ e ∷ []))
  step-CaseIsLogged {k} {c} {c'} {e} {es} l f =
      let p : l.events ≡ es = some_inj (sym l.logged) in
      record {
        own_id = f.same_id ∙ l.own_id;
        counted = omega (arith, f.next_version, l.counted, f.pointer, f.sequence);
        events = es ++ e ∷ [];
        logged = refl;
        owned =
            All-append (λ (x : EventRecord). x.case_id ≡ k) es (e ∷ [])
              (subst (λ xs. All (λ (x : EventRecord). x.case_id ≡ k) xs) p l.owned)
              (f.owner ∙ l.own_id, tt);
        history = History-step es (subst (λ xs. History xs c) p l.history) f;
      }

  extend-CaseIsLogged :
      {k : String} {c c' : CaseRecord} (es : List EventRecord) {new : List EventRecord}
      → CaseIsLogged k c (some es)
      → Extends c new c'
      → CaseIsLogged k c' (some (es ++ new))
  extend-CaseIsLogged es l done = rw append-nil l
  extend-CaseIsLogged {k} {c' = d} es l (more {e} {es = rest} f x) =
      subst (λ xs. CaseIsLogged k d (some xs)) (append_assoc es (e ∷ []) rest)
        (extend-CaseIsLogged (es ++ e ∷ []) (step-CaseIsLogged l f) x)

  -- A case with a log of its own is put under its key, whatever was there.
  pub start-IsConsistent :
      {cases : Dict CaseRecord} {logs : Dict (List EventRecord)} (k : String) (c : CaseRecord)
      (es : List EventRecord)
      → IsConsistent cases logs
      → CaseIsLogged k c (some es)
      → IsConsistent (put cases k c) (put logs k es)
  start-IsConsistent {cases} {logs} k c es s l = record {
    at = λ j d e. elim (Bool-cases (k == j)) [
      | inl p ↦
          rw (get-put, p)
            (subst (λ i. CaseIsLogged i d (some es)) ((eq_iff k j).0 p)
              (subst (λ b. CaseIsLogged k b (some es)) (some_inj (rw (get-put, p) at e)) l))
      | inr q ↦ rw (get-put, q) (s.at j d (rw (get-put, q) at e))
    ];
  }

  -- The case under `k` takes some events, and all else stays.
  pub extend-IsConsistent :
      {cases : Dict CaseRecord} {logs : Dict (List EventRecord)} (k : String) (c c' : CaseRecord)
      (es new : List EventRecord)
      → IsConsistent cases logs
      → get cases k ≡ some c
      → get logs k ≡ some es
      → Extends c new c'
      → IsConsistent (put cases k c') (put logs k (es ++ new))
  extend-IsConsistent k c c' es new s found log x =
      start-IsConsistent k c' (es ++ new) s
        (extend-CaseIsLogged es (subst (CaseIsLogged k c) log (s.at k c found)) x)

  -- A case and its log are dropped together.
  pub drop-IsConsistent :
      {cases : Dict CaseRecord} {logs : Dict (List EventRecord)} (k : String)
      → IsConsistent cases logs
      → IsConsistent (pop cases k) (pop logs k)
  drop-IsConsistent {cases} {logs} k s = record {
    at = λ j d e. elim (Bool-cases (k == j)) [
      | inl p ↦ absurd (none≢some (rw (get-pop, p) at e))
      | inr q ↦ rw (get-pop, q) (s.at j d (rw (get-pop, q) at e))
    ];
  }
