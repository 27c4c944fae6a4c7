-- ===== src/Service/Manifest/Verified.antt =====
-- `verify_event_chain` of service/app/custody_service.py against the logs of the repository.
use found_roll.Prelude.{
  ℕ, ◌+◌, String, ◌≡◌, inl, inr, true, some, List, [], ◌∷◌, ok, get, length, arith, eq_iff, on_some,
  Option-cases, Result-cases, returned, raised,
}
use found_roll.Prelude.Json.{Hashing}
use found_roll.Domain.{CaseRecord, CustodyState, EventRecord, received}
use found_roll.Repository.{Repo}
use found_roll.Repository.Events.{unsigned_json}
use found_roll.Repository.Commit.{zero_hash}
use found_roll.Repository.Chain.{Linked, History, CaseIsLogged}
use found_roll.Repository.Chain.Commands.{Consistent}
use found_roll.Repository.Chain.Methods.{Reachable, Reachable-Consistent}
use found_roll.Service.Manifest.{verify_events, verify_event_chain}

-- the log of a case, empty where there is none
abbrev pub events_of : Repo → String → List EventRecord
events_of repo k = on_some (get repo.events k) (λ events. events) []

module _ ⦃h : Hashing⦄ where
  -- The events from number `n` on, after the hash `prev`: each has its number, the hash of the one
  -- before and the hash of its own contents. The last hash is `final`.
  abbrev pub HashLinked : ℕ → String → List EventRecord → String → Type 0
  HashLinked n prev [] final = final ≡ prev
  HashLinked n prev (e ∷ es) final =
      (e.sequence ≡ n)
      × (e.previous_hash ≡ prev)
      × (e.event_hash ≡ h.sha256_json (unsigned_json e.unsigned))
      × HashLinked (n + 1) e.event_hash es final

  verify_events_complete :
      (n : ℕ) (prev : String) (es : List EventRecord) (final : String)
      → HashLinked n prev es final
      → verify_events n prev es ≡ ok final
  unfolding verify_events
  verify_events_complete n prev [] final l = rw l
  verify_events_complete n prev (e ∷ es) final l = ground (
    arith,
    eq_iff e.previous_hash prev,
    eq_iff (h.sha256_json (unsigned_json e.unsigned)) e.event_hash,
    verify_events_complete (n + 1) e.event_hash es final l.3,
  )

  verify_events_sound :
      (n : ℕ) (prev : String) (es : List EventRecord) (final : String)
      → verify_events n prev es ≡ ok final
      → HashLinked n prev es final
  unfolding verify_events
  verify_events_sound n prev [] final v = ground arith
  verify_events_sound n prev (e ∷ es) final v = (
    ground arith,
    ground (arith, eq_iff e.previous_hash prev),
    ground (arith, eq_iff (h.sha256_json (unsigned_json e.unsigned)) e.event_hash),
    verify_events_sound (n + 1) e.event_hash es final (ground arith),
  )

  pub Linked-HashLinked :
      (n : ℕ) (prev : String) (st : CustodyState) (es : List EventRecord) (c : CaseRecord)
      → Linked n prev st es c
      → HashLinked (n + 1) prev es c.last_event_hash × (c.last_event_sequence ≡ n + length es)
  Linked-HashLinked n prev st [] c l = (l.1, omega (arith, l.0))
  Linked-HashLinked n prev st (e ∷ es) c l =
      let (links, count) = Linked-HashLinked (n + 1) e.event_hash e.to_state es c l.5 in
      ((l.0, l.1, l.2, links), omega (arith, count))

  pub History-HashLinked :
      (es : List EventRecord) (c : CaseRecord)
      → History es c
      → HashLinked 1 zero_hash es c.last_event_hash × (c.last_event_sequence ≡ length es)
  History-HashLinked [] c l = absurd l
  History-HashLinked (e ∷ es) c l =
      let (links, count) = Linked-HashLinked 1 e.event_hash received es c l.4 in
      ((l.0, l.1, l.2, links), omega (arith, count))

  logged_verifies :
      (repo : Repo) (k : String) (c : CaseRecord)
      → get repo.cases k ≡ some c
      → CaseIsLogged k c (get repo.events k)
      → verify_event_chain repo k ≡ ok true
  unfolding verify_event_chain
  logged_verifies repo k c found l =
      let (links, count) = History-HashLinked l.events c l.history in
      ground (
        arith,
        l.logged,
        verify_events_complete 1 zero_hash l.events c.last_event_hash links,
        eq_iff c.last_event_hash c.last_event_hash,
      )

  -- in every repository whose logs are kept
  pub verify_event_chain-Consistent :
      (repo : Repo) (k : String) (c : CaseRecord)
      → Consistent repo
      → get repo.cases k ≡ some c
      → verify_event_chain repo k ≡ ok true
  verify_event_chain-Consistent repo k c s found = logged_verifies repo k c found (s.at k c found)

  -- In every repository that calls of the methods can reach, whether they returned or raised,
  -- `verify_event_chain` of every case returns True.
  pub verify_event_chain-Reachable :
      {repo : Repo} (k : String) (c : CaseRecord)
      → Reachable repo
      → get repo.cases k ≡ some c
      → verify_event_chain repo k ≡ ok true
  verify_event_chain-Reachable {repo} k c r found =
      verify_event_chain-Consistent repo k c (Reachable-Consistent r) found

  -- What a log that verifies is: the case points to the end of its linked events.
  pub record IsVerified (repo : Repo) (k : String) : Type 0 where
    pub case : CaseRecord
    pub found : get repo.cases k ≡ some case
    pub linked : HashLinked 1 zero_hash (events_of repo k) case.last_event_hash
    pub counted : case.last_event_sequence ≡ length (events_of repo k)

  -- If `verify_event_chain` accepts a case of any repository, the log is linked as stored: every
  -- event carries the hash of its own contents and of the event before, and the case points to the
  -- end of the log. So a log in which one of these fails is refused.
  pub verify_event_chain_sound :
      (repo : Repo) (k : String) → verify_event_chain repo k ≡ ok true → IsVerified repo k
  unfolding verify_event_chain
  verify_event_chain_sound repo k v = elim (Option-cases (get repo.cases k)) [
    | inl missing ↦ absurd (ground arith)
    | inr (c, found) ↦ elim (Result-cases (verify_events 1 zero_hash (events_of repo k))) [
      | raised e p ↦ absurd (ground arith)
      | returned last p ↦
          let same : c.last_event_hash ≡ last = ground (arith, eq_iff c.last_event_hash last) in
          record {
            case = c;
            found = found;
            linked = rw same (verify_events_sound 1 zero_hash (events_of repo k) last p);
            counted = ground arith;
          }
    ]
  ]
