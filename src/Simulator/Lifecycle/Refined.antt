-- ===== src/Simulator/Lifecycle/Refined.antt =====
-- The store of simulator/app/store.py takes every reservation along the machine of the parent.
use found_roll.Prelude.{
  Dict, ℕ, String, ◌≡◌, refl, subst, none, raised, returned, get, get-nil, arith, Result-cases,
  none≢some,
}
use found_roll.Simulator.{FixtureStore, Reservation, held}
use found_roll.Simulator.Codec.{Codec}
use found_roll.Simulator.Store.{expired_reservation}
use found_roll.Simulator.Requests.{
  CredentialIssueRequest, ReservationBoundRequest, ReservationCreateRequest,
  TokenAttestationRequest,
}
use found_roll.Simulator.Fixture.{fixture}
use found_roll.Simulator.Reservations.{
  check_reservable, new_reservation, new_reservation_id, reserve_new,
}
use found_roll.Simulator.Credentials.{check_credential_request, issue_new, issued_reservation}
use found_roll.Simulator.Attestations.{
  attest_new, attested_reservation, check_attestable, new_attestation,
}
use found_roll.Simulator.Handoff.{check_finalizable, finalize_new, finalized_reservation}
use found_roll.Simulator.Consistency.Expiry.{Round, skipped, kept, lapsed}
use found_roll.Simulator.Consistency.Writes.{check_credential_request-ok}
use found_roll.Simulator.Consistency.Presentations.{
  check_attestable-ok, check_finalizable-ok, presentable,
}
use found_roll.Simulator.Frame.{Frame, Frame-Command}
use found_roll.Simulator.Calls.{
  Reachable, start, next, Call, reset, command, FixtureStore-Consistent,
}
use found_roll.Simulator.Lifecycle.{
  Implements, IsPhased, PhasedAt, Steps-append, attest_step, hold, issue, finalise, lapse_step,
  phase, phase_at, put-Implements, rest,
}

Implements-same : (d : Dict Reservation) → Implements d d
Implements-same d phased = (phased, λ id. rest)

module _ ⦃x : Codec⦄ where
  Round-Implements :
      (now : ℕ) (key : String) (s after : FixtureStore)
      → Round now key s after
      → Implements s.reservations after.reservations
  unfolding expired_reservation phase phase_at
  Round-Implements now key s after (skipped missing same) = rw same (Implements-same s.reservations)
  Round-Implements now key s after (kept r found stays same) =
      rw same (Implements-same s.reservations)
  Round-Implements now key s after (lapsed r i found stored ends same) = rw same (
      put-Implements s.reservations key (expired_reservation r now)
        (λ phased. (tt, rw found (lapse_step r.status r.attestations (ground (arith, ends))))))

  reserve-Implements :
      (request : ReservationCreateRequest) (now : ℕ) (s : FixtureStore)
      → get s.reservations (new_reservation_id request) ≡ none
      → Implements s.reservations (reserve_new request now s).1.reservations
  unfolding reserve_new new_reservation phase phase_at
  reserve-Implements request now s fresh = elim (Result-cases (check_reservable s request now)) [
    | raised e p ↦ rw p (Implements-same s.reservations)
    | returned (i, t) p ↦ rw p (
        put-Implements s.reservations (new_reservation_id request)
          (new_reservation request (new_reservation_id request) t now)
          (λ phased. ((refl, refl), rw fresh hold)))
  ]

  issue-Implements :
      (id : String) (request : CredentialIssueRequest) (secret : String) (now : ℕ)
      (s : FixtureStore)
      → Implements s.reservations (issue_new id request secret now s).1.reservations
  unfolding issue_new issued_reservation phase phase_at
  issue-Implements id request secret now s =
      elim (Result-cases (check_credential_request s id request now)) [
        | raised e p ↦ rw p (Implements-same s.reservations)
        | returned (r, t) p ↦
            let (found, was) = check_credential_request-ok s id request now r t p in
            rw p (
              put-Implements s.reservations id _ (λ phased.
                let h : PhasedAt held r.attestations =
                  subst (λ u. PhasedAt u r.attestations) was (phased id r found) in
                (h, rw (found, was) issue)))
      ]

  attest-Implements :
      (id : String) (request : TokenAttestationRequest) (now : ℕ) (s : FixtureStore)
      → Implements s.reservations (attest_new id request now s).1.reservations
  unfolding attest_new attested_reservation phase
  attest-Implements id request now s = elim (Result-cases (check_attestable s id request now)) [
    | raised e p ↦ rw p (Implements-same s.reservations)
    | returned r p ↦
        let (found, passed) = check_attestable-ok s id request now r p in
        let (is_open, fresh, in_time) = presentable r request now passed in
        rw p (
          put-Implements s.reservations id _ (λ phased. rw found (
            attest_step r.status r.attestations request.role (new_attestation id request now)
              (phased id r found) is_open fresh)))
  ]

  finalize-Implements :
      (id : String) (request : ReservationBoundRequest) (secret : String) (now : ℕ)
      (s : FixtureStore)
      → Implements s.reservations (finalize_new id request secret now s).1.reservations
  unfolding finalize_new finalized_reservation phase phase_at
  finalize-Implements id request secret now s =
      elim (Result-cases (check_finalizable s id request now)) [
        | raised e p ↦ rw p (Implements-same s.reservations)
        | returned (r, i) p ↦
            let (found, stored, was, holds, mine) = check_finalizable-ok s id request now r i p in
            rw p (put-Implements s.reservations id _ (λ phased. (tt, rw (found, was) finalise)))
      ]

  abbrev StoreImplements : FixtureStore → FixtureStore → Type 0
  StoreImplements s after = Implements s.reservations after.reservations

  implements : Frame StoreImplements
  implements = record {
    same = λ s. Implements-same s.reservations;
    chain = λ s t u f g phased.
        let (phased_t, st) = f phased in
        let (phased_u, tu) = g phased_t in (phased_u, λ id. Steps-append (st id) (tu id));
    round = λ now key s after c w. Round-Implements now key s after w;
    reserve = λ request now s c fresh. reserve-Implements request now s fresh;
    issue = λ id request secret now s c. issue-Implements id request secret now s;
    attest = λ id request now s c. attest-Implements id request now s;
    finalize = λ id request secret now s c. finalize-Implements id request secret now s;
  }

  fixture-IsPhased : IsPhased fixture.reservations
  unfolding fixture
  fixture-IsPhased id r p = absurd (none≢some (rw get-nil at p))

  Call-IsPhased :
      (s after : FixtureStore)
      → Reachable s
      → IsPhased s.reservations
      → Call s after
      → IsPhased after.reservations
  Call-IsPhased s after reach phased reset = fixture-IsPhased
  Call-IsPhased s after reach phased (command call) =
      (Frame-Command StoreImplements implements s after (FixtureStore-Consistent s reach) call
        phased).0

  pub Reachable-IsPhased : (s : FixtureStore) → Reachable s → IsPhased s.reservations
  Reachable-IsPhased s start = fixture-IsPhased
  Reachable-IsPhased s (next {s = before} r call) =
      Call-IsPhased before s r (Reachable-IsPhased before r) call
