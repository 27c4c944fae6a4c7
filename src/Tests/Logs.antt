-- ===== src/Tests/Logs.antt =====
-- The log of the pouch that was driven to CLOSED.
use found_roll.Prelude.{◌≡◌, refl, subst, sym, put, true, some, List, ok, get, on_some}
use found_roll.Domain.{CaseRecord, EventRecord, closed}
use found_roll.StateMachine.{assert_transition}
use found_roll.StateMachine.Paths.{at_closed, IsReleased}
use found_roll.Repository.{empty}
use found_roll.Repository.Commit.{apply_mutation, create_case}
use found_roll.Repository.Chain.Gates.{released_has_gates, visited, VisitsGates}
use found_roll.Service.Manifest.{verify_event_chain}
use found_roll.Service.Manifest.Verified.{
  verify_event_chain-Reachable, verify_event_chain_sound, IsVerified,
}
use found_roll.Tests.{show, plain_hashing, pouch, journey_end, journey_end-Reachable}

abbrev last_case : CaseRecord
last_case = on_some (get journey_end.cases "FR-42") (λ c. c) pouch

journey_ends : get journey_end.cases "FR-42" ≡ some last_case
unfolding apply_mutation create_case get put empty plain_hashing show assert_transition
journey_ends = refl

journey_closes : last_case.state ≡ closed
unfolding apply_mutation create_case get put empty plain_hashing show assert_transition
journey_closes = refl

verify_event_chain-Reachable_example : verify_event_chain journey_end "FR-42" ≡ ok true
verify_event_chain-Reachable_example =
    verify_event_chain-Reachable "FR-42" last_case journey_end-Reachable journey_ends

verify_event_chain_sound_example : IsVerified journey_end "FR-42"
verify_event_chain_sound_example =
    verify_event_chain_sound journey_end "FR-42" verify_event_chain-Reachable_example

released_has_gates_example :
    (es : List EventRecord) × (get journey_end.events "FR-42" ≡ some es) × VisitsGates (visited es)
released_has_gates_example =
    released_has_gates "FR-42" last_case journey_end-Reachable journey_ends
      (subst IsReleased (sym journey_closes) at_closed)
