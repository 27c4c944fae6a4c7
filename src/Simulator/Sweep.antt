-- ===== src/Simulator/Sweep.antt =====
-- What `_expire_locked` of simulator/app/store.py has done when it returns.
use found_roll.Prelude.{ℕ, ◌<◌, String, ◌≡◌, false, some, get}
use found_roll.Simulator.{FixtureStore, Reservation, parse_datetime}
use found_roll.Simulator.Codec.{Codec}
use found_roll.Simulator.Store.{is_over}

-- The reservation of the identifier is over, or its window is open.
abbrev IsLive : ℕ → FixtureStore → String → Type 0
IsLive now s id =
    (r : Reservation)
    → get s.reservations id ≡ some r
    → is_over r.status ≡ false
    → now < parse_datetime r.expires_at
