-- ===== src/Prelude/Texts.antt =====
-- Texts as the program builds and trims them.
use Prim.Native.Nat.{ℕ, zero, suc, ◌/◌, ◌%◌, compare, Ordering}
use Prim.Native.Char.{Char, code}
use Prim.Native.String.{String, ◌∷◌, [], ◌++◌ as str_append, slice}
use mathlib.Core.Bool.{Bool, ◌&&◌, ◌||◌}
use found_roll.Prelude.Tests.{if◌then◌else◌, leb, eqb}

infixr 40 ◌<>◌
abbrev pub ◌<>◌ : String → String → String
s <> t = str_append s t

abbrev digit : ℕ → String
digit n = slice "0123456789" n (suc n)

-- `str(n)`: the fuel `n` is more than the digits of `n`
unfoldable decimal_fuel : ℕ → ℕ → String
decimal_fuel zero n = digit n
decimal_fuel (suc fuel) n = elim (compare n 10) [
  | Ordering.lt ↦ digit n
  | _ ↦ decimal_fuel fuel (n / 10) <> digit (n % 10)
]

unfoldable pub decimal : ℕ → String
unfolding decimal_fuel
decimal n = decimal_fuel n n

-- `c.isspace()`
unfoldable is_space : Char → Bool
is_space c =
    let n = code c in
    leb 9 n && leb n 13
    || leb 28 n && leb n 32
    || eqb n 133
    || eqb n 160
    || eqb n 5760
    || leb 8192 n && leb n 8202
    || eqb n 8232
    || eqb n 8233
    || eqb n 8239
    || eqb n 8287
    || eqb n 12288

-- `s.rstrip()`: white space that nothing else follows is dropped
unfoldable strip_right : String → String
unfolding is_space
strip_right [] = []
strip_right (c ∷ s) = elim (strip_right s) [
  | [] ↦ if is_space c then [] else c ∷ []
  | d ∷ t ↦ c ∷ (d ∷ t)
]

unfoldable strip_left : String → String
unfolding is_space
strip_left [] = []
strip_left (c ∷ s) = let rest = strip_left s in if is_space c then rest else c ∷ s

-- `s.strip()`
unfoldable pub strip : String → String
unfolding strip_left strip_right
strip s = strip_right (strip_left s)
