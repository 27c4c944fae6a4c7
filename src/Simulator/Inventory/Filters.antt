-- ===== src/Simulator/Inventory/Filters.antt =====
-- The tests of the filters of `list_inventory` in simulator/app/store.py, and what they mean.
use text.Mathlib.Text.{starts_with}
use text.Mathlib.TextLemmas.{nil-append, cons-append, nil≢cons}
use text.Mathlib.TextEquality.{starts_with_iff}
use found_roll.Prelude.{
  ℕ, String, ◌≡◌, ◌≢◌, refl, sym, ap, ◌∙◌, subst, ◌↔◌, inl, inr, Bool, true, false, Option, none,
  some, List, [], ◌∷◌, In, ok, arith, eq_iff, any, Bool-cases, some_inj, ok_inj, ok≢err, none≢some,
  ◌==◌, ◌<>◌,
}
use found_roll.Simulator.Requests.{Timestamp, aware, naive, aware_instant}
use found_roll.Simulator.Inventory.{contains, excluded_by_time, given}

-- `t` stands somewhere in `s`
abbrev pub Within : String → String → Type 0
Within t s = (start : String) × (end : String) × ((start <> (t <> end)) ≡ s)

-- an option that is given and not empty
abbrev pub Asks : Option String → (String → Type 0) → Type 0
Asks option P = (v : String) → option ≡ some v → v ≢ "" → P v

append_empty : (a b : String) → (a <> b) ≡ "" → (a ≡ "") × (b ≡ "")
append_empty String.[] b e = (refl, sym (nil-append b) ∙ e)
append_empty (String.◌∷◌ c a) b e = absurd (nil≢cons (sym e ∙ cons-append c a b))

abbrev tail_of : String → String
tail_of String.[] = ""
tail_of (String.◌∷◌ c s) = s

starts-Within : (s t : String) → starts_with s t ≡ true → Within t s
starts-Within s t e =
    let (rest, same) = (starts_with_iff s t).0 e in ("", rest, nil-append (t <> rest) ∙ same)

contains-Within : (s t : String) → contains s t ≡ true → Within t s
unfolding contains
contains-Within String.[] t e =
    let empty : t ≡ "" = ground (arith, eq_iff t "") in
    ("", "", ap (λ z. "" <> (z <> "")) {y = ""} empty)
contains-Within (String.◌∷◌ c s) t e = elim (Bool-cases (starts_with (String.◌∷◌ c s) t)) [
  | inl first ↦ starts-Within (String.◌∷◌ c s) t first
  | inr later ↦
      let (start, end, same) = contains-Within s t (rw later at e) in
      (String.◌∷◌ c start, end, cons-append c start (t <> end) ∙ ap (λ z. String.◌∷◌ c z) same)
]

Within-contains : (s t start end : String) → (start <> (t <> end)) ≡ s → contains s t ≡ true
unfolding contains
Within-contains String.[] t start end e =
    let (first, rest) = append_empty start (t <> end) e in
    let (empty, last) = append_empty t end rest in ground (arith, empty, eq_iff t "")
Within-contains (String.◌∷◌ c s) t String.[] end e =
    rw ((starts_with_iff (String.◌∷◌ c s) t).1 (end, sym (nil-append (t <> end)) ∙ e)) refl
Within-contains (String.◌∷◌ c s) t (String.◌∷◌ d start) end e =
    let tail : (start <> (t <> end)) ≡ s = ap tail_of (sym (cons-append d start (t <> end)) ∙ e) in
    let rest = Within-contains s t start end tail in ground (arith, rest)

pub contains_iff : (s t : String) → (contains s t ≡ true) ↔ Within t s
contains_iff s t = (contains-Within s t, λ w. Within-contains s t w.0 w.1 w.2)

pub given_iff :
    (option : Option String) (test : String → Bool)
    → (given option test ≡ false) ↔ Asks option (λ v. test v ≡ false)
given_iff none test = (λ e v p. absurd (none≢some p), λ h. refl)
given_iff (some v) test = (
  λ e u p full.
      subst (λ z. test z ≡ false) (some_inj p)
        (ground (arith, e, eq_iff v "", λ (n : v ≡ ""). full (sym (some_inj p) ∙ n))),
  λ h. elim (Bool-cases (v == "")) [
    | inl empty ↦ rw empty refl
    | inr full ↦ rw (full, h v refl (λ n. ground (arith, full, n, eq_iff v ""))) refl
  ],
)

pub any_iff :
    (test : String → Bool) (l : List String)
    → (any test l ≡ true) ↔ ((a : String) × In a l × (test a ≡ true))
unfolding any
any_iff test [] = (λ e. absurd (ground arith), λ w. absurd w.1)
any_iff test (a ∷ l) =
    let ih = any_iff test l in
    (
      λ e. elim (Bool-cases (test a)) [
        | inl yes_ ↦ (a, inl refl, yes_)
        | inr no_ ↦ let (b, there, passed) = ih.0 (ground (arith, e, no_)) in (b, inr there, passed)
      ],
      λ w. elim w.1 [
        | inl here ↦ rw (here, w.2) refl
        | inr there ↦ let rest = ih.1 (w.0, there, w.2) in ground (arith, rest)
      ],
    )

aware_inj : (a b : ℕ) → aware a ≡ aware b → a ≡ b
aware_inj a b e = cc

pub excluded_iff :
    (bound : Option Timestamp) (test : ℕ → Bool)
    → (excluded_by_time bound test ≡ ok false) ↔ (
        (t : Timestamp)
        → bound ≡ some t
        → (instant : ℕ) × (t ≡ aware instant) × (test instant ≡ false))
unfolding excluded_by_time aware_instant
excluded_iff none test = (λ e t p. absurd (none≢some p), λ h. refl)
excluded_iff (some (aware t)) test = (
  λ e u p. (t, sym (some_inj p), ok_inj e),
  λ h. let (instant, same, inside) = h (aware t) refl in rw (aware_inj t instant same, inside) refl,
)
excluded_iff (some (naive t)) test = (
  λ e. absurd (ok≢err (sym e)),
  λ h. let (instant, same, inside) = h (naive t) refl in absurd (cc),
)
