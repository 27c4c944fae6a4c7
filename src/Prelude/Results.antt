-- ===== src/Prelude/Results.antt =====
-- Errors as values, and methods that mutate an object and may raise: what was written before a
-- raise stays written, so the state comes back beside the error too.
use Prim.Native.Nat.{ℕ}
use Prim.Native.String.{String}
use mathlib.Core.Path.{◌≡◌, refl, sym, ap}
use mathlib.Core.Bool.{Bool, true, false}
use mathlib.Core.Option.{Option, none, some}

-- service/app/errors.py, simulator/app/store.py (`DomainError`), and Python's own exceptions. An
-- error carries its stable code, not its message; a `DomainError` carries its status code too.
pub data Error : Type 0 where
  not_found conflict forbidden unavailable value_error key_error : String → Error
  domain : ℕ → String → Error

pub data Result {ℓ} (A : Type ℓ) : Type ℓ where
  ok : A → Result A
  err : Error → Result A

abbrev pub Exec {ℓ} : Type ℓ → Type ℓ → Type ℓ
Exec S A = S → Result A × S

infixl 5 ◌>>=◌
abbrev pub ◌>>=◌ {ℓ κ} : {T : Type ℓ} {U : Type κ} → Result T → (T → Result U) → Result U
err e >>= next = err e
ok x >>= next = next x

-- a check, and then the rest
infixl 5 ◌>>◌
abbrev pub ◌>>◌ {ℓ} : {U : Type ℓ} → Result (Unit {0}) → Result U → Result U
check >> rest = check >>= λ passed. rest

-- `if test: raise error`
abbrev pub raise_if : Bool → Error → Result (Unit {0})
raise_if true e = err e
raise_if false e = ok tt

-- `if value is None: raise error`
abbrev pub require {ℓ} : {A : Type ℓ} → Option A → Error → Result A
require none e = err e
require (some a) e = ok a

-- the rest of a method that mutates `s`, after checks that leave it alone
abbrev pub on_ok {ℓ κ} :
    {A : Type ℓ} {S B : Type κ} → Result A → S → (A → Result B × S) → Result B × S
on_ok (ok a) s f = f a
on_ok (err e) s f = (err e, s)

-- the rest of a method, after an action that may have raised
abbrev pub and_then {ℓ κ} :
    {A : Type ℓ} {S B : Type κ} → Result A × S → (A → S → Result B × S) → Result B × S
and_then (ok a, s) f = f a s
and_then (err e, s) f = (err e, s)

-- `if value: … else: …`, for a value that may be `None`
abbrev pub on_some {ℓ κ} : {A : Type ℓ} {B : Type κ} → Option A → (A → B) → B → B
on_some none f b = b
on_some (some a) f b = f a

pub >>=-eq-ok {ℓ κ} :
    {T : Type ℓ} {U : Type κ} {u : U} (m : Result T) (next : T → Result U)
    → (m >>= next) ≡ ok u
    → (x : T) × (m ≡ ok x) × (next x ≡ ok u)
>>=-eq-ok (err e) next r = cc
>>=-eq-ok (ok x) next r = (x, refl, r)

-- A result with the equation that says how it ended.
pub data Outcome {ℓ} {A : Type ℓ} (r : Result A) : Type ℓ where
  returned : (a : A) → r ≡ ok a → Outcome r
  raised : (e : Error) → r ≡ err e → Outcome r

pub Result-cases {ℓ} : {A : Type ℓ} (r : Result A) → Outcome r
Result-cases (ok a) = returned a refl
Result-cases (err e) = raised e refl

pub ok_inj {ℓ} : {A : Type ℓ} {a b : A} → ok a ≡ ok b → a ≡ b
ok_inj p = cc

pub ok≢err {ℓ} : {A : Type ℓ} {a : A} {e : Error} → ok a ≡ err e → ⊥
ok≢err p = cc

pub and_then-eq-ok {ℓ κ} :
    {A : Type ℓ} {S B : Type κ} (m : Result A × S) (f : A → S → Result B × S) {b : B} {after : S}
    → and_then m f ≡ (ok b, after)
    → (a : A) × (s : S) × (m ≡ (ok a, s)) × (f a s ≡ (ok b, after))
and_then-eq-ok (ok a, s) f h = (a, s, refl, h)
and_then-eq-ok (err e, s) f h = absurd (ok≢err (sym (ap (λ x. x.0) h)))

-- an action that is followed by one that leaves the state alone
pub and_then_state {ℓ κ} :
    {A : Type ℓ} {S B : Type κ} (m : Result A × S) (f : A → S → Result B × S)
    → ((a : A) (s : S) → (f a s).1 ≡ s)
    → (and_then m f).1 ≡ m.1
and_then_state (ok a, s) f same = same a s
and_then_state (err e, s) f same = refl

-- a check that passed, and what follows it
pub guard-ok {ℓ} :
    {A : Type ℓ} {a : A} (test : Bool) (e : Error) (rest : Result A)
    → (raise_if test e >> rest) ≡ ok a
    → (test ≡ false) × (rest ≡ ok a)
guard-ok true e rest v = absurd (ok≢err (sym v))
guard-ok false e rest v = (refl, v)

pub check-ok {ℓ} :
    {A : Type ℓ} {a : A} (check : Result (Unit {0})) (rest : Result A)
    → (check >> rest) ≡ ok a
    → rest ≡ ok a
check-ok (ok u) rest v = v
check-ok (err e) rest v = absurd (ok≢err (sym v))

pub require-ok {ℓ κ} :
    {A : Type ℓ} {B : Type κ} {b : B} (value : Option A) (e : Error) (next : A → Result B)
    → (require value e >>= next) ≡ ok b
    → (a : A) × (value ≡ some a) × (next a ≡ ok b)
require-ok none e next v = absurd (ok≢err (sym v))
require-ok (some a) e next v = (a, refl, v)
