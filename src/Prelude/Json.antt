-- ===== src/Prelude/Json.antt =====
-- The values that the program hands to `json.dumps`, as far as it hashes them, and the digests
-- that it takes of them from the standard library.
use Prim.Native.Nat.{ℕ}
use Prim.Native.Char.{Char}
use Prim.Native.String.{String}
use mathlib.Core.Bool.{Bool}
use mathlib.Core.Option.{Option, none, some}
use mathlib.Core.List.{List, [], ◌∷◌}

mutual
  pub data Json : Type 0 where
    null : Json
    text : String → Json
    number : ℕ → Json
    flag : Bool → Json
    array : Items → Json
    object : Fields → Json

  pub data Items : Type 0 where
    nil : Items
    cons : Json → Items → Items

  pub data Fields : Type 0 where
    end : Fields
    field : String → Json → Fields → Fields

-- a list of texts
abbrev pub texts : List String → Items
texts [] = nil
texts (x ∷ xs) = cons (text x) (texts xs)

-- a text or `None`
abbrev pub opt_text : Option String → Json
opt_text none = null
opt_text (some s) = text s

-- The standard library's digests: `sha256_json` is the hexadecimal SHA-256 of the canonical JSON of
-- a value, `hmac_sha256` takes the key and the message, and `uuid5_hex` the name in the URL
-- namespace. `upper` is a character's upper case, and `is_alnum` the test `isalnum`, by Unicode's
-- tables. Nothing is assumed of them.
pub record Hashing : Type 0 where
  pub sha256_json : Json → String
  pub hmac_sha256 : String → String → String
  pub uuid5_hex : String → String
  pub upper : Char → String
  pub is_alnum : Char → Bool
