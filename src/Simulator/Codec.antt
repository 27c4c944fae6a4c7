-- ===== src/Simulator/Codec.antt =====
-- How simulator/app/store.py names and hashes things: eTags, fingerprints and credentials.
use Prim.Native.Char.{Char, code}
use Prim.Native.String.{◌∷◌, [], slice}
use found_roll.Prelude.{ℕ, String, Bool, ◌&&◌, ◌||◌, true, false, ◌<>◌, decimal, leb, if◌then◌else◌}
use found_roll.Prelude.Json.{Json}
use found_roll.Simulator.{Role, custodian, claimant, IssuedTokens}
use found_roll.Simulator.Requests.{role_word, role_lower}

-- What the store takes from the standard library: the hexadecimal SHA-256 of a text and of the
-- canonical JSON of a value, HMAC-SHA-256 (key, message) in hexadecimal and in unpadded URL-safe
-- Base64, canonical JSON as text, the case mappings of Unicode, and the text of a timestamp of
-- whole seconds. Nothing is assumed of them.
pub record Codec : Type 0 where
  pub sha256_text : String → String
  pub sha256_json : Json → String
  pub hmac_hex : String → String → String
  pub hmac_urlsafe : String → String → String
  pub canonical_json : Json → String
  pub lower : String → String
  pub upper : String → String
  pub casefold : String → String
  pub utc_text : ℕ → String

-- `[a-z0-9]`
unfoldable is_safe : Char → Bool
is_safe c = let n = code c in leb 97 n && leb n 122 || leb 48 n && leb n 57

-- `re.sub(r"[^a-z0-9]+", "-", s)`; the flag says whether the character before was replaced
unfoldable collapse : Bool → String → String
unfolding is_safe
collapse gap [] = []
collapse gap (c ∷ s) =
    let safe = is_safe c in
    let rest = collapse (if safe then false else true) s in
    if safe then c ∷ rest else if gap then rest else "-" <> rest

-- `s.strip("-")`
unfoldable lstrip_dash : String → String
lstrip_dash [] = []
lstrip_dash (c ∷ s) =
    let rest = lstrip_dash s in if leb 45 (code c) && leb (code c) 45 then rest else c ∷ s

unfoldable rstrip_dash : String → String
rstrip_dash [] = []
rstrip_dash (c ∷ s) = elim (rstrip_dash s) [
  | [] ↦ if leb 45 (code c) && leb (code c) 45 then [] else c ∷ []
  | d ∷ t ↦ c ∷ (d ∷ t)
]

module _ ⦃x : Codec⦄ where
  -- `_safe_id`
  unfoldable pub safe_id : String → String
  unfolding collapse lstrip_dash rstrip_dash
  safe_id value = rstrip_dash (lstrip_dash (collapse false (x.lower value)))

  -- `_etag`
  unfoldable pub make_etag : String → String → ℕ → String
  unfolding safe_id
  make_etag kind identifier version =
      "W/\"sim-" <> kind <> "-" <> safe_id identifier <> "-v" <> decimal version <> "\""

  -- `prefix + hashlib.sha256(name).hexdigest()[:length].upper()`
  unfoldable pub digest_id : String → ℕ → String → String
  digest_id prefix size name = prefix <> x.upper (slice (x.sha256_text name) 0 size)

  -- the token of a role, as `_derive_credentials` makes it
  unfoldable pub derive_token : String → String → ℕ → ℕ → Role → String
  derive_token token_secret reservation_id generation expires_at role =
      "sim_"
      <> role_lower role
      <> "_"
      <> x.hmac_urlsafe token_secret (
          reservation_id
          <> "|"
          <> role_word role
          <> "|"
          <> decimal generation
          <> "|"
          <> x.utc_text expires_at)

  -- `_derive_credentials`
  unfoldable pub derive_credentials : String → String → ℕ → ℕ → IssuedTokens
  unfolding derive_token
  derive_credentials token_secret reservation_id generation expires_at =
      let token = derive_token token_secret reservation_id generation expires_at in
      record {
        claimant_token = token claimant;
        custodian_token = token custodian;
        expires_at = expires_at;
      }
