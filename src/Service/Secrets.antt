-- ===== src/Service/Secrets.antt =====
-- service/app/hashing.py: the keyed digest of private answers and tokens, and `_claim_link_hash` of
-- service/app/custody_service.py.
use Prim.Native.String.{◌∷◌, [], count}
use found_roll.Prelude.{
  String, ◌||◌, Result, ok, forbidden, ltb, ◌==◌, raise_if, ◌>>◌, ◌<>◌, if◌then◌else◌,
}
use found_roll.Prelude.Json.{Hashing}
use found_roll.Service.{Settings}

module _ ⦃h : Hashing⦄ where
  -- `value.upper()`
  unfoldable upper_text : String → String
  upper_text [] = []
  upper_text (c ∷ s) = h.upper c <> upper_text s

  unfoldable keep_alnum : String → String
  keep_alnum [] = []
  keep_alnum (c ∷ s) = let rest = keep_alnum s in if h.is_alnum c then c ∷ rest else rest

  -- `normalize_private_answer`
  unfoldable pub normalize_private_answer : String → String
  unfolding upper_text keep_alnum
  normalize_private_answer value = keep_alnum (upper_text value)

  -- `secret_digest`
  unfoldable pub secret_digest : String → String → String
  unfolding normalize_private_answer
  secret_digest value pepper = h.hmac_sha256 pepper (normalize_private_answer value)

  -- `_claim_link_hash`
  unfoldable pub claim_link_hash : Settings → String → Result String
  unfolding secret_digest
  claim_link_hash settings raw_token = do
    raise_if (raw_token == "" || ltb (count raw_token) 40) (forbidden "claim_link_required")
    ok (secret_digest raw_token settings.secret_pepper)
