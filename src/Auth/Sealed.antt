-- ===== src/Auth/Sealed.antt =====
-- Texts sealed with AES-256-GCM: the X-Token of server/src/lib/gateway-x-token.js and the stored secrets
-- of merchant-api-key-cipher.js. node:crypto and Buffer are parameters;
-- the random initialisation vector is an argument.
use crypto_gateway_rp.Common.{
  ℕ, Bool, false, ◌&&◌, Option, none, some, List, [], ◌∷◌, ◌++◌, ltb, leb, ◌==◌, if◌then◌else◌,
  length, take, all, ◌||◌,
}
use crypto_gateway_rp.Text.{Text, codes, eq_text, starts_with}
use crypto_gateway_rp.Auth.Json.{Json, canonical_json_stringify}

pub record Crypto : Type 0 where
  pub utf8 : Text → List ℕ
  pub from_utf8 : List ℕ → Text
  pub base64 : List ℕ → Text
  -- Characters that are not of the alphabet are passed over.
  pub from_base64 : Text → List ℕ
  pub from_hex : Text → List ℕ
  pub hex : List ℕ → Text
  pub sha256 : List ℕ → List ℕ
  -- Key, vector and plain bytes to the tag and the sealed bytes.
  pub gcm_seal : List ℕ → List ℕ → List ℕ → List ℕ × List ℕ
  -- Key, vector, tag and sealed bytes; `none` is an exception.
  pub gcm_open : List ℕ → List ℕ → List ℕ → List ℕ → Option (List ℕ)

abbrev pub drop {ℓ} : {A : Type ℓ} → ℕ → List A → List A
drop ℕ.zero xs = xs
drop (ℕ.suc n) [] = []
drop (ℕ.suc n) (x ∷ xs) = drop n xs

-- `base64(iv ++ tag ++ sealed)`
unfoldable pub sealed_blob : Crypto → List ℕ → List ℕ → Text → Text
sealed_blob c key iv plain =
    let (tag, sealed) = c.gcm_seal key iv (c.utf8 plain) in c.base64 (iv ++ (tag ++ sealed))

-- The blob is cut at 12 and at 28 bytes; `none` is an exception.
unfoldable pub opened_bytes : Crypto → ℕ → List ℕ → List ℕ → Option Text
opened_bytes c least key bytes =
    if ltb (length bytes) least
    then none
    else elim (c.gcm_open key (take 12 bytes) (take 16 (drop 12 bytes)) (drop 28 bytes)) [
      | none ↦ none
      | some plain ↦ some (c.from_utf8 plain)
    ]

unfoldable pub derive_x_token_aes_key : Crypto → Text → List ℕ
derive_x_token_aes_key c secret = c.sha256 (c.utf8 secret)

unfoldable pub encrypt_gateway_x_token : Crypto → List ℕ → Text → Text → Text
encrypt_gateway_x_token c iv plain secret = sealed_blob c (derive_x_token_aes_key c secret) iv plain

unfoldable pub decrypt_gateway_x_token : Crypto → Text → Text → Option Text
decrypt_gateway_x_token c blob secret =
    opened_bytes c 29 (derive_x_token_aes_key c secret) (c.from_base64 blob)

unfoldable pub verify_gateway_body_x_token : Crypto → Json → Text → Text → Bool
verify_gateway_body_x_token c body x_token secret =
    elim (decrypt_gateway_x_token c x_token secret) [
      | none ↦ false
      | some plain ↦ elim (canonical_json_stringify body) [
        | none ↦ false
        | some canonical ↦ eq_text plain canonical
      ]
    ]

abbrev is_hex_digit : ℕ → Bool
is_hex_digit d = leb b'0' d && leb d b'9' || leb b'a' d && leb d b'f' || leb b'A' d && leb d b'F'

abbrev without_0x : Text → Text
without_0x s = if starts_with (codes "0x") s || starts_with (codes "0X") s then drop 2 s else s

-- The settings encryptionKey and jwtSecret.
pub record KeySettings : Type 0 where
  pub encryption_key : Text
  pub jwt_secret : Text

unfoldable pub get_key32 : Crypto → KeySettings → List ℕ
get_key32 c s =
    let raw = without_0x s.encryption_key in
    if length raw == 64 && all is_hex_digit raw
    then c.from_hex raw
    else c.sha256 (c.utf8 s.jwt_secret)

unfoldable pub encrypt_merchant_api_key : Crypto → KeySettings → List ℕ → Text → Text
encrypt_merchant_api_key c s iv plain = sealed_blob c (get_key32 c s) iv plain

unfoldable pub decrypt_merchant_api_key : Crypto → KeySettings → Text → Option Text
decrypt_merchant_api_key c s blob = opened_bytes c 29 (get_key32 c s) (c.from_base64 blob)
