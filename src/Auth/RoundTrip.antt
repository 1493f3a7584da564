-- ===== src/Auth/RoundTrip.antt =====
-- What is sealed is opened again.
use crypto_gateway_rp.Common.{
  ℕ, zero, suc, ◌+◌, ◌≤◌, ◌<◌, ◌≡◌, refl, ap, sym, ◌∙◌, false, some, List, [], ◌∷◌, ◌++◌, length,
  length-append, take, ltb, arith,
}
use crypto_gateway_rp.Text.{Text}
use crypto_gateway_rp.Auth.Sealed.{
  Crypto, drop, sealed_blob, opened_bytes, encrypt_gateway_x_token, decrypt_gateway_x_token,
  encrypt_merchant_api_key, decrypt_merchant_api_key, KeySettings, derive_x_token_aes_key,
  get_key32,
}

-- What node:crypto documents of AES-256-GCM and Buffer of base64, at one key, vector and plain text.
pub record Opens (c : Crypto) (key iv : List ℕ) (plain : Text) : Type 0 where
  pub vector : length iv ≡ 12
  pub tag : length (c.gcm_seal key iv (c.utf8 plain)).0 ≡ 16
  pub stream : length (c.gcm_seal key iv (c.utf8 plain)).1 ≡ length (c.utf8 plain)
  pub opens :
      c.gcm_open key iv (c.gcm_seal key iv (c.utf8 plain)).0 (c.gcm_seal key iv (c.utf8 plain)).1
      ≡ some (c.utf8 plain)
  pub well_formed : c.from_utf8 (c.utf8 plain) ≡ plain
  pub base64 : (bytes : List ℕ) → c.from_base64 (c.base64 bytes) ≡ bytes

module _ {A : Type 0} where
  take-append : (n : ℕ) (xs ys : List A) → length xs ≡ n → take n (xs ++ ys) ≡ xs
  take-append zero [] ys h = refl
  take-append zero (x ∷ xs) ys h = absurd (omega (arith, h))
  take-append (suc n) [] ys h = absurd (omega (arith, h))
  take-append (suc n) (x ∷ xs) ys h = ap (λ zs. x ∷ zs) (take-append n xs ys (omega (arith, h)))

  drop-append : (n : ℕ) (xs ys : List A) → length xs ≡ n → drop n (xs ++ ys) ≡ ys
  drop-append zero [] ys h = refl
  drop-append zero (x ∷ xs) ys h = absurd (omega (arith, h))
  drop-append (suc n) [] ys h = absurd (omega (arith, h))
  drop-append (suc n) (x ∷ xs) ys h = drop-append n xs ys (omega (arith, h))

zero_left : (n : ℕ) → 0 + n ≡ n
zero_left n = omega arith

suc_left : (m n : ℕ) → suc m + n ≡ suc (m + n)
suc_left m n = omega arith

drop-nil : {A : Type 0} (n : ℕ) → drop {A = A} n [] ≡ []
drop-nil zero = refl
drop-nil (suc n) = refl

drop-drop : {A : Type 0} (m n : ℕ) (xs : List A) → drop (m + n) xs ≡ drop n (drop m xs)
drop-drop zero n xs = ap (λ k. drop k xs) (zero_left n)
drop-drop (suc m) n [] = drop-nil (suc m + n) ∙ sym (drop-nil n)
drop-drop (suc m) n (x ∷ xs) = ap (λ k. drop k (x ∷ xs)) (suc_left m n) ∙ drop-drop m n xs

le→ltb : (a b : ℕ) → b ≤ a → ltb a b ≡ false
le→ltb a b h = ground (arith, h)

opened_bytes-sealed :
    (c : Crypto) (key iv : List ℕ) (plain : Text)
    → Opens c key iv plain
    → 0 < length (c.utf8 plain)
    → opened_bytes c 29 key (c.from_base64 (sealed_blob c key iv plain)) ≡ some plain
unfolding opened_bytes sealed_blob
opened_bytes-sealed c key iv plain h full =
    let parts = c.gcm_seal key iv (c.utf8 plain) in
    let bytes = iv ++ (parts.0 ++ parts.1) in
    let long : ltb (length bytes) 29 ≡ false = le→ltb (length bytes) 29 (
      omega (
        arith,
        length-append iv (parts.0 ++ parts.1),
        length-append parts.0 parts.1,
        h.vector,
        h.tag,
        h.stream,
        full,
      )) in
    let first : take 12 bytes ≡ iv = take-append 12 iv (parts.0 ++ parts.1) h.vector in
    let rest : drop 12 bytes ≡ parts.0 ++ parts.1 =
      drop-append 12 iv (parts.0 ++ parts.1) h.vector in
    let middle : take 16 (drop 12 bytes) ≡ parts.0 =
      ap (take 16) rest ∙ take-append 16 parts.0 parts.1 h.tag in
    let last : drop 28 bytes ≡ parts.1 =
      drop-drop 12 16 bytes ∙ ap (drop 16) rest ∙ drop-append 16 parts.0 parts.1 h.tag in
    rw (h.base64 bytes) (rw (opened_bytes, long, first, middle, last, h.opens, h.well_formed) refl)

-- A token of a non-empty text is opened with the secret that sealed it, given what node:crypto and
-- Buffer document at these arguments.
pub decrypt-encrypt_gateway_x_token :
    (c : Crypto) (iv : List ℕ) (plain secret : Text)
    → Opens c (derive_x_token_aes_key c secret) iv plain
    → 0 < length (c.utf8 plain)
    → decrypt_gateway_x_token c (encrypt_gateway_x_token c iv plain secret) secret ≡ some plain
unfolding decrypt_gateway_x_token encrypt_gateway_x_token
decrypt-encrypt_gateway_x_token c iv plain secret h full =
    opened_bytes-sealed c (derive_x_token_aes_key c secret) iv plain h full

-- A secret whose text is not empty is opened as it was sealed, under the same settings, given what
-- node:crypto and Buffer document at these arguments.
pub decrypt-encrypt_merchant_api_key :
    (c : Crypto) (s : KeySettings) (iv : List ℕ) (plain : Text)
    → Opens c (get_key32 c s) iv plain
    → 0 < length (c.utf8 plain)
    → decrypt_merchant_api_key c s (encrypt_merchant_api_key c s iv plain) ≡ some plain
unfolding decrypt_merchant_api_key encrypt_merchant_api_key
decrypt-encrypt_merchant_api_key c s iv plain h full =
    opened_bytes-sealed c (get_key32 c s) iv plain h full
