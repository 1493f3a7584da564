-- ===== src/Auth/Complete.antt =====
-- A client that seals its body as documented is accepted.
use crypto_gateway_rp.Common.{
  ℕ, ◌<◌, ◌≡◌, refl, true, false, Option, none, some, List, if◌then◌else◌, find, get_or, length,
  is_empty, inl, inr, Bool-cases,
}
use crypto_gateway_rp.Text.{Text}
use crypto_gateway_rp.Text.Laws.{eq_text_refl}
use crypto_gateway_rp.Store.{GatewayEnv, Merchant, Store}
use crypto_gateway_rp.Checkout.{trimmed_key}
use crypto_gateway_rp.Auth.Json.{object, canonical_json_stringify}
use crypto_gateway_rp.Auth.Sealed.{
  Crypto, KeySettings, derive_x_token_aes_key, encrypt_gateway_x_token, decrypt_gateway_x_token,
  verify_gateway_body_x_token,
}
use crypto_gateway_rp.Auth.RoundTrip.{Opens, decrypt-encrypt_gateway_x_token}
use crypto_gateway_rp.Auth.Gateway.{
  Request, accepted, Sealed, live_secret, verifies, is_missing, portal_key_type, token_of_unified,
  token_of_separate, token_of_merchant, merchant_where_from_route_param, is_usable_merchant,
  is_unified_gateway_api_key, resolve_merchant_by_x_token, api_key_of, body_of_request,
  parse_gateway_environment_from_body, authenticate_gateway_json_post,
}

verifies_sealed :
    (c : Crypto) (body_of : Sealed) (token secret plain : Text)
    → is_empty secret ≡ false
    → decrypt_gateway_x_token c token secret ≡ some plain
    → canonical_json_stringify (body_of secret) ≡ some plain
    → verifies c body_of token (some secret) ≡ true
unfolding verifies verify_gateway_body_x_token
verifies_sealed c body_of token secret plain full opened canonical =
    rw (verifies, full, verify_gateway_body_x_token, opened, canonical) (eq_text_refl plain)

-- The environment of a token that is sealed with the live secret.
abbrev pub live_key_type : Option GatewayEnv → Merchant → GatewayEnv
live_key_type hint m =
    if is_unified_gateway_api_key m then get_or hint (portal_key_type m) else GatewayEnv.live

present : (secret : Text) → is_empty secret ≡ false → is_missing (some secret) ≡ false
present secret h = rw (is_missing, h) refl

token_of_merchant-live :
    (c : Crypto) (s : KeySettings) (body_of : Sealed) (token secret : Text)
    (hint : Option GatewayEnv) (m : Merchant)
    → live_secret c s m ≡ some secret
    → is_empty secret ≡ false
    → verifies c body_of token (some secret) ≡ true
    → token_of_merchant c s body_of token hint (some m) ≡ accepted m (live_key_type hint m)
unfolding token_of_merchant token_of_unified token_of_separate
token_of_merchant-live c s body_of token secret hint m stored full ok =
    elim (Bool-cases (is_unified_gateway_api_key m)) [
      | inl one ↦ rw (token_of_merchant, one, stored, present secret full, ok) refl
      | inr two ↦ rw (token_of_merchant, two, stored, present secret full, ok) refl
    ]

-- A request whose token seals the canonical text of its body with the live secret that is stored for the
-- merchant of its header, an active one, is accepted for that merchant: for the live environment, or for
-- a merchant whose two keys are one, for the environment that the body names or else the portal's. Its
-- body has no api_key, and the vector has 12 bytes; the rest is what node:crypto and Buffer document.
pub authenticate_gateway_json_post-sealed :
    (c : Crypto) (s : KeySettings) (store : Store) (r : Request) (m : Merchant)
    (header secret plain : Text) (id : ℕ) (iv : List ℕ)
    → trimmed_key r.x_token ≡ some (encrypt_gateway_x_token c iv plain secret)
    → trimmed_key r.x_merchant_id ≡ some header
    → merchant_where_from_route_param header ≡ some id
    → find (is_usable_merchant id) store.merchants ≡ some m
    → api_key_of (body_of_request r) ≡ none
    → canonical_json_stringify (object (body_of_request r)) ≡ some plain
    → live_secret c s m ≡ some secret
    → is_empty secret ≡ false
    → Opens c (derive_x_token_aes_key c secret) iv plain
    → 0 < length (c.utf8 plain)
    → authenticate_gateway_json_post c s store r
      ≡ accepted m (live_key_type (parse_gateway_environment_from_body (body_of_request r)) m)
unfolding authenticate_gateway_json_post resolve_merchant_by_x_token
authenticate_gateway_json_post-sealed c s store r m header secret plain id iv token mid named found
      no_key canonical stored full opens long =
    rw (authenticate_gateway_json_post, token, mid, no_key)
      (rw (resolve_merchant_by_x_token, named, found)
        (token_of_merchant-live c s (λ x. object (body_of_request r))
          (encrypt_gateway_x_token c iv plain secret) secret
          (parse_gateway_environment_from_body (body_of_request r)) m stored full
          (verifies_sealed c (λ x. object (body_of_request r))
            (encrypt_gateway_x_token c iv plain secret) secret plain full
            (decrypt-encrypt_gateway_x_token c iv plain secret opens long) canonical)))
