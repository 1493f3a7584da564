-- ===== src/Auth/Proven.antt =====
-- An accepted request, by its token or by its key.
use crypto_gateway_rp.Common.{
  ◌≡◌, refl, subst, true, Option, none, some, find, inl, inr, Bool-cases, Option-cases, arith,
}
use crypto_gateway_rp.Text.{Text}
use crypto_gateway_rp.Store.{GatewayEnv, Merchant, Store}
use crypto_gateway_rp.Store.Counts.{Has, find-Has}
use crypto_gateway_rp.Checkout.{trimmed_key}
use crypto_gateway_rp.Auth.Json.{object}
use crypto_gateway_rp.Auth.Sealed.{Crypto, KeySettings}
use crypto_gateway_rp.Auth.Gateway.{
  Request, accepted, is_usable, has_text, is_unified_gateway_api_key, key_type_of_hash,
  resolve_merchant_by_gateway_api_key, hash_api_key, has_hash, by_api_key, api_key_of,
  body_of_request, parse_gateway_environment_from_body, authenticate_gateway_json_post,
}
use crypto_gateway_rp.Auth.Accepted.{
  accepted-injective, ByToken, resolve_merchant_by_x_token-ByToken,
}

-- The hash of the key is one that the merchant has stored for the environment.
pub data HashAllows (h : Text) (m : Merchant) (e : GatewayEnv) : Type 0 where
  one_key : is_unified_gateway_api_key m ≡ true → HashAllows h m e
  live_key : e ≡ GatewayEnv.live → has_text h m.api_key_hash ≡ true → HashAllows h m e
  sandbox_key : e ≡ GatewayEnv.sandbox → has_text h m.sandbox_api_key_hash ≡ true → HashAllows h m e

pub record ByKey (c : Crypto) (store : Store) (key : Text) (m : Merchant) (e : GatewayEnv)
    : Type 0 where
  pub stored : Has m store.merchants
  pub usable : is_usable m ≡ true
  pub hashed : has_hash (hash_api_key c key) m ≡ true
  pub allowed : HashAllows (hash_api_key c key) m e

pub data Proven (c : Crypto) (s : KeySettings) (store : Store) (r : Request) (m : Merchant)
    (e : GatewayEnv) : Type 0 where
  with_token :
      (token id : Text)
      → trimmed_key r.x_token ≡ some token
      → trimmed_key r.x_merchant_id ≡ some id
      → ByToken c s store (λ secret. object (body_of_request r)) token id m e
      → Proven c s store r m e
  with_key :
      (key : Text)
      → trimmed_key r.x_token ≡ none
      → api_key_of (body_of_request r) ≡ some key
      → (k : Text) × (trimmed_key (some key) ≡ some k) × ByKey c store k m e
      → Proven c s store r m e

key_type-HashAllows :
    (h : Text) (forced : Option GatewayEnv) (m : Merchant)
    → has_hash h m ≡ true
    → HashAllows h m (key_type_of_hash h forced m)
unfolding key_type_of_hash
key_type-HashAllows h forced m hit = elim (Bool-cases (is_unified_gateway_api_key m)) [
  | inl one ↦ one_key one
  | inr two ↦ elim (Bool-cases (has_text h m.api_key_hash)) [
    | inl live ↦ live_key (rw (key_type_of_hash, two, live) refl) live
    | inr not_live ↦
        sandbox_key (rw (key_type_of_hash, two, not_live) refl) (ground (arith, hit, not_live))
  ]
]

resolve_merchant_by_gateway_api_key-ByKey :
    (c : Crypto) (store : Store) (key : Text) (forced : Option GatewayEnv) (m : Merchant)
    (e : GatewayEnv)
    → by_api_key (resolve_merchant_by_gateway_api_key c store key forced) ≡ accepted m e
    → (k : Text) × (trimmed_key (some key) ≡ some k) × ByKey c store k m e
unfolding resolve_merchant_by_gateway_api_key
resolve_merchant_by_gateway_api_key-ByKey c store key forced m e h =
    elim (Option-cases (trimmed_key (some key))) [
      | inl t ↦ cc (rw (resolve_merchant_by_gateway_api_key, t) at h)
      | inr (k, t) ↦ elim (Option-cases (find (has_hash (hash_api_key c k)) store.merchants)) [
        | inl f ↦ cc (rw (resolve_merchant_by_gateway_api_key, t, f) at h)
        | inr (n, f) ↦
            let (same, env) =
              accepted-injective n m (key_type_of_hash (hash_api_key c k) forced n) e
                (rw (resolve_merchant_by_gateway_api_key, t, f) at h) in
            let (has, hit) = find-Has (has_hash (hash_api_key c k)) store.merchants f in
            (
              k,
              t,
              subst (λ x. ByKey c store k m x) env
                  (subst (λ x. ByKey c store k x (key_type_of_hash (hash_api_key c k) forced n))
                    same
                    (record {
                      stored = has;
                      usable = ground (arith, hit);
                      hashed = hit;
                      allowed = key_type-HashAllows (hash_api_key c k) forced n hit;
                    })),
            )
      ]
    ]

-- A request is accepted for a merchant and an environment only where the merchant is active, not deleted
-- and either is named by the header and has a stored secret, one for this environment unless its two
-- keys are one, with which the token opens to the canonical text of the body; or no token is sent and
-- the body's key has a hash that the merchant has stored, again for this environment.
pub authenticate_gateway_json_post-Proven :
    (c : Crypto) (s : KeySettings) (store : Store) (r : Request) (m : Merchant) (e : GatewayEnv)
    → authenticate_gateway_json_post c s store r ≡ accepted m e
    → Proven c s store r m e
unfolding authenticate_gateway_json_post
authenticate_gateway_json_post-Proven c s store r m e h =
    elim (Option-cases (trimmed_key r.x_token)) [
      | inr (token, t) ↦ elim (Option-cases (trimmed_key r.x_merchant_id)) [
        | inl i ↦ cc (rw (authenticate_gateway_json_post, t, i) at h)
        | inr (id, i) ↦ elim (Option-cases (api_key_of (body_of_request r))) [
          | inr (key, k) ↦ cc (rw (authenticate_gateway_json_post, t, i, k) at h)
          | inl k ↦ with_token token id t i (
              resolve_merchant_by_x_token-ByToken c s store (λ secret. object (body_of_request r))
                token id (parse_gateway_environment_from_body (body_of_request r)) m e
                (rw (authenticate_gateway_json_post, t, i, k) at h))
        ]
      ]
      | inl t ↦ elim (Option-cases (api_key_of (body_of_request r))) [
        | inl k ↦ cc (rw (authenticate_gateway_json_post, t, k) at h)
        | inr (key, k) ↦ with_key key t k (
            resolve_merchant_by_gateway_api_key-ByKey c store key
              (parse_gateway_environment_from_body (body_of_request r)) m e
              (rw (authenticate_gateway_json_post, t, k) at h))
      ]
    ]
