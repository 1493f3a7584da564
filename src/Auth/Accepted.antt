-- ===== src/Auth/Accepted.antt =====
-- What an accepted request has proved.
use crypto_gateway_rp.Common.{
  ◌≡◌, sym, ap, subst, ◌∙◌, true, ◌&&◌, Option, none, some, [], ◌∷◌, find, or_else, inl, inr, ◌⊎◌,
  Bool-cases, Option-cases, ==_iff, arith,
}
use crypto_gateway_rp.Text.{Text}
use crypto_gateway_rp.Text.Laws.{eq_text→≡}
use crypto_gateway_rp.Store.{GatewayEnv, Merchant, Store}
use crypto_gateway_rp.Store.Counts.{Has, find-Has}
use crypto_gateway_rp.Checkout.{non_empty}
use crypto_gateway_rp.Auth.Json.{canonical_json_stringify}
use crypto_gateway_rp.Auth.Sealed.{
  Crypto, KeySettings, decrypt_gateway_x_token, verify_gateway_body_x_token,
}
use crypto_gateway_rp.Auth.Gateway.{
  AuthResult, accepted, refused, Sealed, live_secret, sandbox_secret, verifies, is_missing,
  token_of_unified, token_of_separate, token_of_merchant, merchant_where_from_route_param,
  is_usable, is_usable_merchant, is_unified_gateway_api_key, resolve_merchant_by_x_token,
}

pub accepted-injective :
    (m n : Merchant) (e f : GatewayEnv) → accepted m e ≡ accepted n f → (m ≡ n) × (e ≡ f)
accepted-injective m n e f h = (ap merchant_of h, ap environment_of h)
  where
    merchant_of : AuthResult → Merchant
    merchant_of (accepted x y) = x
    merchant_of (refused r) = m

    environment_of : AuthResult → GatewayEnv
    environment_of (accepted x y) = y
    environment_of (refused r) = e

non_empty-some : (s : Option Text) (t : Text) → non_empty s ≡ some t → s ≡ some t
non_empty-some none t h = cc h
non_empty-some (some []) t h = cc h
non_empty-some (some (x ∷ xs)) t h = h

-- The token was sealed with this secret over the canonical text of what it has to seal.
pub record Seals (c : Crypto) (body_of : Sealed) (token secret : Text) : Type 0 where
  pub plain : Text
  pub opened : decrypt_gateway_x_token c token secret ≡ some plain
  pub canonical : canonical_json_stringify (body_of secret) ≡ some plain

verify-Seals :
    (c : Crypto) (body_of : Sealed) (token secret : Text)
    → verify_gateway_body_x_token c (body_of secret) token secret ≡ true
    → Seals c body_of token secret
unfolding verify_gateway_body_x_token
verify-Seals c body_of token secret h =
    elim (Option-cases (decrypt_gateway_x_token c token secret)) [
      | inl e ↦ cc (rw (verify_gateway_body_x_token, e) at h)
      | inr (plain, e) ↦ elim (Option-cases (canonical_json_stringify (body_of secret))) [
        | inl k ↦ cc (rw (verify_gateway_body_x_token, e, k) at h)
        | inr (text, k) ↦
            let same : plain ≡ text =
              eq_text→≡ plain text (rw (verify_gateway_body_x_token, e, k) at h) in
            record { plain = plain; opened = e; canonical = k ∙ ap some (sym same) }
      ]
    ]

verifies-Seals :
    (c : Crypto) (body_of : Sealed) (token : Text) (stored : Option Text)
    → verifies c body_of token stored ≡ true
    → (secret : Text) × (stored ≡ some secret) × Seals c body_of token secret
unfolding verifies
verifies-Seals c body_of token stored h = elim (Option-cases (non_empty stored)) [
  | inl e ↦ cc (rw (verifies, e) at h)
  | inr (secret, e) ↦ (
    secret,
    non_empty-some stored secret e,
    verify-Seals c body_of token secret (rw (verifies, e) at h),
  )
]

-- The stored secret that may stand for an environment: either one for a merchant whose two keys are one.
pub data Allows (c : Crypto) (s : KeySettings) (m : Merchant) (e : GatewayEnv) (secret : Text)
    : Type 0 where
  one_key :
      is_unified_gateway_api_key m ≡ true
      → (live_secret c s m ≡ some secret) ⊎ (sandbox_secret c s m ≡ some secret)
      → Allows c s m e secret
  own_key :
      (e ≡ GatewayEnv.live) × (live_secret c s m ≡ some secret)
        ⊎ (e ≡ GatewayEnv.sandbox) × (sandbox_secret c s m ≡ some secret)
      → Allows c s m e secret

pub record Vouched (c : Crypto) (s : KeySettings) (body_of : Sealed) (token : Text) (m : Merchant)
    (e : GatewayEnv) : Type 0 where
  pub secret : Text
  pub allowed : Allows c s m e secret
  pub seals : Seals c body_of token secret

either :
    (a b : Option Text) (secret : Text)
    → or_else a b ≡ some secret
    → (a ≡ some secret) ⊎ (b ≡ some secret)
either none b secret h = inr h
either (some x) b secret h = inl h

module _ (c : Crypto) (s : KeySettings) (body_of : Sealed) (token : Text) (m n : Merchant)
    (e : GatewayEnv) where
  separate-Vouched :
      token_of_separate c s body_of token m ≡ accepted n e → (m ≡ n) × Vouched c s body_of token m e
  unfolding token_of_separate
  separate-Vouched h =
      elim (Bool-cases (is_missing (live_secret c s m) && is_missing (sandbox_secret c s m))) [
        | inl missing ↦ cc (rw (token_of_separate, missing) at h)
        | inr have_one ↦ elim (Bool-cases (verifies c body_of token (live_secret c s m))) [
          | inl live ↦
              let (same, env) =
                accepted-injective m n GatewayEnv.live e
                  (rw (token_of_separate, have_one, live) at h) in
              let (secret, stored, seals) =
                verifies-Seals c body_of token (live_secret c s m) live in
              (
                same,
                record {
                  secret = secret;
                  allowed = own_key (inl (sym env, stored));
                  seals = seals;
                },
              )
          | inr not_live ↦ elim (Bool-cases (verifies c body_of token (sandbox_secret c s m))) [
            | inl sandbox ↦
                let (same, env) =
                  accepted-injective m n GatewayEnv.sandbox e
                    (rw (token_of_separate, have_one, not_live, sandbox) at h) in
                let (secret, stored, seals) =
                  verifies-Seals c body_of token (sandbox_secret c s m) sandbox in
                (
                  same,
                  record {
                    secret = secret;
                    allowed = own_key (inr (sym env, stored));
                    seals = seals;
                  },
                )
            | inr neither ↦ cc (rw (token_of_separate, have_one, not_live, neither) at h)
          ]
        ]
      ]

  unified-Vouched :
      (hint : Option GatewayEnv)
      → is_unified_gateway_api_key m ≡ true
      → token_of_unified c s body_of token hint m ≡ accepted n e
      → (m ≡ n) × Vouched c s body_of token m e
  unfolding token_of_unified
  unified-Vouched hint one h =
      elim (Bool-cases (is_missing (or_else (live_secret c s m) (sandbox_secret c s m)))) [
        | inl missing ↦ cc (rw (token_of_unified, missing) at h)
        | inr have_one ↦
            elim (Bool-cases
              (verifies c body_of token (or_else (live_secret c s m) (sandbox_secret c s m)))) [
                | inl ok ↦
                    let (same, env) =
                      accepted-injective m n _ e (rw (token_of_unified, have_one, ok) at h) in
                    let (secret, stored, seals) =
                      verifies-Seals c body_of token
                        (or_else (live_secret c s m) (sandbox_secret c s m)) ok in
                    (
                      same,
                      record {
                        secret = secret;
                        allowed =
                            one_key one
                              (either (live_secret c s m) (sandbox_secret c s m) secret stored);
                        seals = seals;
                      },
                    )
                | inr failed ↦ cc (rw (token_of_unified, have_one, failed) at h)
              ]
      ]

  merchant-Vouched :
      (hint : Option GatewayEnv)
      → token_of_merchant c s body_of token hint (some m) ≡ accepted n e
      → (m ≡ n) × Vouched c s body_of token m e
  unfolding token_of_merchant
  merchant-Vouched hint h = elim (Bool-cases (is_unified_gateway_api_key m)) [
    | inl one ↦ unified-Vouched hint one (rw (token_of_merchant, one) at h)
    | inr two ↦ separate-Vouched (rw (token_of_merchant, two) at h)
  ]

-- The merchant stands in the table under the id of the header, active and not deleted, and a stored
-- secret vouches for the token.
pub record ByToken (c : Crypto) (s : KeySettings) (store : Store) (body_of : Sealed)
    (token id : Text) (m : Merchant) (e : GatewayEnv) : Type 0 where
  pub stored : Has m store.merchants
  pub usable : is_usable m ≡ true
  pub named : merchant_where_from_route_param id ≡ some m.id
  pub vouched : Vouched c s body_of token m e

pub resolve_merchant_by_x_token-ByToken :
    (c : Crypto) (s : KeySettings) (store : Store) (body_of : Sealed) (token id : Text)
    (hint : Option GatewayEnv) (m : Merchant) (e : GatewayEnv)
    → resolve_merchant_by_x_token c s store body_of token id hint ≡ accepted m e
    → ByToken c s store body_of token id m e
unfolding resolve_merchant_by_x_token token_of_merchant
resolve_merchant_by_x_token-ByToken c s store body_of token id hint m e h =
    elim (Option-cases (merchant_where_from_route_param id)) [
      | inl k ↦ cc (rw (resolve_merchant_by_x_token, k) at h)
      | inr (i, k) ↦ elim (Option-cases (find (is_usable_merchant i) store.merchants)) [
        | inl f ↦ cc (rw (resolve_merchant_by_x_token, k, f, token_of_merchant) at h)
        | inr (n, f) ↦
            let (same, vouched) =
              merchant-Vouched c s body_of token n m e hint
                (rw (resolve_merchant_by_x_token, k, f) at h) in
            let (has, is) = find-Has (is_usable_merchant i) store.merchants f in
            subst (λ x. ByToken c s store body_of token id x e) same
              (record {
                stored = has;
                usable = ground (arith, is);
                named = k ∙ ap some (sym ((==_iff n.id i).0 (ground (arith, is))));
                vouched = vouched;
              })
      ]
    ]
