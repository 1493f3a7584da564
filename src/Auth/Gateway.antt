-- ===== src/Auth/Gateway.antt =====
-- The merchant of a request: server/src/lib/gateway-request-auth.js and gateway-merchant-auth.js, with the
-- environment hints of merchant-gateway-env.js. The messages of the refusals are left out.
use crypto_gateway_rp.Common.{
  ℕ, Bool, true, false, ◌&&◌, ◌||◌, Option, none, some, [], leb, ◌==◌, if◌then◌else◌, find, or_else,
  get_or,
}
use crypto_gateway_rp.Text.{Text, codes, eq_text, trim, to_lower_case, is_number, decimal}
use crypto_gateway_rp.Store.{GatewayEnv, eq_env, Merchant, Store, is_active}
use crypto_gateway_rp.Checkout.{non_empty, trimmed_key}
use crypto_gateway_rp.Auth.Json.{
  Json, null, text, object, Members, no_members, member, property, string_of,
}
use crypto_gateway_rp.Auth.Sealed.{
  Crypto, KeySettings, verify_gateway_body_x_token, decrypt_merchant_api_key,
}

-- The headers as texts, and the body where it is a JSON object.
pub record Request : Type 0 where
  pub x_token : Option Text
  pub x_merchant_id : Option Text
  pub body : Option Members

pub data AuthError : Type 0 where
  x_merchant_id_required ambiguous_gateway_auth invalid_api_key gateway_auth_required : AuthError
  malformed_x_merchant_id unknown_x_merchant_id gateway_secret_unavailable invalid_x_token :
      AuthError

unfoldable pub status_of : AuthError → ℕ
status_of AuthError.x_merchant_id_required = 400
status_of AuthError.ambiguous_gateway_auth = 400
status_of AuthError.invalid_api_key = 401
status_of AuthError.gateway_auth_required = 400
status_of AuthError.malformed_x_merchant_id = 400
status_of AuthError.unknown_x_merchant_id = 401
status_of AuthError.gateway_secret_unavailable = 503
status_of AuthError.invalid_x_token = 401

pub data AuthResult : Type 0 where
  accepted : Merchant → GatewayEnv → AuthResult
  refused : AuthError → AuthResult

unfoldable pub hash_api_key : Crypto → Text → Text
hash_api_key c secret = c.hex (c.sha256 (c.utf8 (trim secret)))

abbrev pub has_text : Text → Option Text → Bool
has_text t none = false
has_text t (some s) = eq_text s t

unfoldable pub is_unified_gateway_api_key : Merchant → Bool
is_unified_gateway_api_key m = elim (non_empty m.api_key_hash) [
  | none ↦ false
  | some h ↦ has_text h m.sandbox_api_key_hash
]

-- `a ?? b` of two members, then `String(...)`.
abbrev defined : Option Json → Option Json
defined none = none
defined (some null) = none
defined (some v) = some v

abbrev string_or_empty : Option Json → Text
string_or_empty none = []
string_or_empty (some v) = string_of v

abbrev environment_of : Text → Option GatewayEnv
environment_of v =
    if eq_text v (codes "sandbox")
    then some GatewayEnv.sandbox
    else if eq_text v (codes "live")
    then some GatewayEnv.live
    else none

unfoldable pub parse_gateway_environment_from_body : Members → Option GatewayEnv
unfolding string_of property
parse_gateway_environment_from_body body = environment_of (
    to_lower_case (
      trim (
        string_or_empty (
          or_else (defined (property (codes "gateway_environment") body))
            (defined (property (codes "gatewayEnvironment") body))))))

abbrev pub portal_key_type : Merchant → GatewayEnv
portal_key_type m =
    if eq_env m.portal_environment GatewayEnv.sandbox then GatewayEnv.sandbox else GatewayEnv.live

unfoldable pub merchant_where_from_route_param : Text → Option ℕ
merchant_where_from_route_param raw =
    let s = trim raw in if is_number s && leb 1 (decimal s) then some (decimal s) else none

abbrev pub is_usable : Merchant → Bool
is_usable m = m.is_active_account && is_active m.deleted_at

abbrev pub is_usable_merchant : ℕ → Merchant → Bool
is_usable_merchant id m = m.id == id && is_usable m

abbrev pub has_hash : Text → Merchant → Bool
has_hash h m = is_usable m && (has_text h m.api_key_hash || has_text h m.sandbox_api_key_hash)

-- An exception of the decryption gives null.
abbrev pub stored_secret : Crypto → KeySettings → Option Text → Option Text
stored_secret c s cipher = elim (non_empty cipher) [
  | none ↦ none
  | some blob ↦ decrypt_merchant_api_key c s blob
]

abbrev pub live_secret : Crypto → KeySettings → Merchant → Option Text
live_secret c s m = stored_secret c s m.api_key_cipher

abbrev pub sandbox_secret : Crypto → KeySettings → Merchant → Option Text
sandbox_secret c s m = stored_secret c s m.sandbox_api_key_cipher

-- What the token has to seal, from the secret: the body, or an envelope of the secret.
abbrev pub Sealed : Type 0
Sealed = Text → Json

unfoldable pub verifies : Crypto → Sealed → Text → Option Text → Bool
verifies c body_of x_token secret = elim (non_empty secret) [
  | none ↦ false
  | some s ↦ verify_gateway_body_x_token c (body_of s) x_token s
]

abbrev pub is_missing : Option Text → Bool
is_missing s = elim (non_empty s) [ none ↦ true | some t ↦ false ]

unfoldable pub token_of_unified :
    Crypto → KeySettings → Sealed → Text → Option GatewayEnv → Merchant → AuthResult
unfolding verifies
token_of_unified c s body_of x_token hint m =
    let secret = or_else (live_secret c s m) (sandbox_secret c s m) in
    if is_missing secret
    then refused AuthError.gateway_secret_unavailable
    else if verifies c body_of x_token secret
    then accepted m (get_or hint (portal_key_type m))
    else refused AuthError.invalid_x_token

unfoldable pub token_of_separate : Crypto → KeySettings → Sealed → Text → Merchant → AuthResult
unfolding verifies
token_of_separate c s body_of x_token m =
    if is_missing (live_secret c s m) && is_missing (sandbox_secret c s m)
    then refused AuthError.gateway_secret_unavailable
    else if verifies c body_of x_token (live_secret c s m)
    then accepted m GatewayEnv.live
    else if verifies c body_of x_token (sandbox_secret c s m)
    then accepted m GatewayEnv.sandbox
    else refused AuthError.invalid_x_token

unfoldable pub token_of_merchant :
    Crypto → KeySettings → Sealed → Text → Option GatewayEnv → Option Merchant → AuthResult
unfolding token_of_unified token_of_separate is_unified_gateway_api_key
token_of_merchant c s body_of x_token hint none = refused AuthError.unknown_x_merchant_id
token_of_merchant c s body_of x_token hint (some m) =
    if is_unified_gateway_api_key m
    then token_of_unified c s body_of x_token hint m
    else token_of_separate c s body_of x_token m

unfoldable pub resolve_merchant_by_x_token :
    Crypto → KeySettings → Store → Sealed → Text → Text → Option GatewayEnv → AuthResult
unfolding token_of_merchant merchant_where_from_route_param
resolve_merchant_by_x_token c s store body_of x_token x_merchant_id hint =
    elim (merchant_where_from_route_param x_merchant_id) [
      | none ↦ refused AuthError.malformed_x_merchant_id
      | some id ↦
          token_of_merchant c s body_of x_token hint (find (is_usable_merchant id) store.merchants)
    ]

unfoldable pub key_type_of_hash : Text → Option GatewayEnv → Merchant → GatewayEnv
unfolding is_unified_gateway_api_key
key_type_of_hash h forced m =
    if is_unified_gateway_api_key m
    then get_or forced (portal_key_type m)
    else if has_text h m.api_key_hash
    then GatewayEnv.live
    else GatewayEnv.sandbox

unfoldable pub resolve_merchant_by_gateway_api_key :
    Crypto → Store → Text → Option GatewayEnv → Option (Merchant × GatewayEnv)
unfolding hash_api_key key_type_of_hash
resolve_merchant_by_gateway_api_key c store key forced = elim (trimmed_key (some key)) [
  | none ↦ none
  | some k ↦ elim (find (has_hash (hash_api_key c k)) store.merchants) [
    | none ↦ none
    | some m ↦ some (m, key_type_of_hash (hash_api_key c k) forced m)
  ]
]

abbrev pub text_member : Option Json → Option Text
text_member (some (text t)) = some t
text_member _ = none

abbrev pub body_of_request : Request → Members
body_of_request r = get_or r.body no_members

unfoldable pub api_key_of : Members → Option Text
unfolding property
api_key_of body = trimmed_key (text_member (property (codes "api_key") body))

abbrev pub by_api_key : Option (Merchant × GatewayEnv) → AuthResult
by_api_key none = refused AuthError.invalid_api_key
by_api_key (some (m, e)) = accepted m e

unfoldable pub authenticate_gateway_json_post : Crypto → KeySettings → Store → Request → AuthResult
unfolding resolve_merchant_by_x_token resolve_merchant_by_gateway_api_key api_key_of
    parse_gateway_environment_from_body
authenticate_gateway_json_post c s store r =
    let body = body_of_request r in
    let hint = parse_gateway_environment_from_body body in
    elim (trimmed_key r.x_token) [
      | some token ↦ elim (trimmed_key r.x_merchant_id) [
        | none ↦ refused AuthError.x_merchant_id_required
        | some id ↦ elim (api_key_of body) [
          | some key ↦ refused AuthError.ambiguous_gateway_auth
          | none ↦ resolve_merchant_by_x_token c s store (λ secret. object body) token id hint
        ]
      ]
      | none ↦ elim (api_key_of body) [
        | some key ↦ by_api_key (resolve_merchant_by_gateway_api_key c store key hint)
        | none ↦ refused AuthError.gateway_auth_required
      ]
    ]

abbrev pub envelope : Sealed
envelope secret = object (member (codes "api_key") (text secret) no_members)

-- The request's query gives the hint.
unfoldable pub authenticate_gateway_supported_currency_get :
    Crypto → KeySettings → Store → Request → Option GatewayEnv → AuthResult
unfolding resolve_merchant_by_x_token
authenticate_gateway_supported_currency_get c s store r hint = elim (trimmed_key r.x_token) [
  | none ↦ refused AuthError.gateway_auth_required
  | some token ↦ elim (trimmed_key r.x_merchant_id) [
    | none ↦ refused AuthError.gateway_auth_required
    | some id ↦ resolve_merchant_by_x_token c s store envelope token id hint
  ]
]
