-- ===== src/Examples/Auth.antt =====
-- Concrete requests to the gateway.
use crypto_gateway_rp.Common.{
  ℕ, ◌≡◌, refl, true, none, some, List, [], ◌∷◌, ◌++◌, if◌then◌else◌, length, replicate, take,
  arith,
}
use crypto_gateway_rp.Text.{Text, codes, eq_text, trim, decimal}
use crypto_gateway_rp.Store.{GatewayEnv, Merchant, Store}
use crypto_gateway_rp.Checkout.{trimmed_key}
use crypto_gateway_rp.Auth.Json.{
  text, object, number, Members, no_members, member, canonical_json_stringify, lt_text,
}
use crypto_gateway_rp.Auth.Canonical.{in_object, exchange, canonical_json_stringify-Reordered}
use crypto_gateway_rp.Auth.Sealed.{
  Crypto, KeySettings, derive_x_token_aes_key, encrypt_gateway_x_token, encrypt_merchant_api_key,
  sealed_blob, decrypt_merchant_api_key, opened_bytes, get_key32,
}
use crypto_gateway_rp.Auth.RoundTrip.{Opens, decrypt-encrypt_merchant_api_key}
use crypto_gateway_rp.Auth.Gateway.{
  Request, accepted, merchant_where_from_route_param, api_key_of, authenticate_gateway_json_post,
  parse_gateway_environment_from_body, is_unified_gateway_api_key,
}
use crypto_gateway_rp.Auth.Proven.{Proven, authenticate_gateway_json_post-Proven}
use crypto_gateway_rp.Auth.Complete.{live_key_type, authenticate_gateway_json_post-sealed}
use crypto_gateway_rp.Examples.{merchant, database}

-- A toy cipher: the tag is cut from the key.
abbrev toy_tag : List ℕ → List ℕ
toy_tag key = take 16 (key ++ replicate 16 0)

abbrev crypto : Crypto
crypto = record {
  utf8 = λ s. s;
  from_utf8 = λ bytes. bytes;
  base64 = λ bytes. bytes;
  from_base64 = λ s. s;
  from_hex = λ s. s;
  hex = λ bytes. bytes;
  sha256 = λ bytes. bytes;
  gcm_seal = λ key iv plain. (toy_tag key, plain);
  gcm_open = λ key iv tag sealed. if eq_text tag (toy_tag key) then some sealed else none;
}

abbrev keys : KeySettings
keys = record { encryption_key = []; jwt_secret = codes "jwt" }

abbrev vector : List ℕ
vector = replicate 12 b'i'

toy-Opens :
    (key : List ℕ) (plain : Text)
    → length (toy_tag key) ≡ 16
    → eq_text (toy_tag key) (toy_tag key) ≡ true
    → Opens crypto key vector plain
toy-Opens key plain h k = record {
  vector = refl;
  tag = h;
  stream = refl;
  opens = rw k refl;
  well_formed = refl;
  base64 = λ bytes. refl;
}

decrypt-encrypt_merchant_api_key_example :
    decrypt_merchant_api_key crypto keys
      (encrypt_merchant_api_key crypto keys vector (codes "cpg_1"))
    ≡ some (codes "cpg_1")
unfolding get_key32
decrypt-encrypt_merchant_api_key_example =
    decrypt-encrypt_merchant_api_key crypto keys vector (codes "cpg_1")
      (toy-Opens (codes "jwt") (codes "cpg_1") refl refl) (omega arith)

abbrev body : Members
body =
    member (codes "user") (text (codes "u1"))
      (member (codes "amount") (number true (codes "5")) no_members)

abbrev sorted_body : Members
sorted_body =
    member (codes "amount") (number true (codes "5"))
      (member (codes "user") (text (codes "u1")) no_members)

canonical_json_stringify-Reordered_example :
    canonical_json_stringify (object body) ≡ canonical_json_stringify (object sorted_body)
canonical_json_stringify-Reordered_example =
    canonical_json_stringify-Reordered (in_object (exchange refl))

abbrev plain_body : Text
plain_body = codes "{\"amount\":5,\"user\":\"u1\"}"

canonical_body : canonical_json_stringify (object body) ≡ some plain_body
unfolding canonical_json_stringify lt_text
canonical_body = refl

abbrev sealing_merchant : Merchant
sealing_merchant = record merchant {
  api_key_cipher = some (vector ++ (toy_tag (codes "jwt") ++ codes "cpg_1"));
}

abbrev sealing_database : Store
sealing_database = record database { merchants = sealing_merchant ∷ [] }

abbrev sealed_request : Request
sealed_request = record {
  x_token = some (encrypt_gateway_x_token crypto vector plain_body (codes "cpg_1"));
  x_merchant_id = some (codes " 3");
  body = some body;
}

sealed_token :
    trimmed_key sealed_request.x_token
    ≡ some (encrypt_gateway_x_token crypto vector plain_body (codes "cpg_1"))
unfolding trimmed_key trim encrypt_gateway_x_token sealed_blob derive_x_token_aes_key
sealed_token = refl

named : merchant_where_from_route_param (codes "3") ≡ some 3
unfolding merchant_where_from_route_param trim decimal
named = refl

header : trimmed_key sealed_request.x_merchant_id ≡ some (codes "3")
unfolding trimmed_key trim
header = refl

no_key : api_key_of body ≡ none
unfolding api_key_of trimmed_key
no_key = refl

opened_secret :
    decrypt_merchant_api_key crypto keys (vector ++ (toy_tag (codes "jwt") ++ codes "cpg_1"))
    ≡ some (codes "cpg_1")
unfolding decrypt_merchant_api_key opened_bytes get_key32
opened_secret = refl

token-Opens : Opens crypto (derive_x_token_aes_key crypto (codes "cpg_1")) vector plain_body
unfolding derive_x_token_aes_key
token-Opens = toy-Opens (codes "cpg_1") plain_body refl refl

is_live :
    live_key_type (parse_gateway_environment_from_body body) sealing_merchant ≡ GatewayEnv.live
unfolding is_unified_gateway_api_key
is_live = refl

authenticate_gateway_json_post-sealed_example :
    authenticate_gateway_json_post crypto keys sealing_database sealed_request
    ≡ accepted sealing_merchant
        (live_key_type (parse_gateway_environment_from_body body) sealing_merchant)
authenticate_gateway_json_post-sealed_example =
    authenticate_gateway_json_post-sealed crypto keys sealing_database sealed_request
      sealing_merchant (codes "3") (codes "cpg_1") plain_body 3 vector sealed_token header named
      refl no_key canonical_body opened_secret refl token-Opens (omega arith)

accepts :
    authenticate_gateway_json_post crypto keys sealing_database sealed_request
    ≡ accepted sealing_merchant
        (live_key_type (parse_gateway_environment_from_body body) sealing_merchant)
accepts =
    authenticate_gateway_json_post-sealed crypto keys sealing_database sealed_request
      sealing_merchant (codes "3") (codes "cpg_1") plain_body 3 vector sealed_token header named
      refl no_key canonical_body opened_secret refl token-Opens (omega arith)

authenticate_gateway_json_post-Proven_example :
    Proven crypto keys sealing_database sealed_request sealing_merchant
      (live_key_type (parse_gateway_environment_from_body body) sealing_merchant)
authenticate_gateway_json_post-Proven_example =
    authenticate_gateway_json_post-Proven crypto keys sealing_database sealed_request
      sealing_merchant (live_key_type (parse_gateway_environment_from_body body) sealing_merchant)
      accepts
