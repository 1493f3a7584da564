-- ===== src/Withdrawal.antt =====
-- What a payout request is checked for: server/src/services/merchant-withdrawal-request.js, its helpers.
-- The requests themselves are in Withdrawal/Request.
pub mod Request
pub mod Patch
pub mod Created
pub mod Steps
pub mod Funded
use crypto_gateway_rp.Common.{
  ℕ, Bool, true, false, ◌&&◌, ◌||◌, not, Option, none, some, List, [], ◌==◌, ◌++◌, ltb,
  if◌then◌else◌, get_or, is_empty, any,
}
use crypto_gateway_rp.Text.{Text, codes, eq_text, trim, to_upper_case}
use crypto_gateway_rp.Amount
use crypto_gateway_rp.Amount.{AmountError, is_zero_setting, parse_human_min_settlement_to_atomic}
use crypto_gateway_rp.Store.{
  Chain, GatewayEnv, WithdrawalStatus, processing, eq_withdrawal_status, eq_env, Withdrawal, Store,
  is_active,
}
use crypto_gateway_rp.Payout.Policy.{trimmed}

pub record Rail : Type 0 where
  pub chain : Chain
  pub token_decimals : ℕ

abbrev pub usdt : Text
usdt = codes "USDT"

abbrev rail_on : Chain → Rail
rail_on chain = record { chain = chain; token_decimals = 6 }

unfoldable pub resolve_merchant_withdrawal_rail : Option Text → Option Text → Option Rail
unfolding trim to_upper_case
resolve_merchant_withdrawal_rail chain_input token_input =
    let c = to_upper_case (trim (get_or chain_input [])) in
    let t = to_upper_case (trim (get_or token_input [])) in
    if not (eq_text t usdt)
    then none
    else if eq_text c (codes "TRON")
    then some (rail_on Chain.tron)
    else if eq_text c (codes "ETH") || eq_text c (codes "ETHEREUM")
    then some (rail_on Chain.eth)
    else none

-- The `error` of an answer that is not ok.
pub data RequestError : Type 0 where
  unsupported_withdrawal_rail to_address_required invalid_tron_address : RequestError
  invalid_evm_address amount_required invalid_amount : RequestError
  payout_already_pending client_reference_exists : RequestError
  amount_error : AmountError → RequestError

-- The HTTP status of it.
abbrev pub status_of : RequestError → ℕ
status_of payout_already_pending = 409
status_of client_reference_exists = 409
status_of _ = 400

-- `thrown` is an exception of the database or of BigInt.
pub data Answer (A : Type 0) : Type 0 where
  answered : A → Answer A
  rejected : RequestError → Answer A
  thrown : Answer A

infixl 10 ◌>>=◌ ◌>>◌
abbrev pub ◌>>=◌ : {A B : Type 0} → Answer A → (A → Answer B) → Answer B
answered a >>= f = f a
rejected e >>= f = rejected e
thrown >>= f = thrown

abbrev pub ◌>>◌ : {A B : Type 0} → Answer A → Answer B → Answer B
m >> n = m >>= (λ a. n)

abbrev pub or_reject : {A : Type 0} → Option A → RequestError → Answer A
or_reject none e = rejected e
or_reject (some a) e = answered a

abbrev pub or_throw : {A : Type 0} → Option A → Answer A
or_throw none = thrown
or_throw (some a) = answered a

abbrev pub reject_if : Bool → RequestError → Answer Unit
reject_if true e = rejected e
reject_if false e = answered tt

-- The two address libraries; `none` is their exception.
pub record AddressLibrary : Type 0 where
  pub tron_to_hex : Text → Option Text
  pub get_address : Text → Option Text

checked_address : Option Text → Text → RequestError → Answer Text
checked_address none raw e = rejected e
checked_address (some hex) raw e = answered raw

unfoldable pub normalize_withdrawal_to_address : AddressLibrary → Chain → Option Text → Answer Text
unfolding checked_address trimmed
normalize_withdrawal_to_address lib chain to_raw =
    let raw = trimmed to_raw in
    if is_empty raw then rejected to_address_required else elim chain [
      | Chain.tron ↦ checked_address (lib.tron_to_hex raw) raw invalid_tron_address
      | _ ↦ or_reject (lib.get_address raw) invalid_evm_address
    ]

-- `status: { in: [pending, processing] }`
abbrev pub is_open_status : WithdrawalStatus → Bool
is_open_status status =
    eq_withdrawal_status status WithdrawalStatus.pending || eq_withdrawal_status status processing

abbrev pub is_open_payout : ℕ → GatewayEnv → Withdrawal → Bool
is_open_payout merchant_id env w =
    w.merchant_id == merchant_id
    && eq_env w.environment env
    && is_open_status w.status
    && is_active w.deleted_at

unfoldable pub merchant_has_pending_payout : Store → ℕ → GatewayEnv → Bool
merchant_has_pending_payout store merchant_id env =
    any (is_open_payout merchant_id env) store.withdrawals

-- The error of a limit, and its message, as they go into the failure reason.
pub record LimitBreach : Type 0 where
  pub error : Text
  pub message : Text

-- `parseHumanMinSettlementToAtomic` on a limit that is not a zero.
abbrev invalid_config : Text → LimitBreach
invalid_config bound = record {
  error = codes "invalid_payout_" ++ bound ++ codes "_config";
  message = codes "Merchant payout " ++ bound ++ codes "imum is misconfigured (portal settings).";
}

minimum_breach : ℕ → Text → Amount.Result ℕ → Option LimitBreach
minimum_breach gross human (Amount.Result.err e) = some (invalid_config (codes "min"))
minimum_breach gross human (Amount.Result.ok value) =
    if ltb gross value
    then some (record {
      error = codes "below_merchant_payout_minimum";
      message = codes "Gross amount is below your minimum payout (" ++ human ++ codes " USDT).";
    })
    else none

maximum_breach : ℕ → Text → Amount.Result ℕ → Option LimitBreach
maximum_breach gross human (Amount.Result.err e) = some (invalid_config (codes "max"))
maximum_breach gross human (Amount.Result.ok value) =
    if ltb 0 value && ltb value gross
    then some (record {
      error = codes "above_merchant_payout_maximum";
      message = codes "Gross amount exceeds your maximum payout (" ++ human ++ codes " USDT).";
    })
    else none

-- The text of a limit, where it is one; an absent one is "0".
limit_text : Option Text → Text
unfolding trimmed
limit_text none = codes "0"
limit_text (some s) = trimmed (some s)

unfoldable pub minimum_of : ℕ → Option Text → ℕ → Option LimitBreach
unfolding minimum_breach limit_text parse_human_min_settlement_to_atomic
minimum_of gross payout_min_human decimals =
    let s = limit_text payout_min_human in
    if is_zero_setting s
    then none
    else minimum_breach gross s (parse_human_min_settlement_to_atomic s decimals)

unfoldable pub maximum_of : ℕ → Option Text → ℕ → Option LimitBreach
unfolding maximum_breach limit_text parse_human_min_settlement_to_atomic
maximum_of gross payout_max_human decimals =
    let s = limit_text payout_max_human in
    if is_zero_setting s
    then none
    else maximum_breach gross s (parse_human_min_settlement_to_atomic s decimals)

-- `none` is `{ ok: true }`.
unfoldable pub validate_gross_against_merchant_payout_limits :
    ℕ → Option Text → Option Text → ℕ → Option LimitBreach
unfolding minimum_of maximum_of
validate_gross_against_merchant_payout_limits gross payout_min_human payout_max_human decimals =
    elim (minimum_of gross payout_min_human decimals) [
      | some breach ↦ some breach
      | none ↦ maximum_of gross payout_max_human decimals
    ]
