-- ===== src/Balance.antt =====
-- The balance of a merchant: server/src/services/merchant-balance.js. The sums are PostgreSQL's, over
-- texts cast to numeric, and the order of the buckets is localeCompare's, so both are a parameter.
pub mod Ledger
pub mod Sums
pub mod Value
use crypto_gateway_rp.Common.{
  ℕ, suc, ◌+◌, Bool, true, false, ◌&&◌, ◌||◌, ◌≡◌, Option, none, some, List, [], ◌∷◌, ◌++◌, map, ℤ,
  pos, ◌-ℤ◌, ltb_ℤ, ltb, ◌==◌, if◌then◌else◌, filter, any, is_empty, is_some, is_none, get_or, Eq,
  lookup, insert, All,
}
use crypto_gateway_rp.Text.{
  Text, codes, eq_text, trim, sql_trim, before_dot, after_dot, big_int, are_digits, decimal,
}
use crypto_gateway_rp.Store.{
  Chain, TxStatus, success, underpaid, completed, eq_chain, eq_status, eq_withdrawal_status, eq_env,
  is_active, GatewayEnv, Wallet, Transaction, Withdrawal, MerchantSettlement, Merchant, Store,
}

-- The key `${chain}:${tokenSymbol}:${tokenDecimals}`.
pub record Token : Type 0 where
  pub chain : Chain
  pub symbol : Text
  pub decimals : ℕ

abbrev pub same_token : Token → Token → Bool
same_token a b = eq_chain a.chain b.chain && eq_text a.symbol b.symbol && a.decimals == b.decimals

-- A text of one or more digits, as the code writes amounts.
abbrev pub IsAmount : Text → Type 0
IsAmount s = (are_digits s ≡ true) × (is_empty s ≡ false)

abbrev pub total_decimal : List Text → ℕ
total_decimal [] = 0
total_decimal (s ∷ ss) = decimal s + total_decimal ss

-- `localeCompare(a, b) <= 0`, and `SUM(x::numeric)::text`: `none` is a failed cast; on one or more texts of digits it is the sum.
pub record Engine : Type 0 where
  pub locale_at_most : Text → Text → Bool
  pub sum_of : List Text → Option Text
  pub sum_digits :
      (ss : List Text)
      → All IsAmount ss
      → is_empty ss ≡ false
      → (r : Text) × (sum_of ss ≡ some r) × IsAmount r × (decimal r ≡ total_decimal ss)

-- `none` is the SyntaxError of BigInt.
unfoldable pub big_int_from_pg_numeric_text : Text → Option ℤ
unfolding trim before_dot after_dot
big_int_from_pg_numeric_text s =
    let t = trim s in
    let i = if is_some (after_dot t) then before_dot t else t in
    if is_empty t || eq_text t (codes "0")
    then some (pos 0)
    else if is_empty i || eq_text i (codes "-")
    then some (pos 0)
    else big_int i

abbrev pub is_merchant_wallet : Store → ℕ → GatewayEnv → ℕ → Bool
is_merchant_wallet store merchant_id env wallet_id =
    any
      (λ (w : Wallet).
        w.id == wallet_id
        && w.merchant_id == merchant_id
        && eq_env w.environment env
        && is_active w.deleted_at)
      store.wallets

unfoldable pub is_inbound_credit : Store → ℕ → GatewayEnv → Transaction → Bool
is_inbound_credit store merchant_id env t =
    (eq_status t.status success || eq_status t.status underpaid)
    && is_active t.deleted_at
    && is_merchant_wallet store merchant_id env t.wallet_id

unfoldable pub is_completed_payout : ℕ → GatewayEnv → Withdrawal → Bool
is_completed_payout merchant_id env w =
    w.merchant_id == merchant_id
    && is_active w.deleted_at
    && eq_withdrawal_status w.status completed
    && eq_env w.environment env

unfoldable pub is_settlement_of : ℕ → GatewayEnv → MerchantSettlement → Bool
is_settlement_of merchant_id env s =
    s.merchant_id == merchant_id && is_active s.deleted_at && eq_env s.environment env

-- `COALESCE(NULLIF(TRIM(gross_amount), ''), amount)`
abbrev pub debited_amount : Withdrawal → Text
debited_amount w = elim w.gross_amount [
  | none ↦ w.amount
  | some g ↦ if is_empty (sql_trim g) then w.amount else sql_trim g
]

abbrev pub token_of_credit : Transaction → Token
token_of_credit t = record { chain = t.chain; symbol = t.token_symbol; decimals = t.token_decimals }

abbrev pub token_of_payout : Withdrawal → Token
token_of_payout w = record { chain = w.chain; symbol = w.token_symbol; decimals = w.token_decimals }

abbrev pub token_of_settlement : MerchantSettlement → Token
token_of_settlement s = record {
  chain = s.chain;
  symbol = s.token_symbol;
  decimals = s.token_decimals;
}

-- The rows of the three queries before they are grouped.
unfoldable pub inbound_amounts : Store → ℕ → GatewayEnv → List (Token × Text)
unfolding is_inbound_credit
inbound_amounts store merchant_id env =
    map (λ (t : Transaction). (token_of_credit t, t.amount))
      (filter (is_inbound_credit store merchant_id env) store.transactions)

unfoldable pub payout_amounts : Store → ℕ → GatewayEnv → List (Token × Text)
unfolding is_completed_payout
payout_amounts store merchant_id env =
    map (λ (w : Withdrawal). (token_of_payout w, debited_amount w))
      (filter (is_completed_payout merchant_id env) store.withdrawals)

unfoldable pub settlement_amounts : Store → ℕ → GatewayEnv → List (Token × Text)
unfolding is_settlement_of
settlement_amounts store merchant_id env =
    map (λ (s : MerchantSettlement). (token_of_settlement s, s.net_amount))
      (filter (is_settlement_of merchant_id env) store.settlements)
