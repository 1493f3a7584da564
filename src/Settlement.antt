-- ===== src/Settlement.antt =====
-- A settlement batch: server/src/services/settlement-batch.js. Here are its choice of rows and
-- previewBatchFromTxRows; executeBatchSettlement is in Settlement/Execute. Amounts are texts that BigInt reads, unbounded integers.
pub mod Totals
pub mod Execute
pub mod Batch
pub mod Once
pub mod Funded
pub mod Refusals
use crypto_gateway_rp.Common.{
  ℕ, ◌-◌, ◌*◌, Bool, true, false, ◌&&◌, ◌||◌, Option, none, some, List, [], ◌∷◌, map, ℤ, pos, ltb,
  ltb_ℤ, ◌+ℤ◌, ◌==◌, if◌then◌else◌, filter, any, is_none, length,
}
use crypto_gateway_rp.Numeric.{NumberOps}
use crypto_gateway_rp.Text.{Text, eq_text, big_int}
use crypto_gateway_rp.Fee.{Result, ok, thrown, SequentialSplit, split_fees_sequential_from_gross}
use crypto_gateway_rp.Amount.{net_strictly_above_min_settlement_human}
use crypto_gateway_rp.Store.{
  Chain, success, underpaid, eq_chain, eq_status, eq_env, is_active, GatewayEnv, Wallet,
  Transaction, Store,
}
use crypto_gateway_rp.Store.Queries.{oldest_first}

-- Whose rows, and of which asset.
pub record Asset : Type 0 where
  pub merchant_id : ℕ
  pub environment : GatewayEnv
  pub chain : Chain
  pub token_symbol : Text
  pub token_decimals : ℕ

abbrev pub is_on_merchant_wallet : Store → Asset → Transaction → Bool
is_on_merchant_wallet store asset t =
    any
      (λ (w : Wallet).
        w.id == t.wallet_id
        && w.merchant_id == asset.merchant_id
        && eq_env w.environment asset.environment
        && is_active w.deleted_at)
      store.wallets

-- A period of 0 days is no waiting period.
abbrev pub is_past_period : ℕ → ℕ → Transaction → Bool
is_past_period now period_days t =
    period_days == 0 || ltb t.created_at (now - period_days * 86_400_000)

unfoldable pub is_unsettled_credit : Store → Asset → ℕ → ℕ → Transaction → Bool
is_unsettled_credit store asset now period_days t =
    is_active t.deleted_at
    && (eq_status t.status success || eq_status t.status underpaid)
    && is_none t.merchant_settlement_id
    && eq_chain t.chain asset.chain
    && eq_text t.token_symbol asset.token_symbol
    && t.token_decimals == asset.token_decimals
    && is_on_merchant_wallet store asset t
    && is_past_period now period_days t

unfoldable pub load_unsettled_success_transactions : Store → Asset → ℕ → ℕ → List Transaction
unfolding is_unsettled_credit oldest_first
load_unsettled_success_transactions store asset now period_days =
    oldest_first (filter (is_unsettled_credit store asset now period_days) store.transactions)

-- `none` is the SyntaxError of BigInt on an amount that is no integer.
unfoldable pub sum_tx_amounts : ℤ → List Transaction → Option ℤ
sum_tx_amounts sum [] = some sum
sum_tx_amounts sum (t ∷ ts) = elim (big_int t.amount) [
  | none ↦ none
  | some a ↦ sum_tx_amounts (sum +ℤ a) ts
]

-- The amounts, which the source prints. The two percentages, passed on unchanged, are left out.
pub record Preview : Type 0 where
  pub transaction_count : ℕ
  pub transaction_ids : List ℕ
  pub gross_raw : ℤ
  pub mdr_amount_raw : ℕ
  pub after_mdr_raw : ℕ
  pub settlement_fee_raw : ℕ
  pub net_to_merchant_raw : ℕ
  pub meets_min : Bool

abbrev pub empty_preview : Preview
empty_preview = record {
  transaction_count = 0;
  transaction_ids = [];
  gross_raw = pos 0;
  mdr_amount_raw = 0;
  after_mdr_raw = 0;
  settlement_fee_raw = 0;
  net_to_merchant_raw = 0;
  meets_min = false;
}

abbrev pub charged_preview : List Transaction → ℤ → Text → ℕ → SequentialSplit → Preview
charged_preview rows gross min_settlement token_decimals fees = record {
  transaction_count = length rows;
  transaction_ids = map (λ (t : Transaction). t.id) rows;
  gross_raw = gross;
  mdr_amount_raw = fees.mdr_amount;
  after_mdr_raw = fees.after_mdr_amount;
  settlement_fee_raw = fees.settlement_fee_amount;
  net_to_merchant_raw = fees.net_amount;
  meets_min = net_strictly_above_min_settlement_human fees.net_amount min_settlement token_decimals;
}

module _ (js : NumberOps) where
  open js use {Number}

  abbrev pub preview_of_fees :
      List Transaction → ℤ → Text → ℕ → Result SequentialSplit → Result Preview
  preview_of_fees rows gross min_settlement token_decimals (thrown e) = thrown e
  preview_of_fees rows gross min_settlement token_decimals (ok fees) =
      ok (charged_preview rows gross min_settlement token_decimals fees)

  abbrev pub preview_of_gross : List Transaction → Number → Number → Text → ℕ → ℤ → Result Preview
  preview_of_gross rows mdr_percent settlement_percent min_settlement token_decimals gross =
      if length rows == 0 || ltb_ℤ gross (pos 1)
      then ok empty_preview
      else preview_of_fees rows gross min_settlement token_decimals
          (split_fees_sequential_from_gross js gross mdr_percent settlement_percent)

  unfoldable pub preview_batch_from_tx_rows :
      List Transaction → Number → Number → Text → ℕ → Option (Result Preview)
  unfolding sum_tx_amounts
  preview_batch_from_tx_rows rows mdr_percent settlement_percent min_settlement token_decimals =
      elim (sum_tx_amounts (pos 0) rows) [
        | none ↦ none
        | some gross ↦ some (
            preview_of_gross rows mdr_percent settlement_percent min_settlement token_decimals
              gross)
      ]
