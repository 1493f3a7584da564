-- ===== src/Settlement/Execute.antt =====
-- executeBatchSettlement of server/src/services/settlement-batch.js. The steps inside the database
-- transaction write nothing before the two writes at the end, so a refusal leaves the tables as they
-- were.
use crypto_gateway_rp.Common.{
  ℕ, zero, suc, Bool, true, false, not, ◌&&◌, Option, none, some, List, [], ◌∷◌, map, ℤ, pos,
  pos_part, leb, ◌==◌, if◌then◌else◌, any, find, is_empty, length, lookup,
}
use crypto_gateway_rp.Numeric.{NumberOps}
use crypto_gateway_rp.Text.{Text, trim, print_number}
use crypto_gateway_rp.Fee.{Result, ok, thrown, SequentialSplit, split_fees_sequential_from_gross}
use crypto_gateway_rp.Amount.{net_strictly_above_min_settlement_human}
use crypto_gateway_rp.Store.{is_active, Transaction, Merchant, MerchantSettlement, Admin, Store}
use crypto_gateway_rp.Store.Queries.{update_where}
use crypto_gateway_rp.Balance.{Token, Engine}
use crypto_gateway_rp.Balance.Ledger.{token_Eq, merchant_exists, compute_merchant_balances}
use crypto_gateway_rp.Settlement.{Asset, load_unsettled_success_transactions, sum_tx_amounts}

-- The `code` of the thrown error; `unexpected` is an exception of the database or of BigInt.
pub data SettlementError : Type 0 where
  merchant_not_found no_eligible_transactions fee_calculation : SettlementError
  below_min_settlement_amount proof_required insufficient_balance unexpected : SettlementError

pub data Attempt (A : Type 0) : Type 0 where
  done : A → Attempt A
  refused : SettlementError → Attempt A

infixl 10 ◌>>=◌ ◌>>◌
abbrev pub ◌>>=◌ : {A B : Type 0} → Attempt A → (A → Attempt B) → Attempt B
done a >>= f = f a
refused e >>= f = refused e

abbrev pub ◌>>◌ : {A B : Type 0} → Attempt A → Attempt B → Attempt B
m >> n = m >>= (λ a. n)

abbrev pub or_refuse : {A : Type 0} → Option A → SettlementError → Attempt A
or_refuse none e = refused e
or_refuse (some a) e = done a

abbrev pub refuse_unless : Bool → SettlementError → Attempt Unit
refuse_unless true e = done tt
refuse_unless false e = refused e

abbrev pub of_split : Result SequentialSplit → Attempt SequentialSplit
of_split (ok fees) = done fees
of_split (thrown e) = refused fee_calculation

pub record Request : Type 0 where
  pub asset : Asset
  pub proof_file_name : Option Text
  pub admin_id : Option ℕ

pub record Settled : Type 0 where
  pub row : MerchantSettlement
  pub store : Store

-- resolveMerchantInternalId, and the merchant's row.
unfoldable pub active_merchant : Store → ℕ → Option Merchant
unfolding merchant_exists
active_merchant store id =
    if merchant_exists store id
    then find (λ (m : Merchant). m.id == id && is_active m.deleted_at) store.merchants
    else none

abbrev pub resolve_admin_internal_id : Store → ℕ → Option ℕ
resolve_admin_internal_id store zero = none
resolve_admin_internal_id store (suc id) =
    if any (λ (a : Admin). a.id == suc id && is_active a.deleted_at) store.admins
    then some (suc id)
    else none

abbrev pub created_by : Store → Option ℕ → Option ℕ
created_by store none = none
created_by store (some id) = resolve_admin_internal_id store id

abbrev pub has_proof : Option Text → Bool
has_proof none = false
has_proof (some name) = not (is_empty name) && not (is_empty (trim name))

abbrev pub proof_name : Option Text → Text
proof_name none = []
proof_name (some name) = name

abbrev pub token_of_asset : Asset → Token
token_of_asset a = record { chain = a.chain; symbol = a.token_symbol; decimals = a.token_decimals }

-- `match && BigInt(match.balance_raw) >= fees.netAmount`; the entries are positive.
abbrev pub covers : Option ℤ → ℕ → Bool
covers none net = false
covers (some balance) net = leb net (pos_part balance)

abbrev pub settlement_row :
    Store → ℕ → Request → Merchant → ℕ → SequentialSplit → ℕ → MerchantSettlement
settlement_row store now req merchant gross fees count = record {
  id = store.next_settlement_id;
  merchant_id = req.asset.merchant_id;
  environment = req.asset.environment;
  chain = req.asset.chain;
  token_symbol = req.asset.token_symbol;
  token_decimals = req.asset.token_decimals;
  gross_amount = print_number gross;
  mdr_percent = merchant.mdr_percent;
  settlement_rate_percent = merchant.settlement_rate_percent;
  mdr_amount = print_number fees.mdr_amount;
  settlement_fee_amount = print_number fees.settlement_fee_amount;
  net_amount = print_number fees.net_amount;
  proof_file_name = proof_name req.proof_file_name;
  created_by_admin_id = created_by store req.admin_id;
  transaction_count = count;
  created_at = now;
  deleted_at = none;
}

-- `where: { id: { in: txs.map((t) => t.id) }, ...ACTIVE }`
abbrev pub is_among : List ℕ → Transaction → Bool
is_among ids t = any (λ id. id == t.id) ids && is_active t.deleted_at

abbrev pub settle_with : ℕ → Transaction → Transaction
settle_with id t = record t { merchant_settlement_id = some id }

abbrev pub ids_of : List Transaction → List ℕ
ids_of rows = map (λ (t : Transaction). t.id) rows

abbrev pub write_settlement : Store → MerchantSettlement → List ℕ → Store
write_settlement store row ids = record store {
  settlements = row ∷ store.settlements;
  next_settlement_id = suc store.next_settlement_id;
  transactions = update_where (is_among ids) (settle_with row.id) store.transactions;
}

module _ (js : NumberOps) (sql : Engine) where
  open js use {of_text}

  -- The steps inside the transaction, for the rows that were loaded. A gross below 0 is refused by
  -- the split, so its text is that of a natural number.
  unfoldable pub settle_rows : ℕ → Store → Request → Merchant → List Transaction → Attempt Settled
  unfolding sum_tx_amounts trim print_number
  settle_rows now store req merchant rows = do
    refuse_unless (not (is_empty rows)) no_eligible_transactions
    gross ← or_refuse (sum_tx_amounts (pos 0) rows) unexpected
    fees ← of_split (
        split_fees_sequential_from_gross js gross (of_text merchant.mdr_percent)
          (of_text merchant.settlement_rate_percent))
    refuse_unless
        (net_strictly_above_min_settlement_human fees.net_amount merchant.min_settlement_amount
          req.asset.token_decimals)
        below_min_settlement_amount
    refuse_unless (has_proof req.proof_file_name) proof_required
    balances ←
        or_refuse (compute_merchant_balances sql store req.asset.merchant_id req.asset.environment)
          unexpected
    refuse_unless (covers (lookup (token_of_asset req.asset) balances) fees.net_amount)
        insufficient_balance
    let row = settlement_row store now req merchant (pos_part gross) fees (length rows)
    done (record { row = row; store = write_settlement store row (ids_of rows) })

  unfoldable pub execute_batch_settlement : ℕ → Store → Request → Attempt Settled
  unfolding active_merchant settle_rows
  execute_batch_settlement now store req = do
    merchant ← or_refuse (active_merchant store req.asset.merchant_id) merchant_not_found
    settle_rows now store req merchant
        (load_unsettled_success_transactions store req.asset now merchant.settlement_period_days)
