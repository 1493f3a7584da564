-- ===== src/Deposit.antt =====
-- Deposit rows: server/src/services/payment/transaction-upsert.js, the only writer of on-chain credits,
-- with releaseWalletAfterDepositSuccess of cron/src/services/wallet-pool/wallet-pool-release.js.
pub mod Parts
pub mod Target
pub mod Preserve
pub mod Unique
pub mod Final
pub mod Recorded
pub mod Wallets
pub mod Kept
pub mod Session
use crypto_gateway_rp.Common.{
  ℕ, suc, Bool, true, false, ◌&&◌, ◌||◌, not, Option, none, some, List, [], ◌∷◌, ◌==◌,
  if◌then◌else◌, is_some, is_none, or_else, find,
}
use crypto_gateway_rp.Text.{Text, eq_text}
use crypto_gateway_rp.Store.{
  TxStatus, success, underpaid, created, eq_status, is_active, Wallet, Transaction, Store,
}
use crypto_gateway_rp.Store.Queries.{update_where}
use crypto_gateway_rp.Checkout.{has_key, non_empty}
use crypto_gateway_rp.Webhook.{Post, notify_payment_success, notify_payment_underpaid}
use Parts.{
  Config, Incoming, CreateKeys, event_key, prior_row, wallet_exists, keys_for_create, next_status,
  merge_target, merged_row, created_row, same_on_chain_recipient, in_session,
}

-- The `update` branch of the upsert; the raw statement for underpaid rows writes a null block too.
abbrev pub updated_row : Bool → ℕ → Incoming → TxStatus → Transaction → Transaction
updated_row raw now input status t = record t {
  confirmations = input.confirmations;
  block_number = if raw then input.block_number else or_else input.block_number t.block_number;
  status = status;
  updated_at = now;
}

abbrev pub uses_raw_upsert : Config → TxStatus → Bool
uses_raw_upsert cfg status = eq_status status underpaid && not cfg.knows_underpaid

-- The row that the handler holds after its write, and the table.
pub record Written : Type 0 where
  pub row : Transaction
  pub transactions : List Transaction
  pub next_transaction_id : ℕ

update_prior : Config → ℕ → Store → Incoming → TxStatus → Transaction → Written
update_prior cfg now store input status prior =
    let change = updated_row (uses_raw_upsert cfg status) now input status in
    record {
      row = change prior;
      transactions = update_where (has_key (event_key input)) change store.transactions;
      next_transaction_id = store.next_transaction_id;
    }

merge_into : ℕ → Store → Incoming → CreateKeys → TxStatus → Transaction → Written
merge_into now store input keys status t =
    let change = merged_row now input keys.payer_user_id status in
    record {
      row = change t;
      transactions = update_where (λ u. u.id == t.id) change store.transactions;
      next_transaction_id = store.next_transaction_id;
    }

insert_new : ℕ → Store → Incoming → CreateKeys → TxStatus → Written
insert_new now store input keys status =
    let row = created_row store.next_transaction_id now input keys status in
    record {
      row = row;
      transactions = row ∷ store.transactions;
      next_transaction_id = suc store.next_transaction_id;
    }

pub write_credit :
    Config → ℕ → Store → Incoming → Option Transaction → CreateKeys → TxStatus → Written
unfolding update_prior merge_into insert_new
write_credit cfg now store input (some prior) keys status =
    update_prior cfg now store input status prior
write_credit cfg now store input none keys status =
    elim (merge_target cfg store input keys status) [
      | none ↦ insert_new now store input keys status
      | some t ↦ merge_into now store input keys status t
    ]

abbrev pub is_left_over : Transaction → Transaction → Bool
is_left_over row t =
    t.wallet_id == row.wallet_id
    && in_session row.deposit_session_key t
    && eq_status t.status created
    && is_active t.deleted_at

-- Leftover placeholders of the row's session are soft-deleted.
remove_placeholders : Config → ℕ → Written → List Transaction
remove_placeholders cfg now w =
    if is_some (non_empty w.row.deposit_session_key) && cfg.knows_created
    then update_where (is_left_over w.row)
        (λ t. record t { deleted_at = some now; updated_at = now }) w.transactions
    else w.transactions

unfoldable pub release_wallet_after_deposit_success : ℕ → Store → Store
release_wallet_after_deposit_success wallet_id store = record store {
  wallets =
      update_where (λ (w : Wallet). w.id == wallet_id && is_active w.deleted_at)
        (λ w. record w {
          hold_expires_at = none;
          scan_expires_at = none;
          deposit_scan_single_tick_requested = false;
        })
        store.wallets;
}

abbrev pub has_status : TxStatus → Option Transaction → Bool
has_status status none = false
has_status status (some t) = eq_status t.status status

-- The credit is new in this status: release the wallet, then notify the merchant.
pub finish : Post → ℕ → Store → Option Transaction → TxStatus → Transaction → Store
finish post now store prior status row =
    let became_success = eq_status status success && not (has_status success prior) in
    let became_underpaid = eq_status status underpaid && not (has_status underpaid prior) in
    let released =
      if became_success || became_underpaid
      then release_wallet_after_deposit_success row.wallet_id store
      else store in
    if became_underpaid && is_none row.callback_delivered_at
    then notify_payment_underpaid post now released row.id
    else if eq_status status success && is_none row.callback_delivered_at
    then notify_payment_success post now released row.id
    else released

-- The table after the credit and the removal of placeholders, before the wallet and the webhook.
pub recorded : Config → ℕ → Store → Incoming → Option Transaction → CreateKeys → TxStatus → Store
unfolding remove_placeholders write_credit
recorded cfg now store input prior keys status =
    let w = write_credit cfg now store input prior keys status in
    record store {
      transactions = remove_placeholders cfg now w;
      next_transaction_id = w.next_transaction_id;
    }

pub apply_credit : Config → Post → ℕ → Text → Store → Incoming → Option Transaction → Store
unfolding recorded finish write_credit
apply_credit cfg post now fresh store input prior =
    let keys = keys_for_create cfg fresh store input in
    let status = next_status cfg store input prior keys in
    finish post now (recorded cfg now store input prior keys status) prior status
      (write_credit cfg now store input prior keys status).row

-- `none` is the exception wallet_not_found_for_upsert.
unfoldable pub upsert_incoming_transaction :
    Config → Post → ℕ → Text → Store → Incoming → Option Store
unfolding apply_credit
upsert_incoming_transaction cfg post now fresh store input =
    if not (wallet_exists store input.wallet_id) then none else elim (prior_row store input) [
      | none ↦ some (apply_credit cfg post now fresh store input none)
      | some prior ↦
          if not (same_on_chain_recipient cfg input.chain prior.to_address input.to_address)
          then some store
          else if eq_status prior.status underpaid
          then some store
          else some (apply_credit cfg post now fresh store input (some prior))
    ]
