-- ===== src/Expiry.antt =====
-- Expiry of unpaid checkouts: server/src/services/checkout-session-expiry.js, with the statements of
-- server/src/lib/checkout-created-expiry-prisma-raw.js for a client that lacks the status `created`.
-- One tick reads the clock once: `now` stands for every `new Date()` of it.
pub mod Batch
pub mod Drain
use crypto_gateway_rp.Common.{
  ℕ, zero, suc, ◌+◌, ◌-◌, ◌*◌, Bool, true, false, ◌&&◌, ◌||◌, not, Option, none, some, List, [],
  ◌∷◌, ltb, leb, ◌==◌, if◌then◌else◌, filter, take,
}
use crypto_gateway_rp.Text.{Text, codes, eq_text, starts_with, sql_trim}
use crypto_gateway_rp.Store.{
  TxStatus, pending, failed, created, eq_status, is_active, Transaction, Store,
}
use crypto_gateway_rp.Store.Queries.{oldest_first, update_where, count_where}
use crypto_gateway_rp.Checkout.{created_prefix}
use crypto_gateway_rp.Webhook.{Post, notify_payment_failed}
use crypto_gateway_rp.Deposit.{release_wallet_after_deposit_success}

-- `hours` is re.checkoutCreatedExpiryHours.
abbrev pub expiry_cutoff : ℕ → ℕ → ℕ
expiry_cutoff hours now = now - (if ltb hours 1 then 1 else hours) * 60 * 60 * 1_000

abbrev pub expiry_batch_size : Option ℕ → ℕ
expiry_batch_size none = 80
expiry_batch_size (some n) = if ltb 0 n then (if ltb 500 n then 500 else n) else 80

-- stalePlaceholderWhere, and the same condition in the raw statements, which trim the amount.
unfoldable pub is_stale_placeholder : Bool → ℕ → Transaction → Bool
is_stale_placeholder knows_created cutoff t =
    is_active t.deleted_at
    && ltb t.created_at cutoff
    && starts_with created_prefix t.tx_hash
    && (eq_status t.status created
        || eq_status t.status pending
          && eq_text (if knows_created then t.amount else sql_trim t.amount) (codes "0"))

unfoldable pub stale_batch : Bool → ℕ → ℕ → Store → List Transaction
unfolding oldest_first is_stale_placeholder
stale_batch knows_created cutoff batch_size store =
    take batch_size
      (oldest_first (filter (is_stale_placeholder knows_created cutoff) store.transactions))

abbrev pub mark_failed : ℕ → Transaction → Transaction
mark_failed now t = record t { status = failed; updated_at = now }

-- The update repeats the condition: a row that was paid since it was read is left alone.
abbrev pub is_still_stale : Bool → ℕ → ℕ → Transaction → Bool
is_still_stale knows_created cutoff id t = t.id == id && is_stale_placeholder knows_created cutoff t

-- The table, and totalExpired.
pub record Progress : Type 0 where
  pub store : Store
  pub total_expired : ℕ

module _ (knows_created : Bool) (post : Post) (now cutoff : ℕ) where
  unfoldable pub expire_row : Progress → Transaction → Progress
  unfolding is_stale_placeholder notify_payment_failed release_wallet_after_deposit_success
  expire_row p row =
      let still = is_still_stale knows_created cutoff row.id in
      let marked = record p.store {
        transactions = update_where still (mark_failed now) p.store.transactions;
      } in
      if count_where still p.store.transactions == 1
      then record {
        store =
            notify_payment_failed post (some (codes "checkout_expired_unpaid")) now
              (release_wallet_after_deposit_success row.wallet_id marked) row.id;
        total_expired = suc p.total_expired;
      }
      else record { store = marked; total_expired = p.total_expired }

  unfoldable pub expire_rows : Progress → List Transaction → Progress
  unfolding expire_row
  expire_rows p [] = p
  expire_rows p (row ∷ rows) = expire_rows (expire_row p row) rows

  -- The loop over batches; `none` is a loop that has not ended yet.
  pub expire_batches : ℕ → ℕ → Progress → Option Progress
  unfolding expire_rows stale_batch
  expire_batches batch_size zero p = none
  expire_batches batch_size (suc fuel) p =
      elim (stale_batch knows_created cutoff batch_size p.store) [
        | [] ↦ some p
        | row ∷ rows ↦ expire_batches batch_size fuel (expire_rows p (row ∷ rows))
      ]

pub expire_stale_created_checkout_transactions :
    Bool → Post → ℕ → ℕ → Option ℕ → ℕ → Store → Option Progress
unfolding expire_batches
expire_stale_created_checkout_transactions knows_created post now hours batch fuel store =
    expire_batches knows_created post now (expiry_cutoff hours now) (expiry_batch_size batch) fuel
      (record { store = store; total_expired = 0 })
