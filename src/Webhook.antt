-- ===== src/Webhook.antt =====
-- Payment webhooks: server/src/services/callback-service.js and callback-retry.js. Posting is axios,
-- taken as an argument `post` that says whether the merchant's endpoint answered with 2xx; it is given
-- all that the JSON body is made of: the row, the session's expected amount, the failure reason. Each
-- request is noted in `posted`.
pub mod Preserve
pub mod Wallets
pub mod Claims
pub mod Tracked
pub mod Pacing
use crypto_gateway_rp.Common.{
  ℕ, suc, ◌+◌, Bool, true, false, ◌&&◌, ◌||◌, not, Option, none, some, List, [], ◌∷◌, ltb, leb,
  ◌==◌, if◌then◌else◌, is_some, is_none, is_empty, find, filter, take, or_else,
}
use crypto_gateway_rp.Text.{Text, codes, starts_with, trim}
use crypto_gateway_rp.Store.{
  TxStatus, success, failed, underpaid, eq_status, is_active, Wallet, Transaction, Merchant, User,
  Store,
}
use crypto_gateway_rp.Store.Queries.{update_where, count_where}
use crypto_gateway_rp.Checkout.{created_prefix, non_empty, expected_atomic_for_deposit_session}

abbrev pub max_auto_callback_attempts : ℕ
max_auto_callback_attempts = 5

abbrev pub callback_retry_min_interval_ms : ℕ
callback_retry_min_interval_ms = 60_000

abbrev pub Post : Type 0
Post = Text → Transaction → Option Text → Option Text → Bool

abbrev pub interval_elapsed : ℕ → Option ℕ → Bool
interval_elapsed now none = false
interval_elapsed now (some at_time) = leb (at_time + callback_retry_min_interval_ms) now

-- The filter by which an attempt is claimed, and by which the retry job selects.
abbrev pub is_claimable : TxStatus → ℕ → Transaction → Bool
is_claimable status now t =
    is_active t.deleted_at
    && eq_status t.status status
    && is_none t.callback_delivered_at
    && ltb t.callback_attempt_count max_auto_callback_attempts
    && (t.callback_attempt_count == 0 || interval_elapsed now t.callback_last_attempt_at)

abbrev pub count_attempt : ℕ → Transaction → Transaction
count_attempt now t = record t {
  callback_attempt_count = suc t.callback_attempt_count;
  callback_last_attempt_at = some now;
}

abbrev pub mark_delivered : ℕ → Transaction → Transaction
mark_delivered now t = record t { callback_delivered_at = some now }

abbrev pub is_active_row : ℕ → Transaction → Bool
is_active_row id t = t.id == id && is_active t.deleted_at

abbrev pub claims : TxStatus → ℕ → ℕ → Transaction → Bool
claims status now id t = t.id == id && is_claimable status now t

-- The merchant of the paying user, else that of the wallet.
merchant_id_of : Store → Transaction → Option ℕ
merchant_id_of store t = or_else (payer t.payer_user_id) wallet_merchant
  where
    payer : Option ℕ → Option ℕ
    payer none = none
    payer (some uid) = elim (find (λ (u : User). u.id == uid) store.users) [
      | none ↦ none
      | some u ↦ some u.merchant_id
    ]

    wallet_merchant : Option ℕ
    wallet_merchant = elim (find (λ (w : Wallet). w.id == t.wallet_id) store.wallets) [
      | none ↦ none
      | some w ↦ some w.merchant_id
    ]

url_of : Store → Transaction → Option Text
unfolding merchant_id_of
url_of store t = elim (merchant_id_of store t) [
  | none ↦ none
  | some mid ↦ elim (find (λ (m : Merchant). m.id == mid) store.merchants) [
    | none ↦ none
    | some m ↦ non_empty m.callback_url
  ]
]

-- Claim one attempt, post, and note the delivery.
pub deliver : Post → TxStatus → Option Text → ℕ → Store → Transaction → Text → Store
deliver post status reason now store t url =
    let claimed = update_where (claims status now t.id) (count_attempt now) store.transactions in
    let expected = expected_atomic_for_deposit_session store t.wallet_id t.deposit_session_key in
    if count_where (claims status now t.id) store.transactions == 0
    then store
    else if post url t expected reason
    then record store {
      transactions = update_where (is_active_row t.id) (mark_delivered now) claimed;
      posted = (t.id, now) ∷ store.posted;
    }
    else record store { transactions = claimed; posted = (t.id, now) ∷ store.posted }

notify_row : Post → TxStatus → Option Text → ℕ → Store → Transaction → Store
unfolding deliver url_of
notify_row post status reason now store t =
    if is_some t.callback_delivered_at
    then store
    else if not (eq_status t.status status)
    then store
    else elim (url_of store t) [
      | none ↦ store
      | some url ↦ deliver post status reason now store t url
    ]

-- An id below 1 is no primary key.
pub notify : Post → TxStatus → (Transaction → Option Text) → ℕ → Store → ℕ → Store
unfolding notify_row
notify post status reason now store id =
    if id == 0 then store else elim (find (is_active_row id) store.transactions) [
      | none ↦ store
      | some t ↦ notify_row post status (reason t) now store t
    ]

unfoldable pub notify_payment_success : Post → ℕ → Store → ℕ → Store
unfolding notify
notify_payment_success post now store id = notify post success (λ t. none) now store id

unfoldable pub notify_payment_underpaid : Post → ℕ → Store → ℕ → Store
unfolding notify
notify_payment_underpaid post now store id = notify post underpaid (λ t. none) now store id

failure_reason : Option Text → Transaction → Option Text
failure_reason given t = or_else (non_empty (trim_given given)) inferred
  where
    trim_given : Option Text → Option Text
    trim_given none = none
    trim_given (some s) = some (trim s)

    inferred : Option Text
    inferred =
        if starts_with created_prefix t.tx_hash
        then some (codes "checkout_expired_unpaid")
        else none

unfoldable pub notify_payment_failed : Post → Option Text → ℕ → Store → ℕ → Store
unfolding notify failure_reason
notify_payment_failed post reason now store id =
    notify post failed (failure_reason reason) now store id

-- `orderBy: { updatedAt: "asc" }`, rows of one time in table order.
insert_row : Transaction → List Transaction → List Transaction
insert_row t [] = t ∷ []
insert_row t (u ∷ us) =
    let rest = insert_row t us in if leb t.updated_at u.updated_at then t ∷ u ∷ us else u ∷ rest

sort_by_updated : List Transaction → List Transaction
unfolding insert_row
sort_by_updated [] = []
sort_by_updated (t ∷ ts) = insert_row t (sort_by_updated ts)

-- The joined condition on the wallet and its merchant.
reaches_merchant : Store → Transaction → Bool
reaches_merchant store t =
    elim (find (λ (w : Wallet). w.id == t.wallet_id && is_active w.deleted_at) store.wallets) [
      | none ↦ false
      | some w ↦ elim (find (λ (m : Merchant). m.id == w.merchant_id) store.merchants) [
        | none ↦ false
        | some m ↦ is_active m.deleted_at && is_some m.callback_url
      ]
    ]

stuck_rows : TxStatus → ℕ → Store → ℕ → List Transaction
unfolding sort_by_updated reaches_merchant
stuck_rows status now store limit = take limit (
    sort_by_updated
      (filter (λ t. is_claimable status now t && reaches_merchant store t) store.transactions))

pub notify_each : (Store → ℕ → Store) → Store → List Transaction → Store
notify_each send store [] = store
notify_each send store (t ∷ ts) = notify_each send (send store t.id) ts

pub retry_stuck_success_callbacks : Post → ℕ → Store → ℕ → Store
unfolding notify_each stuck_rows
retry_stuck_success_callbacks post now store limit =
    notify_each (notify_payment_success post now) store (stuck_rows success now store limit)

pub retry_stuck_failed_callbacks : Post → ℕ → Store → ℕ → Store
unfolding notify_each stuck_rows
retry_stuck_failed_callbacks post now store limit =
    notify_each (notify_payment_failed post none now) store (stuck_rows failed now store limit)

pub retry_stuck_underpaid_callbacks : Post → ℕ → Store → ℕ → Store
unfolding notify_each stuck_rows
retry_stuck_underpaid_callbacks post now store limit =
    notify_each (notify_payment_underpaid post now) store (stuck_rows underpaid now store limit)
