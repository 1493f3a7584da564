-- ===== src/Checkout.antt =====
-- Checkout sessions of a wallet: server/src/lib/deposit-session-key.js and expected-deposit-amount.js.
pub mod Lifo
use crypto_gateway_rp.Common.{
  ℕ, Bool, true, false, ◌&&◌, ◌||◌, not, Option, none, some, List, [], ◌∷◌, ℤ, pos, ◌+ℤ◌, eqb_ℤ,
  ◌==◌, if◌then◌else◌, is_some, is_empty, find, filter, eq_option,
}
use crypto_gateway_rp.Text.{Text, codes, eq_text, starts_with, trim, is_number, big_int}
use crypto_gateway_rp.Store.{
  Chain, created, pending, success, underpaid, eq_chain, eq_status, is_active, Wallet,
  AssignmentEvent, Transaction, Store, TxStatus,
}
use crypto_gateway_rp.Store.Queries.{newest}

abbrev pub created_prefix : Text
created_prefix = codes "gateway-created:"

-- A text that the source tests for truth: neither null nor empty.
abbrev pub non_empty : Option Text → Option Text
non_empty none = none
non_empty (some s) = if is_empty s then none else some s

-- `typeof k === "string" && k.trim() ? k.trim() : ""`, with "" as `none`.
unfoldable pub trimmed_key : Option Text → Option Text
trimmed_key none = none
trimmed_key (some k) = non_empty (some (trim k))

pub record SessionKeys : Type 0 where
  pub deposit_session_key : Option Text
  pub reference_transaction_id : Option Text

-- The filter of an open checkout placeholder; `payer` is given where the query filters by payer.
abbrev pub is_open_checkout : ℕ → Option ℕ → Transaction → Bool
is_open_checkout wallet_id payer t =
    t.wallet_id == wallet_id
    && eq_status t.status created
    && starts_with created_prefix t.tx_hash
    && is_active t.deleted_at
    && elim payer [ none ↦ true | some uid ↦ eq_option t.payer_user_id (some uid) ]

unfoldable pub assigned_user : Store → ℕ → Option ℕ
assigned_user store wallet_id =
    elim (find (λ (w : Wallet). w.id == wallet_id && is_active w.deleted_at) store.wallets) [
      | none ↦ none
      | some w ↦ w.assigned_user_id
    ]

unfoldable pub keys_of : Option Transaction → Option SessionKeys
keys_of none = none
keys_of (some t) = some (record {
  deposit_session_key = non_empty t.deposit_session_key;
  reference_transaction_id = non_empty t.reference_transaction_id;
})

unfoldable pub payer_filter : Store → ℕ → Option ℕ → Bool → Option ℕ
unfolding assigned_user
payer_filter store wallet_id payer true = none
payer_filter store wallet_id none false = assigned_user store wallet_id
payer_filter store wallet_id (some uid) false = some uid

-- `knows_created` says whether the generated Prisma client has the status `created`.
unfoldable pub newest_open_created_checkout_for_wallet :
    Bool → Store → ℕ → Option ℕ → Bool → Option SessionKeys
unfolding payer_filter keys_of
newest_open_created_checkout_for_wallet knows_created store wallet_id payer ignore_payer =
    if not knows_created
    then none
    else keys_of (
        newest (is_open_checkout wallet_id (payer_filter store wallet_id payer ignore_payer))
          store.transactions)

abbrev pub session_key_of : Option SessionKeys → Option Text
session_key_of none = none
session_key_of (some k) = k.deposit_session_key

abbrev pub reference_of : Option SessionKeys → Option Text
reference_of none = none
reference_of (some k) = k.reference_transaction_id

unfoldable pub deposit_session_key_for_new_wallet_transaction :
    Bool → Store → ℕ → Option ℕ → Option Text
deposit_session_key_for_new_wallet_transaction knows_created store wallet_id payer =
    session_key_of
      (newest_open_created_checkout_for_wallet knows_created store wallet_id payer false)

unfoldable pub reference_transaction_id_for_new_wallet_transaction :
    Bool → Store → ℕ → Option ℕ → Option Text
reference_transaction_id_for_new_wallet_transaction knows_created store wallet_id payer =
    reference_of (newest_open_created_checkout_for_wallet knows_created store wallet_id payer false)

-- The unique key of an on-chain event.
pub record EventKey : Type 0 where
  pub chain : Chain
  pub tx_hash : Text
  pub log_index : ℤ

abbrev pub has_key : EventKey → Transaction → Bool
has_key k t =
    eq_chain t.chain k.chain && eq_text t.tx_hash k.tx_hash && eqb_ℤ t.log_index k.log_index

abbrev is_inbound : TxStatus → Bool
is_inbound s = eq_status s pending || eq_status s success || eq_status s underpaid

is_session_inbound : ℕ → Text → Transaction → Bool
is_session_inbound wallet_id key t =
    t.wallet_id == wallet_id
    && elim t.deposit_session_key [ none ↦ false | some k ↦ eq_text k key ]
    && is_inbound t.status
    && is_active t.deleted_at

-- The loop over the rows: the excluded event and malformed amounts are skipped.
sum_amounts : EventKey → ℤ → List Transaction → ℤ
sum_amounts k sum [] = sum
sum_amounts k sum (t ∷ ts) =
    sum_amounts k
      (if has_key k t then sum else elim (big_int t.amount) [ none ↦ sum | some a ↦ sum +ℤ a ]) ts

unfoldable pub sum_inbound_atomic_for_session_excluding : Store → ℕ → Option Text → EventKey → ℤ
unfolding sum_amounts is_session_inbound
sum_inbound_atomic_for_session_excluding store wallet_id session_key event =
    elim (trimmed_key session_key) [
      | none ↦ pos 0
      | some k ↦
          sum_amounts event (pos 0) (filter (is_session_inbound wallet_id k) store.transactions)
    ]

is_session_event : ℕ → Text → AssignmentEvent → Bool
is_session_event wallet_id key e =
    e.wallet_id == wallet_id
    && elim e.deposit_session_key [ none ↦ false | some k ↦ eq_text k key ]
    && is_active e.deleted_at

expected_of_event : Option AssignmentEvent → Option Text
expected_of_event none = none
expected_of_event (some e) = elim (trimmed_key e.expected_amount_atomic) [
  | none ↦ none
  | some t ↦ if is_number t then some t else none
]

unfoldable pub expected_atomic_for_deposit_session : Store → ℕ → Option Text → Option Text
unfolding is_session_event expected_of_event
expected_atomic_for_deposit_session store wallet_id session_key = elim (trimmed_key session_key) [
  | none ↦ none
  | some k ↦ expected_of_event (find (is_session_event wallet_id k) store.assignment_events)
]
