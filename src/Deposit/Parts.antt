-- ===== src/Deposit/Parts.antt =====
-- The decisions of server/src/services/payment/transaction-upsert.js on one incoming credit: which
-- session it belongs to, its status, and the row that takes it.
use crypto_gateway_rp.Common.{
  ℕ, Bool, true, false, ◌&&◌, ◌||◌, not, Option, none, some, ℤ, pos, ◌+ℤ◌, ltb_ℤ, leb, ◌==◌,
  if◌then◌else◌, is_none, find, any, or_else,
}
use crypto_gateway_rp.Text.{Text, codes, eq_text, starts_with, trim, to_lower_case, big_int}
use crypto_gateway_rp.Amount.{underpay_tolerance_atomic}
use crypto_gateway_rp.Store.{
  Chain, eth, tron, TxStatus, pending, success, underpaid, created, eq_chain, eq_status, is_active,
  Wallet, Transaction, Store,
}
use crypto_gateway_rp.Store.Queries.{newest}
use crypto_gateway_rp.Checkout.{
  EventKey, has_key, created_prefix, is_open_checkout, non_empty, assigned_user,
  newest_open_created_checkout_for_wallet, session_key_of, reference_of,
  deposit_session_key_for_new_wallet_transaction,
  reference_transaction_id_for_new_wallet_transaction, sum_inbound_atomic_for_session_excluding,
  expected_atomic_for_deposit_session,
}

-- What the process is configured with, and the tronweb address decoder (`none` is its exception).
pub record Config : Type 0 where
  pub confirmations_evm : ℕ
  pub confirmations_tron : ℕ
  pub knows_created : Bool
  pub knows_underpaid : Bool
  pub tron_to_hex : Text → Option Text

-- The argument of upsertIncomingTransaction.
pub record Incoming : Type 0 where
  pub chain : Chain
  pub wallet_id : ℕ
  pub tx_hash : Text
  pub log_index : ℤ
  pub from_address : Text
  pub to_address : Text
  pub amount : Text
  pub token_symbol : Text
  pub token_decimals : ℕ
  pub confirmations : ℕ
  pub block_number : Option ℕ
  pub payer_user_id : Option ℕ
  pub admin_merge_target : Option ℕ

-- server/src/config/chains.js.
abbrev pub is_evm_chain : Chain → Bool
is_evm_chain c = eq_chain c eth

unfoldable pub confirmations_for_chain : Config → Chain → ℕ
confirmations_for_chain cfg c =
    if is_evm_chain c
    then cfg.confirmations_evm
    else if eq_chain c tron
    then cfg.confirmations_tron
    else cfg.confirmations_evm

unfoldable pub normalize_match_address : Chain → Text → Text
normalize_match_address c address =
    if eq_chain c tron then address else to_lower_case (trim address)

unfoldable pub same_hex : Option Text → Option Text → Text → Text → Bool
same_hex none b s t = eq_text s t
same_hex (some a) none s t = eq_text s t
same_hex (some a) (some b) s t = eq_text a b

unfoldable pub same_on_chain_recipient : Config → Chain → Text → Text → Bool
unfolding same_hex normalize_match_address
same_on_chain_recipient cfg c s t =
    if eq_chain c tron
    then same_hex (cfg.tron_to_hex s) (cfg.tron_to_hex t) s t
    else eq_text (normalize_match_address c s) (normalize_match_address c t)

abbrev pub event_key : Incoming → EventKey
event_key input = record {
  chain = input.chain;
  tx_hash = input.tx_hash;
  log_index = input.log_index;
}

-- resolveWalletInternalId: the id of an active wallet.
unfoldable pub wallet_exists : Store → ℕ → Bool
wallet_exists store id =
    not (id == 0) && any (λ (w : Wallet). w.id == id && is_active w.deleted_at) store.wallets

-- `findUnique` on the event key, soft-deleted rows included.
abbrev pub prior_row : Store → Incoming → Option Transaction
prior_row store input = find (has_key (event_key input)) store.transactions

-- Who pays, and the session that a new row belongs to.
pub record CreateKeys : Type 0 where
  pub payer_user_id : Option ℕ
  pub deposit_session_key : Option Text
  pub reference_transaction_id : Option Text

-- A missing key is looked for once more, among all open checkouts of the wallet.
unfoldable pub recovered :
    Config → Store → ℕ → Option Text → Option Text → Option Text × Option Text
recovered cfg store wallet_id key reference =
    let fb = newest_open_created_checkout_for_wallet cfg.knows_created store wallet_id none true in
    if (is_none key || is_none reference) && cfg.knows_created
    then (or_else key (session_key_of fb), or_else reference (reference_of fb))
    else (key, reference)

-- `fresh` is the reference that generateGatewayReferenceTransactionId draws.
unfoldable pub keys_for_create : Config → Text → Store → Incoming → CreateKeys
unfolding recovered
keys_for_create cfg fresh store input =
    let payer = or_else input.payer_user_id (assigned_user store input.wallet_id) in
    let (key, reference) =
      recovered cfg store input.wallet_id
        (deposit_session_key_for_new_wallet_transaction cfg.knows_created store input.wallet_id
          payer)
        (reference_transaction_id_for_new_wallet_transaction cfg.knows_created store input.wallet_id
          payer) in
    record {
      payer_user_id = payer;
      deposit_session_key = key;
      reference_transaction_id = or_else (non_empty reference) (some fresh);
    }

-- The comparison of received and expected amounts; one that does not parse is skipped.
unfoldable pub falls_short : Store → Incoming → Option Text → Text → Bool
falls_short store input session_key expected = elim (big_int expected) [
  | none ↦ false
  | some exp ↦ elim (big_int input.amount) [
    | none ↦ false
    | some incoming ↦
        ltb_ℤ
          (sum_inbound_atomic_for_session_excluding store input.wallet_id session_key
              (event_key input)
            +ℤ incoming
            +ℤ pos underpay_tolerance_atomic)
          exp
  ]
]

-- The expectation is looked up for a session key that is not empty.
unfoldable pub is_underpaid : Store → Incoming → Option Text → Bool
unfolding falls_short
is_underpaid store input session_key = elim (non_empty session_key) [
  | none ↦ false
  | some key ↦ elim (expected_atomic_for_deposit_session store input.wallet_id session_key) [
    | none ↦ false
    | some expected ↦ falls_short store input session_key expected
  ]
]

unfoldable pub next_status : Config → Store → Incoming → Option Transaction → CreateKeys → TxStatus
unfolding is_underpaid confirmations_for_chain
next_status cfg store input none keys =
    if not (leb (confirmations_for_chain cfg input.chain) input.confirmations)
    then pending
    else if is_underpaid store input keys.deposit_session_key
    then underpaid
    else success
next_status cfg store input (some prior) keys =
    if eq_status prior.status success
    then success
    else if not (leb (confirmations_for_chain cfg input.chain) input.confirmations)
    then pending
    else if is_underpaid store input prior.deposit_session_key
    then underpaid
    else success

-- The admin's merge target, while it is still an unpaid placeholder of this wallet and chain.
unfoldable pub is_merge_target : Incoming → ℕ → Transaction → Bool
is_merge_target input id t =
    t.id == id
    && t.wallet_id == input.wallet_id
    && eq_chain t.chain input.chain
    && starts_with created_prefix t.tx_hash
    && is_active t.deleted_at

unfoldable pub is_mergeable : Transaction → Bool
is_mergeable t =
    eq_text (trim t.amount) (codes "0")
    && (eq_status t.status created || eq_status t.status pending)

unfoldable pub admin_target : Store → Incoming → Option Transaction
unfolding is_merge_target is_mergeable
admin_target store input = elim input.admin_merge_target [
  | none ↦ none
  | some id ↦ elim (find (is_merge_target input id) store.transactions) [
    | none ↦ none
    | some t ↦ if not (id == 0) && is_mergeable t then some t else none
  ]
]

abbrev pub is_placeholder : Incoming → Transaction → Bool
is_placeholder input t = is_open_checkout input.wallet_id none t && eq_chain t.chain input.chain

abbrev pub in_session : Option Text → Transaction → Bool
in_session none t = false
in_session (some key) t = elim t.deposit_session_key [ none ↦ false | some k ↦ eq_text k key ]

-- Newest open checkout of the session, else the newest of the wallet.
unfoldable pub placeholder : Store → Incoming → Option Text → Option Transaction
placeholder store input key =
    or_else (newest (λ t. is_placeholder input t && in_session key t) store.transactions)
      (newest (is_placeholder input) store.transactions)

-- The row that takes the credit in place, if any.
unfoldable pub merge_target : Config → Store → Incoming → CreateKeys → TxStatus → Option Transaction
unfolding admin_target placeholder
merge_target cfg store input keys status =
    let raw = eq_status status underpaid && not cfg.knows_underpaid in
    if raw
    then none
    else or_else (admin_target store input)
        (if cfg.knows_created then placeholder store input keys.deposit_session_key else none)

-- The data of the in-place update.
abbrev pub merged_row : ℕ → Incoming → Option ℕ → TxStatus → Transaction → Transaction
merged_row now input payer status t = record t {
  tx_hash = input.tx_hash;
  from_address = input.from_address;
  to_address = input.to_address;
  amount = input.amount;
  token_symbol = input.token_symbol;
  token_decimals = input.token_decimals;
  confirmations = input.confirmations;
  block_number = or_else input.block_number t.block_number;
  log_index = input.log_index;
  status = status;
  payer_user_id = or_else payer t.payer_user_id;
  updated_at = now;
}

abbrev pub created_row : ℕ → ℕ → Incoming → CreateKeys → TxStatus → Transaction
created_row id now input keys status = record {
  id = id;
  wallet_id = input.wallet_id;
  payer_user_id = keys.payer_user_id;
  tx_hash = input.tx_hash;
  from_address = input.from_address;
  to_address = input.to_address;
  amount = input.amount;
  token_symbol = input.token_symbol;
  chain = input.chain;
  status = status;
  confirmations = input.confirmations;
  block_number = input.block_number;
  log_index = input.log_index;
  token_decimals = input.token_decimals;
  callback_delivered_at = none;
  callback_attempt_count = 0;
  callback_last_attempt_at = none;
  deposit_session_key = keys.deposit_session_key;
  reference_transaction_id = keys.reference_transaction_id;
  created_at = now;
  updated_at = now;
  deleted_at = none;
  merchant_settlement_id = none;
}
