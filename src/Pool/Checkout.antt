-- ===== src/Pool/Checkout.antt =====
-- The checkout that follows the choice of a wallet: assignPooledWalletForDeposit of
-- cron/src/services/wallet-pool/assign-pooled-wallet.js. The two random texts, the session key and a
-- reference, are arguments: they come from node:crypto.
pub mod Bound
pub mod Session
pub mod Credited
use crypto_gateway_rp.Common.{
  ℕ, ◌+◌, ◌*◌, Bool, true, false, ◌&&◌, Option, none, some, List, [], ◌∷◌, ◌++◌, ltb, ◌==◌,
  if◌then◌else◌, any, filter, find, get_or, is_some, is_none, is_empty, take, negsuc, reverse,
}
use crypto_gateway_rp.Text.{Text, codes, eq_text, is_number, trim}
use crypto_gateway_rp.Store.{
  Chain, GatewayEnv, created, Wallet, AssignmentEvent, Transaction, Store, is_active,
}
use crypto_gateway_rp.Store.Queries.{update_where, oldest_first}
use crypto_gateway_rp.Amount.{token_decimals_for_gateway_rail}
use crypto_gateway_rp.Checkout.{
  EventKey, has_key, is_open_checkout, created_prefix, non_empty, trimmed_key,
}
use crypto_gateway_rp.Pool.{
  PoolConfig, AssignError, AssignmentSource, existing_session, PickArgs, Picked, PickResult, picks,
  gives_up, pick_wallet,
}

pub record AssignConfig : Type 0 where
  pub pool : PoolConfig
  -- The entry of a chain among the platform's toggles.
  pub chain_enabled : Chain → Option Bool
  pub wallet_assignment_hold_minutes : ℕ
  pub wallet_scan_ttl_minutes : ℕ
  pub deposit_session_key : Text
  pub gateway_reference : Text

pub record AssignRequest : Type 0 where
  pub merchant_id : ℕ
  pub environment : GatewayEnv
  pub user_id : ℕ
  pub chain : Chain
  pub currency : Text
  pub network : Text
  pub reference_transaction_id : Option Text
  pub expected_amount_atomic : Option Text

pub record Assigned : Type 0 where
  pub wallet : Wallet
  pub assignment_source : AssignmentSource
  pub deposit_session_key : Text
  pub reference_transaction_id : Text
  pub store : Store

pub data AssignResult : Type 0 where
  assigns : Assigned → AssignResult
  chain_disabled_for_platform : AssignResult
  -- The unique key of transactions.
  session_key_taken : AssignResult
  not_picked : AssignError → AssignResult

unfoldable pub is_chain_live_for_platform : (Chain → Option Bool) → Chain → Bool
is_chain_live_for_platform record_ chain = get_or (record_ chain) true

unfoldable pub normalize_expected_atomic : Option Text → Option Text
normalize_expected_atomic none = none
normalize_expected_atomic (some s) = if is_number (trim s) then some (trim s) else none

abbrev eq_texts : Option Text → Option Text → Bool
eq_texts none none = true
eq_texts (some s) (some t) = eq_text s t
eq_texts _ _ = false

abbrev is_event_of : ℕ → ℕ → Text → AssignmentEvent → Bool
is_event_of wallet_id user_id key e =
    e.wallet_id == wallet_id
    && e.user_id == user_id
    && eq_texts e.deposit_session_key (some key)
    && is_active e.deleted_at

abbrev later_event : AssignmentEvent → Option AssignmentEvent → AssignmentEvent
later_event e none = e
later_event e (some f) = if ltb e.created_at f.created_at then f else e

latest_event : (AssignmentEvent → Bool) → List AssignmentEvent → Option AssignmentEvent
latest_event p [] = none
latest_event p (e ∷ es) =
    let rest = latest_event p es in if p e then some (later_event e rest) else rest

-- The amount that a row's session expects is the one requested.
unfoldable pub expects_amount : Store → ℕ → ℕ → Option Text → Transaction → Bool
unfolding latest_event normalize_expected_atomic
expects_amount store wallet_id user_id requested t = elim (trimmed_key t.deposit_session_key) [
  | none ↦ is_none requested
  | some key ↦ elim (latest_event (is_event_of wallet_id user_id key) store.assignment_events) [
    | none ↦ is_none requested
    | some e ↦ eq_texts requested (normalize_expected_atomic e.expected_amount_atomic)
  ]
]

unfoldable pub has_reference : Option Text → Transaction → Bool
has_reference none t = true
has_reference (some reference) t = eq_texts t.reference_transaction_id (some reference)

abbrev pub candidates_taken : Option Text → ℕ
candidates_taken none = 20
candidates_taken (some r) = 5

abbrev pub is_candidate : ℕ → ℕ → Option Text → Transaction → Bool
is_candidate wallet_id user_id reference t =
    is_open_checkout wallet_id (some user_id) t && has_reference reference t

-- Among the newest candidates, the first that expects the amount. `reference` is the merchant's, cut.
unfoldable pub find_reusable_created_checkout :
    Store → ℕ → ℕ → Option Text → Option Text → Option Transaction
find_reusable_created_checkout store wallet_id user_id reference requested =
    find (expects_amount store wallet_id user_id requested) (
      take (candidates_taken reference) (
        reverse
          (oldest_first (filter (is_candidate wallet_id user_id reference) store.transactions))))

-- `String(...).trim()` where given, cut to 256 code units.
unfoldable pub merchant_reference : Option Text → Option Text
merchant_reference r = elim (trimmed_key r) [ none ↦ none | some t ↦ some (take 256 t) ]

abbrev has_transaction_id : ℕ → Transaction → Bool
has_transaction_id id t = t.id == id

abbrev pub refreshed : ℕ → Transaction → Transaction
refreshed now t = record t { created_at = now; updated_at = now }

unfoldable pub reuse_checkout :
    Text → ℕ → Option Text → Picked → Store → Transaction → Text → Assigned
reuse_checkout gateway_reference now reference picked store t key = record {
  wallet = picked.wallet;
  assignment_source = existing_session;
  deposit_session_key = key;
  reference_transaction_id =
      get_or (trimmed_key t.reference_transaction_id) (get_or reference gateway_reference);
  store = record store {
    transactions = update_where (has_transaction_id t.id) (refreshed now) store.transactions;
  };
}

abbrev pub placeholder_key : Chain → Text → EventKey
placeholder_key chain key = record {
  chain = chain;
  tx_hash = created_prefix ++ key;
  log_index = negsuc 1;
}

unfoldable pub assignment_event : ℕ → AssignRequest → Wallet → Text → AssignmentEvent
unfolding normalize_expected_atomic
assignment_event now r w key = record {
  wallet_id = w.id;
  user_id = r.user_id;
  deposit_session_key = some key;
  expected_amount_atomic = normalize_expected_atomic r.expected_amount_atomic;
  created_at = now;
  deleted_at = none;
}

abbrev pub placeholder_row : ℕ → ℕ → AssignRequest → Wallet → Text → Text → Transaction
placeholder_row id now r w key reference = record {
  id = id;
  wallet_id = w.id;
  payer_user_id = some r.user_id;
  tx_hash = created_prefix ++ key;
  from_address = codes "gateway:pending";
  to_address = w.address;
  amount = codes "0";
  token_symbol = r.currency;
  chain = r.chain;
  status = created;
  confirmations = 0;
  block_number = none;
  log_index = negsuc 1;
  token_decimals = get_or (token_decimals_for_gateway_rail r.currency r.network) 6;
  callback_delivered_at = none;
  callback_attempt_count = 0;
  callback_last_attempt_at = none;
  deposit_session_key = some key;
  reference_transaction_id = non_empty (some reference);
  created_at = now;
  updated_at = now;
  deleted_at = none;
  merchant_settlement_id = none;
}

abbrev pub opened : Text → Text → ℕ → AssignRequest → Picked → Store → Assigned
opened session_key reference now r picked store = record {
  wallet = picked.wallet;
  assignment_source = picked.source;
  deposit_session_key = session_key;
  reference_transaction_id = reference;
  store = record store {
    assignment_events = assignment_event now r picked.wallet session_key ∷ store.assignment_events;
    transactions =
        placeholder_row store.next_transaction_id now r picked.wallet session_key reference
        ∷ store.transactions;
    next_transaction_id = store.next_transaction_id + 1;
  };
}

unfoldable pub open_checkout :
    Text → Text → ℕ → AssignRequest → Option Text → Picked → Store → AssignResult
open_checkout session_key gateway_reference now r reference picked store =
    if any (has_key (placeholder_key r.chain session_key)) store.transactions
    then session_key_taken
    else assigns (opened session_key (get_or reference gateway_reference) now r picked store)

abbrev pub with_picked : Picked → Store → Store
with_picked picked store = record store {
  wallets = picked.wallets;
  next_wallet_id = picked.next_wallet_id;
}

-- The reusable checkout, with its session key, where it has one.
unfoldable pub reusable_session :
    Store → ℕ → AssignRequest → Option Text → Option (Transaction × Text)
unfolding find_reusable_created_checkout normalize_expected_atomic
reusable_session store wallet_id r reference =
    elim (find_reusable_created_checkout store wallet_id r.user_id reference
      (normalize_expected_atomic r.expected_amount_atomic)) [
        | none ↦ none
        | some t ↦ elim (trimmed_key t.deposit_session_key) [
          | none ↦ none
          | some key ↦ some (t, key)
        ]
      ]

unfoldable pub checkout_for :
    Text
    → Text
    → ℕ
    → AssignRequest
    → Option Text
    → Picked
    → Store
    → Option (Transaction × Text)
    → AssignResult
unfolding open_checkout reuse_checkout
checkout_for session_key gateway_reference now r reference picked store none =
    open_checkout session_key gateway_reference now r reference picked store
checkout_for session_key gateway_reference now r reference picked store (some (t, key)) =
    assigns (reuse_checkout gateway_reference now reference picked store t key)

abbrev minutes_or : ℕ → ℕ → ℕ
minutes_or minutes d = if ltb 0 minutes then minutes else d

abbrev pub pick_args : AssignConfig → ℕ → AssignRequest → PickArgs
pick_args cfg now r = record {
  merchant_id = r.merchant_id;
  environment = r.environment;
  chain = r.chain;
  currency = r.currency;
  network = r.network;
  user_id = r.user_id;
  now = now;
  hold_until = now + minutes_or cfg.wallet_assignment_hold_minutes 30 * 60_000;
  scan_at = now + minutes_or cfg.wallet_scan_ttl_minutes 10 * 60_000;
}

unfoldable pub assign_picked : AssignConfig → ℕ → AssignRequest → Store → PickResult → AssignResult
unfolding checkout_for reusable_session merchant_reference
assign_picked cfg now r store (gives_up e) = not_picked e
assign_picked cfg now r store (picks picked) =
    let reference = merchant_reference r.reference_transaction_id in
    checkout_for cfg.deposit_session_key cfg.gateway_reference now r reference picked
      (with_picked picked store)
      (reusable_session (with_picked picked store) picked.wallet.id r reference)

unfoldable pub assign_pooled_wallet_for_deposit :
    AssignConfig → ℕ → AssignRequest → Store → AssignResult
unfolding is_chain_live_for_platform assign_picked pick_wallet
assign_pooled_wallet_for_deposit cfg now r store =
    if is_chain_live_for_platform cfg.chain_enabled r.chain
    then assign_picked cfg now r store (pick_wallet cfg.pool (pick_args cfg now r) store)
    else chain_disabled_for_platform
