-- ===== src/Examples.antt =====
-- Concrete runs: one wallet with an open checkout, a credit that pays it, and the tables, clocks and
-- percentages of the other parts.
mod Ledger
mod Pool
mod Assignment
mod Auth
mod Scanner
mod Credits
use crypto_gateway_rp.Common.{
  ℕ, ◌+◌, ◌≤◌, ◌≡◌, refl, Bool, true, false, ◌&&◌, none, some, List, [], ◌∷◌, pos, eqb_ℤ, ℤ, leb,
  ◌==◌, arith, All, if◌then◌else◌, length,
}
use crypto_gateway_rp.Numeric.{NumberOps}
use crypto_gateway_rp.Text.{big_int, decimal, Text, codes, eq_text, print_number}
use crypto_gateway_rp.Fee.{
  fee_amount_from_percent, split_fees_sequential_from_gross, SequentialSplit, ok,
}
use crypto_gateway_rp.Fee.Bounds.{split_fees_sequential_from_gross-total}
use crypto_gateway_rp.Fee.Additive.{fee_amount_from_percent-add}
use crypto_gateway_rp.Amount
use crypto_gateway_rp.Amount.{parse_human_min_settlement_to_atomic, format_atomic_amount_string}
use crypto_gateway_rp.Amount.RoundTrip.{format-parse}
use crypto_gateway_rp.Store.{
  Chain, TxStatus, GatewayEnv, Wallet, Merchant, Transaction, Store, eq_chain,
}
use crypto_gateway_rp.Store.Queries.{count_where, NoneNewer}
use crypto_gateway_rp.Store.Counts.{Has}
use crypto_gateway_rp.Checkout.{has_key, is_open_checkout, non_empty}
use crypto_gateway_rp.Webhook.{Post}
use crypto_gateway_rp.Webhook.Preserve.{Holds}
use crypto_gateway_rp.Webhook.Claims.{posts_of, IsPaced}
use crypto_gateway_rp.Webhook.Pacing.{Call, run, run-IsPaced}
use crypto_gateway_rp.Deposit.Parts.{Config, Incoming, wallet_exists}
use crypto_gateway_rp.Deposit.{upsert_incoming_transaction, apply_credit}
use crypto_gateway_rp.Deposit.Unique.{IsKeyed, upsert-IsKeyed}
use crypto_gateway_rp.Deposit.Final.{is_settled, upsert-keeps_settled}
use crypto_gateway_rp.Expiry.{
  is_stale_placeholder, expiry_cutoff, Progress, expire_stale_created_checkout_transactions,
}
use crypto_gateway_rp.Expiry.Drain.{expire_stale_created_checkout_transactions-drains}
use crypto_gateway_rp.RateLimit.{
  first_free_key, try_take_per_second_slot, ExplorerKey, Attempt, wait_for_slot, min_gap_ms,
}
use crypto_gateway_rp.RateLimit.Window.{
  attempts_at, Limited, attempts_at-Limited, wait_for_slot-progress,
}
use crypto_gateway_rp.RateLimit.Spacing.{scanner_attempts_at, Spaced, scanner_attempts_at-Spaced}
use crypto_gateway_rp.Settlement.{Preview, preview_batch_from_tx_rows}
use crypto_gateway_rp.Settlement.Totals.{HasAmount, total, preview_batch_from_tx_rows-total}
use crypto_gateway_rp.RateLimit.Lease.{AtLimit, first_free_key-none}
use crypto_gateway_rp.RateLimit.Quota.{count_requests, count_requests-within}

-- Percentages in hundredths.
abbrev basis_points : NumberOps
basis_points = record {
  Number = ℕ;
  of_text = decimal;
  is_finite = λ p. true;
  is_at_most_zero = λ p. p == 0;
  is_at_least_hundred = λ p. leb 10000 p;
  round_hundredfold = λ p. pos p;
}

split_fees_sequential_from_gross-total_example :
    (s : SequentialSplit) × (split_fees_sequential_from_gross basis_points (pos 1_000_000) 150 50
      ≡ ok s)
    × (s.mdr_amount + s.settlement_fee_amount + s.net_amount ≡ 1_000_000)
    × (s.mdr_amount + s.after_mdr_amount ≡ 1_000_000)
split_fees_sequential_from_gross-total_example =
    split_fees_sequential_from_gross-total basis_points 1_000_000 150 50

fee_amount_from_percent-add_example :
    (fee_amount_from_percent basis_points 999 150 + fee_amount_from_percent basis_points 1 150
      ≤ fee_amount_from_percent basis_points (999 + 1) 150)
    × (fee_amount_from_percent basis_points (999 + 1) 150
        ≤ fee_amount_from_percent basis_points 999 150
          + fee_amount_from_percent basis_points 1 150
          + 1)
fee_amount_from_percent-add_example = fee_amount_from_percent-add basis_points 999 1 150

format-parse_example :
    parse_human_min_settlement_to_atomic (format_atomic_amount_string (print_number 1_050_000) 6) 6
    ≡ Amount.Result.ok 1_050_000
format-parse_example = format-parse 1_050_000 6 (omega arith)

abbrev wallet : Wallet
wallet = record {
  id = 7;
  merchant_id = 3;
  environment = GatewayEnv.live;
  address = codes "0xAbC";
  chain = Chain.eth;
  currency = codes "usdt";
  network = codes "erc20";
  derivation_index = 0;
  assigned_user_id = none;
  hold_expires_at = some 900;
  scan_expires_at = none;
  deposit_scan_single_tick_requested = false;
  created_at = 1;
  deleted_at = none;
}

abbrev checkout : Transaction
checkout = record {
  id = 1;
  wallet_id = 7;
  payer_user_id = none;
  tx_hash = codes "gateway-created:a";
  from_address = [];
  to_address = codes "0xAbC";
  amount = codes "0";
  token_symbol = codes "USDT";
  chain = Chain.eth;
  status = TxStatus.created;
  confirmations = 0;
  block_number = none;
  log_index = pos 0;
  token_decimals = 6;
  callback_delivered_at = none;
  callback_attempt_count = 0;
  callback_last_attempt_at = none;
  deposit_session_key = some (codes "k1");
  reference_transaction_id = some (codes "r1");
  created_at = 10;
  updated_at = 10;
  deleted_at = none;
  merchant_settlement_id = none;
}

abbrev paid : Transaction
paid = record checkout {
  id = 0;
  tx_hash = codes "0x01";
  amount = codes "70";
  status = TxStatus.success;
  deposit_session_key = some (codes "k0");
  created_at = 5;
}

abbrev merchant : Merchant
merchant = record {
  id = 3;
  callback_url = some (codes "https://m");
  mdr_percent = codes "150";
  settlement_rate_percent = codes "50";
  payout_mdr_percent = codes "0";
  min_settlement_amount = codes "0";
  settlement_period_days = 0;
  payout_min_amount_human = codes "0";
  payout_max_amount_human = codes "0";
  payout_rails_policy = [];
  payout_treasury_tron = none;
  payout_treasury_eth = none;
  api_key_hash = some (codes "h1");
  api_key_cipher = none;
  sandbox_api_key_hash = some (codes "h2");
  sandbox_api_key_cipher = none;
  portal_environment = GatewayEnv.live;
  is_active_account = true;
  deleted_at = none;
}

abbrev database : Store
database = record {
  admins = [];
  merchants = merchant ∷ [];
  users = [];
  wallets = wallet ∷ [];
  assignment_events = [];
  transactions = checkout ∷ paid ∷ [];
  next_transaction_id = 2;
  withdrawals = [];
  next_withdrawal_id = 1;
  settlements = [];
  next_settlement_id = 1;
  swap_configs = [];
  scanner_states = [];
  next_wallet_id = 8;
  posted = [];
}

abbrev settings : Config
settings = record {
  confirmations_evm = 12;
  confirmations_tron = 19;
  knows_created = true;
  knows_underpaid = true;
  tron_to_hex = λ a. none;
}

abbrev credit : Incoming
credit = record {
  chain = Chain.eth;
  wallet_id = 7;
  tx_hash = codes "0x02";
  log_index = pos 4;
  from_address = codes "0x9";
  to_address = codes "0xabc";
  amount = codes "500";
  token_symbol = codes "USDT";
  token_decimals = 6;
  confirmations = 15;
  block_number = some 100;
  payer_user_id = none;
  admin_merge_target = none;
}

abbrev answers : Post
answers url t expected reason = true

other_hash :
    (c : Chain) (x : Text) (l : ℤ)
    → has_key (record { chain = c; tx_hash = x; log_index = l }) checkout ≡ true
    → has_key (record { chain = c; tx_hash = x; log_index = l }) paid ≡ false
other_hash c [] l h = no_hash (eq_chain Chain.eth c) (eqb_ℤ (pos 0) l)
  where
    no_hash : (a b : Bool) → (a && false && b) ≡ false
    no_hash a b = ground arith
other_hash c (x ∷ xs) l h =
    first_code x (eq_chain Chain.eth c) (eq_text (codes "ateway-created:a") xs) (eqb_ℤ (pos 0) l)
      (eq_text (codes "x01") xs) h
  where
    first_code :
        (x : ℕ) (a b c e : Bool)
        → (a && (103 == x && b) && c) ≡ true
        → (a && (48 == x && e) && c) ≡ false
    first_code x a b c e h = ground arith

at_most_one :
    (a b : Bool)
    → (a ≡ true → b ≡ false)
    → length (if a then checkout ∷ (if b then paid ∷ [] else []) else if b then paid ∷ [] else [])
      ≤ 1
at_most_one a b h = ground (arith, h)

database-IsKeyed : Holds IsKeyed database
database-IsKeyed = record {
  table = record {
    one_per_id = λ i. ground arith;
    one_per_event = λ k. at_most_one _ _ (other_hash k.chain k.tx_hash k.log_index);
    below = (omega arith, (omega arith, tt));
  };
}

upsert-IsKeyed_example :
    Holds IsKeyed (apply_credit settings answers 50 (codes "f") database credit none)
unfolding upsert_incoming_transaction wallet_exists
upsert-IsKeyed_example =
    upsert-IsKeyed settings answers 50 (codes "f") database credit
      (apply_credit settings answers 50 (codes "f") database credit none) database-IsKeyed refl

upsert-keeps_settled_example :
    count_where (is_settled 0 7 (codes "0x01") (codes "0xAbC") (codes "70")) database.transactions
    ≤ count_where
        (is_settled 0 7 (codes "0x01") (codes "0xAbC") (codes "70"))
        (apply_credit settings answers 50 (codes "f") database credit none).transactions
unfolding upsert_incoming_transaction wallet_exists
upsert-keeps_settled_example =
    upsert-keeps_settled 0 7 (codes "0x01") (codes "0xAbC") (codes "70") settings answers 50
      (codes "f") database credit
      (apply_credit settings answers 50 (codes "f") database credit none) database-IsKeyed refl

-- The paid row under another id: a notification, a call that comes too early, and a retry.
abbrev notified_database : Store
notified_database = record database { transactions = checkout ∷ record paid { id = 3 } ∷ [] }

abbrev notified_calls : List (Post × ℕ × Call)
notified_calls =
    ((λ url t expected reason. false), 100, Call.notifies TxStatus.success 3)
    ∷ (answers, 200, Call.notifies TxStatus.success 3)
    ∷ (answers, 90_000, Call.retries TxStatus.success 30)
    ∷ []

run-IsPaced_example : IsPaced (posts_of 3 (run notified_database notified_calls).posted)
run-IsPaced_example = run-IsPaced 3 notified_database notified_calls (omega arith) refl

expire_stale_created_checkout_transactions-drains_example :
    (q : Progress) × (expire_stale_created_checkout_transactions true answers 90_000_000 24 none 2
        database
      ≡ some q)
    × (count_where (is_stale_placeholder true (expiry_cutoff 24 90_000_000)) q.store.transactions
        ≡ 0)
unfolding is_stale_placeholder
expire_stale_created_checkout_transactions-drains_example =
    expire_stale_created_checkout_transactions-drains true answers 90_000_000 24 none database 2
      (omega arith)

attempts_at-Limited_example :
    Limited 2
      (attempts_at 2 (record { stamps = []; grants = [] }) (10 ∷ 11 ∷ 12 ∷ 1_100 ∷ [])).grants
attempts_at-Limited_example =
    attempts_at-Limited 2 (10 ∷ 11 ∷ 12 ∷ 1_100 ∷ [])
      (omega arith, (omega arith, (omega arith, (omega arith, tt))))

wait_for_slot-progress_example : wait_for_slot 1 1_011 (10 ∷ []) ≡ Attempt.granted (1_011 ∷ [])
unfolding wait_for_slot
wait_for_slot-progress_example =
    wait_for_slot-progress 1 500 1_011 (10 ∷ []) 511 (omega arith) (omega arith) refl (omega arith)

scanner_attempts_at-Spaced_example :
    Limited 3
      (scanner_attempts_at 3
        (record { state = record { stamps = []; last_grant = 0 }; grants = [] })
        ((10, 10) ∷ (11, 12) ∷ (400, 401) ∷ [])).grants
    × Spaced
        (min_gap_ms 3)
        (scanner_attempts_at 3
          (record { state = record { stamps = []; last_grant = 0 }; grants = [] })
          ((10, 10) ∷ (11, 12) ∷ (400, 401) ∷ [])).grants
scanner_attempts_at-Spaced_example =
    scanner_attempts_at-Spaced 3 ((10, 10) ∷ (11, 12) ∷ (400, 401) ∷ [])
      (omega arith, omega arith, (omega arith, omega arith, (omega arith, omega arith, tt)))

abbrev explorer_key : ExplorerKey
explorer_key = record {
  id = 1;
  is_active = true;
  max_requests_per_day = 2;
  max_requests_per_second = 3;
  requests_today = 1;
  usage_day_utc = 100;
}

count_requests-within_example :
    (count_requests ((100, 1) ∷ (100, 1) ∷ (101, 1) ∷ []) explorer_key).requests_today ≤ 2
count_requests-within_example =
    count_requests-within ((100, 1) ∷ (100, 1) ∷ (101, 1) ∷ []) explorer_key (omega arith)
      (omega arith)

paid-HasAmount : HasAmount paid
unfolding big_int
paid-HasAmount = (70, refl)

preview_batch_from_tx_rows-total_example :
    (p : Preview) × (preview_batch_from_tx_rows basis_points
        (paid ∷ paid ∷ [])
        150
        50
        (codes "0.00001")
        6
      ≡ some (ok p))
    × (p.mdr_amount_raw + p.settlement_fee_raw + p.net_to_merchant_raw ≡ total (paid ∷ paid ∷ []))
    × (p.meets_min ≡ true → 1 ≤ p.net_to_merchant_raw)
preview_batch_from_tx_rows-total_example =
    preview_batch_from_tx_rows-total basis_points (paid ∷ paid ∷ []) 150 50 (codes "0.00001") 6
      (paid-HasAmount, (paid-HasAmount, tt))

abbrev slow_key : ExplorerKey
slow_key = record explorer_key { max_requests_per_second = 1 }

first_free_key-none_example : All (AtLimit 10 (λ id. 5 ∷ [])) (slow_key ∷ [])
unfolding first_free_key try_take_per_second_slot
first_free_key-none_example = first_free_key-none 10 (λ id. 5 ∷ []) (slow_key ∷ []) refl
