-- ===== src/Examples/Credits.antt =====
-- Concrete runs of the credits of a tick: one transfer of 500 units to the wallet, in block 8.
use crypto_gateway_rp.Common.{
  ◌≡◌, ◌≤◌, refl, sym, subst, inl, true, none, some, [], ◌∷◌, ◌==◌, pos, if◌then◌else◌,
}
use crypto_gateway_rp.Text.{Text, codes, trim, to_upper_case, to_lower_case, print_number}
use crypto_gateway_rp.Store.{Chain, Wallet, Store}
use crypto_gateway_rp.Store.Queries.{count_where, sort_by}
use crypto_gateway_rp.Store.Counts.{Has}
use crypto_gateway_rp.Checkout.{EventKey, has_key}
use crypto_gateway_rp.Pool.Checkout.{is_chain_live_for_platform}
use crypto_gateway_rp.Webhook.Preserve.{Holds}
use crypto_gateway_rp.Deposit.Parts.{Incoming, event_key, wallet_exists, normalize_match_address}
use crypto_gateway_rp.Deposit.{upsert_incoming_transaction, apply_credit}
use crypto_gateway_rp.Deposit.Unique.{IsKeyed}
use crypto_gateway_rp.Deposit.Recorded.{upsert-records}
use crypto_gateway_rp.Deposit.Kept.{is_credit, upsert-keeps_credits}
use crypto_gateway_rp.Scanner.{scan_evm_chain, scan_from, get_or_init_scanner_block, blocks_after}
use crypto_gateway_rp.Scanner.Credits.{
  ScanSettings, Arrival, EvmTick, done, store_of, Fetched, load_wallets_for_chain,
  live_worker_wallet_scan_filter, scan_evm_credits, credit_of,
}
use crypto_gateway_rp.Scanner.Credits.Complete.{position_tick, scan_evm_credits-Completes}
use crypto_gateway_rp.Scanner.Credits.Recorded.{scan_evm_credits-records}
use crypto_gateway_rp.Scanner.Credits.Worker.{
  worker_scan, worker_scan-completes, run_evm_deposit_tick,
}
use crypto_gateway_rp.Scanner.Credits.Cleared.{
  IsCleared, run_evm_deposit_tick-IsCleared, run_evm_deposit_tick-records,
}
use crypto_gateway_rp.Examples.{database, database-IsKeyed, wallet, settings, credit, answers}
use crypto_gateway_rp.Examples.Scanner.{scanned_database}

abbrev usdt : Text
usdt = codes "0xUsdt"

abbrev scan_settings : ScanSettings
scan_settings = record {
  config = settings;
  erc20_contracts = λ chain. (usdt, record { symbol = codes "usdt"; decimals = 6 }) ∷ [];
  parse_log =
      λ log. some (record { from_address = codes "0x9"; to_address = codes "0xABC"; value = 500 });
}

abbrev arrival : Arrival
arrival = record {
  transfer_log = record {
    address = codes "0xUSDT";
    topics = [];
    data_hex = codes "0x";
    transaction_hash = codes "0x02";
    index = pos 4;
  };
  now = 50;
  fresh = codes "f";
  post = answers;
}

abbrev scanned_wallet : Wallet
scanned_wallet = record wallet { currency = codes "USDT"; network = codes "ERC20" }

abbrev scan_database : Store
scan_database = record scanned_database { wallets = scanned_wallet ∷ [] }

-- Block 9 could not be fetched.
abbrev fetched : Fetched
fetched b = if b == 8 then some (arrival ∷ []) else none

abbrev evm_tick : EvmTick
evm_tick = record {
  has_explorer_pool = true;
  tip = some 9;
  max_blocks_per_tick = 5;
  fetched = fetched;
}

abbrev found_credit : Incoming
found_credit = record {
  chain = Chain.eth;
  wallet_id = 7;
  tx_hash = codes "0x02";
  log_index = pos 4;
  from_address = codes "0x9";
  to_address = codes "0xAbC";
  amount = codes "500";
  token_symbol = codes "usdt";
  token_decimals = 6;
  confirmations = 2;
  block_number = some 8;
  payer_user_id = none;
  admin_merge_target = none;
}

scan_database-IsKeyed : Holds IsKeyed scan_database
scan_database-IsKeyed = record { table = database-IsKeyed.table }

upsert-records_example :
    count_where
      (has_key (event_key credit))
      (apply_credit settings answers 50 (codes "f") database credit none).transactions
    ≡ 1
unfolding upsert_incoming_transaction wallet_exists
upsert-records_example =
    upsert-records settings answers 50 (codes "f") database credit
      (apply_credit settings answers 50 (codes "f") database credit none) database-IsKeyed refl

abbrev old_event : EventKey
old_event = record { chain = Chain.eth; tx_hash = codes "0x01"; log_index = pos 0 }

upsert-keeps_credits_example :
    count_where (is_credit old_event) database.transactions
    ≤ count_where
        (is_credit old_event)
        (apply_credit settings answers 50 (codes "f") database credit none).transactions
unfolding upsert_incoming_transaction wallet_exists
upsert-keeps_credits_example =
    upsert-keeps_credits old_event settings answers 50 (codes "f") refl database credit
      (apply_credit settings answers 50 (codes "f") database credit none) database-IsKeyed refl

worker_scan-completes_example :
    ((worker_scan scan_settings Chain.eth evm_tick scan_database).0
      ≡ (scan_evm_chain Chain.eth
          (position_tick evm_tick (load_wallets_for_chain settings Chain.eth scan_database))
          scan_database).0)
    × ((after : Store) × ((worker_scan scan_settings Chain.eth evm_tick scan_database).1
          ≡ done after))
worker_scan-completes_example =
    worker_scan-completes scan_settings Chain.eth evm_tick scan_database (refl, tt)

run_evm_deposit_tick-IsCleared_example :
    IsCleared Chain.eth
      (run_evm_deposit_tick scan_settings (λ chain. none) (λ chain. evm_tick) scan_database)
unfolding is_chain_live_for_platform
run_evm_deposit_tick-IsCleared_example =
    run_evm_deposit_tick-IsCleared scan_settings (λ chain. none) (λ chain. evm_tick) scan_database
      refl (refl, tt)

found :
    credit_of scan_settings Chain.eth (scanned_wallet ∷ []) 9 8 arrival.transfer_log
    ≡ some found_credit
unfolding credit_of sort_by normalize_match_address trim to_upper_case to_lower_case print_number
found = refl

visited :
    Has 8 (scan_evm_chain Chain.eth (position_tick evm_tick (scanned_wallet ∷ [])) scan_database).0
unfolding scan_evm_chain scan_from get_or_init_scanner_block blocks_after
visited = inl refl

is_there : wallet_exists scan_database 7 ≡ true
unfolding wallet_exists
is_there = refl

block_is_done :
    Has 8 (scan_evm_credits scan_settings Chain.eth (scanned_wallet ∷ []) evm_tick scan_database).0
block_is_done =
    subst (Has 8)
      (sym
        (scan_evm_credits-Completes scan_settings Chain.eth (scanned_wallet ∷ []) evm_tick
          scan_database (is_there, tt)).all_done)
      visited

scan_evm_credits-records_example :
    count_where
      (has_key (event_key found_credit))
      (store_of
        (scan_evm_credits scan_settings Chain.eth
          (scanned_wallet ∷ [])
          evm_tick
          scan_database).1).transactions
    ≡ 1
scan_evm_credits-records_example =
    scan_evm_credits-records scan_settings Chain.eth (scanned_wallet ∷ []) evm_tick scan_database 9
      8 (arrival ∷ []) arrival found_credit scan_database-IsKeyed refl block_is_done refl (inl refl)
      found refl

-- The wallet has an open checkout, so it is loaded.
loaded_wallets : load_wallets_for_chain settings Chain.eth scan_database ≡ scanned_wallet ∷ []
unfolding load_wallets_for_chain live_worker_wallet_scan_filter
loaded_wallets = refl

visited_loaded :
    Has 8
      (scan_evm_chain Chain.eth
        (position_tick evm_tick (load_wallets_for_chain settings Chain.eth scan_database))
        scan_database).0
visited_loaded =
    subst (λ ws. Has 8 (scan_evm_chain Chain.eth (position_tick evm_tick ws) scan_database).0)
      (sym loaded_wallets) visited

found_loaded :
    credit_of scan_settings Chain.eth
      (load_wallets_for_chain settings Chain.eth scan_database)
      9
      8
      arrival.transfer_log
    ≡ some found_credit
found_loaded =
    subst (λ ws. credit_of scan_settings Chain.eth ws 9 8 arrival.transfer_log ≡ some found_credit)
      (sym loaded_wallets) found

run_evm_deposit_tick-records_example :
    count_where
      (has_key (event_key found_credit))
      (run_evm_deposit_tick scan_settings
        (λ chain. none)
        (λ chain. evm_tick)
        scan_database).transactions
    ≡ 1
unfolding is_chain_live_for_platform
run_evm_deposit_tick-records_example =
    run_evm_deposit_tick-records scan_settings (λ chain. none) (λ chain. evm_tick) scan_database 9 8
      (arrival ∷ []) arrival found_credit refl (refl, tt) scan_database-IsKeyed refl visited_loaded
      refl (inl refl) found_loaded refl
