-- ===== src/Examples/Ledger.antt =====
-- Concrete runs of the balances, the settlement and the withdrawals, on the tables of Examples.
use crypto_gateway_rp.Common.{
  false, ◌≡◌, ◌++◌, refl, true, Option, none, some, List, [], ◌∷◌, ℤ, all, All, if◌then◌else◌,
  lookup, IsMap, ◌⊎◌, arith, ◌+ℤ◌, ◌-ℤ◌,
}
use crypto_gateway_rp.Text.{Text, codes, is_number, decimal, print_number, big_int}
use crypto_gateway_rp.Text.Decimal.{decimal-print_number, print_number_digits}
use crypto_gateway_rp.Store.{Chain, GatewayEnv}
use crypto_gateway_rp.Balance.{
  Token, IsAmount, big_int_from_pg_numeric_text, total_decimal, Engine, inbound_amounts,
  payout_amounts, settlement_amounts,
}
use crypto_gateway_rp.Balance.Ledger.{token_Eq, compute_merchant_balances, merchant_exists}
use crypto_gateway_rp.Balance.Value.{
  HasAmounts, credited, debited, balance_of_sums, compute_merchant_balances-total,
}
use crypto_gateway_rp.Settlement.{
  is_unsettled_credit, load_unsettled_success_transactions, sum_tx_amounts,
}
use crypto_gateway_rp.Store.Queries.{oldest_first}
use crypto_gateway_rp.Fee.{fee_amount_from_percent, split_fees_sequential_from_gross}
use crypto_gateway_rp.Amount.{net_strictly_above_min_settlement_human}
use crypto_gateway_rp.Settlement.Execute.{
  done, refused, SettlementError, Request, Settled, active_merchant, execute_batch_settlement,
  settle_rows,
}
use crypto_gateway_rp.Settlement.Once.{among, execute_batch_settlement-once}
use crypto_gateway_rp.Settlement.Funded.{Funded, execute_batch_settlement-Funded}
use crypto_gateway_rp.Settlement.Refusals.{is_expected, execute_batch_settlement-refusals}
use crypto_gateway_rp.Store.{Withdrawal}
use crypto_gateway_rp.Payout.TestRefs.{FlagInput}
use crypto_gateway_rp.Payout.Signer.{Keys}
use crypto_gateway_rp.Payout.Execute.{
  World, PayoutOptions, SendResult, execute_auto_payout, is_terminal,
}
use crypto_gateway_rp.Payout.Execute.Closed.{is_sent, NoRepeat, OneOpen}
use crypto_gateway_rp.Withdrawal.{answered, AddressLibrary}
use crypto_gateway_rp.Withdrawal.Request.{
  WithdrawalRequest, Created, create_merchant_withdrawal_request,
}
use crypto_gateway_rp.Withdrawal.Steps.{
  Ledger, Steps, stays, steps, requests, executes, Steps-IsPaidOnce,
}
use crypto_gateway_rp.Withdrawal.Funded.{Covered, create_merchant_withdrawal_request-Covered}
use crypto_gateway_rp.Examples.{basis_points, merchant, database}

-- Sums of texts of digits.
sum_digits_text : List Text → Option Text
sum_digits_text ss = if all is_number ss then some (print_number (total_decimal ss)) else none

are_numbers : (ss : List Text) → All IsAmount ss → all is_number ss ≡ true
are_numbers [] h = refl
are_numbers (s ∷ ss) h = rw (h.0.0, h.0.1) (are_numbers ss h.1)

exact_sums : Engine
unfolding sum_digits_text
exact_sums = record {
  locale_at_most = λ s t. true;
  sum_of = sum_digits_text;
  sum_digits = λ ss h full. (
    print_number (total_decimal ss),
    rw (are_numbers ss h) refl,
    print_number_digits (total_decimal ss),
    decimal-print_number (total_decimal ss),
  );
}

database-HasAmounts : HasAmounts database 3 GatewayEnv.live
unfolding inbound_amounts payout_amounts settlement_amounts
database-HasAmounts = record { credits = ((refl, refl), tt); payouts = tt; settlements = tt }

compute_merchant_balances-total_example :
    (balances : List (Token × ℤ)) × (compute_merchant_balances exact_sums database 3 GatewayEnv.live
      ≡ some balances)
    × IsMap balances
    × ((k : Token)
        → lookup k balances
          ≡ balance_of_sums
              (credited database 3 GatewayEnv.live k)
              (debited database 3 GatewayEnv.live k))
unfolding merchant_exists
compute_merchant_balances-total_example =
    compute_merchant_balances-total exact_sums database 3 GatewayEnv.live refl database-HasAmounts

abbrev settlement_request : Request
settlement_request = record {
  asset = record {
    merchant_id = 3;
    environment = GatewayEnv.live;
    chain = Chain.eth;
    token_symbol = codes "USDT";
    token_decimals = 6;
  };
  proof_file_name = some (codes "proof.pdf");
  admin_id = none;
}

first_settlement :
    (out : Settled) × (execute_batch_settlement basis_points exact_sums 20 database
        settlement_request
      ≡ done out)
unfolding execute_batch_settlement settle_rows active_merchant compute_merchant_balances exact_sums
    split_fees_sequential_from_gross fee_amount_from_percent load_unsettled_success_transactions
    is_unsettled_credit oldest_first big_int sum_tx_amounts big_int_from_pg_numeric_text
    inbound_amounts payout_amounts settlement_amounts net_strictly_above_min_settlement_human ◌+ℤ◌
    ◌-ℤ◌
first_settlement = (_, refl)

paid_eligible :
    among 0 (load_unsettled_success_transactions database settlement_request.asset 20 0) ≡ true
unfolding load_unsettled_success_transactions is_unsettled_credit oldest_first
paid_eligible = refl

merchant_found : active_merchant database 3 ≡ some merchant
unfolding active_merchant merchant_exists
merchant_found = refl

execute_batch_settlement-once_example :
    among 0
      (load_unsettled_success_transactions first_settlement.0.store settlement_request.asset 900 0)
    ≡ false
execute_batch_settlement-once_example =
    execute_batch_settlement-once basis_points exact_sums 20 database settlement_request
      first_settlement.0 merchant 0 settlement_request.asset 900 0 first_settlement.1 merchant_found
      paid_eligible

execute_batch_settlement-Funded_example :
    Funded database first_settlement.0.store 3 GatewayEnv.live
      (record { chain = Chain.eth; symbol = codes "USDT"; decimals = 6 })
      (decimal first_settlement.0.row.net_amount)
execute_batch_settlement-Funded_example =
    execute_batch_settlement-Funded basis_points exact_sums 20 database settlement_request
      first_settlement.0 database-HasAmounts first_settlement.1

execute_batch_settlement-refusals_example :
    ((out : Settled) × (execute_batch_settlement basis_points exact_sums 20 database
          settlement_request
        ≡ done out))
    ⊎ ((e : SettlementError) × (execute_batch_settlement basis_points exact_sums 20 database
            settlement_request
          ≡ refused e)
        × (is_expected e ≡ true))
unfolding active_merchant merchant_exists
execute_batch_settlement-refusals_example =
    execute_batch_settlement-refusals basis_points exact_sums 20 database settlement_request
      merchant refl database-HasAmounts

abbrev addresses : AddressLibrary
addresses = record { tron_to_hex = λ a. some a; get_address = λ a. some a }

abbrev payout_request : WithdrawalRequest
payout_request = record {
  merchant_id = 3;
  environment = GatewayEnv.live;
  chain_input = some (codes "eth");
  token_symbol_input = some (codes "usdt");
  to_address_raw = some (codes "0xD");
  amount_raw = some (codes "0.00005");
  payout_mdr_percent = none;
  payout_min_amount_human = none;
  payout_max_amount_human = none;
  client_reference_id = none;
  simulate_result = none;
  from_gateway_api = true;
}

first_payout :
    (c : Created) × (create_merchant_withdrawal_request basis_points exact_sums addresses 30 [] []
        database payout_request
      ≡ answered c)
unfolding create_merchant_withdrawal_request exact_sums compute_merchant_balances
    big_int_from_pg_numeric_text big_int inbound_amounts payout_amounts settlement_amounts ◌+ℤ◌ ◌-ℤ◌
first_payout = (_, refl)

create_merchant_withdrawal_request-Covered_example :
    Covered basis_points exact_sums addresses database 3 GatewayEnv.live Chain.eth 6 50
unfolding create_merchant_withdrawal_request exact_sums compute_merchant_balances merchant_exists
    big_int_from_pg_numeric_text big_int inbound_amounts payout_amounts settlement_amounts ◌+ℤ◌ ◌-ℤ◌
    first_payout
create_merchant_withdrawal_request-Covered_example =
    create_merchant_withdrawal_request-Covered basis_points exact_sums addresses 30 [] [] database
      payout_request first_payout.0 refl refl database-HasAmounts first_payout.1 refl

abbrev keys : Keys
keys = record {
  tron_to_hex = λ a. some a;
  get_address = λ a. some a;
  hot_private_key_tron = codes "k";
  hot_private_key_eth = codes "k";
  tron_account = λ k. some (k, codes "T");
  ethers_wallet = λ k. some (k, codes "0xE");
  merchant_wallet_mnemonic = λ m. none;
  derive_tron_private_key_hex = λ i m. none;
  hd_node_wallet = λ m path. none;
  exception_text = codes "Error";
}

abbrev world : World
world = record {
  now = 40;
  keys = keys;
  fetch_network_fee = λ c h. none;
  transfer_usdt = λ t. SendResult.sent (codes "0x77");
}

abbrev plain_options : PayoutOptions
plain_options = record { force_fail = FlagInput.other; simulate_result = none }

abbrev start : Ledger
start = record { store = database; transfers = [] }

abbrev requested : Ledger
requested = record { store = first_payout.0.store; transfers = [] }

abbrev executed : Ledger → Ledger
executed l = record {
  store = (execute_auto_payout world plain_options l.store 1).store;
  transfers = (execute_auto_payout world plain_options l.store 1).transfers ++ l.transfers;
}

-- The request's payout is executed twice.
payout-Steps : Steps basis_points exact_sums addresses start (executed (executed requested))
payout-Steps =
    steps
      (steps (steps stays (requests 30 [] [] payout_request first_payout.0 first_payout.1))
        (executes world plain_options 1))
      (executes world plain_options 1)

Steps-IsPaidOnce_example :
    NoRepeat (executed (executed requested)).transfers
    × All
        (λ (w : Withdrawal).
          is_sent (executed (executed requested)).transfers w.id ≡ true
          → is_terminal w.status ≡ true)
        (executed (executed requested)).store.withdrawals
    × OneOpen (executed (executed requested)).store.withdrawals
Steps-IsPaidOnce_example =
    Steps-IsPaidOnce basis_points exact_sums addresses start (executed (executed requested))
      payout-Steps refl tt (λ m env. omega arith)
