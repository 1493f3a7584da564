-- ===== src/Examples/Assignment.antt =====
-- A concrete assignment and the credit that follows it, on the tables of Examples.
use crypto_gateway_rp.Common.{none, some}
use crypto_gateway_rp.Text.{codes}
use crypto_gateway_rp.Store.{Chain, GatewayEnv}
use crypto_gateway_rp.Deposit.Parts.{Incoming}
use crypto_gateway_rp.Pool.{taken}
use crypto_gateway_rp.Pool.Checkout.{
  AssignConfig, AssignRequest, Assigned, opened, with_picked, pick_args,
}
use crypto_gateway_rp.Examples.{wallet, database, credit}
use crypto_gateway_rp.Examples.Pool.{pool_config}

abbrev assign_config : AssignConfig
assign_config = record {
  pool = pool_config;
  chain_enabled = λ chain. none;
  wallet_assignment_hold_minutes = 60;
  wallet_scan_ttl_minutes = 0;
  deposit_session_key = codes "5e55";
  gateway_reference = codes "ref";
}

abbrev request : AssignRequest
request = record {
  merchant_id = 3;
  environment = GatewayEnv.live;
  user_id = 9;
  chain = Chain.eth;
  currency = codes "usdt";
  network = codes "erc20";
  reference_transaction_id = none;
  expected_amount_atomic = some (codes "2500000");
}

abbrev answer : Assigned
answer =
    opened (codes "5e55") (codes "ref") 5_000 request
      (taken (pick_args assign_config 5_000 request) database wallet)
      (with_picked (taken (pick_args assign_config 5_000 request) database wallet) database)

abbrev new_credit : Incoming
new_credit = record credit { payer_user_id = none }
