-- ===== src/Withdrawal/Request.antt =====
-- createMerchantWithdrawalRequest of server/src/services/merchant-withdrawal-request.js. The unique
-- index on the client's reference is the one of the migration 20260430220000: active rows of one
-- merchant and environment.
use crypto_gateway_rp.Common.{
  ℕ, suc, Bool, ◌&&◌, ◌||◌, not, Option, none, some, [], ◌∷◌, ◌++◌, ℤ, pos, pos_part, ltb_ℤ, ◌==◌,
  if◌then◌else◌, get_or, is_some, is_empty, any, find, take,
}
use crypto_gateway_rp.Numeric.{NumberOps}
use crypto_gateway_rp.Text.{Text, codes, eq_text, to_upper_case, big_int, print_number}
use crypto_gateway_rp.Fee.{fee_amount_from_percent}
use crypto_gateway_rp.Amount
use crypto_gateway_rp.Amount.{parse_optional_gateway_deposit_amount}
use crypto_gateway_rp.Store.{
  GatewayEnv, WithdrawalStatus, processing, eq_chain, eq_env, Withdrawal, Store, is_active,
}
use crypto_gateway_rp.Balance.{Token, Engine}
use crypto_gateway_rp.Balance.Ledger.{compute_merchant_balances}
use crypto_gateway_rp.Payout.TestRefs.{
  SimulatedOutcome, parse_simulate_result, uniquify_sandbox_client_ref,
}
use crypto_gateway_rp.Payout.Policy.{trimmed}
use crypto_gateway_rp.Withdrawal.{
  Rail, usdt, resolve_merchant_withdrawal_rail, RequestError, Answer, answered, rejected, thrown,
  ◌>>=◌, ◌>>◌, or_reject, or_throw, reject_if, AddressLibrary, normalize_withdrawal_to_address,
  merchant_has_pending_payout, LimitBreach, validate_gross_against_merchant_payout_limits,
}

pub record WithdrawalRequest : Type 0 where
  pub merchant_id : ℕ
  pub environment : GatewayEnv
  pub chain_input : Option Text
  pub token_symbol_input : Option Text
  pub to_address_raw : Option Text
  pub amount_raw : Option Text
  pub payout_mdr_percent : Option Text
  pub payout_min_amount_human : Option Text
  pub payout_max_amount_human : Option Text
  pub client_reference_id : Option Text
  pub simulate_result : Option Text
  pub from_gateway_api : Bool

pub record Created : Type 0 where
  pub withdrawal : Withdrawal
  pub store : Store

abbrev pub is_sandbox : WithdrawalRequest → Bool
is_sandbox p = eq_env p.environment GatewayEnv.sandbox

pub amount_of_answer : Amount.Result (Option Text) → Answer Text
amount_of_answer (Amount.Result.err e) = rejected (RequestError.amount_error e)
amount_of_answer (Amount.Result.ok none) = rejected RequestError.amount_required
amount_of_answer (Amount.Result.ok (some atomic)) = answered atomic

abbrev has_reference : WithdrawalRequest → Text → Withdrawal → Bool
has_reference p reference w =
    w.merchant_id == p.merchant_id
    && eq_env w.environment p.environment
    && eq_text (get_or w.client_reference_id []) reference
    && is_some w.client_reference_id
    && is_active w.deleted_at

unfoldable pub reference_taken : Store → WithdrawalRequest → Text → Bool
reference_taken store p reference = any (has_reference p reference) store.withdrawals

test_reference : SimulatedOutcome → Text
test_reference SimulatedOutcome.failed = codes "FAIL-TEST"
test_reference SimulatedOutcome.completed = codes "SUCCESS-TEST"

sandbox_reference : Store → WithdrawalRequest → Text → Text → Text
unfolding test_reference uniquify_sandbox_client_ref reference_taken parse_simulate_result
sandbox_reference store p suffix reference =
    if is_empty reference
    then elim (parse_simulate_result p.simulate_result) [
      | none ↦ []
      | some outcome ↦ uniquify_sandbox_client_ref suffix (test_reference outcome)
    ]
    else if reference_taken store p reference
    then uniquify_sandbox_client_ref suffix reference
    else reference

-- The reference to store, empty for none.
unfoldable pub client_reference : Store → WithdrawalRequest → Text → Answer Text
unfolding sandbox_reference reference_taken trimmed
client_reference store p suffix =
    let reference = take 256 (trimmed p.client_reference_id) in
    if is_sandbox p
    then answered (sandbox_reference store p suffix reference)
    else if not (is_empty reference) && reference_taken store p reference
    then rejected RequestError.client_reference_exists
    else answered reference

abbrev pub limit_reason : Option LimitBreach → Option Text
limit_reason none = none
limit_reason (some breach) = some (take 2000 (breach.error ++ codes ": " ++ breach.message))

unfoldable pub is_bucket_of : Rail → (Token × ℤ) → Bool
unfolding to_upper_case
is_bucket_of rail entry =
    eq_chain entry.0.chain rail.chain
    && eq_text (to_upper_case entry.0.symbol) usdt
    && entry.0.decimals == rail.token_decimals

abbrev pub available_of : Option (Token × ℤ) → ℤ
available_of none = pos 0
available_of (some entry) = entry.1

abbrev pub balance_reason : ℤ → ℕ → Option Text
balance_reason available gross =
    if ltb_ℤ available (pos gross)
    then some (codes "insufficient_balance: Not enough settled balance for this gross payout.")
    else none

module _ (js : NumberOps) (sql : Engine) (lib : AddressLibrary) where
  open js use {of_text}

  -- Why the row is written as failed: a limit, or a live balance below the gross amount.
  unfoldable pub pre_fail_reason : Store → WithdrawalRequest → Rail → ℕ → Answer (Option Text)
  unfolding validate_gross_against_merchant_payout_limits is_bucket_of
  pre_fail_reason store p rail gross =
      let bounds = limit_reason (
        validate_gross_against_merchant_payout_limits gross p.payout_min_amount_human
          p.payout_max_amount_human rail.token_decimals) in
      if is_some bounds || is_sandbox p then answered bounds else (do
        buckets ← or_throw (compute_merchant_balances sql store p.merchant_id p.environment)
        answered (balance_reason (available_of (find (is_bucket_of rail) buckets)) gross))

  unfoldable pub new_row :
      ℕ → Store → WithdrawalRequest → Rail → Text → ℕ → Text → Option Text → Withdrawal
  unfolding print_number
  new_row now store p rail to_address gross reference reason = record {
    id = store.next_withdrawal_id;
    merchant_id = p.merchant_id;
    environment = p.environment;
    chain = rail.chain;
    token_symbol = usdt;
    token_decimals = rail.token_decimals;
    to_address = to_address;
    amount = print_number gross;
    gross_amount = some (print_number gross);
    net_amount = some (print_number gross);
    mdr_amount = some (
        print_number
          (fee_amount_from_percent js gross (of_text (get_or p.payout_mdr_percent (codes "0")))));
    settlement_fee_amount = some (codes "0");
    source = if p.from_gateway_api then codes "gateway_api" else codes "portal";
    status = if is_some reason then WithdrawalStatus.failed else processing;
    tx_hash = none;
    network_fee_native_atomic = none;
    network_fee_native_symbol = none;
    network_fee_fetched_at = none;
    failure_reason = reason;
    client_reference_id = if is_empty reference then none else some reference;
    created_at = now;
    updated_at = now;
    deleted_at = none;
  }

  abbrev pub inserted : Store → Withdrawal → Created
  inserted store row = record {
    withdrawal = row;
    store = record store {
      withdrawals = row ∷ store.withdrawals;
      next_withdrawal_id = suc store.next_withdrawal_id;
    };
  }

  -- A reference that is taken violates the unique index (P2002): in the sandbox it is made unique and
  -- the row is written once more.
  unfoldable pub insert_with_ref :
      ℕ → Store → WithdrawalRequest → Rail → Text → ℕ → Text → Text → Option Text → Answer Created
  unfolding reference_taken uniquify_sandbox_client_ref new_row
  insert_with_ref now store p rail to_address gross suffix reference reason =
      let again = uniquify_sandbox_client_ref suffix reference in
      let is_taken = λ (r : Text). not (is_empty r) && reference_taken store p r in
      if not (is_taken reference)
      then answered (inserted store (new_row now store p rail to_address gross reference reason))
      else if is_sandbox p && not (is_taken again)
      then answered (inserted store (new_row now store p rail to_address gross again reason))
      else thrown

  -- The two suffixes are those that the request's calls of uniquifySandboxClientRef make.
  unfoldable pub create_merchant_withdrawal_request :
      ℕ → Text → Text → Store → WithdrawalRequest → Answer Created
  unfolding resolve_merchant_withdrawal_rail normalize_withdrawal_to_address amount_of_answer
      parse_optional_gateway_deposit_amount merchant_has_pending_payout client_reference
      pre_fail_reason insert_with_ref big_int
  create_merchant_withdrawal_request now suffix second_suffix store p = do
    rail ←
        or_reject (resolve_merchant_withdrawal_rail p.chain_input p.token_symbol_input)
          RequestError.unsupported_withdrawal_rail
    to_address ← normalize_withdrawal_to_address lib rail.chain p.to_address_raw
    atomic ←
        amount_of_answer (parse_optional_gateway_deposit_amount p.amount_raw rail.token_decimals)
    gross ← or_throw (big_int atomic)
    reject_if (ltb_ℤ gross (pos 1)) RequestError.invalid_amount
    reject_if (merchant_has_pending_payout store p.merchant_id p.environment)
        RequestError.payout_already_pending
    reference ← client_reference store p suffix
    reason ← pre_fail_reason store p rail (pos_part gross)
    insert_with_ref now store p rail to_address (pos_part gross) second_suffix reference reason
