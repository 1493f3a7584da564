-- ===== src/Payout/Execute.antt =====
-- executeAutoPayout of server/src/services/payout/execute-auto-payout.js, with the fee that
-- server/src/services/payout-withdrawal-network-fee.js stores. The chains answer through a parameter;
-- every transfer that is handed to them is in the result.
pub mod Closed
pub mod Once
use crypto_gateway_rp.Common.{
  ℕ, Bool, true, false, ◌&&◌, ◌||◌, not, Option, none, some, List, [], ◌∷◌, ◌++◌, ℤ, ◌==◌, leb,
  if◌then◌else◌, get_or, is_some, is_none, is_empty, take, find,
}
use crypto_gateway_rp.Text.{Text, codes, trim, print_number, big_int}
use crypto_gateway_rp.Store.{
  Chain, GatewayEnv, WithdrawalStatus, processing, completed, eq_chain, eq_env,
  eq_withdrawal_status, Merchant, Withdrawal, Store, is_active,
}
use crypto_gateway_rp.Store.Queries.{update_where}
use crypto_gateway_rp.Payout.TestRefs.{FlagInput, SimulatedOutcome, simulated_payout_outcome}
use crypto_gateway_rp.Payout.Policy.{
  Policy, payout_rail_key_for_chain, effective_payout_policy_for_rail,
  rp_merchant_swap_main_tron_address,
}
use crypto_gateway_rp.Payout.Signer.{
  Keys, Signer, SignerResult, signed_by, unsigned, resolve_payout_signer,
}

-- What is handed to the chain's library.
pub record Transfer : Type 0 where
  pub withdrawal_id : ℕ
  pub chain : Chain
  pub signer : Signer
  pub to_address : Text
  pub amount_atomic : ℤ

-- The answer: the hash, an error with its detail, or an exception with its text.
pub data SendResult : Type 0 where
  sent : Text → SendResult
  not_sent : Text → Option Text → SendResult
  raised : Text → SendResult

-- The services behind one run, and its clock.
pub record World : Type 0 where
  pub now : ℕ
  pub keys : Keys
  pub fetch_network_fee : Chain → Text → Option (Text × Text)
  pub transfer_usdt : Transfer → SendResult

-- The columns to write; `none` leaves one as it is.
pub record WithdrawalPatch : Type 0 where
  pub status : Option WithdrawalStatus
  pub tx_hash : Option (Option Text)
  pub failure_reason : Option (Option Text)

abbrev pub has_withdrawal_id : ℕ → Withdrawal → Bool
has_withdrawal_id id w = w.id == id

abbrev pub is_active_withdrawal : ℕ → Withdrawal → Bool
is_active_withdrawal id w = w.id == id && is_active w.deleted_at

abbrev pub patched : ℕ → WithdrawalPatch → Withdrawal → Withdrawal
patched now p w = record w {
  status = get_or p.status w.status;
  tx_hash = get_or p.tx_hash w.tx_hash;
  failure_reason = get_or p.failure_reason w.failure_reason;
  updated_at = now;
}

abbrev pub with_network_fee : ℕ → (Text × Text) → Withdrawal → Withdrawal
with_network_fee now fee w = record w {
  network_fee_native_atomic = some fee.0;
  network_fee_native_symbol = some fee.1;
  network_fee_fetched_at = some now;
  updated_at = now;
}

abbrev pub write_withdrawals : Store → List Withdrawal → Store
write_withdrawals store rows = record store { withdrawals = rows }

store_fee : World → Store → Withdrawal → Option (Text × Text) → Store
store_fee world store w none = store
store_fee world store w (some fee) =
    write_withdrawals store
      (update_where (has_withdrawal_id w.id) (with_network_fee world.now fee) store.withdrawals)

-- fillMissingWithdrawalNetworkFees on one row.
unfoldable pub fill_missing_network_fee : World → Store → Withdrawal → Store
unfolding store_fee trim
fill_missing_network_fee world store w =
    let hash = trim (get_or w.tx_hash []) in
    if is_empty hash || not (is_empty (trim (get_or w.network_fee_native_atomic [])))
    then store
    else store_fee world store w (world.fetch_network_fee w.chain hash)

fill_fresh : World → Store → Option Withdrawal → Store
unfolding fill_missing_network_fee
fill_fresh world store none = store
fill_fresh world store (some fresh) =
    if is_empty (get_or fresh.tx_hash []) then store else fill_missing_network_fee world store fresh

unfoldable pub find_withdrawal : Store → ℕ → Option Withdrawal
find_withdrawal store id = find (is_active_withdrawal id) store.withdrawals

unfoldable pub patch_withdrawal : World → ℕ → WithdrawalPatch → Store → Store
unfolding fill_fresh find_withdrawal
patch_withdrawal world id p store =
    let written =
      write_withdrawals store
        (update_where (has_withdrawal_id id) (patched world.now p) store.withdrawals) in
    fill_fresh world written (find_withdrawal written id)

-- `{ ok, error, withdrawal }`, the tables, and the transfers that were tried.
pub record Executed : Type 0 where
  pub error : Option Text
  pub withdrawal : Option Withdrawal
  pub store : Store
  pub transfers : List ℕ

abbrev pub failed_patch : Text → WithdrawalPatch
failed_patch reason = record {
  status = some WithdrawalStatus.failed;
  tx_hash = none;
  failure_reason = some (some reason);
}

abbrev pub completed_patch : Text → WithdrawalPatch
completed_patch hash = record {
  status = some completed;
  tx_hash = some (some hash);
  failure_reason = some none;
}

unfoldable pub finish : World → ℕ → Store → Option Text → WithdrawalPatch → List ℕ → Executed
unfolding patch_withdrawal find_withdrawal
finish world id store error p transfers =
    let after = patch_withdrawal world id p store in
    record {
      error = error;
      withdrawal = find_withdrawal after id;
      store = after;
      transfers = transfers;
    }

apply_simulated_payout_outcome : World → ℕ → Store → SimulatedOutcome → Executed
unfolding print_number
apply_simulated_payout_outcome world id store SimulatedOutcome.failed =
    finish world id store (some (codes "force_fail"))
      (record {
        status = some WithdrawalStatus.failed;
        tx_hash = some none;
        failure_reason = some (some (codes "force_fail"));
      })
      []
apply_simulated_payout_outcome world id store SimulatedOutcome.completed =
    finish world id store none (completed_patch (codes "sandbox-payout:" ++ print_number id)) []

-- `a?.trim() || b`
trimmed_or : Option Text → Text → Text
unfolding trim
trimmed_or none b = b
trimmed_or (some a) b = if is_empty (trim a) then b else trim a

amount_text : Withdrawal → Text
unfolding trimmed_or trim
amount_text row = trim (trimmed_or row.net_amount (trimmed_or row.gross_amount row.amount))

-- `${error}: ${detail}` where there is a detail.
abbrev with_detail : Text → Option Text → Text
with_detail e none = e
with_detail e (some d) = if is_empty d then e else take 2000 (e ++ codes ": " ++ d)

after_send : World → ℕ → Store → SendResult → Executed
after_send world id store (sent hash) = finish world id store none (completed_patch hash) (id ∷ [])
after_send world id store (not_sent e detail) =
    finish world id store (some e) (failed_patch (with_detail e detail)) (id ∷ [])
after_send world id store (raised e) =
    finish world id store (some (codes "auto_payout_error"))
      (failed_patch (take 2000 (codes "auto_payout_error: " ++ e))) (id ∷ [])

abbrev pub is_payable : Chain → Bool
is_payable chain = eq_chain chain Chain.tron || eq_chain chain Chain.eth

-- The amount is read first: what BigInt rejects ends in the handler of exceptions.
send_amount : World → Store → Withdrawal → Signer → Option ℤ → Executed
unfolding amount_text
send_amount world store row signer none =
    finish world row.id store (some (codes "auto_payout_error"))
      (failed_patch (
        take 2000 (
          codes "auto_payout_error: SyntaxError: Cannot convert "
          ++ amount_text row
          ++ codes " to a BigInt")))
      []
send_amount world store row signer (some amount) =
    if is_payable row.chain
    then after_send world row.id store (
        world.transfer_usdt (record {
          withdrawal_id = row.id;
          chain = row.chain;
          signer = signer;
          to_address = row.to_address;
          amount_atomic = amount;
        }))
    else finish world row.id store (some (codes "unsupported_payout_chain"))
        (failed_patch (codes "unsupported_payout_chain")) []

sign_and_send : World → Store → Withdrawal → SignerResult → Executed
unfolding amount_text big_int
sign_and_send world store row (unsigned e message) =
    finish world row.id store (some e) (failed_patch (take 2000 (e ++ codes ": " ++ message))) []
sign_and_send world store row (signed_by signer) =
    send_amount world store row signer (big_int (amount_text row))

from_treasury : World → Store → Withdrawal → Option Text → Executed
unfolding resolve_payout_signer
from_treasury world store row none =
    finish world row.id store (some (codes "rp_swap_main_wallet_required"))
      (failed_patch (
        codes
          "rp_swap_main_wallet_required: Set the merchant’s main wallet under RP → Swap before TRON payouts can run."))
      []
from_treasury world store row (some treasury) =
    sign_and_send world store row
      (resolve_payout_signer world.keys store row.merchant_id row.chain treasury)

policy_treasury : Merchant → Option Text → Text
unfolding effective_payout_policy_for_rail
policy_treasury merchant none = []
policy_treasury merchant (some key) = (effective_payout_policy_for_rail merchant key).treasury

pay_for_merchant : World → Store → Withdrawal → Option Merchant → Executed
unfolding policy_treasury payout_rail_key_for_chain rp_merchant_swap_main_tron_address
pay_for_merchant world store row none =
    finish world row.id store (some (codes "merchant_not_found"))
      (failed_patch (codes "merchant_not_found")) []
pay_for_merchant world store row (some merchant) = from_treasury world store row (
    if eq_chain row.chain Chain.tron
    then rp_merchant_swap_main_tron_address store row.merchant_id
    else some (policy_treasury merchant (payout_rail_key_for_chain row.chain)))

abbrev pub is_terminal : WithdrawalStatus → Bool
is_terminal status =
    eq_withdrawal_status status completed || eq_withdrawal_status status WithdrawalStatus.failed

-- `updateMany` to processing, for a row that was read as pending.
abbrev claims_pending : ℕ → Withdrawal → Bool
claims_pending id w =
    w.id == id && eq_withdrawal_status w.status WithdrawalStatus.pending && is_active w.deleted_at

abbrev to_processing : ℕ → Withdrawal → Withdrawal
to_processing now w = record w { status = processing; updated_at = now }

unfoldable pub mark_processing : World → Store → Withdrawal → Store
mark_processing world store row =
    if eq_withdrawal_status row.status WithdrawalStatus.pending
    then write_withdrawals store
        (update_where (claims_pending row.id) (to_processing world.now) store.withdrawals)
    else store

pub record PayoutOptions : Type 0 where
  pub force_fail : FlagInput
  pub simulate_result : Option Text

execute_row : World → PayoutOptions → Store → Withdrawal → Executed
unfolding simulated_payout_outcome mark_processing
execute_row world opts store row =
    let marked = mark_processing world store row in
    if is_terminal row.status
    then record { error = none; withdrawal = some row; store = store; transfers = [] }
    else if eq_env row.environment GatewayEnv.sandbox
    then apply_simulated_payout_outcome world row.id store
        (simulated_payout_outcome opts.force_fail row.client_reference_id opts.simulate_result)
    else pay_for_merchant world marked row (
        find (λ (m : Merchant). m.id == row.merchant_id && is_active m.deleted_at) marked.merchants)

pub execute_found : World → PayoutOptions → Store → Option Withdrawal → Executed
execute_found world opts store none = record {
  error = some (codes "not_found");
  withdrawal = none;
  store = store;
  transfers = [];
}
execute_found world opts store (some row) = execute_row world opts store row

unfoldable pub execute_auto_payout : World → PayoutOptions → Store → ℕ → Executed
unfolding find_withdrawal
execute_auto_payout world opts store id =
    if leb 1 id then execute_found world opts store (find_withdrawal store id) else record {
      error = some (codes "invalid_withdrawal_id");
      withdrawal = none;
      store = store;
      transfers = [];
    }
