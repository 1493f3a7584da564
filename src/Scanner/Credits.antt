-- ===== src/Scanner/Credits.antt =====
-- The credits of a tick of scanEvmChain in cron/src/services/tracker/evm-tracker.js: the wallets that are
-- scanned (loadWalletsForChain and loadAllLiveWalletsForChain of
-- server/src/services/payment/transaction-upsert.js, with the filters of server/src/lib/wallet-scan.js),
-- the wallet of a transfer log (server/src/config/payment-rails.js, server/src/lib/deposit-scan-dedupe.js),
-- and the worker's tick of cron/src/services/tracker/worker.js. The explorer's answers and ethers' parser
-- are parameters.
pub mod Kept
pub mod Recorded
pub mod Complete
pub mod Worker
pub mod Cleared
use crypto_gateway_rp.Common.{
  ℕ, suc, ◌-◌, Bool, true, false, ◌&&◌, ◌||◌, not, Option, none, some, map, List, [], ◌∷◌, ℤ, leb,
  ◌==◌, if◌then◌else◌, is_none, is_some, any, filter, or_else, get_or,
}
use crypto_gateway_rp.Text.{Text, codes, eq_text, to_lower_case, to_upper_case, print_number}
use crypto_gateway_rp.Store.{
  Chain, eth, eq_chain, GatewayEnv, eq_env, Wallet, Store, Transaction, is_active,
}
use crypto_gateway_rp.Store.Queries.{update_where, sort_by}
use crypto_gateway_rp.Checkout.{is_open_checkout}
use crypto_gateway_rp.Webhook.{Post}
use crypto_gateway_rp.Deposit.Parts.{Config, Incoming, is_evm_chain, normalize_match_address}
use crypto_gateway_rp.Deposit.{upsert_incoming_transaction}
use crypto_gateway_rp.Scanner.{
  advance_scanner, get_or_init_scanner_block, blocks_after, last_of_tick,
}

-- A row of getLogs, as etherscanRowToLogLike leaves it.
pub record TransferLog : Type 0 where
  pub address : Text
  pub topics : List Text
  pub data_hex : Text
  pub transaction_hash : Text
  pub index : ℤ

-- The arguments of a Transfer event.
pub record Transfer : Type 0 where
  pub from_address : Text
  pub to_address : Text
  pub value : ℕ

pub record Token : Type 0 where
  pub symbol : Text
  pub decimals : ℕ

-- The configured contracts, and the parser of ethers (`none` for an exception and for no event).
pub record ScanSettings : Type 0 where
  pub config : Config
  pub erc20_contracts : Chain → List (Text × Token)
  pub parse_log : TransferLog → Option Transfer

-- A log, with the time, the fresh reference and the merchants' answers when it is credited.
pub record Arrival : Type 0 where
  pub transfer_log : TransferLog
  pub now : ℕ
  pub fresh : Text
  pub post : Post

-- Either deadline is set, or a single scan was asked for.
abbrev pub deposit_scan_both_ttls_null_gate : Wallet → Bool
deposit_scan_both_ttls_null_gate w =
    not (is_none w.hold_expires_at && is_none w.scan_expires_at)
    || w.deposit_scan_single_tick_requested

unfoldable pub live_worker_wallet_scan_filter : Bool → Store → Wallet → Bool
live_worker_wallet_scan_filter knows_created store w =
    knows_created && any (is_open_checkout w.id none) store.transactions
    || deposit_scan_both_ttls_null_gate w
      && (is_some w.assigned_user_id || w.deposit_scan_single_tick_requested)

abbrev pub is_live_wallet : Chain → Wallet → Bool
is_live_wallet chain w =
    eq_chain w.chain chain && eq_env w.environment GatewayEnv.live && is_active w.deleted_at

unfoldable pub load_wallets_for_chain : Config → Chain → Store → List Wallet
unfolding live_worker_wallet_scan_filter
load_wallets_for_chain cfg chain store =
    filter (λ w. is_live_wallet chain w && live_worker_wallet_scan_filter cfg.knows_created store w)
      store.wallets

unfoldable pub load_all_live_wallets_for_chain : Chain → Store → List Wallet
load_all_live_wallets_for_chain chain store =
    filter (λ w. is_live_wallet chain w && deposit_scan_both_ttls_null_gate w) store.wallets

-- The map of contracts by lower-case address: a later entry of one address replaces the earlier.
unfoldable pub token_of : List (Text × Token) → Text → Option Token
token_of [] contract = none
token_of ((address, token) ∷ rest) contract =
    or_else (token_of rest contract)
      (if eq_text (to_lower_case address) contract then some token else none)

abbrev pub evm_network_label_for_chain : Chain → Option Text
evm_network_label_for_chain chain = if eq_chain chain eth then some (codes "ERC20") else none

unfoldable pub wallet_accepts_evm_erc20 : Chain → Text → Wallet → Bool
wallet_accepts_evm_erc20 chain token_symbol w = elim (evm_network_label_for_chain chain) [
  | none ↦ false
  | some net ↦ eq_text w.currency token_symbol && eq_text w.network net
]

-- The lowest id, where several wallets match.
unfoldable pub pick_single_deposit_wallet : List Wallet → Option Wallet
pick_single_deposit_wallet targets = elim (sort_by (λ (w : Wallet). w.id) targets) [
  | [] ↦ none
  | w ∷ ws ↦ some w
]

abbrev pub wallets_at : Chain → Text → List Wallet → List Wallet
wallets_at chain address = filter (λ w. eq_text (normalize_match_address chain w.address) address)

abbrev pub incoming_of : Chain → ℕ → ℕ → TransferLog → Transfer → Token → Wallet → Incoming
incoming_of chain tip block log transfer token w = record {
  chain = chain;
  wallet_id = w.id;
  tx_hash = log.transaction_hash;
  log_index = log.index;
  from_address = transfer.from_address;
  to_address = w.address;
  amount = print_number transfer.value;
  token_symbol = token.symbol;
  token_decimals = token.decimals;
  confirmations = suc tip - block;
  block_number = some block;
  payer_user_id = none;
  admin_merge_target = none;
}

abbrev pub transfer_wallet : Chain → List Wallet → Token → Transfer → Option Wallet
transfer_wallet chain wallets token transfer = pick_single_deposit_wallet (
    filter (wallet_accepts_evm_erc20 chain (to_upper_case token.symbol))
      (wallets_at chain (normalize_match_address chain transfer.to_address) wallets))

-- What a log credits, if it is a transfer of a configured token to a scanned wallet.
unfoldable pub credit_of :
    ScanSettings → Chain → List Wallet → ℕ → ℕ → TransferLog → Option Incoming
unfolding token_of pick_single_deposit_wallet wallet_accepts_evm_erc20
credit_of s chain wallets tip block log =
    elim (token_of (s.erc20_contracts chain) (to_lower_case log.address)) [
      | none ↦ none
      | some token ↦ elim (s.parse_log log) [
        | none ↦ none
        | some transfer ↦ elim (transfer_wallet chain wallets token transfer) [
          | none ↦ none
          | some w ↦ some (incoming_of chain tip block log transfer token w)
        ]
      ]
    ]

-- The tables after the logs of a block, or as they were when a credit threw.
pub data Credited : Type 0 where
  done thrown : Store → Credited

abbrev pub store_of : Credited → Store
store_of (done store) = store
store_of (thrown store) = store

abbrev pub credit_log : ScanSettings → Arrival → Option Incoming → Store → Option Store
credit_log s a none store = some store
credit_log s a (some input) store =
    upsert_incoming_transaction s.config a.post a.now a.fresh store input

unfoldable pub credit_logs :
    ScanSettings → Chain → List Wallet → ℕ → ℕ → List Arrival → Store → Credited
unfolding credit_of
credit_logs s chain wallets tip block [] store = done store
credit_logs s chain wallets tip block (a ∷ rest) store =
    elim (credit_log s a (credit_of s chain wallets tip block a.transfer_log) store) [
      | none ↦ thrown store
      | some after ↦ credit_logs s chain wallets tip block rest after
    ]

-- The answers of the explorer for each block; `none` is a failed call, which counts as no logs.
abbrev pub Fetched : Type 0
Fetched = ℕ → Option (List Arrival)

-- The blocks that are done, and the tables: an exception ends the tick before its block is.
unfoldable pub credit_blocks :
    ScanSettings → Chain → List Wallet → ℕ → Fetched → List ℕ → Store → List ℕ × Credited
unfolding credit_logs
credit_blocks s chain wallets tip fetched [] store = ([], done store)
credit_blocks s chain wallets tip fetched (b ∷ bs) store =
    elim (credit_logs s chain wallets tip b (get_or (fetched b) []) store) [
      | thrown after ↦ ([], thrown after)
      | done after ↦
          let (cs, last) =
            credit_blocks s chain wallets tip fetched bs (advance_scanner chain b after) in
          (b ∷ cs, last)
    ]

-- What a tick reads from outside. No tip is a failed request.
pub record EvmTick : Type 0 where
  pub has_explorer_pool : Bool
  pub tip : Option ℕ
  pub max_blocks_per_tick : ℕ
  pub fetched : Fetched

unfoldable pub credit_from :
    ScanSettings → Chain → List Wallet → EvmTick → ℕ → (ℕ × Store) → List ℕ × Credited
unfolding credit_blocks blocks_after
credit_from s chain wallets tick tip (cursor, store) =
    if leb tip cursor
    then ([], done store)
    else credit_blocks s chain wallets tip tick.fetched
        (blocks_after cursor (last_of_tick tick.max_blocks_per_tick cursor tip - cursor)) store

abbrev pub has_rows : List Wallet → Bool
has_rows [] = false
has_rows (w ∷ ws) = true

unfoldable pub scan_evm_credits :
    ScanSettings → Chain → List Wallet → EvmTick → Store → List ℕ × Credited
unfolding credit_from get_or_init_scanner_block
scan_evm_credits s chain wallets tick store =
    if not (is_evm_chain chain && tick.has_explorer_pool && has_rows wallets)
    then ([], done store)
    else elim tick.tip [
      | none ↦ ([], done store)
      | some tip ↦ credit_from s chain wallets tick tip (get_or_init_scanner_block chain tip store)
    ]
