-- ===== src/Store.antt =====
-- The database that server/ and cron/ share: server/prisma/schema.prisma, with the fields that the
-- modelled code reads or writes, and the query forms of the Prisma client that it uses.
-- A table is the list of its rows; a time is a number of milliseconds; `none` is SQL's NULL.
pub mod Queries
pub mod Counts
pub mod Members
use crypto_gateway_rp.Common.{ℕ, Bool, true, false, Option, List, ℤ, ◌==◌, is_none}
use crypto_gateway_rp.Text.{Text, codes}

pub data Chain : Type 0 where
  eth bnb polygon arbitrum optimism tron btc ton solana : Chain

pub data TxStatus : Type 0 where
  pending success failed underpaid created : TxStatus

pub data WithdrawalStatus : Type 0 where
  pending processing completed failed : WithdrawalStatus

pub data GatewayEnv : Type 0 where
  live sandbox : GatewayEnv

-- Equality of enum values, through their position in the schema.
abbrev pub chain_index : Chain → ℕ
chain_index eth = 0
chain_index bnb = 1
chain_index polygon = 2
chain_index arbitrum = 3
chain_index optimism = 4
chain_index tron = 5
chain_index btc = 6
chain_index ton = 7
chain_index solana = 8

-- The value as the enum's text.
unfoldable pub chain_text : Chain → Text
chain_text eth = codes "ETH"
chain_text bnb = codes "BNB"
chain_text polygon = codes "POLYGON"
chain_text arbitrum = codes "ARBITRUM"
chain_text optimism = codes "OPTIMISM"
chain_text tron = codes "TRON"
chain_text btc = codes "BTC"
chain_text ton = codes "TON"
chain_text solana = codes "SOLANA"

abbrev pub eq_chain : Chain → Chain → Bool
eq_chain a b = chain_index a == chain_index b

abbrev pub eq_status : TxStatus → TxStatus → Bool
eq_status TxStatus.pending TxStatus.pending = true
eq_status success success = true
eq_status TxStatus.failed TxStatus.failed = true
eq_status underpaid underpaid = true
eq_status created created = true
eq_status _ _ = false

abbrev pub eq_withdrawal_status : WithdrawalStatus → WithdrawalStatus → Bool
eq_withdrawal_status WithdrawalStatus.pending WithdrawalStatus.pending = true
eq_withdrawal_status processing processing = true
eq_withdrawal_status completed completed = true
eq_withdrawal_status WithdrawalStatus.failed WithdrawalStatus.failed = true
eq_withdrawal_status _ _ = false

abbrev pub eq_env : GatewayEnv → GatewayEnv → Bool
eq_env live live = true
eq_env sandbox sandbox = true
eq_env _ _ = false

pub record Wallet : Type 0 where
  pub id : ℕ
  pub merchant_id : ℕ
  pub environment : GatewayEnv
  pub address : Text
  pub chain : Chain
  pub currency : Text
  pub network : Text
  pub derivation_index : ℕ
  pub assigned_user_id : Option ℕ
  pub hold_expires_at : Option ℕ
  pub scan_expires_at : Option ℕ
  pub deposit_scan_single_tick_requested : Bool
  pub created_at : ℕ
  pub deleted_at : Option ℕ

pub record AssignmentEvent : Type 0 where
  pub wallet_id : ℕ
  pub user_id : ℕ
  pub deposit_session_key : Option Text
  pub expected_amount_atomic : Option Text
  pub created_at : ℕ
  pub deleted_at : Option ℕ

pub record Transaction : Type 0 where
  pub id : ℕ
  pub wallet_id : ℕ
  pub payer_user_id : Option ℕ
  pub tx_hash : Text
  pub from_address : Text
  pub to_address : Text
  pub amount : Text
  pub token_symbol : Text
  pub chain : Chain
  pub status : TxStatus
  pub confirmations : ℕ
  pub block_number : Option ℕ
  pub log_index : ℤ
  pub token_decimals : ℕ
  pub callback_delivered_at : Option ℕ
  pub callback_attempt_count : ℕ
  pub callback_last_attempt_at : Option ℕ
  pub deposit_session_key : Option Text
  pub reference_transaction_id : Option Text
  pub created_at : ℕ
  pub updated_at : ℕ
  pub deleted_at : Option ℕ
  pub merchant_settlement_id : Option ℕ

-- A row of payoutRailsPolicyJson, its fields as `String` gives them.
pub record RailPolicyRow : Type 0 where
  pub min_human : Option Text
  pub max_human : Option Text
  pub treasury_address : Option Text

pub record Merchant : Type 0 where
  pub id : ℕ
  pub callback_url : Option Text
  -- Percentages as decimal texts, for which the code calls `Number`.
  pub mdr_percent : Text
  pub settlement_rate_percent : Text
  pub payout_mdr_percent : Text
  pub min_settlement_amount : Text
  pub settlement_period_days : ℕ
  pub payout_min_amount_human : Text
  pub payout_max_amount_human : Text
  -- The two JSON columns; what is no object has no entry.
  pub payout_rails_policy : List (Text × RailPolicyRow)
  pub payout_treasury_tron : Option Text
  pub payout_treasury_eth : Option Text
  pub api_key_hash : Option Text
  pub api_key_cipher : Option Text
  pub sandbox_api_key_hash : Option Text
  pub sandbox_api_key_cipher : Option Text
  pub portal_environment : GatewayEnv
  pub is_active_account : Bool
  pub deleted_at : Option ℕ

pub record MerchantSettlement : Type 0 where
  pub id : ℕ
  pub merchant_id : ℕ
  pub environment : GatewayEnv
  pub chain : Chain
  pub token_symbol : Text
  pub token_decimals : ℕ
  pub gross_amount : Text
  pub mdr_percent : Text
  pub settlement_rate_percent : Text
  pub mdr_amount : Text
  pub settlement_fee_amount : Text
  pub net_amount : Text
  pub proof_file_name : Text
  pub created_by_admin_id : Option ℕ
  pub transaction_count : ℕ
  pub created_at : ℕ
  pub deleted_at : Option ℕ

pub record Withdrawal : Type 0 where
  pub id : ℕ
  pub merchant_id : ℕ
  pub environment : GatewayEnv
  pub chain : Chain
  pub token_symbol : Text
  pub token_decimals : ℕ
  pub to_address : Text
  pub amount : Text
  pub gross_amount : Option Text
  pub net_amount : Option Text
  pub mdr_amount : Option Text
  pub settlement_fee_amount : Option Text
  pub source : Text
  pub status : WithdrawalStatus
  pub tx_hash : Option Text
  pub network_fee_native_atomic : Option Text
  pub network_fee_native_symbol : Option Text
  pub network_fee_fetched_at : Option ℕ
  pub failure_reason : Option Text
  pub client_reference_id : Option Text
  pub created_at : ℕ
  pub updated_at : ℕ
  pub deleted_at : Option ℕ

-- One cursor of the deposit scanner.
pub record ScannerState : Type 0 where
  pub currency : Text
  pub network : Text
  pub chain : Chain
  pub last_block : ℕ
  pub deleted_at : Option ℕ

-- The address that RP keeps for a merchant's swaps.
pub record SwapConfig : Type 0 where
  pub id : ℕ
  pub merchant_id : ℕ
  pub tron_address : Text
  pub is_enabled : Bool
  pub deleted_at : Option ℕ

pub record User : Type 0 where
  pub id : ℕ
  pub merchant_id : ℕ

pub record Admin : Type 0 where
  pub id : ℕ
  pub deleted_at : Option ℕ

pub record Store : Type 0 where
  pub admins : List Admin
  pub merchants : List Merchant
  pub users : List User
  pub wallets : List Wallet
  pub assignment_events : List AssignmentEvent
  pub transactions : List Transaction
  -- The sequence behind `transactions.id`, and those of the tables below.
  pub next_transaction_id : ℕ
  pub withdrawals : List Withdrawal
  pub next_withdrawal_id : ℕ
  pub settlements : List MerchantSettlement
  pub next_settlement_id : ℕ
  pub swap_configs : List SwapConfig
  pub scanner_states : List ScannerState
  pub next_wallet_id : ℕ
  -- No table: the webhook requests that went out, the last one first, each with its transaction and time.
  pub posted : List (ℕ × ℕ)

-- `...ACTIVE`: the row is not soft-deleted.
abbrev pub is_active : Option ℕ → Bool
is_active deleted_at = is_none deleted_at
