-- ===== src/Scanner/Credits/Recorded.antt =====
-- What the credits of a whole tick leave in the transaction table.
use crypto_gateway_rp.Common.{
  ℕ, ◌≡◌, ◌∙◌, sym, subst, inl, inr, true, ◌&&◌, not, some, List, [], leb, Option-cases, if_cases,
}
use mathlib.Core.Option.{some-injective}
use crypto_gateway_rp.Store.{Chain, Wallet, Transaction, Store}
use crypto_gateway_rp.Store.Queries.{count_where}
use crypto_gateway_rp.Store.Counts.{Has}
use crypto_gateway_rp.Checkout.{has_key}
use crypto_gateway_rp.Webhook.Preserve.{Holds}
use crypto_gateway_rp.Deposit.Parts.{Incoming, event_key, is_evm_chain}
use crypto_gateway_rp.Deposit.Unique.{IsKeyed}
use crypto_gateway_rp.Deposit.Recorded.{is_chain_hash}
use crypto_gateway_rp.Scanner.{get_or_init_scanner_block, blocks_after}
use crypto_gateway_rp.Scanner.States.{get_or_init-keeps}
use crypto_gateway_rp.Scanner.Credits.Kept.{credit_blocks-Stands}
use crypto_gateway_rp.Scanner.Credits.{
  ScanSettings, Arrival, Credited, done, store_of, EvmTick, credit_of, credit_blocks, credit_from,
  has_rows, scan_evm_credits,
}

get_or_init-Holds :
    (P : ℕ → List Transaction → Type 0) (chain : Chain) (tip : ℕ) (store : Store)
    → Holds P store
    → Holds P (get_or_init_scanner_block chain tip store).1
get_or_init-Holds P = get_or_init-keeps (Holds P) (λ s states h. record { table = h.table })

-- A tick with no tip, no pool, no wallets or nothing new does nothing; any other is its blocks.
tick_cases :
    (s : ScanSettings) (chain : Chain) (wallets : List Wallet) (tick : EvmTick) (store : Store)
    (R : List ℕ × Credited → Type 0)
    → R ([], done store)
    → ((tip : ℕ) → tick.tip ≡ some tip → R ([], done (get_or_init_scanner_block chain tip store).1))
    → ((tip n : ℕ)
        → tick.tip ≡ some tip
        → R (
            credit_blocks s chain wallets tip tick.fetched
              (blocks_after (get_or_init_scanner_block chain tip store).0 n)
              (get_or_init_scanner_block chain tip store).1))
    → R (scan_evm_credits s chain wallets tick store)
unfolding scan_evm_credits credit_from
tick_cases s chain wallets tick store R idle new_only blocks = elim (Option-cases tick.tip) [
  | inl e ↦
      rw (scan_evm_credits, e)
        (if_cases R (not (is_evm_chain chain && tick.has_explorer_pool && has_rows wallets)) idle
          idle)
  | inr (tip, e) ↦
      rw (scan_evm_credits, e)
        (if_cases R (not (is_evm_chain chain && tick.has_explorer_pool && has_rows wallets)) idle (
          if_cases R (leb tip (get_or_init_scanner_block chain tip store).0) (new_only tip e)
            (blocks tip _ e)))
]

-- Where the keys of the table are unique: for each block that a tick at a tip leaves done, each log that
-- the explorer answered for it, and the credit of that log to one of the scanned wallets, exactly one
-- row stands for the credit's event after the tick, if its hash does not start as a checkout's made-up
-- one.
pub scan_evm_credits-records :
    (s : ScanSettings) (chain : Chain) (wallets : List Wallet) (tick : EvmTick) (store : Store)
    (tip b : ℕ) (logs : List Arrival) (a : Arrival) (input : Incoming)
    → Holds IsKeyed store
    → tick.tip ≡ some tip
    → Has b (scan_evm_credits s chain wallets tick store).0
    → tick.fetched b ≡ some logs
    → Has a logs
    → credit_of s chain wallets tip b a.transfer_log ≡ some input
    → is_chain_hash input.tx_hash ≡ true
    → count_where
        (has_key (event_key input))
        (store_of (scan_evm_credits s chain wallets tick store).1).transactions
      ≡ 1
scan_evm_credits-records s chain wallets tick store tip b logs a input h at_tip done_b got m found
      plain =
    tick_cases s chain wallets tick store
      (λ r. Has b r.0 → count_where (has_key (event_key input)) (store_of r.1).transactions ≡ 1)
      (λ k. absurd k) (λ u e k. absurd k) recorded_at done_b
  where
    recorded_at :
        (u n : ℕ)
        → tick.tip ≡ some u
        → Has b
            (credit_blocks s chain wallets u tick.fetched
              (blocks_after (get_or_init_scanner_block chain u store).0 n)
              (get_or_init_scanner_block chain u store).1).0
        → count_where
            (has_key (event_key input))
            (store_of
              (credit_blocks s chain wallets u tick.fetched
                (blocks_after (get_or_init_scanner_block chain u store).0 n)
                (get_or_init_scanner_block chain u store).1).1).transactions
          ≡ 1
    recorded_at u n e k =
        let same : tip ≡ u = some-injective _ _ (sym at_tip ∙ e) in
        (credit_blocks-Stands s chain wallets u tick.fetched b logs a input got m
          (subst (λ t. credit_of s chain wallets t b a.transfer_log ≡ some input) same found) plain
          _ _ (get_or_init-Holds IsKeyed chain u store h) k).table.one
