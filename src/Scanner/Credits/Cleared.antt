-- ===== src/Scanner/Credits/Cleared.antt =====
-- What the worker's tick leaves: the flags of the wallets and the rows of the credits.
use crypto_gateway_rp.Common.{
  ℕ, some, ◌≡◌, refl, sym, subst, inl, inr, Bool, true, false, ◌&&◌, not, Option, none, List, [],
  ◌∷◌, Bool-cases, arith, All, All-mono, any, is_some, is_none, ◌||◌, if_split, filter,
}
use crypto_gateway_rp.Store.{Chain, eth, Wallet, Store}
use crypto_gateway_rp.Store.Queries.{update_where, count_where}
use crypto_gateway_rp.Checkout.{is_open_checkout, has_key}
use crypto_gateway_rp.Store.Counts.{Has}
use crypto_gateway_rp.Pool.Checkout.{is_chain_live_for_platform}
use crypto_gateway_rp.Webhook.Preserve.{Holds}
use crypto_gateway_rp.Deposit.Parts.{Config, Incoming, event_key}
use crypto_gateway_rp.Deposit.Recorded.{is_chain_hash}
use crypto_gateway_rp.Scanner.{scan_evm_chain}
use crypto_gateway_rp.Deposit.Unique.{IsKeyed}
use crypto_gateway_rp.Scanner.Credits.{
  ScanSettings, Arrival, credit_of, Credited, done, thrown, store_of, EvmTick, is_live_wallet,
  live_worker_wallet_scan_filter, load_wallets_for_chain, has_rows,
}
use crypto_gateway_rp.Scanner.Credits.Recorded.{scan_evm_credits-records}
use crypto_gateway_rp.Scanner.Credits.Complete.{position_tick, credit_of-Has}
use crypto_gateway_rp.Scanner.Credits.Worker.{
  clear_deposit_single_tick_for_chain, worker_scan, after_scan, scan_chain, scan_chains,
  run_evm_deposit_tick, HasIds, worker_scan-completes,
}

-- The single scan that was asked for is no longer asked for.
abbrev pub IsCleared : Chain → Store → Type 0
IsCleared chain store =
    All (λ w. is_live_wallet chain w ≡ true → w.deposit_scan_single_tick_requested ≡ false)
      store.wallets

clear-IsCleared :
    (chain : Chain) (store : Store)
    → IsCleared chain (clear_deposit_single_tick_for_chain chain store)
unfolding clear_deposit_single_tick_for_chain update_where
clear-IsCleared chain store = cleared store.wallets
  where
    unset : (a b : Bool) → (a && b) ≡ false → a ≡ true → b ≡ false
    unset a b h k = ground arith

    cleared :
        (ws : List Wallet)
        → All
            (λ w. is_live_wallet chain w ≡ true → w.deposit_scan_single_tick_requested ≡ false)
            (update_where
              (λ (w : Wallet). is_live_wallet chain w && w.deposit_scan_single_tick_requested)
              (λ w. record w { deposit_scan_single_tick_requested = false })
              ws)
    cleared [] = tt
    cleared (w ∷ ws) = (
      elim (Bool-cases (is_live_wallet chain w && w.deposit_scan_single_tick_requested)) [
        | inl e ↦ rw e (λ k. refl)
        | inr e ↦ rw e (unset _ w.deposit_scan_single_tick_requested e)
      ],
      cleared ws,
    )

none_loaded :
    (p : Wallet → Bool) (ws : List Wallet)
    → has_rows (filter p ws) ≡ false
    → All (λ w. p w ≡ false) ws
none_loaded p [] h = tt
none_loaded p (w ∷ ws) h = elim (Bool-cases (p w)) [
  | inl e ↦ cc (rw e at h)
  | inr e ↦ (e, none_loaded p ws (rw e at h))
]

-- A wallet for which a single scan was asked is loaded.
idle-IsCleared :
    (cfg : Config) (chain : Chain) (store : Store)
    → has_rows (load_wallets_for_chain cfg chain store) ≡ false
    → IsCleared chain store
unfolding load_wallets_for_chain live_worker_wallet_scan_filter
idle-IsCleared cfg chain store h =
    All-mono {Q = λ w. is_live_wallet chain w ≡ true → w.deposit_scan_single_tick_requested ≡ false}
      (λ w k live.
        unset (is_live_wallet chain w)
          (cfg.knows_created && any (is_open_checkout w.id none) store.transactions)
          (is_some w.assigned_user_id) w.deposit_scan_single_tick_requested
          (not (is_none w.hold_expires_at && is_none w.scan_expires_at)) k live)
      store.wallets
      (none_loaded
        (λ w. is_live_wallet chain w && live_worker_wallet_scan_filter cfg.knows_created store w)
        store.wallets h)
  where
    unset :
        (live open_checkout assigned single timed : Bool)
        → (live && (open_checkout || (timed || single) && (assigned || single))) ≡ false
        → live ≡ true
        → single ≡ false
    unset live open_checkout assigned single timed h k = ground arith

scan_chain-IsCleared :
    (s : ScanSettings) (chain_enabled : Chain → Option Bool) (ticks : Chain → EvmTick)
    (chain : Chain) (store : Store)
    → is_chain_live_for_platform chain_enabled chain ≡ true
    → HasIds store
    → IsCleared chain (scan_chain s chain_enabled ticks chain store)
unfolding scan_chain
scan_chain-IsCleared s chain_enabled ticks chain store live ids =
    let (same, (after, ended)) = worker_scan-completes s chain (ticks chain) store ids in
    let cleared : IsCleared chain (after_scan chain (worker_scan s chain (ticks chain) store).1) =
      subst (λ r. IsCleared chain (after_scan chain r)) (sym ended) (clear-IsCleared chain after) in
    if_split (IsCleared chain) (not (is_chain_live_for_platform chain_enabled chain))
      (λ e. cc (rw live at e))
      (λ e.
        if_split (IsCleared chain) (not (has_rows (load_wallets_for_chain s.config chain store)))
          (λ k. idle-IsCleared s.config chain store (negated _ k)) (λ k. cleared))
  where
    negated : (b : Bool) → not b ≡ true → b ≡ false
    negated b h = ground arith

-- Where Ethereum is live on the platform and no wallet has id 0: after the worker's tick no live,
-- active wallet of Ethereum has its single scan still asked for, whatever the explorer answered.
pub run_evm_deposit_tick-IsCleared :
    (s : ScanSettings) (chain_enabled : Chain → Option Bool) (ticks : Chain → EvmTick)
    (store : Store)
    → is_chain_live_for_platform chain_enabled eth ≡ true
    → HasIds store
    → IsCleared eth (run_evm_deposit_tick s chain_enabled ticks store)
unfolding run_evm_deposit_tick scan_chains
run_evm_deposit_tick-IsCleared s chain_enabled ticks store =
    scan_chain-IsCleared s chain_enabled ticks eth store

after_scan-transactions :
    (chain : Chain) (r : Credited) → (after_scan chain r).transactions ≡ (store_of r).transactions
unfolding clear_deposit_single_tick_for_chain
after_scan-transactions chain (done store) = refl
after_scan-transactions chain (thrown store) = refl

has_rows-Has : (ws : List Wallet) (w : Wallet) → Has w ws → has_rows ws ≡ true
has_rows-Has [] w m = absurd m
has_rows-Has (x ∷ xs) w m = refl

-- Where Ethereum is live on the platform, no wallet has id 0 and the keys of the transaction table are
-- unique: for each block that the tick of the position visits, each log that the explorer answered for
-- it, and the credit of that log to one of the wallets that the worker loads, exactly one row stands for
-- the credit's event after the worker's tick, if its hash does not start as a checkout's made-up one.
pub run_evm_deposit_tick-records :
    (s : ScanSettings) (chain_enabled : Chain → Option Bool) (ticks : Chain → EvmTick)
    (store : Store) (tip b : ℕ) (logs : List Arrival) (a : Arrival) (input : Incoming)
    → is_chain_live_for_platform chain_enabled eth ≡ true
    → HasIds store
    → Holds IsKeyed store
    → (ticks eth).tip ≡ some tip
    → Has b
        (scan_evm_chain eth
          (position_tick (ticks eth) (load_wallets_for_chain s.config eth store))
          store).0
    → (ticks eth).fetched b ≡ some logs
    → Has a logs
    → credit_of s eth (load_wallets_for_chain s.config eth store) tip b a.transfer_log ≡ some input
    → is_chain_hash input.tx_hash ≡ true
    → count_where
        (has_key (event_key input))
        (run_evm_deposit_tick s chain_enabled ticks store).transactions
      ≡ 1
unfolding run_evm_deposit_tick scan_chains scan_chain
run_evm_deposit_tick-records s chain_enabled ticks store tip b logs a input live ids keyed at_tip
      visited got m found plain =
    if_split Recorded (not (is_chain_live_for_platform chain_enabled eth)) (λ e. cc (rw live at e))
      (λ e.
        if_split Recorded (not (has_rows wallets)) (λ k. cc (rw loaded at k))
          (λ k.
            subst (λ xs. count_where (has_key (event_key input)) xs ≡ 1)
              (sym (after_scan-transactions eth (worker_scan s eth (ticks eth) store).1)) recorded))
  where
    wallets : List Wallet
    wallets = load_wallets_for_chain s.config eth store

    Recorded : Store → Type 0
    Recorded u = count_where (has_key (event_key input)) u.transactions ≡ 1

    loaded : has_rows wallets ≡ true
    loaded =
        let (w, here, same) = credit_of-Has s eth wallets tip b a input found in
        has_rows-Has wallets w here

    recorded : Recorded (store_of (worker_scan s eth (ticks eth) store).1)
    recorded =
        scan_evm_credits-records s eth wallets (ticks eth) store tip b logs a input keyed at_tip
          (subst (Has b) (sym (worker_scan-completes s eth (ticks eth) store ids).0) visited) got m
          found plain
