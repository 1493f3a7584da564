-- ===== src/Scanner/Credits/Worker.antt =====
-- The worker's tick on Ethereum: runEvmDepositTick and clearDepositSingleTickForChain of
-- cron/src/services/tracker/worker.js. The settings that the tick reloads are those given.
use crypto_gateway_rp.Common.{
  ℕ, ◌≡◌, refl, subst, inl, inr, Bool, true, false, ◌&&◌, not, ◌==◌, ==_iff, Option, List, [], ◌∷◌,
  Bool-cases, arith, All, any, if◌then◌else◌,
}
use crypto_gateway_rp.Store.{Chain, eth, eq_chain, GatewayEnv, eq_env, Wallet, Store, is_active}
use crypto_gateway_rp.Store.Queries.{update_where}
use crypto_gateway_rp.Store.Counts.{Has}
use crypto_gateway_rp.Store.Members.{Has-filter, All-Has}
use crypto_gateway_rp.Pool.Checkout.{is_chain_live_for_platform}
use crypto_gateway_rp.Deposit.Parts.{Config, wallet_exists}
use crypto_gateway_rp.Scanner.{scan_evm_chain}
use crypto_gateway_rp.Scanner.Credits.{
  ScanSettings, Credited, done, thrown, EvmTick, is_live_wallet, live_worker_wallet_scan_filter,
  load_wallets_for_chain, has_rows, scan_evm_credits,
}
use crypto_gateway_rp.Scanner.Credits.Complete.{Ready, position_tick, scan_evm_credits-Completes}

unfoldable pub clear_deposit_single_tick_for_chain : Chain → Store → Store
clear_deposit_single_tick_for_chain chain store = record store {
  wallets =
      update_where (λ (w : Wallet). is_live_wallet chain w && w.deposit_scan_single_tick_requested)
        (λ w. record w { deposit_scan_single_tick_requested = false }) store.wallets;
}

abbrev pub worker_scan : ScanSettings → Chain → EvmTick → Store → List ℕ × Credited
worker_scan s chain tick store =
    scan_evm_credits s chain (load_wallets_for_chain s.config chain store) tick store

-- An exception of the scan is ignored, and leaves the single-scan flags.
abbrev pub after_scan : Chain → Credited → Store
after_scan chain (done store) = clear_deposit_single_tick_for_chain chain store
after_scan chain (thrown store) = store

unfoldable pub scan_chain :
    ScanSettings → (Chain → Option Bool) → (Chain → EvmTick) → Chain → Store → Store
unfolding scan_evm_credits load_wallets_for_chain clear_deposit_single_tick_for_chain
    is_chain_live_for_platform
scan_chain s chain_enabled ticks chain store =
    if not (is_chain_live_for_platform chain_enabled chain)
    then store
    else if not (has_rows (load_wallets_for_chain s.config chain store))
    then store
    else after_scan chain (worker_scan s chain (ticks chain) store).1

abbrev pub scanned_evm_chains : List Chain
scanned_evm_chains = eth ∷ []

unfoldable pub scan_chains :
    ScanSettings → (Chain → Option Bool) → (Chain → EvmTick) → List Chain → Store → Store
unfolding scan_chain
scan_chains s chain_enabled ticks [] store = store
scan_chains s chain_enabled ticks (c ∷ cs) store =
    scan_chains s chain_enabled ticks cs (scan_chain s chain_enabled ticks c store)

unfoldable pub run_evm_deposit_tick :
    ScanSettings → (Chain → Option Bool) → (Chain → EvmTick) → Store → Store
unfolding scan_chains
run_evm_deposit_tick s chain_enabled ticks store =
    scan_chains s chain_enabled ticks scanned_evm_chains store

-- No wallet row has id 0.
abbrev pub HasIds : Store → Type 0
HasIds store = All (λ (w : Wallet). (w.id == 0) ≡ false) store.wallets

any-Has :
    (p : Wallet → Bool) (ws : List Wallet) (w : Wallet) → Has w ws → p w ≡ true → any p ws ≡ true
any-Has p [] w m h = absurd m
any-Has p (x ∷ xs) w (inl q) h = elim (Bool-cases (p x)) [
  | inl e ↦ rw e refl
  | inr e ↦ absurd (clash (subst (λ v. p v ≡ false) q e) h)
]
  where
    clash : {b : Bool} → b ≡ false → b ≡ true → ⊥
    clash e k = cc
any-Has p (x ∷ xs) w (inr m) h = ground (arith, any-Has p xs w m h)

All-of_Has : (P : Wallet → Type 0) (ws : List Wallet) → ((w : Wallet) → Has w ws → P w) → All P ws
All-of_Has P [] h = tt
All-of_Has P (w ∷ ws) h = (h w (inl refl), All-of_Has P ws (λ v m. h v (inr m)))

load_wallets-Ready :
    (cfg : Config) (chain : Chain) (store : Store)
    → HasIds store
    → Ready (load_wallets_for_chain cfg chain store) store
unfolding load_wallets_for_chain wallet_exists
load_wallets-Ready cfg chain store ids =
    All-of_Has (λ (w : Wallet). wallet_exists store w.id ≡ true)
      (load_wallets_for_chain cfg chain store) active
  where
    is_loaded : Wallet → Bool
    is_loaded w = is_live_wallet chain w && live_worker_wallet_scan_filter cfg.knows_created store w

    third : (a b c d : Bool) → ((a && b && c) && d) ≡ true → c ≡ true
    third a b c d h = ground arith

    both : (a b : Bool) → a ≡ false → b ≡ true → (not a && b) ≡ true
    both a b h k = ground arith

    itself : (a b : Bool) → a ≡ true → b ≡ true → (a && b) ≡ true
    itself a b h k = ground arith

    active :
        (w : Wallet)
        → Has w (load_wallets_for_chain cfg chain store)
        → wallet_exists store w.id ≡ true
    active w m =
        let (here, passes) = Has-filter is_loaded store.wallets w m in
        both (w.id == 0)
          (any (λ (v : Wallet). v.id == w.id && is_active v.deleted_at) store.wallets)
          (All-Has (λ (v : Wallet). (v.id == 0) ≡ false) store.wallets w here ids)
          (any-Has (λ (v : Wallet). v.id == w.id && is_active v.deleted_at) store.wallets w here
            (itself (w.id == w.id) _ ((==_iff _ _).1 refl)
              (third (eq_chain w.chain chain) (eq_env w.environment GatewayEnv.live) _ _ passes)))

-- Where no wallet has id 0: whatever the explorer answers, the scan of a worker's tick ends without an
-- exception, and the blocks that it does are those that the tick of the position alone visits.
pub worker_scan-completes :
    (s : ScanSettings) (chain : Chain) (tick : EvmTick) (store : Store)
    → HasIds store
    → ((worker_scan s chain tick store).0
        ≡ (scan_evm_chain chain
            (position_tick tick (load_wallets_for_chain s.config chain store))
            store).0)
      × ((after : Store) × ((worker_scan s chain tick store).1 ≡ done after))
worker_scan-completes s chain tick store ids =
    let c =
      scan_evm_credits-Completes s chain (load_wallets_for_chain s.config chain store) tick store
        (load_wallets-Ready s.config chain store ids) in
    (c.all_done, (c.rest.after, c.rest.ended))
