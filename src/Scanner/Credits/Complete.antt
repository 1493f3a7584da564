-- ===== src/Scanner/Credits/Complete.antt =====
-- A tick over active wallets ends without an exception.
use crypto_gateway_rp.Common.{
  ℕ, ◌-◌, ◌≡◌, ◌∙◌, ap, refl, sym, subst, inl, inr, ◌&&◌, not, Option, none, some, get_or, List, [],
  ◌∷◌, leb, Bool-cases, Option-cases, All, All-mono, filter,
}
use mathlib.Core.Option.{some-injective}
use crypto_gateway_rp.Text.{to_upper_case, to_lower_case, eq_text}
use crypto_gateway_rp.Store.{Chain, Wallet, Store}
use crypto_gateway_rp.Store.Counts.{Has}
use crypto_gateway_rp.Store.Members.{Has-sort_by, Has-filter, All-Has}
use crypto_gateway_rp.Deposit.Parts.{Incoming, is_evm_chain, normalize_match_address}
use crypto_gateway_rp.Deposit.Wallets.{Exists, upsert-Returns, same-Exists}
use crypto_gateway_rp.Scanner.{
  Tick, advance_scanner, get_or_init_scanner_block, blocks_after, last_of_tick, scan_from,
  scan_evm_chain,
}
use crypto_gateway_rp.Scanner.States.{get_or_init-keeps}
use crypto_gateway_rp.Scanner.Credits.{
  ScanSettings, Arrival, Token, Transfer, Credited, done, Fetched, EvmTick, token_of, incoming_of,
  wallets_at, wallet_accepts_evm_erc20, pick_single_deposit_wallet, transfer_wallet, credit_of,
  credit_log, credit_logs, credit_blocks, credit_from, has_rows, scan_evm_credits,
}

-- The wallet that is picked is one of those.
pick_single-Has :
    (ws : List Wallet) (w : Wallet) → pick_single_deposit_wallet ws ≡ some w → Has w ws
unfolding pick_single_deposit_wallet
pick_single-Has ws w h = Has-sort_by (λ (v : Wallet). v.id) ws w (picked _ h)
  where
    picked :
        (sorted : List Wallet)
        → (elim sorted [ [] ↦ none | v ∷ vs ↦ some v ]) ≡ some w
        → Has w sorted
    picked [] e = cc
    picked (v ∷ vs) e = inl (some-injective v w e)

-- A credit is one of a scanned wallet.
pub credit_of-Has :
    (s : ScanSettings) (chain : Chain) (wallets : List Wallet) (tip b : ℕ) (a : Arrival)
    (input : Incoming)
    → credit_of s chain wallets tip b a.transfer_log ≡ some input
    → (w : Wallet) × Has w wallets × (w.id ≡ input.wallet_id)
unfolding credit_of
credit_of-Has s chain wallets tip b a input h =
    elim (Option-cases
      (token_of (s.erc20_contracts chain) (to_lower_case a.transfer_log.address))) [
        | inl e ↦ cc (rw (credit_of, e) at h)
        | inr (token, e) ↦ elim (Option-cases (s.parse_log a.transfer_log)) [
          | inl f ↦ cc (rw (credit_of, e, f) at h)
          | inr (transfer, f) ↦ elim (Option-cases (transfer_wallet chain wallets token transfer)) [
            | inl g ↦ cc (rw (credit_of, e, f, g) at h)
            | inr (w, g) ↦
                let q : some (incoming_of chain tip b a.transfer_log transfer token w)
                    ≡ some input =
                  rw (credit_of, e, f, g) at h in
                (
                  w,
                  among token transfer w g,
                  ap (λ (i : Incoming). i.wallet_id) (some-injective _ _ q),
                )
          ]
        ]
      ]
  where
    among :
        (token : Token) (transfer : Transfer) (w : Wallet)
        → transfer_wallet chain wallets token transfer ≡ some w
        → Has w wallets
    among token transfer w g =
        let at_address =
          wallets_at chain (normalize_match_address chain transfer.to_address) wallets in
        let accepts = wallet_accepts_evm_erc20 chain (to_upper_case token.symbol) in
        (Has-filter
          (λ (v : Wallet).
            eq_text (normalize_match_address chain v.address)
              (normalize_match_address chain transfer.to_address))
          wallets w
          (Has-filter accepts at_address w (pick_single-Has (filter accepts at_address) w g)).0).0

-- Every scanned wallet is active.
abbrev pub Ready : List Wallet → Store → Type 0
Ready wallets store = All (λ (w : Wallet). Exists w.id store) wallets

record Proceeds (wallets : List Wallet) (r : Option Store) : Type 0 where
  after : Store
  returned : r ≡ some after
  ready : Ready wallets after

module _ (s : ScanSettings) (chain : Chain) (wallets : List Wallet) (tip : ℕ) where
  credit_log-Proceeds :
      (b : ℕ) (a : Arrival) (store : Store) (r : Option Incoming)
      → credit_of s chain wallets tip b a.transfer_log ≡ r
      → Ready wallets store
      → Proceeds wallets (credit_log s a r store)
  credit_log-Proceeds b a store none e h = record { after = store; returned = refl; ready = h }
  credit_log-Proceeds b a store (some input) e h =
      let (w, m, q) = credit_of-Has s chain wallets tip b a input e in
      let there =
        subst (λ i. Exists i store) q (All-Has (λ (v : Wallet). Exists v.id store) wallets w m h) in
      let main =
        upsert-Returns s.config a.post a.now a.fresh input.wallet_id store input there there in
      record {
        after = main.result;
        returned = main.returned;
        ready =
            All-mono
              (λ (v : Wallet) k.
                let other = upsert-Returns s.config a.post a.now a.fresh v.id store input there k in
                subst (Exists v.id) (some-injective _ _ (sym other.returned ∙ main.returned))
                  other.exists)
              wallets h;
      }

-- The logs of a block, or the blocks of a tick, are all done.
pub record Completes (wallets : List Wallet) (r : Credited) : Type 0 where
  pub after : Store
  pub ended : r ≡ done after
  pub ready : Ready wallets after

pub record CompletesBlocks (wallets : List Wallet) (bs : List ℕ) (r : List ℕ × Credited)
    : Type 0 where
  pub all_done : r.0 ≡ bs
  pub rest : Completes wallets r.1

Ready-same :
    (wallets : List Wallet) (store after : Store)
    → after.wallets ≡ store.wallets
    → Ready wallets store
    → Ready wallets after
Ready-same wallets store after q = All-mono (λ (w : Wallet). same-Exists w.id store after q) wallets

module _ (s : ScanSettings) (chain : Chain) (wallets : List Wallet) (tip : ℕ) where
  credit_logs-Completes :
      (b : ℕ) (logs : List Arrival) (store : Store)
      → Ready wallets store
      → Completes wallets (credit_logs s chain wallets tip b logs store)
  unfolding credit_logs
  credit_logs-Completes b [] store h = record { after = store; ended = refl; ready = h }
  credit_logs-Completes b (a ∷ rest) store h =
      let p = credit_log-Proceeds s chain wallets tip b a store _ refl h in
      rw (credit_logs, p.returned) (credit_logs-Completes b rest p.after p.ready)

  credit_blocks-Completes :
      (fetched : Fetched) (bs : List ℕ) (store : Store)
      → Ready wallets store
      → CompletesBlocks wallets bs (credit_blocks s chain wallets tip fetched bs store)
  unfolding credit_blocks
  credit_blocks-Completes fetched [] store h = record {
    all_done = refl;
    rest = record { after = store; ended = refl; ready = h };
  }
  credit_blocks-Completes fetched (b ∷ bs) store h =
      let c = credit_logs-Completes b (get_or (fetched b) []) store h in
      let n =
        credit_blocks-Completes fetched bs (advance_scanner chain b c.after)
          (Ready-same wallets c.after (advance_scanner chain b c.after) refl c.ready) in
      rw (credit_blocks, c.ended)
        (record { all_done = ap (λ cs. b ∷ cs) n.all_done; rest = n.rest })

-- The tick, as the model of the position alone has it.
abbrev pub position_tick : EvmTick → List Wallet → Tick
position_tick tick wallets = record {
  has_explorer_pool = tick.has_explorer_pool;
  has_wallets = has_rows wallets;
  tip = tick.tip;
  max_blocks_per_tick = tick.max_blocks_per_tick;
}

credit_from-Completes :
    (s : ScanSettings) (chain : Chain) (wallets : List Wallet) (tick : EvmTick) (tip cursor : ℕ)
    (store : Store)
    → Ready wallets store
    → CompletesBlocks wallets
        (scan_from chain tick.max_blocks_per_tick tip (cursor, store)).0
        (credit_from s chain wallets tick tip (cursor, store))
unfolding credit_from scan_from
credit_from-Completes s chain wallets tick tip cursor store h = elim (Bool-cases (leb tip cursor)) [
  | inl e ↦
      rw (credit_from, scan_from, e)
        (record { all_done = refl; rest = record { after = store; ended = refl; ready = h } })
  | inr e ↦
      rw (credit_from, scan_from, e)
        (credit_blocks-Completes s chain wallets tip tick.fetched
          (blocks_after cursor (last_of_tick tick.max_blocks_per_tick cursor tip - cursor)) store h)
]

-- The tick does every block that the position's model visits, and ends without an exception.
pub scan_evm_credits-Completes :
    (s : ScanSettings) (chain : Chain) (wallets : List Wallet) (tick : EvmTick) (store : Store)
    → Ready wallets store
    → CompletesBlocks wallets
        (scan_evm_chain chain (position_tick tick wallets) store).0
        (scan_evm_credits s chain wallets tick store)
unfolding scan_evm_credits scan_evm_chain
scan_evm_credits-Completes s chain wallets tick store h =
    elim (Bool-cases (not (is_evm_chain chain && tick.has_explorer_pool && has_rows wallets))) [
      | inl e ↦ rw (scan_evm_credits, scan_evm_chain, e) idle
      | inr e ↦ elim (Option-cases tick.tip) [
        | inl k ↦ rw (scan_evm_credits, scan_evm_chain, e, k) idle
        | inr (tip, k) ↦
            rw (scan_evm_credits, scan_evm_chain, e, k)
              (credit_from-Completes s chain wallets tick tip
                (get_or_init_scanner_block chain tip store).0
                (get_or_init_scanner_block chain tip store).1
                (get_or_init-keeps (Ready wallets)
                  (λ u states r. Ready-same wallets u (record u { scanner_states = states }) refl r)
                  chain tip store h))
      ]
    ]
  where
    idle : CompletesBlocks wallets [] ([], done store)
    idle = record { all_done = refl; rest = record { after = store; ended = refl; ready = h } }
