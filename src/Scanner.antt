-- ===== src/Scanner.antt =====
-- The scanner's position on a chain: getOrInitScannerBlock and advanceScanner of
-- server/src/services/payment/transaction-upsert.js, and the blocks that a tick of scanEvmChain in
-- cron/src/services/tracker/evm-tracker.js visits. The credits of a block, which write transactions and
-- wallets and no position, are left out here and stand in Credits.
pub mod Position
pub mod Ticks
pub mod States
pub mod Credits
use crypto_gateway_rp.Common.{
  ℕ, zero, suc, ◌+◌, ◌-◌, Bool, true, false, ◌&&◌, ◌||◌, not, Option, none, some, List, [], ◌∷◌,
  ◌++◌, map, ltb, leb, ◌==◌, if◌then◌else◌, filter,
}
use crypto_gateway_rp.Text.{Text, codes}
use crypto_gateway_rp.Store.{Chain, eq_chain, ScannerState, Store, is_active}
use crypto_gateway_rp.Store.Queries.{update_where}
use crypto_gateway_rp.Deposit.Parts.{is_evm_chain}

-- The currency and network of each cursor row of a chain.
abbrev pub scanner_state_rows_by_chain : Chain → List (Text × Text)
scanner_state_rows_by_chain Chain.eth = (codes "USDT", codes "ERC20") ∷ []
scanner_state_rows_by_chain Chain.tron = (codes "USDT", codes "TRC20") ∷ []
scanner_state_rows_by_chain _ = []

abbrev pub is_state_of : Chain → ScannerState → Bool
is_state_of chain s = eq_chain s.chain chain && is_active s.deleted_at

-- So many blocks before the tip, or block 0.
abbrev pub blocks_back : ℕ → ℕ → ℕ
blocks_back n tip = if ltb n tip then tip - n else 0

abbrev new_state : Chain → ℕ → (Text × Text) → ScannerState
new_state chain block rail = record {
  currency = rail.0;
  network = rail.1;
  chain = chain;
  last_block = block;
  deleted_at = none;
}

abbrev pub at_block : ℕ → ScannerState → ScannerState
at_block block s = record s { last_block = block }

abbrev pub advance_scanner : Chain → ℕ → Store → Store
advance_scanner chain block store = record store {
  scanner_states = update_where (is_state_of chain) (at_block block) store.scanner_states;
}

-- The least of the blocks, from a first one on.
pub min_block : ℕ → List ScannerState → ℕ
min_block m [] = m
min_block m (s ∷ ss) = min_block (if ltb s.last_block m then s.last_block else m) ss

least_block : List ScannerState → ℕ
unfolding min_block
least_block [] = 0
least_block (s ∷ ss) = min_block s.last_block (s ∷ ss)

with_rows : Chain → ℕ → Store → Store
with_rows chain tip store = elim (filter (is_state_of chain) store.scanner_states) [
  | s ∷ ss ↦ store
  | [] ↦ record store {
    scanner_states =
        store.scanner_states
        ++ map (new_state chain (blocks_back 12 tip)) (scanner_state_rows_by_chain chain);
  }
]

start_block : Chain → ℕ → Store → ℕ × Store
unfolding least_block
start_block chain tip store =
    let least = least_block (filter (is_state_of chain) store.scanner_states) in
    if least == 0 && ltb 0 tip
    then (blocks_back 100 tip, advance_scanner chain (blocks_back 100 tip) store)
    else (least, store)

unfoldable pub get_or_init_scanner_block : Chain → ℕ → Store → ℕ × Store
unfolding start_block with_rows
get_or_init_scanner_block chain tip store = elim (scanner_state_rows_by_chain chain) [
  | [] ↦ (blocks_back 12 tip, store)
  | r ∷ rs ↦ start_block chain tip (with_rows chain tip store)
]

-- What a tick reads from outside. No tip is a failed request.
pub record Tick : Type 0 where
  pub has_explorer_pool : Bool
  pub has_wallets : Bool
  pub tip : Option ℕ
  pub max_blocks_per_tick : ℕ

-- The `n` blocks after a block.
unfoldable pub blocks_after : ℕ → ℕ → List ℕ
blocks_after b zero = []
blocks_after b (suc n) = suc b ∷ blocks_after (suc b) n

abbrev pub last_of_tick : ℕ → ℕ → ℕ → ℕ
last_of_tick max cursor tip = if ltb tip (cursor + max) then tip else cursor + max

-- The position follows each block that is done.
unfoldable pub visit_blocks : Chain → List ℕ → Store → Store
visit_blocks chain [] store = store
visit_blocks chain (b ∷ bs) store = visit_blocks chain bs (advance_scanner chain b store)

unfoldable pub scan_from : Chain → ℕ → ℕ → (ℕ × Store) → List ℕ × Store
unfolding blocks_after visit_blocks
scan_from chain max tip (cursor, store) =
    let blocks = blocks_after cursor (last_of_tick max cursor tip - cursor) in
    if leb tip cursor then ([], store) else (blocks, visit_blocks chain blocks store)

-- The blocks that a tick visits, and the tables after it.
unfoldable pub scan_evm_chain : Chain → Tick → Store → List ℕ × Store
unfolding scan_from get_or_init_scanner_block
scan_evm_chain chain tick store =
    if not (is_evm_chain chain && tick.has_explorer_pool && tick.has_wallets)
    then ([], store)
    else elim tick.tip [
      | none ↦ ([], store)
      | some tip ↦
          scan_from chain tick.max_blocks_per_tick tip (get_or_init_scanner_block chain tip store)
    ]
