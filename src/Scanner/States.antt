-- ===== src/Scanner/States.antt =====
-- Reading the position writes nothing but the position.
use crypto_gateway_rp.Common.{
  ℕ, ◌≡◌, refl, ap, sym, subst, ◌&&◌, List, [], ◌∷◌, ◌++◌, map, filter, ◌==◌, ltb, if_cases,
}
use crypto_gateway_rp.Text.{Text}
use crypto_gateway_rp.Store.{Chain, ScannerState, Store}
use crypto_gateway_rp.Scanner.{
  is_state_of, blocks_back, new_state, advance_scanner, least_block, with_rows, start_block,
  get_or_init_scanner_block, scanner_state_rows_by_chain,
}

-- The other tables are as they were.
pub record OnlyStates (store after : Store) : Type 0 where
  states : List ScannerState
  same : after ≡ record store { scanner_states = states }

start_block-OnlyStates :
    (chain : Chain) (tip : ℕ) (before store : Store)
    → OnlyStates before store
    → OnlyStates before (start_block chain tip store).1
unfolding start_block
start_block-OnlyStates chain tip before store h =
    if_cases (λ (r : ℕ × Store). OnlyStates before r.1)
      (least_block (filter (is_state_of chain) store.scanner_states) == 0 && ltb 0 tip)
      (record {
        states = (advance_scanner chain (blocks_back 100 tip) store).scanner_states;
        same =
            ap
              (λ (u : Store). record u {
                scanner_states = (advance_scanner chain (blocks_back 100 tip) store).scanner_states;
              })
              h.same;
      })
      h

with_rows-OnlyStates :
    (chain : Chain) (tip : ℕ) (store : Store) → OnlyStates store (with_rows chain tip store)
unfolding with_rows
with_rows-OnlyStates chain tip store = rows (filter (is_state_of chain) store.scanner_states)
  where
    rows :
        (found : List ScannerState)
        → OnlyStates store (elim found [
          | s ∷ ss ↦ store
          | [] ↦ record store {
            scanner_states =
                store.scanner_states
                ++ map (new_state chain (blocks_back 12 tip)) (scanner_state_rows_by_chain chain);
          }
        ])
    rows [] = record { states = _; same = refl }
    rows (x ∷ xs) = record { states = store.scanner_states; same = refl }

pub get_or_init-OnlyStates :
    (chain : Chain) (tip : ℕ) (store : Store)
    → OnlyStates store (get_or_init_scanner_block chain tip store).1
unfolding get_or_init_scanner_block
get_or_init-OnlyStates chain tip store = rows (scanner_state_rows_by_chain chain)
  where
    chosen : List (Text × Text) → ℕ × Store
    chosen rails = elim rails [
      | [] ↦ (blocks_back 12 tip, store)
      | r ∷ rs ↦ start_block chain tip (with_rows chain tip store)
    ]

    rows : (rails : List (Text × Text)) → OnlyStates store (chosen rails).1
    rows [] = record { states = store.scanner_states; same = refl }
    rows (r ∷ rs) =
        start_block-OnlyStates chain tip store (with_rows chain tip store)
          (with_rows-OnlyStates chain tip store)

-- What does not depend on the positions is kept.
pub get_or_init-keeps :
    (P : Store → Type 0)
    → ((s : Store) (states : List ScannerState) → P s → P (record s { scanner_states = states }))
    → (chain : Chain) (tip : ℕ) (store : Store) → P store
    → P (get_or_init_scanner_block chain tip store).1
get_or_init-keeps P keep chain tip store h =
    let o = get_or_init-OnlyStates chain tip store in subst P (sym o.same) (keep store o.states h)
