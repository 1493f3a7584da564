-- ===== src/Scanner/Position.antt =====
-- The stored position: what is written is read back.
use crypto_gateway_rp.Common.{
  ℕ, ◌<◌, ◌≡◌, refl, ◌∙◌, sym, subst, Bool, true, false, List, [], ◌∷◌, filter, any, ltb, ◌==◌,
  if◌then◌else◌, inl, inr, Bool-cases, arith,
}
use crypto_gateway_rp.Store.{Chain, ScannerState, Store}
use crypto_gateway_rp.Store.Queries.{update_where}
use crypto_gateway_rp.Store.Counts.{any-update_same}
use crypto_gateway_rp.Scanner.{
  is_state_of, at_block, advance_scanner, min_block, least_block, with_rows, start_block,
  get_or_init_scanner_block, scanner_state_rows_by_chain,
}

-- The chain has a row, and the scanner goes on after block `b`, whatever the tip.
pub record IsAt (chain : Chain) (b : ℕ) (store : Store) : Type 0 where
  pub has_row : any (is_state_of chain) store.scanner_states ≡ true
  pub reads : (tip : ℕ) → get_or_init_scanner_block chain tip store ≡ (b, store)

any-update :
    (chain : Chain) (b : ℕ) (ss : List ScannerState)
    → any (is_state_of chain) (update_where (is_state_of chain) (at_block b) ss)
      ≡ any (is_state_of chain) ss
any-update chain b =
    any-update_same (is_state_of chain) (at_block b) (is_state_of chain) (λ s. refl)

pick_self : (b : ℕ) → (if ltb b b then b else b) ≡ b
pick_self b = ground arith

min_block-update :
    (chain : Chain) (b : ℕ) (ss : List ScannerState)
    → min_block b (filter (is_state_of chain) (update_where (is_state_of chain) (at_block b) ss))
      ≡ b
unfolding update_where min_block
min_block-update chain b [] = refl
min_block-update chain b (s ∷ ss) = elim (Bool-cases (is_state_of chain s)) [
  | inl e ↦
      rw (e, e)
        (subst
          (λ x.
            min_block x
              (filter (is_state_of chain) (update_where (is_state_of chain) (at_block b) ss))
            ≡ b)
          (sym (pick_self b)) (min_block-update chain b ss))
  | inr e ↦ rw (e, e) (min_block-update chain b ss)
]

least_block-update :
    (chain : Chain) (b : ℕ) (ss : List ScannerState)
    → any (is_state_of chain) ss ≡ true
    → least_block (filter (is_state_of chain) (update_where (is_state_of chain) (at_block b) ss))
      ≡ b
unfolding update_where least_block
least_block-update chain b [] h = cc h
least_block-update chain b (s ∷ ss) h = elim (Bool-cases (is_state_of chain s)) [
  | inl e ↦
      rw (e, e)
        (subst
          (λ x.
            min_block x
              (filter (is_state_of chain) (update_where (is_state_of chain) (at_block b) ss))
            ≡ b)
          (sym (pick_self b)) (min_block-update chain b ss))
  | inr e ↦ rw (e, e) (least_block-update chain b ss (rw e at h))
]

filter-any :
    {A : Type 0} (q : A → Bool) (xs : List A)
    → any q xs ≡ true
    → (y : A) × ((ys : List A) × (filter q xs ≡ y ∷ ys))
filter-any q [] h = cc h
filter-any q (x ∷ xs) h = elim (Bool-cases (q x)) [
  | inl e ↦ (x, (filter q xs, rw e refl))
  | inr e ↦ let (y, (ys, k)) = filter-any q xs (rw e at h) in (y, (ys, rw e k))
]

with_rows_same :
    (chain : Chain) (tip : ℕ) (store : Store)
    → any (is_state_of chain) store.scanner_states ≡ true
    → with_rows chain tip store ≡ store
unfolding with_rows
with_rows_same chain tip store h =
    let (s, (ss, e)) = filter-any (is_state_of chain) store.scanner_states h in
    rw (with_rows, e) refl

start_block-advance :
    (chain : Chain) (b tip : ℕ) (store : Store)
    → any (is_state_of chain) store.scanner_states ≡ true
    → 0 < b
    → start_block chain tip (with_rows chain tip (advance_scanner chain b store))
      ≡ (b, advance_scanner chain b store)
unfolding start_block
start_block-advance chain b tip store h pos =
    let zero_not : (b == 0) ≡ false = ground (arith, pos) in
    rw
      (with_rows_same chain tip (advance_scanner chain b store)
        (any-update chain b store.scanner_states ∙ h))
      (rw (start_block, least_block-update chain b store.scanner_states h, zero_not) refl)

-- A chain that has cursor rows.
abbrev pub is_scanned : Chain → Bool
is_scanned chain = any (λ r. true) (scanner_state_rows_by_chain chain)

reads_start :
    (chain : Chain) (tip : ℕ) (store : Store)
    → is_scanned chain ≡ true
    → get_or_init_scanner_block chain tip store ≡ start_block chain tip (with_rows chain tip store)
unfolding get_or_init_scanner_block
reads_start Chain.eth tip store h = refl
reads_start Chain.tron tip store h = refl
reads_start Chain.bnb tip store h = cc h
reads_start Chain.polygon tip store h = cc h
reads_start Chain.arbitrum tip store h = cc h
reads_start Chain.optimism tip store h = cc h
reads_start Chain.btc tip store h = cc h
reads_start Chain.ton tip store h = cc h
reads_start Chain.solana tip store h = cc h

-- For a chain with cursor rows in the table, a positive block that is written is where the next pass
-- starts, whatever the tip, and the read changes nothing.
pub advance_scanner-IsAt :
    (chain : Chain) (b : ℕ) (store : Store)
    → is_scanned chain ≡ true
    → any (is_state_of chain) store.scanner_states ≡ true
    → 0 < b
    → IsAt chain b (advance_scanner chain b store)
advance_scanner-IsAt chain b store scanned h pos = record {
  has_row = any-update chain b store.scanner_states ∙ h;
  reads = λ tip.
      reads_start chain tip (advance_scanner chain b store) scanned
      ∙ start_block-advance chain b tip store h pos;
}
