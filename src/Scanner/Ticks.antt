-- ===== src/Scanner/Ticks.antt =====
-- The blocks that any sequence of ticks visits.
use crypto_gateway_rp.Common.{
  ℕ, zero, suc, ◌≤◌, ◌+◌, ◌-◌, ◌≡◌, refl, ◌∙◌, sym, subst, ap, true, ◌&&◌, not, Option, none, some,
  List, [], ◌∷◌, ◌++◌, leb, inl, inr, Bool-cases, Option-cases, arith, All,
}
use crypto_gateway_rp.Store.{Chain, Store}
use crypto_gateway_rp.Deposit.Parts.{is_evm_chain}
use crypto_gateway_rp.Scanner.{
  advance_scanner, Tick, blocks_after, last_of_tick, visit_blocks, scan_from, scan_evm_chain,
}
use crypto_gateway_rp.Scanner.Position.{IsAt, is_scanned, advance_scanner-IsAt}

-- The blocks that the ticks visit, in order, and the tables after them.
unfoldable pub scan_ticks : Chain → List Tick → Store → List ℕ × Store
unfolding scan_evm_chain
scan_ticks chain [] store = ([], store)
scan_ticks chain (t ∷ ts) store =
    let (bs, after) = scan_evm_chain chain t store in
    let (cs, last) = scan_ticks chain ts after in (bs ++ cs, last)

-- From block `b` on, exactly the blocks up to a stored position have been visited, each once and in order.
pub record Visits (chain : Chain) (b bound : ℕ) (result : List ℕ × Store) : Type 0 where
  pub number : ℕ
  pub all_visited : result.0 ≡ blocks_after b number
  pub position : IsAt chain (b + number) result.1
  pub bounded : b + number ≤ bound

zero_right : (b : ℕ) → b + 0 ≡ b
zero_right b = omega arith

suc_right : (b n : ℕ) → suc b + n ≡ b + suc n
suc_right b n = omega arith

zero_left : (m : ℕ) → m ≡ 0 + m
zero_left m = omega arith

suc_left : (n m : ℕ) → suc (n + m) ≡ suc n + m
suc_left n m = omega arith

blocks_after-append :
    (b n m : ℕ) → blocks_after b n ++ blocks_after (b + n) m ≡ blocks_after b (n + m)
unfolding blocks_after
blocks_after-append b zero m =
    ap (λ x. blocks_after x m) (zero_right b) ∙ ap (blocks_after b) (zero_left m)
blocks_after-append b (suc n) m =
    ap (λ bs. suc b ∷ bs)
      (subst (λ x. blocks_after (suc b) n ++ blocks_after x m ≡ blocks_after (suc b) (n + m))
        (suc_right b n) (blocks_after-append (suc b) n m))
    ∙ ap (blocks_after b) (suc_left n m)

visit_blocks-IsAt :
    (chain : Chain) (b n : ℕ) (store : Store)
    → is_scanned chain ≡ true
    → IsAt chain b store
    → IsAt chain (b + n) (visit_blocks chain (blocks_after b n) store)
unfolding visit_blocks blocks_after
visit_blocks-IsAt chain b zero store scanned h =
    subst (λ x. IsAt chain x store) (sym (zero_right b)) h
visit_blocks-IsAt chain b (suc n) store scanned h =
    subst
      (λ x.
        IsAt chain x
          (visit_blocks chain (blocks_after (suc b) n) (advance_scanner chain (suc b) store)))
      (suc_right b n)
      (visit_blocks-IsAt chain (suc b) n (advance_scanner chain (suc b) store) scanned
        (advance_scanner-IsAt chain (suc b) store scanned h.has_row (omega arith)))

stays :
    (chain : Chain) (b bound : ℕ) (store : Store)
    → b ≤ bound
    → IsAt chain b store
    → Visits chain b bound ([], store)
unfolding blocks_after
stays chain b bound store low h = record {
  number = 0;
  all_visited = refl;
  position = subst (λ x. IsAt chain x store) (sym (zero_right b)) h;
  bounded = omega (arith, low);
}

scan_from-Visits :
    (chain : Chain) (b bound max tip : ℕ) (store : Store)
    → is_scanned chain ≡ true
    → b ≤ bound
    → tip ≤ bound
    → IsAt chain b store
    → Visits chain b bound (scan_from chain max tip (b, store))
unfolding scan_from
scan_from-Visits chain b bound max tip store scanned low tip_low h = elim (Bool-cases (leb tip b)) [
  | inl e ↦ rw (scan_from, e) (stays chain b bound store low h)
  | inr e ↦
      rw (scan_from, e)
        (record {
          number = last_of_tick max b tip - b;
          all_visited = refl;
          position = visit_blocks-IsAt chain b (last_of_tick max b tip - b) store scanned h;
          bounded = ground (arith, e, tip_low, low);
        })
]

-- The tip that a tick reads, if it reads one, is no later than `bound`.
abbrev pub TipWithin : ℕ → Option ℕ → Type 0
TipWithin bound none = Unit {0}
TipWithin bound (some tip) = tip ≤ bound

evm-is_scanned : (chain : Chain) → is_evm_chain chain ≡ true → is_scanned chain ≡ true
evm-is_scanned Chain.eth h = refl
evm-is_scanned Chain.tron h = refl
evm-is_scanned Chain.bnb h = cc h
evm-is_scanned Chain.polygon h = cc h
evm-is_scanned Chain.arbitrum h = cc h
evm-is_scanned Chain.optimism h = cc h
evm-is_scanned Chain.btc h = cc h
evm-is_scanned Chain.ton h = cc h
evm-is_scanned Chain.solana h = cc h

scan_evm_chain-Visits :
    (chain : Chain) (b bound : ℕ) (t : Tick) (store : Store)
    → b ≤ bound
    → TipWithin bound t.tip
    → IsAt chain b store
    → Visits chain b bound (scan_evm_chain chain t store)
unfolding scan_evm_chain
scan_evm_chain-Visits chain b bound t store low within h =
    elim (Bool-cases (not (is_evm_chain chain && t.has_explorer_pool && t.has_wallets))) [
      | inl e ↦ rw (scan_evm_chain, e) (stays chain b bound store low h)
      | inr e ↦ elim (Option-cases t.tip) [
        | inl k ↦ rw (scan_evm_chain, e, k) (stays chain b bound store low h)
        | inr (tip, k) ↦
            rw (scan_evm_chain, e, k, h.reads tip)
              (scan_from-Visits chain b bound t.max_blocks_per_tick tip store
                (evm-is_scanned chain (ground (arith, e))) low (subst (TipWithin bound) k within) h)
      ]
    ]

joined :
    (chain : Chain) (b bound : ℕ) (bs cs : List ℕ) (middle last : Store)
    → (v : Visits chain b bound (bs, middle)) → Visits chain (b + v.number) bound (cs, last)
    → Visits chain b bound (bs ++ cs, last)
joined chain b bound bs cs middle last v w = record {
  number = v.number + w.number;
  all_visited = rw (v.all_visited, w.all_visited) (blocks_after-append b v.number w.number);
  position = subst (λ x. IsAt chain x last) assoc w.position;
  bounded = omega (arith, w.bounded);
}
  where
    assoc : b + v.number + w.number ≡ b + (v.number + w.number)
    assoc = omega arith

-- From a stored position `b` on, where `b` and every tip that the ticks read are at most `bound`, the
-- ticks together visit exactly the blocks after `b` up to some block, in order, none twice and none left
-- out, however they are cut into ticks; that block is at most `bound`, and it is the stored position.
pub scan_ticks-Visits :
    (chain : Chain) (b bound : ℕ) (ticks : List Tick) (store : Store)
    → b ≤ bound
    → All (λ (t : Tick). TipWithin bound t.tip) ticks
    → IsAt chain b store
    → Visits chain b bound (scan_ticks chain ticks store)
unfolding scan_ticks
scan_ticks-Visits chain b bound [] store low within h = stays chain b bound store low h
scan_ticks-Visits chain b bound (t ∷ ts) store low within h =
    let v = scan_evm_chain-Visits chain b bound t store low within.0 h in
    joined chain b bound (scan_evm_chain chain t store).0
      (scan_ticks chain ts (scan_evm_chain chain t store).1).0 (scan_evm_chain chain t store).1
      (scan_ticks chain ts (scan_evm_chain chain t store).1).1 v
      (scan_ticks-Visits chain (b + v.number) bound ts (scan_evm_chain chain t store).1 v.bounded
        within.1 v.position)
