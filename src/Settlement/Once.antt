-- ===== src/Settlement/Once.antt =====
-- The rows of a settlement are not settled again.
use crypto_gateway_rp.Common.{
  ℕ, ◌≡◌, refl, sym, ap, subst, ◌∙◌, Bool, true, false, ◌&&◌, some, List, [], ◌∷◌, if◌then◌else◌,
  any, filter, ◌==◌, ==_iff, leb, All, All-mono, inl, inr, Bool-cases, arith, pos_part, length,
}
use mathlib.Core.Option.{some-injective}
use crypto_gateway_rp.Numeric.{NumberOps}
use crypto_gateway_rp.Store.{Transaction, Merchant, MerchantSettlement, Store, is_active}
use crypto_gateway_rp.Store.Queries.{update_where, insert_oldest, oldest_first}
use crypto_gateway_rp.Balance.{Engine}
use crypto_gateway_rp.Settlement.{Asset, is_unsettled_credit, load_unsettled_success_transactions}
use crypto_gateway_rp.Settlement.Execute.{
  done, Request, Settled, ids_of, is_among, settle_with, settlement_row, write_settlement,
  active_merchant, execute_batch_settlement,
}
use crypto_gateway_rp.Settlement.Batch.{execute_batch_settlement-Steps}

-- The row with id `k` is one of the rows.
abbrev pub among : ℕ → List Transaction → Bool
among k rows = any (λ id. id == k) (ids_of rows)

among-insert_oldest :
    (k : ℕ) (t : Transaction) (us : List Transaction)
    → among k (insert_oldest t us) ≡ (if t.id == k then true else among k us)
unfolding insert_oldest
among-insert_oldest k t [] = refl
among-insert_oldest k t (u ∷ us) = elim (Bool-cases (leb t.created_at u.created_at)) [
  | inl e ↦ rw e refl
  | inr e ↦ rw (e, among-insert_oldest k t us) (swap (t.id == k) (u.id == k) (among k us))
]
  where
    swap :
        (a b c : Bool)
        → (if b then true else (if a then true else c))
          ≡ (if a then true else (if b then true else c))
    swap a b c = ground arith

among-oldest_first : (k : ℕ) (rows : List Transaction) → among k (oldest_first rows) ≡ among k rows
unfolding oldest_first
among-oldest_first k [] = refl
among-oldest_first k (t ∷ ts) =
    among-insert_oldest k t (oldest_first ts)
    ∙ ap (λ b. if t.id == k then true else b) (among-oldest_first k ts)

-- A row that the filter keeps is among those kept.
among-filter :
    (p : Transaction → Bool) (rows : List Transaction)
    → All (λ t. p t ≡ true → among t.id (filter p rows) ≡ true) rows
among-filter p [] = tt
among-filter p (t ∷ ts) = elim (Bool-cases (p t)) [
  | inl e ↦ (
    λ h. rw (e, (==_iff t.id t.id).1 refl) refl,
    All-mono (λ u kept h. rw e (here (t.id == u.id) (kept h))) ts (among-filter p ts),
  )
  | inr e ↦ (λ h. cc, All-mono (λ u kept h. rw e (kept h)) ts (among-filter p ts))
]
  where
    here : (a : Bool) {b : Bool} → b ≡ true → (if a then true else b) ≡ true
    here a {b} h = ground arith

module _ (after : Store) (asset : Asset) (now period : ℕ) where
  settle_with-settled :
      (id : ℕ) (t : Transaction)
      → is_unsettled_credit after asset now period (settle_with id t) ≡ false
  unfolding is_unsettled_credit
  settle_with-settled id t = ground arith

  unsettled-active :
      (t : Transaction)
      → is_unsettled_credit after asset now period t ≡ true
      → is_active t.deleted_at ≡ true
  unfolding is_unsettled_credit
  unsettled-active t h = ground (arith, h)

  -- A row of the ids that is still unsettled would have been settled.
  none_among :
      (ids : List ℕ) (id k : ℕ) (rows : List Transaction)
      → any (λ i. i == k) ids ≡ true
      → among k (
          filter
            (is_unsettled_credit after asset now period)
            (update_where (is_among ids) (settle_with id) rows))
        ≡ false
  unfolding update_where
  none_among ids id k [] h = refl
  none_among ids id k (t ∷ ts) h = elim (Bool-cases (is_among ids t)) [
    | inl e ↦ rw (e, settle_with-settled id t) (none_among ids id k ts h)
    | inr e ↦ elim (Bool-cases (is_unsettled_credit after asset now period t)) [
      | inr f ↦ rw (e, f) (none_among ids id k ts h)
      | inl f ↦ elim (Bool-cases (t.id == k)) [
        | inr g ↦ rw (e, f, g) (none_among ids id k ts h)
        | inl g ↦ cc (
            missed (subst (λ j. any (λ i. i == j) ids ≡ true) (sym ((==_iff t.id k).0 g)) h)
              (unsettled-active t f) e)
      ]
    ]
  ]
    where
      missed : {a b : Bool} → a ≡ true → b ≡ true → (a && b) ≡ false → true ≡ false
      missed {a} {b} h k e = ground arith

module _ (js : NumberOps) (sql : Engine) where
  -- In the tables that a settlement leaves, a row that it was made of (one that was eligible for it) is
  -- eligible no more: for no asset of any merchant, at no time, and with no settlement period.
  pub execute_batch_settlement-once :
      (now : ℕ) (store : Store) (req : Request) (out : Settled) (merchant : Merchant) (k : ℕ)
      (asset : Asset) (later period : ℕ)
      → execute_batch_settlement js sql now store req ≡ done out
      → active_merchant store req.asset.merchant_id ≡ some merchant
      → among k
          (load_unsettled_success_transactions store req.asset now merchant.settlement_period_days)
        ≡ true
      → among k (load_unsettled_success_transactions out.store asset later period) ≡ false
  unfolding load_unsettled_success_transactions
  execute_batch_settlement-once now store req out merchant k asset later period h there taken =
      let (found_merchant, found, steps) =
        execute_batch_settlement-Steps js sql now store req out h in
      let same : merchant ≡ found_merchant = some-injective _ _ (sym there ∙ found) in
      let eligible =
        subst
          (λ (m : Merchant).
            among k
              (load_unsettled_success_transactions store req.asset now m.settlement_period_days)
            ≡ true)
          same taken in
      subst
        (λ (o : Settled).
          among k (load_unsettled_success_transactions o.store asset later period) ≡ false)
        (sym steps.made)
        (later_none found_merchant.settlement_period_days eligible (
          settlement_row store now req found_merchant (pos_part steps.gross) steps.fees (
            length (
              load_unsettled_success_transactions store req.asset now
                found_merchant.settlement_period_days))))
    where
      later_none :
          (days : ℕ)
          → among k (load_unsettled_success_transactions store req.asset now days) ≡ true
          → (row : MerchantSettlement)
          → among k (
              load_unsettled_success_transactions
                (write_settlement store row
                  (ids_of (load_unsettled_success_transactions store req.asset now days)))
                asset
                later
                period)
            ≡ false
      later_none days h row =
          let ids = ids_of (load_unsettled_success_transactions store req.asset now days) in
          among-oldest_first k _
          ∙ none_among (write_settlement store row ids) asset later period ids row.id k
              store.transactions h
