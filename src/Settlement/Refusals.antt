-- ===== src/Settlement/Refusals.antt =====
-- For which reasons a settlement is refused.
use crypto_gateway_rp.Common.{
  ℕ, ◌≡◌, refl, ap, sym, subst, ◌∙◌, is_some, Bool, true, false, not, Option, some, List, [], ◌∷◌,
  pos, leb, filter, All, All-mono, inl, inr, Bool-cases, map, is_empty, arith, lookup, ◌⊎◌,
}
use crypto_gateway_rp.Numeric.{NumberOps}
use crypto_gateway_rp.Text.Decimal.{big_int-digits}
use crypto_gateway_rp.Text.{decimal}
use crypto_gateway_rp.Fee.{Result, ok, SequentialSplit, split_fees_sequential_from_gross}
use crypto_gateway_rp.Fee.Bounds.{split_fees_sequential_from_gross-total}
use crypto_gateway_rp.Amount.{net_strictly_above_min_settlement_human}
use crypto_gateway_rp.Store.{Transaction, Merchant, Store}
use crypto_gateway_rp.Store.Queries.{insert_oldest, oldest_first}
use crypto_gateway_rp.Balance.{IsAmount, Engine, is_inbound_credit, inbound_amounts}
use crypto_gateway_rp.Balance.Ledger.{token_Eq, merchant_exists, compute_merchant_balances}
use crypto_gateway_rp.Balance.Value.{HasAmounts, compute_merchant_balances-total}
use crypto_gateway_rp.Settlement.{
  Asset, is_unsettled_credit, load_unsettled_success_transactions, sum_tx_amounts,
}
use crypto_gateway_rp.Settlement.Totals.{HasAmount, total, sum_tx_amounts-total}
use crypto_gateway_rp.Settlement.Funded.{active_merchant-exists}
use crypto_gateway_rp.Settlement.Execute.{
  Attempt, done, refused, ◌>>=◌, ◌>>◌, or_refuse, refuse_unless, of_split, SettlementError, Request,
  Settled, active_merchant, has_proof, token_of_asset, covers, settle_rows,
  execute_batch_settlement,
}

All-insert_oldest :
    (P : Transaction → Type 0) (t : Transaction) (us : List Transaction)
    → P t
    → All P us
    → All P (insert_oldest t us)
unfolding insert_oldest
All-insert_oldest P t [] p h = (p, tt)
All-insert_oldest P t (u ∷ us) p h = elim (Bool-cases (leb t.created_at u.created_at)) [
  | inl e ↦ rw e (p, h)
  | inr e ↦ rw e (h.0, All-insert_oldest P t us p h.1)
]

All-oldest_first :
    (P : Transaction → Type 0) (rows : List Transaction) → All P rows → All P (oldest_first rows)
unfolding oldest_first
All-oldest_first P [] h = tt
All-oldest_first P (t ∷ ts) h =
    All-insert_oldest P t (oldest_first ts) h.0 (All-oldest_first P ts h.1)

-- Rows that a stronger filter keeps have what the rows of a weaker one have.
All-filter :
    (P : Transaction → Type 0) (p q : Transaction → Bool)
    → ((t : Transaction) → q t ≡ true → p t ≡ true)
    → (rows : List Transaction) → All P (filter p rows)
    → All P (filter q rows)
All-filter P p q weaker [] h = tt
All-filter P p q weaker (t ∷ ts) h = elim (Bool-cases (q t)) [
  | inl e ↦
      let h' : P t × All P (filter p ts) = rw (weaker t e) at h in
      rw e (h'.0, All-filter P p q weaker ts h'.1)
  | inr e ↦ elim (Bool-cases (p t)) [
    | inl k ↦
        let h' : P t × All P (filter p ts) = rw k at h in rw e (All-filter P p q weaker ts h'.1)
    | inr k ↦ rw e (All-filter P p q weaker ts (rw k at h))
  ]
]

All-map :
    {A : Type 0} (P : A → Type 0) (f : Transaction → A) (rows : List Transaction)
    → All P (map f rows)
    → All (λ t. P (f t)) rows
All-map P f [] h = tt
All-map P f (t ∷ ts) h = (h.0, All-map P f ts h.1)

unsettled-is_inbound_credit :
    (store : Store) (asset : Asset) (now period : ℕ) (t : Transaction)
    → is_unsettled_credit store asset now period t ≡ true
    → is_inbound_credit store asset.merchant_id asset.environment t ≡ true
unfolding is_unsettled_credit is_inbound_credit
unsettled-is_inbound_credit store asset now period t h = ground (arith, h)

loaded-HasAmount :
    (store : Store) (asset : Asset) (now period : ℕ)
    → HasAmounts store asset.merchant_id asset.environment
    → All HasAmount (load_unsettled_success_transactions store asset now period)
unfolding load_unsettled_success_transactions inbound_amounts
loaded-HasAmount store asset now period h =
    All-mono (λ t a. (decimal t.amount, big_int-digits t.amount a.0 a.1)) _
      (All-oldest_first (λ t. IsAmount t.amount) _
        (All-filter (λ t. IsAmount t.amount) _ (is_unsettled_credit store asset now period)
          (unsettled-is_inbound_credit store asset now period) store.transactions
          (All-map (λ row. IsAmount row.1) _ _ h.credits)))

-- The four reasons that a merchant can meet.
abbrev pub is_expected : SettlementError → Bool
is_expected SettlementError.no_eligible_transactions = true
is_expected SettlementError.below_min_settlement_amount = true
is_expected SettlementError.proof_required = true
is_expected SettlementError.insufficient_balance = true
is_expected _ = false

Answered : Attempt Settled → Type 0
Answered r =
    ((out : Settled) × (r ≡ done out))
    ⊎ ((e : SettlementError) × (r ≡ refused e) × (is_expected e ≡ true))

checked-Answered :
    (c : Bool) (e : SettlementError) (m : Attempt Settled)
    → is_expected e ≡ true
    → Answered m
    → Answered (refuse_unless c e >> m)
unfolding Answered
checked-Answered true e m expected h = h
checked-Answered false e m expected h = inr (e, refl, expected)

done-Answered : (out : Settled) → Answered (done out)
unfolding Answered
done-Answered out = inl (out, refl)

found-Answered :
    {A : Type 0} (o : Option A) (e : SettlementError) (f : A → Attempt Settled) (a : A)
    → o ≡ some a
    → Answered (f a)
    → Answered (or_refuse o e >>= f)
found-Answered o e f a found h = subst (λ x. Answered (or_refuse x e >>= f)) (sym found) h

split-Answered :
    (r : Result SequentialSplit) (f : SequentialSplit → Attempt Settled) (s : SequentialSplit)
    → r ≡ ok s
    → Answered (f s)
    → Answered (of_split r >>= f)
split-Answered r f s split h = subst (λ x. Answered (of_split x >>= f)) (sym split) h

module _ (js : NumberOps) (sql : Engine) where
  open js use {of_text}

  settle_rows-Answered :
      (now : ℕ) (store : Store) (req : Request) (merchant : Merchant) (rows : List Transaction)
      → merchant_exists store req.asset.merchant_id ≡ true
      → HasAmounts store req.asset.merchant_id req.asset.environment
      → All HasAmount rows
      → Answered (settle_rows js sql now store req merchant rows)
  unfolding settle_rows
  settle_rows-Answered now store req merchant rows active h amounts =
      let (fees, split, parts, rest) =
        split_fees_sequential_from_gross-total js (total rows) (of_text merchant.mdr_percent)
          (of_text merchant.settlement_rate_percent) in
      let (balances, computed, unique, entries) =
        compute_merchant_balances-total sql store req.asset.merchant_id req.asset.environment active
          h in
      checked-Answered (not (is_empty rows)) SettlementError.no_eligible_transactions _ refl (
        found-Answered (sum_tx_amounts (pos 0) rows) SettlementError.unexpected _ (pos (total rows))
          (sum_tx_amounts-total 0 rows amounts ∙ ap (λ n. some (pos n)) (omega arith))
          (split-Answered
            (split_fees_sequential_from_gross js (pos (total rows)) (of_text merchant.mdr_percent)
              (of_text merchant.settlement_rate_percent))
            _ fees split
            (checked-Answered
              (net_strictly_above_min_settlement_human fees.net_amount
                merchant.min_settlement_amount req.asset.token_decimals)
              SettlementError.below_min_settlement_amount _ refl
              (checked-Answered (has_proof req.proof_file_name) SettlementError.proof_required _
                refl
                (found-Answered
                  (compute_merchant_balances sql store req.asset.merchant_id req.asset.environment)
                  SettlementError.unexpected _ balances computed
                  (checked-Answered
                    (covers (lookup (token_of_asset req.asset) balances) fees.net_amount)
                    SettlementError.insufficient_balance _ refl (done-Answered _)))))))

  -- For a merchant whose row is found and whose amounts are all texts of digits, a settlement is made,
  -- or it is refused for one of four reasons: no eligible transaction, a net amount not above the
  -- minimum, no proof, or not enough balance. Neither the fee calculation nor the database or BigInt
  -- throws.
  pub execute_batch_settlement-refusals :
      (now : ℕ) (store : Store) (req : Request) (merchant : Merchant)
      → active_merchant store req.asset.merchant_id ≡ some merchant
      → HasAmounts store req.asset.merchant_id req.asset.environment
      → ((out : Settled) × (execute_batch_settlement js sql now store req ≡ done out))
        ⊎ ((e : SettlementError) × (execute_batch_settlement js sql now store req ≡ refused e)
            × (is_expected e ≡ true))
  unfolding execute_batch_settlement Answered
  execute_batch_settlement-refusals now store req merchant found h =
      found-Answered (active_merchant store req.asset.merchant_id)
        SettlementError.merchant_not_found _ merchant found
        (settle_rows-Answered now store req merchant _
          (active_merchant-exists store req.asset.merchant_id (ap is_some found)) h
          (loaded-HasAmount store req.asset now merchant.settlement_period_days h))
