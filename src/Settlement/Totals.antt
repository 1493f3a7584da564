-- ===== src/Settlement/Totals.antt =====
-- The amounts of a previewed batch.
use crypto_gateway_rp.Common.{
  ℕ, ap, ◌∙◌, negsuc, ◌+◌, ◌≤◌, ◌≡◌, refl, sym, subst, true, ◌||◌, Option, none, some, List, [],
  ◌∷◌, ℤ, pos, ltb, ltb_ℤ, ◌+ℤ◌, ◌==◌, if_split, All, arith, length, pos_add,
}
use mathlib.Core.Option.{some-injective}
use crypto_gateway_rp.Numeric.{NumberOps}
use crypto_gateway_rp.Text.{Text, big_int}
use crypto_gateway_rp.Fee.{Result, ok}
use crypto_gateway_rp.Fee.Bounds.{split_fees_sequential_from_gross-total}
use crypto_gateway_rp.Amount.Minimum.{above_min_positive}
use crypto_gateway_rp.Store.{Transaction}
use crypto_gateway_rp.Settlement.{
  sum_tx_amounts, Preview, empty_preview, preview_of_fees, charged_preview, preview_of_gross,
  preview_batch_from_tx_rows,
}

-- The amount is a non-negative integer, as every credit's is.
abbrev pub HasAmount : Transaction → Type 0
HasAmount t = (n : ℕ) × (big_int t.amount ≡ some (pos n))

-- The sum of the amounts that are non-negative integers.
abbrev amount_of : Option ℤ → ℕ
amount_of none = 0
amount_of (some (pos n)) = n
amount_of (some (negsuc n)) = 0

pub total : List Transaction → ℕ
total [] = 0
total (t ∷ ts) = amount_of (big_int t.amount) + total ts

pub sum_tx_amounts-total :
    (acc : ℕ) (rows : List Transaction)
    → All HasAmount rows
    → sum_tx_amounts (pos acc) rows ≡ some (pos (acc + total rows))
unfolding sum_tx_amounts total
sum_tx_amounts-total acc [] h = ap (λ n. some (pos n)) (omega arith)
sum_tx_amounts-total acc (t ∷ ts) h =
    read_amount (sum_tx_amounts-total (acc + h.0.0) ts h.1) (big_int t.amount) h.0.1
  where
    n : ℕ
    n = h.0.0

    read_amount :
        sum_tx_amounts (pos (acc + n)) ts ≡ some (pos (acc + n + total ts))
        → (o : Option ℤ) → o ≡ some (pos n)
        → (elim o [ none ↦ none | some a ↦ sum_tx_amounts (pos acc +ℤ a) ts ])
          ≡ some (pos (acc + (amount_of o + total ts)))
    read_amount rest none k = cc k
    read_amount rest (some a) k =
        subst
          (λ b.
            sum_tx_amounts (pos acc +ℤ b) ts ≡ some (pos (acc + (amount_of (some b) + total ts))))
          (sym (some-injective _ _ k))
          (subst (λ b. sum_tx_amounts b ts ≡ some (pos (acc + (n + total ts))))
            (sym (pos_add acc n)) (rest ∙ ap (λ m. some (pos m)) (omega arith)))

no_gross :
    (rows : List Transaction) → (length rows == 0 || ltb (total rows + 0) 1) ≡ true → total rows ≡ 0
unfolding total
no_gross [] h = refl
no_gross (t ∷ ts) h = ground (arith, h)

Sound : List Transaction → Option (Result Preview) → Type 0
Sound rows r =
    (p : Preview) × (r ≡ some (ok p))
    × (p.mdr_amount_raw + p.settlement_fee_raw + p.net_to_merchant_raw ≡ total rows)
    × (p.meets_min ≡ true → 1 ≤ p.net_to_merchant_raw)

module _ (js : NumberOps) where
  open js use {Number}

  -- For rows whose amounts are all non-negative integers, and for any percentages, minimum and
  -- decimals, the preview is computed without an exception; the fees and the net amount of it add up
  -- to the sum of the amounts, and a batch that meets the minimum has a positive net amount.
  pub preview_batch_from_tx_rows-total :
      (rows : List Transaction) (mdr_percent settlement_percent : Number) (min_settlement : Text)
      (token_decimals : ℕ)
      → All HasAmount rows
      → (p : Preview) × (preview_batch_from_tx_rows js rows mdr_percent settlement_percent
            min_settlement token_decimals
          ≡ some (ok p))
        × (p.mdr_amount_raw + p.settlement_fee_raw + p.net_to_merchant_raw ≡ total rows)
        × (p.meets_min ≡ true → 1 ≤ p.net_to_merchant_raw)
  unfolding preview_batch_from_tx_rows Sound
  preview_batch_from_tx_rows-total rows mp sp m d h =
      subst
        (λ o.
          Sound rows
            (elim o [ none ↦ none | some g ↦ some (preview_of_gross js rows mp sp m d g) ]))
        (sym (sum_tx_amounts-total 0 rows h ∙ ap (λ n. some (pos n)) (omega arith))) previewed
    where
      previewed : Sound rows (some (preview_of_gross js rows mp sp m d (pos (total rows))))
      previewed =
          if_split (λ r. Sound rows (some r)) (length rows == 0 || ltb_ℤ (pos (total rows)) (pos 1))
            (λ b. (empty_preview, refl, sym (no_gross rows b), λ k. cc k))
            (λ b.
              let (s, e, parts, rest) =
                split_fees_sequential_from_gross-total js (total rows) mp sp in
              subst (λ r. Sound rows (some (preview_of_fees js rows (pos (total rows)) m d r)))
                (sym e)
                (
                  charged_preview rows (pos (total rows)) m d s,
                  refl,
                  parts,
                  above_min_positive s.net_amount m d,
                ))
