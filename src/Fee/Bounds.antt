-- ===== src/Fee/Bounds.antt =====
-- A fee never exceeds what it is taken from, so the batch split never throws on a gross amount.
use crypto_gateway_rp.Common.{ℕ, ◌+◌, ◌-◌, ◌*◌, ◌/◌, ◌≤◌, ◌≡◌, pos, pos_part, arith}
use crypto_gateway_rp.Numeric.{NumberOps}
use crypto_gateway_rp.Fee.{
  ok, SequentialSplit, fee_amount_from_percent, split_fees_sequential_from_gross,
}

pub scaled-le : (g b : ℕ) → b ≤ 10000 → g * b / 10000 ≤ g
scaled-le g b h = let scaled : g * b ≤ g * 10000 = grind arith in omega arith

module _ (js : NumberOps) where
  open js use {Number, round_hundredfold}

  pub fee_amount_from_percent-le : (g : ℕ) (p : Number) → fee_amount_from_percent js g p ≤ g
  unfolding fee_amount_from_percent
  fee_amount_from_percent-le g p = ground (arith, scaled-le g (pos_part (round_hundredfold p)))

  -- For every non-negative gross amount and any two percentages whatever, the sequential split
  -- returns, its three parts add up to the gross amount, and the intermediate amount is the gross
  -- less the first fee.
  pub split_fees_sequential_from_gross-total :
      (g : ℕ) (mdr_percent settlement_percent : Number)
      → (s : SequentialSplit) × (split_fees_sequential_from_gross js
            (pos g)
            mdr_percent
            settlement_percent
          ≡ ok s)
        × (s.mdr_amount + s.settlement_fee_amount + s.net_amount ≡ g)
        × (s.mdr_amount + s.after_mdr_amount ≡ g)
  unfolding split_fees_sequential_from_gross
  split_fees_sequential_from_gross-total g mp sp =
      let mdr = fee_amount_from_percent js g mp in
      let fee = fee_amount_from_percent js (g - mdr) sp in
      (
        record {
          mdr_amount = mdr;
          after_mdr_amount = g - mdr;
          settlement_fee_amount = fee;
          net_amount = g - mdr - fee;
        },
        ground (arith, fee_amount_from_percent-le g mp, fee_amount_from_percent-le (g - mdr) sp),
        omega (arith, fee_amount_from_percent-le g mp, fee_amount_from_percent-le (g - mdr) sp),
        omega (arith, fee_amount_from_percent-le g mp),
      )
