-- ===== src/Fee.antt =====
-- Fees in percent of atomic amounts: server/src/lib/merchant-fee-math.js (its copy in
-- client/src/lib/merchantFeeMath.js has the same two functions).
pub mod Bounds
pub mod Additive
use crypto_gateway_rp.Common.{
  ℕ, ◌+◌, ◌-◌, ◌*◌, ◌/◌, Bool, not, ◌||◌, ℤ, pos, negsuc, pos_part, ltb, leb, ◌==◌, if◌then◌else◌,
}
use crypto_gateway_rp.Numeric.{NumberOps}

-- What the two functions throw.
pub data FeeError : Type 0 where
  gross_negative fees_exceed_gross mdr_exceeds_gross settlement_fee_exceeds_remainder : FeeError

pub data Result {ℓ} (A : Type ℓ) : Type ℓ where
  ok : A → Result A
  thrown : FeeError → Result A

pub record Split : Type 0 where
  pub mdr_amount : ℕ
  pub settlement_fee_amount : ℕ
  pub net_amount : ℕ

pub record SequentialSplit : Type 0 where
  pub mdr_amount : ℕ
  pub after_mdr_amount : ℕ
  pub settlement_fee_amount : ℕ
  pub net_amount : ℕ

module _ (js : NumberOps) where
  open js use {Number, is_finite, is_at_most_zero, is_at_least_hundred, round_hundredfold}

  -- `bps <= 0` of a rounded number is `pos_part bps == 0`.
  unfoldable pub fee_amount_from_percent : ℕ → Number → ℕ
  fee_amount_from_percent gross percent =
      let bps = pos_part (round_hundredfold percent) in
      if not (is_finite percent) || is_at_most_zero percent
      then 0
      else if is_at_least_hundred percent
      then gross
      else if bps == 0
      then 0
      else if leb 10000 bps
      then gross
      else gross * bps / 10000

  -- Subtraction on ℕ stops at 0, so the tests for a negative rest compare before they subtract.
  split_fees : ℕ → ℕ → ℕ → Result Split
  split_fees g mdr settlement =
      if ltb g (mdr + settlement)
      then thrown fees_exceed_gross
      else ok (record {
        mdr_amount = mdr;
        settlement_fee_amount = settlement;
        net_amount = g - mdr - settlement;
      })

  pub split_fees_from_gross : ℤ → Number → Number → Result Split
  unfolding split_fees
  split_fees_from_gross (negsuc g) mdr_percent settlement_percent = thrown gross_negative
  split_fees_from_gross (pos g) mdr_percent settlement_percent =
      split_fees g (fee_amount_from_percent g mdr_percent)
        (fee_amount_from_percent g settlement_percent)

  sequential_rest : ℕ → ℕ → Number → Result SequentialSplit
  sequential_rest mdr after_mdr percent =
      let settlement = fee_amount_from_percent after_mdr percent in
      if ltb after_mdr settlement
      then thrown settlement_fee_exceeds_remainder
      else ok (record {
        mdr_amount = mdr;
        after_mdr_amount = after_mdr;
        settlement_fee_amount = settlement;
        net_amount = after_mdr - settlement;
      })

  unfoldable pub split_fees_sequential_from_gross : ℤ → Number → Number → Result SequentialSplit
  unfolding sequential_rest
  split_fees_sequential_from_gross (negsuc g) mdr_percent settlement_percent = thrown gross_negative
  split_fees_sequential_from_gross (pos g) mdr_percent settlement_percent =
      let mdr = fee_amount_from_percent g mdr_percent in
      if ltb g mdr
      then thrown mdr_exceeds_gross
      else sequential_rest mdr (g - mdr) settlement_percent
