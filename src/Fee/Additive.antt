-- ===== src/Fee/Additive.antt =====
-- Rounding: one fee on a sum against the fees of its parts.
use crypto_gateway_rp.Common.{ℕ, ◌+◌, ◌*◌, ◌/◌, ◌≤◌, pos_part, arith}
use crypto_gateway_rp.Numeric.{NumberOps}
use crypto_gateway_rp.Fee.{fee_amount_from_percent}

scaled_add :
    (a b k : ℕ)
    → (a * k / 10000 + b * k / 10000 ≤ (a + b) * k / 10000)
      × ((a + b) * k / 10000 ≤ a * k / 10000 + b * k / 10000 + 1)
scaled_add a b k = omega arith

module _ (js : NumberOps) where
  open js use {Number, round_hundredfold}

  -- Charging two amounts separately costs at most one atomic unit less than charging their sum, and
  -- never more.
  pub fee_amount_from_percent-add :
      (a b : ℕ) (p : Number)
      → (fee_amount_from_percent js a p + fee_amount_from_percent js b p
          ≤ fee_amount_from_percent js (a + b) p)
        × (fee_amount_from_percent js (a + b) p
            ≤ fee_amount_from_percent js a p + fee_amount_from_percent js b p + 1)
  unfolding fee_amount_from_percent
  fee_amount_from_percent-add a b p =
      ground (arith, scaled_add a b (pos_part (round_hundredfold p)))
