-- ===== src/Numeric.antt =====
-- JavaScript numbers, which carry percentages: server/src/lib/merchant-fee-math.js reads them by four
-- tests of the language. They are IEEE doubles, so they are taken as a parameter.

-- `Number(text)`, `Number.isFinite(p)`, `p <= 0`, `p >= 100` and `Math.round(p * 100)`.
use crypto_gateway_rp.Common.{Bool, ℤ}
use crypto_gateway_rp.Text.{Text}

pub record NumberOps : Type 1 where
  pub Number : Type 0
  pub of_text : Text → Number
  pub is_finite : Number → Bool
  pub is_at_most_zero : Number → Bool
  pub is_at_least_hundred : Number → Bool
  pub round_hundredfold : Number → ℤ
