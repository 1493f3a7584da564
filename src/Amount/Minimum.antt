-- ===== src/Amount/Minimum.antt =====
-- The merchant's minimum for a settlement.
use crypto_gateway_rp.Common.{ℕ, ◌≤◌, ◌≡◌, true, ltb, Bool-cases, inl, inr, arith}
use crypto_gateway_rp.Text.{Text, trim}
use crypto_gateway_rp.Amount.{
  Result, ok, err, above_parsed, is_zero_setting, net_strictly_above_min_settlement_human,
  parse_human_min_settlement_to_atomic,
}

above_parsed_positive : (net : ℕ) (r : Result ℕ) → above_parsed net r ≡ true → 1 ≤ net
above_parsed_positive net (err e) h = ground arith
above_parsed_positive net (ok value) h = ground arith

-- A net amount that is above the minimum is positive, whatever the minimum's text.
pub above_min_positive :
    (net : ℕ) (min_settlement : Text) (token_decimals : ℕ)
    → net_strictly_above_min_settlement_human net min_settlement token_decimals ≡ true
    → 1 ≤ net
unfolding net_strictly_above_min_settlement_human
above_min_positive net m d h = elim (Bool-cases (is_zero_setting (trim m))) [
  | inl e ↦ positive (rw (e, net_strictly_above_min_settlement_human) at h)
  | inr e ↦
      above_parsed_positive net (parse_human_min_settlement_to_atomic (trim m) d)
        (rw (e, net_strictly_above_min_settlement_human) at h)
]
  where
    positive : ltb 0 net ≡ true → 1 ≤ net
    positive h = ground arith
