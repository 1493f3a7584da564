-- ===== src/Amount/Fraction.antt =====
-- The fraction that formatAtomicAmountString prints, and its value.
use crypto_gateway_rp.Common.{
  ℕ, zero, suc, ◌-◌, ◌^◌, ◌≤◌, ◌<◌, ◌≡◌, refl, sym, ap, ◌∙◌, inl, inr, true, false, [], ◌∷◌, arith,
  Bool-cases, length, all, is_empty, replicate, length-append, length-replicate, all-append,
}
use crypto_gateway_rp.Text.{
  Text, is_zero, are_digits, decimal, drop_trailing, print_number, pad_start, pad_end,
}
use crypto_gateway_rp.Text.Cut.{drop_trailing-append, drop_trailing-zeros, digits-drop_trailing}
use crypto_gateway_rp.Text.Decimal.{
  decimal-print_number, print_number_digits, length-print_number, decimal-pad_start,
  length-pad_start, decimal-replicate,
}

-- The fraction's digits without their last zeros, filled up again.
pub pad-drop_trailing : (s : Text) (d : ℕ) → length s ≡ d → pad_end d (drop_trailing is_zero s) ≡ s
unfolding pad_end
pad-drop_trailing s d h =
    let (k, e) = drop_trailing-append s in
    let filled : d - length (drop_trailing is_zero s) ≡ k = omega (
      arith,
      ap length e,
      length-append (drop_trailing is_zero s) (replicate k b'0'),
      length-replicate {A = ℕ} k b'0',
    ) in
    rw filled e

unfoldable pub fraction : ℕ → ℕ → Text
fraction d r = drop_trailing is_zero (pad_start d (print_number r))

pub digits-fraction : (d r : ℕ) → are_digits (fraction d r) ≡ true
unfolding fraction pad_start
digits-fraction d r = digits-drop_trailing _ (
    all-append _ (replicate (d - length (print_number r)) b'0') (print_number r)
      (digits-zeros (d - length (print_number r))) (print_number_digits r).0)
  where
    digits-zeros : (k : ℕ) → are_digits (replicate k b'0') ≡ true
    digits-zeros zero = refl
    digits-zeros (suc k) = digits-zeros k

pub length-padded : (d r : ℕ) → r < 10 ^ suc d → length (pad_start (suc d) (print_number r)) ≡ suc d
length-padded d r h = length-pad_start (suc d) (print_number r) (length-print_number d r h)

pub decimal-fraction :
    (d r : ℕ) → r < 10 ^ suc d → decimal (pad_end (suc d) (fraction (suc d) r)) ≡ r
unfolding fraction
decimal-fraction d r h =
    rw (pad-drop_trailing (pad_start (suc d) (print_number r)) (suc d) (length-padded d r h))
      (decimal-pad_start (suc d) (print_number r) ∙ decimal-print_number r)

pub length-fraction : (d r : ℕ) → r < 10 ^ suc d → length (fraction (suc d) r) ≤ suc d
unfolding fraction
length-fraction d r h =
    let (k, e) = drop_trailing-append (pad_start (suc d) (print_number r)) in
    omega (
      arith,
      ap length e,
      length-append (fraction (suc d) r) (replicate k b'0'),
      length-padded d r h,
    )

-- Where the fraction is empty, it stands for 0.
pub fraction_empty : (d r : ℕ) → r < 10 ^ suc d → is_empty (fraction (suc d) r) ≡ true → r ≡ 0
fraction_empty d r h e =
    sym (decimal-fraction d r h)
    ∙ ap (λ f. decimal (pad_end (suc d) f)) (nil (fraction (suc d) r) e)
    ∙ unfold pad_end in decimal-replicate (suc d - 0)
  where
    nil : (s : Text) → is_empty s ≡ true → s ≡ []
    nil [] e = refl
    nil (c ∷ s) e = cc

pub fraction_not_zeros :
    (d r : ℕ) → is_empty (fraction d r) ≡ false → all is_zero (fraction d r) ≡ false
unfolding fraction
fraction_not_zeros d r e = elim (Bool-cases (all is_zero (fraction d r))) [
  | inl z ↦ cc (drop_trailing-zeros (pad_start d (print_number r)) z)
  | inr z ↦ z
]
