-- ===== src/Amount/RoundTrip.antt =====
-- What the ledger prints for an amount, the settlement parser reads back.
use Prim.Native.Nat.{min}
use native.Mathlib.Nat.{pow-suc, mod-lt, div-add-mod'}
use crypto_gateway_rp.Common.{
  if◌then◌else◌, ℕ, zero, suc, ◌*◌, ◌/◌, ◌%◌, ◌^◌, ◌≤◌, ◌<◌, ◌≡◌, ap, ◌∙◌, inl, inr, true, false,
  ◌∷◌, ◌++◌, pos, arith, Bool-cases, is_empty,
}
use crypto_gateway_rp.Text.{Text, are_digits, print_number}
use crypto_gateway_rp.Text.Decimal.{decimal-print_number, print_number_digits, big_int-digits}
use crypto_gateway_rp.Amount.Parse.{parse-digits, parse_dotted}
use crypto_gateway_rp.Amount.Fraction.{
  fraction, digits-fraction, decimal-fraction, length-fraction, fraction_empty, fraction_not_zeros,
}
use crypto_gateway_rp.Amount.{
  ok, parse_human_min_settlement_to_atomic, format_atomic_amount_string, format_integer,
}

format_suc :
    (n d : ℕ)
    → format_integer (pos n) (suc d) ≡ (
        let f = fraction (suc d) (n % 10 ^ suc d) in
        let w = print_number (n / 10 ^ suc d) in if is_empty f then w else w ++ (b'.' ∷ f))
unfolding format_integer fraction
format_suc n d = ground arith

power_pos : (d : ℕ) → 0 < 10 ^ d
power_pos zero = omega arith
power_pos (suc d) = omega (arith, pow-suc 10 d, power_pos d)

parse_formatted :
    (n d : ℕ) → d ≤ 36 → parse_human_min_settlement_to_atomic (format_integer (pos n) d) d ≡ ok n
parse_formatted n zero h =
    unfold format_integer in
    parse-digits (print_number n) 0 (print_number_digits n).0 (print_number_digits n).1 h
    ∙ ap ok (omega (arith, decimal-print_number n))
parse_formatted n (suc d) h =
    rw (format_suc n d) (elim (Bool-cases (is_empty (fraction (suc d) (n % 10 ^ suc d)))) [
      | inl e ↦ rw e (
          parse-digits w (suc d) digits.0 digits.1 h
          ∙ ap ok (
              omega (
                arith,
                decimal-print_number (n / 10 ^ suc d),
                div-add-mod' n (10 ^ suc d),
                fraction_empty d _ small e,
                ap (λ (t : ℕ). t * 10 ^ suc d) (decimal-print_number (n / 10 ^ suc d)),
              )))
      | inr e ↦ rw e (
          parse_dotted w _ d digits.0 digits.1 (digits-fraction (suc d) _)
            (fraction_not_zeros (suc d) _ e) (length-fraction d _ small) h
          ∙ ap ok (
              omega (
                arith,
                decimal-fraction d (n % 10 ^ suc d) small,
                div-add-mod' n (10 ^ suc d),
                ap (λ (t : ℕ). t * 10 ^ suc d) (decimal-print_number (n / 10 ^ suc d)),
              )))
    ])
  where
    w : Text
    w = print_number (n / 10 ^ suc d)

    digits : (are_digits w ≡ true) × (is_empty w ≡ false)
    digits = print_number_digits (n / 10 ^ suc d)

    small : n % 10 ^ suc d < 10 ^ suc d
    small = mod-lt n (power_pos (suc d))

-- For every amount `n` and every number of decimals up to 36, the settlement parser reads the text
-- that the ledger prints for `n` back as `n`.
pub format-parse :
    (n d : ℕ)
    → d ≤ 36
    → parse_human_min_settlement_to_atomic (format_atomic_amount_string (print_number n) d) d ≡ ok n
unfolding format_atomic_amount_string
format-parse n d h =
    rw
      (
        big_int-digits (print_number n) (print_number_digits n).0 (print_number_digits n).1,
        format_atomic_amount_string,
        decimal-print_number n,
        min_36 d h,
      )
      (parse_formatted n d h)
  where
    min_36 : (d : ℕ) → d ≤ 36 → min d 36 ≡ d
    min_36 d h = omega arith
