-- ===== src/Text/Decimal.antt =====
-- Decimal digits: printing a number and reading it back.
use native.Mathlib.Nat.{pow-suc}
use crypto_gateway_rp.Common.{
  ℕ, zero, suc, ◌+◌, ◌-◌, ◌*◌, ◌/◌, ◌%◌, ◌^◌, ◌≤◌, ◌<◌, ◌≡◌, refl, ◌∙◌, true, false, some, [], ◌∷◌,
  ◌++◌, pos, arith, length, is_empty, replicate, length-append, length-replicate,
}
use crypto_gateway_rp.Text.{
  Text, starts_with, is_digit, are_digits, decimal, decimal_from, print_from, print_number,
  pad_start, signed_text, big_int,
}
use crypto_gateway_rp.Text.Cut.{trim-digits}

pub decimal_from-append :
    (acc : ℕ) (s t : Text) → decimal_from acc (s ++ t) ≡ decimal_from (decimal_from acc s) t
unfolding decimal_from
decimal_from-append acc [] t = refl
decimal_from-append acc (c ∷ s) t = decimal_from-append (acc * 10 + (c - b'0')) s t

-- Enough rounds write the digits of `n` in front of the rest.
decimal_from-print_from :
    (fuel n : ℕ) (rest : Text)
    → n < fuel
    → decimal_from 0 (print_from fuel n rest) ≡ decimal_from n rest
unfolding decimal_from print_from
decimal_from-print_from zero n rest h = elim h [ ]
decimal_from-print_from (suc fuel) n rest h =
    ground (arith, decimal_from-print_from fuel (n / 10) ((n % 10 + b'0') ∷ rest))

digits-print_from :
    (fuel n : ℕ) (rest : Text)
    → n < fuel
    → (are_digits (print_from fuel n rest) ≡ are_digits rest)
      × (is_empty (print_from fuel n rest) ≡ false)
unfolding print_from
digits-print_from zero n rest h = elim h [ ]
digits-print_from (suc fuel) n rest h =
    ground (arith, digits-print_from fuel (n / 10) ((n % 10 + b'0') ∷ rest))

length-print_from :
    (d fuel n : ℕ) (rest : Text)
    → n < fuel
    → n < 10 ^ suc d
    → length (print_from fuel n rest) ≤ suc d + length rest
unfolding print_from
length-print_from d zero n rest h k = elim h [ ]
length-print_from zero (suc fuel) n rest h k = ground arith
length-print_from (suc d) (suc fuel) n rest h k =
    ground (arith, pow-suc 10 (suc d), length-print_from d fuel (n / 10) ((n % 10 + b'0') ∷ rest))

pub decimal-print_number : (n : ℕ) → decimal (print_number n) ≡ n
unfolding decimal print_number
decimal-print_number n =
    decimal_from-print_from (suc n) n [] (omega arith) ∙ unfold decimal_from in refl

pub print_number_digits :
    (n : ℕ) → (are_digits (print_number n) ≡ true) × (is_empty (print_number n) ≡ false)
unfolding print_number
print_number_digits n = digits-print_from (suc n) n [] (omega arith)

pub length-print_number : (d n : ℕ) → n < 10 ^ suc d → length (print_number n) ≤ suc d
unfolding print_number
length-print_number d n h = omega (arith, length-print_from d (suc n) n [] (omega arith) h)

decimal_from-zeros : (k : ℕ) (s : Text) → decimal_from 0 (replicate k b'0' ++ s) ≡ decimal_from 0 s
unfolding decimal_from
decimal_from-zeros zero s = refl
decimal_from-zeros (suc k) s = decimal_from-zeros k s

pub decimal-pad_start : (w : ℕ) (s : Text) → decimal (pad_start w s) ≡ decimal s
unfolding decimal pad_start
decimal-pad_start w s = decimal_from-zeros (w - length s) s

pub length-pad_start : (w : ℕ) (s : Text) → length s ≤ w → length (pad_start w s) ≡ w
unfolding pad_start
length-pad_start w s h = omega (
  arith,
  length-append {A = ℕ} (replicate (w - length s) b'0') s,
  length-replicate {A = ℕ} (w - length s) b'0',
)

not_radix :
    (s : Text) (c : ℕ)
    → are_digits s ≡ true
    → is_digit c ≡ false
    → starts_with (b'0' ∷ c ∷ []) s ≡ false
not_radix [] c h k = refl
not_radix (x ∷ []) c h k = ground arith
not_radix (x ∷ y ∷ ys) c h k = ground arith

signed_text-digits :
    (s : Text) → are_digits s ≡ true → is_empty s ≡ false → signed_text s ≡ some (pos (decimal s))
unfolding signed_text
signed_text-digits [] h k = cc
signed_text-digits (c ∷ s) h k = ground arith

-- BigInt reads a text of digits as the number that it denotes.
pub big_int-digits :
    (s : Text) → are_digits s ≡ true → is_empty s ≡ false → big_int s ≡ some (pos (decimal s))
unfolding big_int
big_int-digits s h k = rw (trim-digits s h) (
    ground (
      arith,
      not_radix s b'x' h refl,
      not_radix s b'X' h refl,
      not_radix s b'o' h refl,
      not_radix s b'O' h refl,
      not_radix s b'b' h refl,
      not_radix s b'B' h refl,
      signed_text-digits s h k,
    ))

pub decimal-replicate : (k : ℕ) → decimal (replicate k b'0') ≡ 0
unfolding decimal decimal_from
decimal-replicate zero = refl
decimal-replicate (suc k) = decimal-replicate k

pub decimal-append_zeros : (s : Text) (k : ℕ) → decimal s ≡ 0 → decimal (s ++ replicate k b'0') ≡ 0
unfolding decimal
decimal-append_zeros s k h =
    decimal_from-append 0 s (replicate k b'0') ∙ rw h (unfold decimal in decimal-replicate k)
