-- ===== src/Amount/Parse.antt =====
-- What parseHumanMinSettlementToAtomic makes of well-formed texts.
use Prim.Native.Nat.{min}
use crypto_gateway_rp.Common.{
  ℕ, zero, suc, ◌+◌, ◌-◌, ◌*◌, ◌^◌, ◌≤◌, ◌≡◌, refl, sym, ap, ◌∙◌, inl, inr, true, false, not, [],
  ◌∷◌, ◌++◌, arith, Bool-cases, length, all, is_empty, take, all-append,
}
use crypto_gateway_rp.Text.{
  Text, is_zero, is_space, are_digits, decimal, decimal_from, codes, pad_end,
}
use crypto_gateway_rp.Text.Cut.{
  trim_none, digits-not-space, before_dot-digits, after_dot-digits, after_dot-none, before_dot_none,
}
use crypto_gateway_rp.Text.Decimal.{decimal-replicate}
use crypto_gateway_rp.Amount.{
  ok, is_blank_human, is_human_amount, strip_zeros, whole_text, human_parts,
  parse_human_min_settlement_to_atomic,
}

pub decimal-strip_zeros : (w : Text) → decimal (strip_zeros w) ≡ decimal w
unfolding strip_zeros decimal
decimal-strip_zeros [] = refl
decimal-strip_zeros (c ∷ []) = unfold decimal_from in ground arith
decimal-strip_zeros (c ∷ d ∷ w) = unfold decimal_from in ground (arith, decimal-strip_zeros (d ∷ w))

pub decimal-whole_text : (w : Text) → decimal (whole_text w) ≡ decimal w
unfolding whole_text
decimal-whole_text w = elim (Bool-cases (is_empty (strip_zeros w))) [
  | inl e ↦ rw e (sym (nothing (strip_zeros w) e) ∙ decimal-strip_zeros w)
  | inr e ↦ rw e (decimal-strip_zeros w)
]
  where
    nothing : (s : Text) → is_empty s ≡ true → decimal s ≡ decimal (codes "0")
    nothing [] e = unfold decimal decimal_from in refl
    nothing (c ∷ s) e = cc

pub take_all : (n : ℕ) (s : Text) → length s ≤ n → take n s ≡ s
take_all zero [] h = refl
take_all zero (c ∷ s) h = elim h [ ]
take_all (suc n) [] h = refl
take_all (suc n) (c ∷ s) h = ap (◌∷◌ c) (take_all n s (omega arith))

pub digits_no_blank :
    (w : Text) → are_digits w ≡ true → is_empty w ≡ false → is_blank_human w ≡ false
digits_no_blank [] h k = cc
digits_no_blank (c ∷ []) h k = ground arith
digits_no_blank (c ∷ d ∷ w) h k = ground arith

pub is_human_amount-digits :
    (w : Text) → are_digits w ≡ true → is_empty w ≡ false → is_human_amount w ≡ true
unfolding is_human_amount
is_human_amount-digits w h k = rw (after_dot-none w h, is_human_amount) (ground arith)

pub human_parts-digits :
    (w f : Text) (d : ℕ)
    → are_digits w ≡ true
    → are_digits f ≡ true
    → human_parts w f (suc d)
      ≡ ok (decimal w * 10 ^ suc d + decimal (pad_end (suc d) (take (suc d) f)))
unfolding human_parts
human_parts-digits w f d h g = ground (arith, decimal-whole_text w)

pub human_parts_whole :
    (w : Text) (d : ℕ) → are_digits w ≡ true → human_parts w [] d ≡ ok (decimal w * 10 ^ d)
human_parts_whole w zero h = unfold human_parts in ground (arith, decimal-whole_text w)
human_parts_whole w (suc d) h =
    human_parts-digits w [] d h refl ∙ rw (unpadded d) (ap ok (omega arith))
  where
    unpadded : (d : ℕ) → decimal (pad_end (suc d) []) ≡ 0
    unpadded d = unfold pad_end in decimal-replicate (suc d - 0)

-- A text of digits is a whole number of tokens.
pub parse-digits :
    (w : Text) (d : ℕ)
    → are_digits w ≡ true
    → is_empty w ≡ false
    → d ≤ 36
    → parse_human_min_settlement_to_atomic w d ≡ ok (decimal w * 10 ^ d)
unfolding parse_human_min_settlement_to_atomic
parse-digits w d h k b =
    rw
      (
        trim_none w (digits-not-space w h),
        digits_no_blank w h k,
        is_human_amount-digits w h k,
        before_dot_none w h,
        after_dot-none w h,
        min_36 d b,
      )
      (human_parts_whole w d h)
  where
    min_36 : (d : ℕ) → d ≤ 36 → min 36 d ≡ d
    min_36 d b = omega arith

pub dotted_no_blank :
    (w f : Text)
    → are_digits w ≡ true
    → is_empty w ≡ false
    → all is_zero f ≡ false
    → is_blank_human (w ++ (b'.' ∷ f)) ≡ false
dotted_no_blank [] f h k z = cc
dotted_no_blank (c ∷ []) f h k z = ground arith
dotted_no_blank (c ∷ d ∷ w) f h k z = ground arith

pub dotted-not-space :
    (w f : Text)
    → are_digits w ≡ true
    → are_digits f ≡ true
    → all (λ c. not (is_space c)) (w ++ (b'.' ∷ f)) ≡ true
dotted-not-space w f h g = all-append _ w (b'.' ∷ f) (digits-not-space w h) (digits-not-space f g)

pub is_human_amount_dotted :
    (w f : Text)
    → are_digits w ≡ true
    → is_empty w ≡ false
    → are_digits f ≡ true
    → is_human_amount (w ++ (b'.' ∷ f)) ≡ true
unfolding is_human_amount
is_human_amount_dotted w f h k g =
    rw (after_dot-digits w f h, is_human_amount) (rw (before_dot-digits w f h) (ground arith))

pub parse_dotted :
    (w f : Text) (d : ℕ)
    → are_digits w ≡ true
    → is_empty w ≡ false
    → are_digits f ≡ true
    → all is_zero f ≡ false
    → length f ≤ suc d
    → suc d ≤ 36
    → parse_human_min_settlement_to_atomic (w ++ (b'.' ∷ f)) (suc d)
      ≡ ok (decimal w * 10 ^ suc d + decimal (pad_end (suc d) f))
unfolding parse_human_min_settlement_to_atomic
parse_dotted w f d h k g z l b =
    rw
      (
        trim_none _ (dotted-not-space w f h g),
        dotted_no_blank w f h k z,
        is_human_amount_dotted w f h k g,
        before_dot-digits w f h,
        after_dot-digits w f h,
        min_36 (suc d) b,
      )
      (human_parts-digits w f d h g ∙ rw (take_all (suc d) f l))
  where
    min_36 : (d : ℕ) → d ≤ 36 → min 36 d ≡ d
    min_36 d b = omega arith
