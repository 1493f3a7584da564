-- ===== src/Text/Cut.antt =====
-- Cutting texts: trimming, the parts around the dot, and zeros taken off and put back.
use crypto_gateway_rp.Common.{
  ℕ, suc, ◌≡◌, refl, inl, inr, Bool, true, not, none, some, [], ◌∷◌, ◌++◌, arith, Bool-cases, all,
  is_empty, replicate,
}
use crypto_gateway_rp.Text.{
  Text, is_digit, is_space, is_zero, are_digits, drop_leading, drop_trailing, trim, before_dot,
  after_dot,
}

drop_trailing_none :
    (p : ℕ → Bool) (s : Text) → all (λ c. not (p c)) s ≡ true → drop_trailing p s ≡ s
unfolding drop_trailing
drop_trailing_none p [] h = refl
drop_trailing_none p (c ∷ []) h = ground arith
drop_trailing_none p (c ∷ d ∷ s) h = ground (arith, drop_trailing_none p (d ∷ s))

drop_leading_none : (p : ℕ → Bool) (s : Text) → all (λ c. not (p c)) s ≡ true → drop_leading p s ≡ s
unfolding drop_leading
drop_leading_none p [] h = refl
drop_leading_none p (c ∷ s) h = ground arith

pub trim_none : (s : Text) → all (λ c. not (is_space c)) s ≡ true → trim s ≡ s
unfolding trim
trim_none s h = rw (drop_leading_none is_space s h) (drop_trailing_none is_space s h)

digit-not-space : (c : ℕ) → is_digit c ≡ true → not (is_space c) ≡ true
digit-not-space c h = ground arith

pub digits-not-space : (s : Text) → are_digits s ≡ true → all (λ c. not (is_space c)) s ≡ true
digits-not-space [] h = refl
digits-not-space (c ∷ s) h = ground (arith, digit-not-space c, digits-not-space s)

pub trim-digits : (s : Text) → are_digits s ≡ true → trim s ≡ s
trim-digits s h = trim_none s (digits-not-space s h)

pub before_dot-digits : (w f : Text) → are_digits w ≡ true → before_dot (w ++ (b'.' ∷ f)) ≡ w
unfolding before_dot
before_dot-digits [] f h = refl
before_dot-digits (c ∷ w) f h = ground (arith, before_dot-digits w f)

pub after_dot-digits : (w f : Text) → are_digits w ≡ true → after_dot (w ++ (b'.' ∷ f)) ≡ some f
unfolding after_dot
after_dot-digits [] f h = refl
after_dot-digits (c ∷ w) f h = ground (arith, after_dot-digits w f)

pub after_dot-none : (w : Text) → are_digits w ≡ true → after_dot w ≡ none
unfolding after_dot
after_dot-none [] h = refl
after_dot-none (c ∷ w) h = ground (arith, after_dot-none w)

pub before_dot_none : (w : Text) → are_digits w ≡ true → before_dot w ≡ w
unfolding before_dot
before_dot_none [] h = refl
before_dot_none (c ∷ w) h = ground (arith, before_dot_none w)

-- What is taken off is a run of zeros.
pub drop_trailing-append : (s : Text) → (k : ℕ) × (drop_trailing is_zero s ++ replicate k b'0' ≡ s)
unfolding drop_trailing
drop_trailing-append [] = (0, refl)
drop_trailing-append (c ∷ s) = cut (drop_trailing is_zero s) refl (drop_trailing-append s)
  where
    cut :
        (r : Text)
        → drop_trailing is_zero s ≡ r
        → (k : ℕ) × (drop_trailing is_zero s ++ replicate k b'0' ≡ s)
        → (k : ℕ) × (drop_trailing is_zero (c ∷ s) ++ replicate k b'0' ≡ c ∷ s)
    cut [] e (k, ih) = elim (Bool-cases (is_zero c)) [
      | inl z ↦ (suc k, ground (arith, ih))
      | inr z ↦ (k, ground (arith, ih))
    ]
    cut (x ∷ r) e (k, ih) = (k, ground (arith, ih))

-- What is left does not consist of zeros.
pub drop_trailing-zeros :
    (s : Text)
    → all is_zero (drop_trailing is_zero s) ≡ true
    → is_empty (drop_trailing is_zero s) ≡ true
unfolding drop_trailing
drop_trailing-zeros [] h = refl
drop_trailing-zeros (c ∷ s) h = ground (arith, drop_trailing-zeros s)

pub digits-drop_trailing :
    (s : Text) → are_digits s ≡ true → are_digits (drop_trailing is_zero s) ≡ true
unfolding drop_trailing
digits-drop_trailing [] h = refl
digits-drop_trailing (c ∷ s) h = ground (arith, digits-drop_trailing s)
