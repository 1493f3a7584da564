-- ===== src/Auth/Order.antt =====
-- The order of keys, and sorting by it.
use crypto_gateway_rp.Common.{
  ◌≡◌, refl, ap, sym, ◌∙◌, ◌⊎◌, true, false, List, [], ◌∷◌, inl, inr, Bool-cases, arith,
}
use crypto_gateway_rp.Text.{Text, eq_text}
use crypto_gateway_rp.Auth.Json.{lt_text, Part, insert_part}

lt_text_asymm : (a b : Text) → lt_text a b ≡ true → lt_text b a ≡ false
unfolding lt_text
lt_text_asymm [] [] h = refl
lt_text_asymm [] (y ∷ ys) h = refl
lt_text_asymm (x ∷ xs) [] h = cc h
lt_text_asymm (x ∷ xs) (y ∷ ys) h = ground (arith, h, lt_text_asymm xs ys)

lt_text_connex : (a b : Text) → eq_text a b ≡ false → lt_text a b ≡ false → lt_text b a ≡ true
unfolding lt_text
lt_text_connex [] [] h k = cc h
lt_text_connex [] (y ∷ ys) h k = cc k
lt_text_connex (x ∷ xs) [] h k = refl
lt_text_connex (x ∷ xs) (y ∷ ys) h k = ground (arith, h, k, lt_text_connex xs ys)

-- What is below one text and not below another separates them.
lt_text_between : (x a b : Text) → lt_text x a ≡ true → lt_text x b ≡ false → lt_text b a ≡ true
unfolding lt_text
lt_text_between [] [] b h k = cc h
lt_text_between [] (y ∷ ys) [] h k = refl
lt_text_between [] (y ∷ ys) (z ∷ zs) h k = cc k
lt_text_between (x ∷ xs) [] b h k = cc h
lt_text_between (x ∷ xs) (y ∷ ys) [] h k = refl
lt_text_between (x ∷ xs) (y ∷ ys) (z ∷ zs) h k = ground (arith, h, k, lt_text_between xs ys zs)

one_way :
    (a b : Text)
    → eq_text a b ≡ false
    → ((lt_text a b ≡ true) × (lt_text b a ≡ false))
      ⊎ ((lt_text a b ≡ false) × (lt_text b a ≡ true))
one_way a b h = elim (Bool-cases (lt_text a b)) [
  | inl e ↦ inl (e, lt_text_asymm a b e)
  | inr e ↦ inr (e, lt_text_connex a b h e)
]

module _ (a x : Part) (xs : List Part) where
  after : lt_text x.0 a.0 ≡ true → insert_part a (x ∷ xs) ≡ x ∷ insert_part a xs
  unfolding insert_part
  after h = rw h refl

  before : lt_text x.0 a.0 ≡ false → insert_part a (x ∷ xs) ≡ a ∷ x ∷ xs
  unfolding insert_part
  before h = rw h refl

separated :
    (a b x : Part) (xs : List Part)
    → lt_text x.0 a.0 ≡ true
    → lt_text x.0 b.0 ≡ false
    → insert_part a (insert_part b (x ∷ xs)) ≡ insert_part b (insert_part a (x ∷ xs))
separated a b x xs xa xb =
    ap (insert_part a) (before b x xs xb)
    ∙ after a b (x ∷ xs) (lt_text_between x.0 a.0 b.0 xa xb)
    ∙ ap (λ ys. b ∷ ys) (after a x xs xa)
    ∙ sym (ap (insert_part b) (after a x xs xa) ∙ before b x (insert_part a xs) xb)

both_before :
    (a b x : Part) (xs : List Part)
    → lt_text a.0 b.0 ≡ true
    → lt_text b.0 a.0 ≡ false
    → lt_text x.0 a.0 ≡ false
    → lt_text x.0 b.0 ≡ false
    → insert_part a (insert_part b (x ∷ xs)) ≡ insert_part b (insert_part a (x ∷ xs))
both_before a b x xs ab ba xa xb =
    ap (insert_part a) (before b x xs xb)
    ∙ before a b (x ∷ xs) ba
    ∙ sym (
        ap (insert_part b) (before a x xs xa)
        ∙ after b a (x ∷ xs) ab
        ∙ ap (λ ys. a ∷ ys) (before b x xs xb))

-- Parts with different keys are sorted in alike, whichever comes first.
pub insert_part_swap :
    (a b : Part) (xs : List Part)
    → eq_text a.0 b.0 ≡ false
    → insert_part a (insert_part b xs) ≡ insert_part b (insert_part a xs)
unfolding insert_part
insert_part_swap a b [] h = elim (one_way a.0 b.0 h) [
  | inl (e, k) ↦ rw (e, k) refl
  | inr (e, k) ↦ rw (e, k) refl
]
insert_part_swap a b (x ∷ xs) h = elim (Bool-cases (lt_text x.0 a.0)) [
  | inl xa ↦ elim (Bool-cases (lt_text x.0 b.0)) [
    | inl xb ↦
        ap (insert_part a) (after b x xs xb)
        ∙ after a x (insert_part b xs) xa
        ∙ ap (λ ys. x ∷ ys) (insert_part_swap a b xs h)
        ∙ sym (ap (insert_part b) (after a x xs xa) ∙ after b x (insert_part a xs) xb)
    | inr xb ↦ separated a b x xs xa xb
  ]
  | inr xa ↦ elim (Bool-cases (lt_text x.0 b.0)) [
    | inl xb ↦ sym (separated b a x xs xb xa)
    | inr xb ↦ elim (one_way a.0 b.0 h) [
      | inl (e, k) ↦ both_before a b x xs e k xa xb
      | inr (e, k) ↦ sym (both_before b a x xs k e xb xa)
    ]
  ]
]
