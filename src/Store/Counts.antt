-- ===== src/Store/Counts.antt =====
-- How many rows satisfy a filter, before and after an update; at most one of them is a key.
use crypto_gateway_rp.Common.{
  any, Bool-cases, inl, inr, ◌+◌, ◌≤◌, ◌≡◌, refl, subst, sym, ◌⊎◌, inl, inr, Bool, true, false,
  Option, none, some, List, [], ◌∷◌, arith, All, All-mono, Bool-cases, find,
}
use mathlib.Core.Option.{some-injective}
use crypto_gateway_rp.Store.{Transaction}
use crypto_gateway_rp.Store.Queries.{update_where, count_where, newest, newer, is_newer}

module _ {ℓ} {A : Type ℓ} (p : A → Bool) (f : A → A) (q : A → Bool) where
  pub count-update_same :
      ((x : A) → q (f x) ≡ q x)
      → (xs : List A) → count_where q (update_where p f xs) ≡ count_where q xs
  unfolding update_where
  count-update_same h [] = refl
  count-update_same h (x ∷ xs) = ground (arith, h x, count-update_same h xs)

  pub any-update_same :
      ((x : A) → q (f x) ≡ q x) → (xs : List A) → any q (update_where p f xs) ≡ any q xs
  unfolding update_where
  any-update_same h [] = refl
  any-update_same h (x ∷ xs) = ground (arith, h x, any-update_same h xs)

  pub count-update-le :
      (xs : List A) → count_where q (update_where p f xs) ≤ count_where q xs + count_where p xs
  unfolding update_where
  count-update-le [] = omega arith
  count-update-le (x ∷ xs) = ground (arith, count-update-le xs)

  pub count-update_drop :
      (xs : List A)
      → All (λ x. p x ≡ true → q (f x) ≡ false) xs
      → count_where q (update_where p f xs) ≤ count_where q xs
  unfolding update_where
  count-update_drop [] h = omega arith
  count-update_drop (x ∷ xs) h = ground (arith, h.0, count-update_drop xs h.1)

  -- An update that brings no row into the filter does not raise their number.
  pub count-update_none_new :
      ((x : A) → p x ≡ true → q (f x) ≡ true → q x ≡ true)
      → (xs : List A) → count_where q (update_where p f xs) ≤ count_where q xs
  unfolding update_where
  count-update_none_new h [] = omega arith
  count-update_none_new h (x ∷ xs) = ground (arith, h x, count-update_none_new h xs)

  -- An update of rows that stay in the filter keeps their number.
  pub count-update-ge :
      (xs : List A)
      → All (λ x. p x ≡ true → q x ≡ true → q (f x) ≡ true) xs
      → count_where q xs ≤ count_where q (update_where p f xs)
  unfolding update_where
  count-update-ge [] h = omega arith
  count-update-ge (x ∷ xs) h = ground (arith, h.0, count-update-ge xs h.1)

module _ {ℓ} {A : Type ℓ} (p : A → Bool) where
  pub count-any-none : (xs : List A) → any p xs ≡ false → count_where p xs ≡ 0
  count-any-none [] h = refl
  count-any-none (x ∷ xs) h = ground (arith, h, count-any-none xs)

  -- A new row that is in the filter only where no other is.
  pub count-insert-le :
      (x : A) (xs : List A)
      → (p x ≡ true → any p xs ≡ false)
      → count_where p xs ≤ 1
      → count_where p (x ∷ xs) ≤ 1
  count-insert-le x xs alone h = elim (Bool-cases (p x)) [
    | inl e ↦ rw e (omega (arith, count-any-none xs (alone e)))
    | inr e ↦ rw e h
  ]

  pub count-find-none : (xs : List A) → find p xs ≡ none → count_where p xs ≡ 0
  count-find-none [] h = refl
  count-find-none (x ∷ xs) h = ground (arith, count-find-none xs)

  pub count_zero : (xs : List A) → count_where p xs ≡ 0 → All (λ x. p x ≡ false) xs
  count_zero [] h = tt
  count_zero (x ∷ xs) h = elim (Bool-cases (p x)) [
    | inl e ↦ absurd (ground arith)
    | inr e ↦ (e, count_zero xs (ground arith))
  ]

module _ {ℓ} {A : Type ℓ} (p : A → Bool) where
  pub any-none-All : (xs : List A) → any p xs ≡ false → All (λ x. p x ≡ false) xs
  any-none-All xs h = count_zero p xs (count-any-none p xs h)

  pub any_none : (xs : List A) → All (λ x. p x ≡ false) xs → any p xs ≡ false
  any_none [] h = refl
  any_none (x ∷ xs) h = ground (arith, h.0, any_none xs h.1)

  pub count_none : (xs : List A) → All (λ x. p x ≡ false) xs → count_where p xs ≡ 0
  count_none [] h = refl
  count_none (x ∷ xs) h = ground (arith, h.0, count_none xs h.1)

-- Some row has the property.
abbrev pub Any : {A : Type 0} → (A → Type 0) → List A → Type 0
Any P [] = ⊥
Any P (x ∷ xs) = P x ⊎ Any P xs

-- `t` is a row of the table.
abbrev pub Has : {A : Type 0} → A → List A → Type 0
Has t = Any (λ x. x ≡ t)

pub find-Has :
    {A : Type 0} (p : A → Bool) (xs : List A) {t : A} → find p xs ≡ some t → Has t xs × (p t ≡ true)
find-Has p [] h = cc
find-Has p (x ∷ xs) {t} h = elim (Bool-cases (p x)) [
  | inl e ↦
      let k : some x ≡ some t = rw e at h in
      let q : x ≡ t = some-injective _ _ k in (inl q, subst (λ u. p u ≡ true) q e)
  | inr e ↦ let (m, k) = find-Has p xs {t = t} (rw e at h) in (inr m, k)
]

pub newest-Has :
    (p : Transaction → Bool) (xs : List Transaction) {t : Transaction}
    → newest p xs ≡ some t
    → Has t xs
unfolding newest
newest-Has p [] h = cc
newest-Has p (x ∷ xs) {t} h = elim (Bool-cases (p x)) [
  | inl e ↦ taken (newest p xs) (λ u. newest-Has p xs {t = u}) (rw e at h)
  | inr e ↦ inr (newest-Has p xs (rw e at h))
]
  where
    taken :
        (r : Option Transaction)
        → ((u : Transaction) → r ≡ some u → Has u xs)
        → some (newer x r) ≡ some t
        → (x ≡ t) ⊎ Has t xs
    taken none ih k = inl (some-injective _ _ k)
    taken (some y) ih k = elim (Bool-cases (is_newer y x)) [
      | inl n ↦
          let k' : some y ≡ some t = rw n at k in
          inr (subst (λ u. Has u xs) (some-injective _ _ k') (ih y refl))
      | inr n ↦ let k' : some x ≡ some t = rw n at k in inl (some-injective _ _ k')
    ]

-- Where at most one row satisfies the filter, it is the row that is known to.
pub unique_row :
    {A : Type 0} (p : A → Bool) (t : A) (xs : List A)
    → Has t xs
    → p t ≡ true
    → count_where p xs ≤ 1
    → All (λ u. p u ≡ true → u ≡ t) xs
unique_row {A} p t [] m e h = tt
unique_row {A} p t (x ∷ xs) (inl q) e h =
    let hit : p x ≡ true = subst (λ u. p u ≡ true) (sym q) e in
    (λ k. q, All-mono (λ u miss k. cc) xs (count_zero p xs (ground arith)))
unique_row {A} p t (x ∷ xs) (inr m) e h = elim (Bool-cases (p x)) [
  | inl hit ↦ absurd (nowhere xs m (count_zero p xs (ground arith)))
  | inr miss ↦ (λ k. cc, unique_row p t xs m e (ground arith))
]
  where
    nowhere : (ys : List A) → Has t ys → All (λ y. p y ≡ false) ys → ⊥
    nowhere [] h k = h
    nowhere (y ∷ ys) (inl q) k = cc (subst (λ u. p u ≡ false) q k.0)
    nowhere (y ∷ ys) (inr h) k = nowhere ys h k.1
