-- ===== src/Store/Queries.antt =====
-- `updateMany`, `findFirst` with `orderBy: [{ createdAt: "desc" }, { id: "desc" }]`, and their laws.
use crypto_gateway_rp.Common.{
  leb, ℕ, ◌≡◌, refl, subst, inl, inr, Bool, true, false, ◌&&◌, ◌||◌, Option, none, some, List, [],
  ◌∷◌, ltb, ◌==◌, if◌then◌else◌, arith, All, All-mono, Bool-cases, length, filter,
}
use mathlib.Core.Option.{some-injective}
use crypto_gateway_rp.Store.{Transaction}

module _ {ℓ} {A : Type ℓ} where
  unfoldable pub update_where : (A → Bool) → (A → A) → List A → List A
  update_where p f [] = []
  update_where p f (x ∷ xs) = (if p x then f x else x) ∷ update_where p f xs

  abbrev pub count_where : (A → Bool) → List A → ℕ
  count_where p xs = length (filter p xs)

  -- What holds of each row and is kept by the change holds of each row afterwards.
  pub update_where-All {κ} :
      (P : A → Type κ) (p : A → Bool) (f : A → A)
      → ((x : A) → P x → p x ≡ true → P (f x))
      → (xs : List A) → All P xs
      → All P (update_where p f xs)
  unfolding update_where
  update_where-All P p f keep [] h = h
  update_where-All P p f keep (x ∷ xs) h = (
    elim (Bool-cases (p x)) [ inl e ↦ rw e (keep x h.0 e) | inr e ↦ rw e h.0 ],
    update_where-All P p f keep xs h.1,
  )

-- `a` comes before `b` in descending order of creation, the larger id first where times agree.
abbrev pub is_newer : Transaction → Transaction → Bool
is_newer a b = ltb b.created_at a.created_at || b.created_at == a.created_at && ltb b.id a.id

abbrev pub newer : Transaction → Option Transaction → Transaction
newer a none = a
newer a (some b) = if is_newer b a then b else a

unfoldable pub newest : (Transaction → Bool) → List Transaction → Option Transaction
newest p [] = none
newest p (x ∷ xs) = let rest = newest p xs in if p x then some (newer x rest) else rest

-- `orderBy: { createdAt: "asc" }`, rows of one time in table order.
unfoldable pub insert_oldest : Transaction → List Transaction → List Transaction
insert_oldest t [] = t ∷ []
insert_oldest t (u ∷ us) =
    let rest = insert_oldest t us in if leb t.created_at u.created_at then t ∷ u ∷ us else u ∷ rest

unfoldable pub oldest_first : List Transaction → List Transaction
unfolding insert_oldest
oldest_first [] = []
oldest_first (t ∷ ts) = insert_oldest t (oldest_first ts)

-- `orderBy: { field: "asc" }` on any table, stable.
module _ {A : Type 0} (field : A → ℕ) where
  unfoldable pub insert_by : A → List A → List A
  insert_by a [] = a ∷ []
  insert_by a (b ∷ bs) =
      let rest = insert_by a bs in if leb (field a) (field b) then a ∷ b ∷ bs else b ∷ rest

  unfoldable pub sort_by : List A → List A
  unfolding insert_by
  sort_by [] = []
  sort_by (a ∷ rest) = insert_by a (sort_by rest)

is_newer_irrefl : (a : Transaction) → is_newer a a ≡ false
is_newer_irrefl a = irrefl a.created_at a.id
  where
    irrefl : (c i : ℕ) → (ltb c c || c == c && ltb i i) ≡ false
    irrefl c i = ground arith

is_newer_asymm : (a b : Transaction) → is_newer a b ≡ true → is_newer b a ≡ false
is_newer_asymm a b h = asymm a.created_at a.id b.created_at b.id h
  where
    asymm :
        (c i d j : ℕ)
        → (ltb d c || d == c && ltb j i) ≡ true
        → (ltb c d || c == d && ltb i j) ≡ false
    asymm c i d j h = ground arith

newer-is_newer : (a : Transaction) (r : Option Transaction) → is_newer a (newer a r) ≡ false
newer-is_newer a none = is_newer_irrefl a
newer-is_newer a (some b) = elim (Bool-cases (is_newer b a)) [
  | inl e ↦ rw e (is_newer_asymm b a e)
  | inr e ↦ rw e (is_newer_irrefl a)
]

newer-is_newer_right : (a b : Transaction) → is_newer b (newer a (some b)) ≡ false
newer-is_newer_right a b = elim (Bool-cases (is_newer b a)) [
  | inl e ↦ rw e (is_newer_irrefl b)
  | inr e ↦ rw e e
]

-- The row satisfies the filter.
pub newest-satisfies :
    (p : Transaction → Bool) (xs : List Transaction) {t : Transaction}
    → newest p xs ≡ some t
    → p t ≡ true
unfolding newest
newest-satisfies p [] h = cc
newest-satisfies p (x ∷ xs) {t} h = elim (Bool-cases (p x)) [
  | inl e ↦ first_row (newest p xs) (λ u. newest-satisfies p xs {t = u}) e (rw e at h)
  | inr e ↦ newest-satisfies p xs (rw e at h)
]
  where
    first_row :
        (r : Option Transaction)
        → ((u : Transaction) → r ≡ some u → p u ≡ true)
        → p x ≡ true
        → some (newer x r) ≡ some t
        → p t ≡ true
    first_row none ih e k = cc
    first_row (some y) ih e k = elim (Bool-cases (is_newer y x)) [
      | inl n ↦ let k' : some y ≡ some t = rw n at k in cc (ih y refl)
      | inr n ↦ let k' : some x ≡ some t = rw n at k in cc
    ]

not_newer_trans :
    (a b c : Transaction) → is_newer a b ≡ false → is_newer b c ≡ false → is_newer a c ≡ false
not_newer_trans a b c h k = trans a.created_at a.id b.created_at b.id c.created_at c.id h k
  where
    trans :
        (s i t j u k : ℕ)
        → (ltb t s || t == s && ltb j i) ≡ false
        → (ltb u t || u == t && ltb k j) ≡ false
        → (ltb u s || u == s && ltb k i) ≡ false
    trans s i t j u k p q = ground arith

abbrev pub NoneNewer : (Transaction → Bool) → Transaction → List Transaction → Type 0
NoneNewer p t xs = All (λ u. p u ≡ true → is_newer u t ≡ false) xs

NoneNewer-trans :
    (p : Transaction → Bool) (s t : Transaction) (xs : List Transaction)
    → is_newer s t ≡ false
    → NoneNewer p s xs
    → NoneNewer p t xs
NoneNewer-trans p s t xs h = All-mono (λ u k e. not_newer_trans u s t (k e) h) xs

NoneNewer-none :
    (p : Transaction → Bool) (t : Transaction) (xs : List Transaction)
    → newest p xs ≡ none
    → NoneNewer p t xs
unfolding newest
NoneNewer-none p t [] h = tt
NoneNewer-none p t (x ∷ xs) h = elim (Bool-cases (p x)) [
  | inl e ↦ cc (rw e at h)
  | inr e ↦ (λ k. cc, NoneNewer-none p t xs (rw e at h))
]

-- No row that satisfies the filter is newer than the one that the query returns.
pub newest-NoneNewer :
    (p : Transaction → Bool) (xs : List Transaction) {t : Transaction}
    → newest p xs ≡ some t
    → NoneNewer p t xs
unfolding newest
newest-NoneNewer p [] h = tt
newest-NoneNewer p (x ∷ xs) {t} h = elim (Bool-cases (p x)) [
  | inl e ↦ taken (newest p xs) refl (λ u. newest-NoneNewer p xs {t = u}) (rw e at h)
  | inr e ↦ (λ k. cc, newest-NoneNewer p xs (rw e at h))
]
  where
    taken :
        (r : Option Transaction)
        → newest p xs ≡ r
        → ((u : Transaction) → newest p xs ≡ some u → NoneNewer p u xs)
        → some (newer x r) ≡ some t
        → (p x ≡ true → is_newer x t ≡ false) × NoneNewer p t xs
    taken none n ih k =
        subst (λ u. (p x ≡ true → is_newer x u ≡ false) × NoneNewer p u xs) (some-injective _ _ k)
          (λ e. newer-is_newer x none, NoneNewer-none p x xs n)
    taken (some y) n ih k =
        subst (λ u. (p x ≡ true → is_newer x u ≡ false) × NoneNewer p u xs) (some-injective _ _ k)
          (
            λ e. newer-is_newer x (some y),
            NoneNewer-trans p y (newer x (some y)) xs (newer-is_newer_right x y) (ih y n),
          )
