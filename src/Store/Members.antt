-- ===== src/Store/Members.antt =====
-- The rows of a sorted and of a filtered table.
use crypto_gateway_rp.Common.{
  ℕ, zero, suc, ◌≡◌, refl, sym, subst, Bool, true, false, List, [], ◌∷◌, reverse, filter, find,
  some, take, leb, inl, inr, ◌⊎◌, Bool-cases, All, if◌then◌else◌,
}
use mathlib.Core.List.{reverse_aux}
use crypto_gateway_rp.Store.{Transaction}
use crypto_gateway_rp.Store.Queries.{insert_by, sort_by, insert_oldest, oldest_first, update_where}
use crypto_gateway_rp.Store.Counts.{Has}

module _ {A : Type 0} (field : A → ℕ) where
  Has-insert_by : (a : A) (bs : List A) (t : A) → Has t (insert_by field a bs) → (a ≡ t) ⊎ Has t bs
  unfolding insert_by
  Has-insert_by a [] t h = h
  Has-insert_by a (b ∷ bs) t h = elim (Bool-cases (leb (field a) (field b))) [
    | inl e ↦ rw e at h
    | inr e ↦ below (Has-insert_by a bs t) (rw e at h)
  ]
    where
      below :
          (Has t (insert_by field a bs) → (a ≡ t) ⊎ Has t bs)
          → (b ≡ t) ⊎ Has t (insert_by field a bs)
          → (a ≡ t) ⊎ ((b ≡ t) ⊎ Has t bs)
      below ih (inl q) = inr (inl q)
      below ih (inr m) = elim (ih m) [ inl q ↦ inl q | inr n ↦ inr (inr n) ]

  -- A row of the sorted table is one of the table.
  pub Has-sort_by : (xs : List A) (t : A) → Has t (sort_by field xs) → Has t xs
  unfolding sort_by
  Has-sort_by [] t h = h
  Has-sort_by (x ∷ xs) t h = elim (Has-insert_by x (sort_by field xs) t h) [
    | inl q ↦ inl q
    | inr m ↦ inr (Has-sort_by xs t m)
  ]

-- A row of the filtered table is one of the table, and satisfies the filter.
pub Has-filter :
    {A : Type 0} (p : A → Bool) (xs : List A) (t : A)
    → Has t (filter p xs)
    → Has t xs × (p t ≡ true)
Has-filter p [] t h = absurd h
Has-filter p (x ∷ xs) t h = elim (Bool-cases (p x)) [
  | inl e ↦ kept e (Has-filter p xs t) (rw e at h)
  | inr e ↦ let (m, k) = Has-filter p xs t (rw e at h) in (inr m, k)
]
  where
    kept :
        p x ≡ true
        → (Has t (filter p xs) → Has t xs × (p t ≡ true))
        → (x ≡ t) ⊎ Has t (filter p xs)
        → ((x ≡ t) ⊎ Has t xs) × (p t ≡ true)
    kept e ih (inl q) = (inl q, subst (λ u. p u ≡ true) q e)
    kept e ih (inr m) = let (n, k) = ih m in (inr n, k)

-- What holds of each row holds of a row of the table.
pub All-Has : {A : Type 0} (P : A → Type 0) (xs : List A) (t : A) → Has t xs → All P xs → P t
All-Has P [] t m h = absurd m
All-Has P (x ∷ xs) t (inl q) h = subst P q h.0
All-Has P (x ∷ xs) t (inr m) h = All-Has P xs t m h.1

-- A row that the update does not select stays, and a row that it selects is there changed.
pub Has-update_where :
    {A : Type 0} (p : A → Bool) (f : A → A) (xs : List A) (t : A)
    → Has t xs
    → p t ≡ true
    → Has (f t) (update_where p f xs)
unfolding update_where
Has-update_where p f [] t m h = absurd m
Has-update_where p f (x ∷ xs) t (inl q) h =
    inl (subst (λ u. (if p u then f u else u) ≡ f t) (sym q) (rw h refl))
Has-update_where p f (x ∷ xs) t (inr m) h = inr (Has-update_where p f xs t m h)

module _ {A : Type 0} where
  Has-reverse_aux : (xs ys : List A) (t : A) → Has t (reverse_aux xs ys) → Has t xs ⊎ Has t ys
  Has-reverse_aux [] ys t m = inr m
  Has-reverse_aux (x ∷ xs) ys t m = elim (Has-reverse_aux xs (x ∷ ys) t m) [
    | inl n ↦ inl (inr n)
    | inr (inl q) ↦ inl (inl q)
    | inr (inr n) ↦ inr n
  ]

  pub Has-reverse : (xs : List A) (t : A) → Has t (reverse xs) → Has t xs
  Has-reverse xs t m = elim (Has-reverse_aux xs [] t m) [ inl n ↦ n | inr z ↦ absurd z ]

  pub Has-take : (n : ℕ) (xs : List A) (t : A) → Has t (take n xs) → Has t xs
  Has-take zero xs t m = absurd m
  Has-take (suc n) [] t m = m
  Has-take (suc n) (x ∷ xs) t (inl q) = inl q
  Has-take (suc n) (x ∷ xs) t (inr m) = inr (Has-take n xs t m)

Has-insert_oldest :
    (a : Transaction) (bs : List Transaction) (t : Transaction)
    → Has t (insert_oldest a bs)
    → (a ≡ t) ⊎ Has t bs
unfolding insert_oldest
Has-insert_oldest a [] t h = h
Has-insert_oldest a (b ∷ bs) t h = elim (Bool-cases (leb a.created_at b.created_at)) [
  | inl e ↦ rw e at h
  | inr e ↦ below (Has-insert_oldest a bs t) (rw e at h)
]
  where
    below :
        (Has t (insert_oldest a bs) → (a ≡ t) ⊎ Has t bs)
        → (b ≡ t) ⊎ Has t (insert_oldest a bs)
        → (a ≡ t) ⊎ ((b ≡ t) ⊎ Has t bs)
    below ih (inl q) = inr (inl q)
    below ih (inr m) = elim (ih m) [ inl q ↦ inl q | inr n ↦ inr (inr n) ]

pub Has-oldest_first :
    (xs : List Transaction) (t : Transaction) → Has t (oldest_first xs) → Has t xs
unfolding oldest_first
Has-oldest_first [] t h = h
Has-oldest_first (x ∷ xs) t h = elim (Has-insert_oldest x (oldest_first xs) t h) [
  | inl q ↦ inl q
  | inr m ↦ inr (Has-oldest_first xs t m)
]

pub find-some :
    {A : Type 0} (q : A → Bool) (xs : List A) (t : A)
    → Has t xs
    → q t ≡ true
    → (u : A) × (find q xs ≡ some u)
find-some q [] t m h = absurd m
find-some q (x ∷ xs) t m h = elim (Bool-cases (q x)) [
  | inl e ↦ (x, rw e refl)
  | inr e ↦ elim m [
    | inl same ↦ absurd (cc (subst (λ u. q u ≡ false) same e))
    | inr n ↦ let (u, k) = find-some q xs t n h in (u, rw e k)
  ]
]
