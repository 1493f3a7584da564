-- ===== src/Expiry/Batch.antt =====
-- The batch of the expiry job: it is taken from the stale rows, and empty only when there are none.
use crypto_gateway_rp.Common.{
  ℕ, zero, suc, ◌+◌, ◌≤◌, ◌≡◌, refl, sym, ap, subst, ◌∙◌, ◌⊎◌, inl, inr, Bool, true, false, List,
  [], ◌∷◌, leb, length, filter, take, arith, Bool-cases,
}
use crypto_gateway_rp.Store.{Transaction}
use crypto_gateway_rp.Store.Queries.{insert_oldest, oldest_first, update_where, count_where}
use crypto_gateway_rp.Store.Counts.{Has}

-- Rows that an update takes out of a filter are no longer counted by it.
pub count-update_out :
    (p q : Transaction → Bool) (f : Transaction → Transaction)
    → ((t : Transaction) → p t ≡ true → q t ≡ true)
    → ((t : Transaction) → q (f t) ≡ false)
    → (xs : List Transaction)
    → count_where q (update_where p f xs) + count_where p xs ≤ count_where q xs
unfolding update_where
count-update_out p q f inside out [] = omega arith
count-update_out p q f inside out (x ∷ xs) =
    ground (arith, inside x, out x, count-update_out p q f inside out xs)

pub Has-count :
    (p : Transaction → Bool) (t : Transaction) (xs : List Transaction)
    → Has t xs
    → p t ≡ true
    → 1 ≤ count_where p xs
Has-count p t [] m h = elim m [ ]
Has-count p t (x ∷ xs) (inl e) h = rw (subst (λ u. p u ≡ true) (sym e) h) (omega arith)
Has-count p t (x ∷ xs) (inr m) h = ground (arith, Has-count p t xs m h)

pub Has-filter :
    (p : Transaction → Bool) (t : Transaction) (xs : List Transaction)
    → Has t (filter p xs)
    → Has t xs × (p t ≡ true)
Has-filter p t [] h = elim h [ ]
Has-filter p t (x ∷ xs) h = elim (Bool-cases (p x)) [
  | inl e ↦ elim (rw e at h) [
    | inl same ↦ (inl same, subst (λ u. p u ≡ true) same e)
    | inr m ↦ let (k, q) = Has-filter p t xs m in (inr k, q)
  ]
  | inr e ↦ let (k, q) = Has-filter p t xs (rw e at h) in (inr k, q)
]

pub Has-insert :
    (r t : Transaction) (xs : List Transaction) → Has r (insert_oldest t xs) → (t ≡ r) ⊎ Has r xs
unfolding insert_oldest
Has-insert r t [] h = h
Has-insert r t (x ∷ xs) h = elim (Bool-cases (leb t.created_at x.created_at)) [
  | inl e ↦ rw e at h
  | inr e ↦ elim (rw e at h) [
    | inl same ↦ inr (inl same)
    | inr m ↦ elim (Has-insert r t xs m) [ inl same ↦ inl same | inr k ↦ inr (inr k) ]
  ]
]

pub Has-oldest_first :
    (r : Transaction) (xs : List Transaction) → Has r (oldest_first xs) → Has r xs
unfolding oldest_first
Has-oldest_first r [] h = h
Has-oldest_first r (x ∷ xs) h = elim (Has-insert r x (oldest_first xs) h) [
  | inl same ↦ inl same
  | inr m ↦ inr (Has-oldest_first r xs m)
]

pub length-insert :
    (t : Transaction) (xs : List Transaction) → length (insert_oldest t xs) ≡ suc (length xs)
unfolding insert_oldest
length-insert t [] = refl
length-insert t (x ∷ xs) = ground (arith, length-insert t xs)

pub length-oldest_first : (xs : List Transaction) → length (oldest_first xs) ≡ length xs
unfolding oldest_first
length-oldest_first [] = refl
length-oldest_first (x ∷ xs) = length-insert x (oldest_first xs) ∙ ap suc (length-oldest_first xs)

pub take_head :
    (n : ℕ) (xs : List Transaction) {r : Transaction} {rest : List Transaction}
    → take n xs ≡ (r ∷ rest)
    → Has r xs
take_head zero xs e = cc e
take_head (suc n) [] e = cc e
take_head (suc n) (x ∷ xs) {r} e = inl (ap (λ ys. elim ys [ [] ↦ r | y ∷ _ ↦ y ]) e)

pub take_empty : (n : ℕ) (xs : List Transaction) → take (suc n) xs ≡ [] → length xs ≡ 0
take_empty n [] e = refl
take_empty n (x ∷ xs) e = cc e
