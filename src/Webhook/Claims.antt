-- ===== src/Webhook/Claims.antt =====
-- The requests that were sent for a transaction, and the claim of one more.
use crypto_gateway_rp.Common.{
  ℕ, ◌+◌, zero, suc, ◌≤◌, ◌≡◌, refl, sym, subst, Bool, true, false, ◌&&◌, ◌||◌, Option, none, some,
  List, [], ◌∷◌, ◌==◌, ltb, length, arith, All, All-mono, inl, inr, Bool-cases, if◌then◌else◌,
  is_none,
}
use crypto_gateway_rp.Store.{TxStatus, Transaction, eq_status, is_active}
use crypto_gateway_rp.Store.Queries.{update_where, count_where}
use crypto_gateway_rp.Store.Counts.{Has, unique_row}
use crypto_gateway_rp.Webhook.{claims, interval_elapsed, count_attempt}
use crypto_gateway_rp.Deposit.Unique.{has_id}

-- The times of the requests that were sent for a transaction, the last one first.
abbrev pub posts_of : ℕ → List (ℕ × ℕ) → List ℕ
posts_of i [] = []
posts_of i ((id, sent_at) ∷ rest) = let ts = posts_of i rest in if id == i then sent_at ∷ ts else ts

-- The time is at least a minute after the last of those before.
abbrev pub Later : ℕ → List ℕ → Type 0
Later now [] = Unit {0}
Later now (t ∷ ts) = t + 60_000 ≤ now

abbrev pub Spaced : List ℕ → Type 0
Spaced [] = Unit {0}
Spaced (t ∷ ts) = Later t ts × Spaced ts

pub record IsPaced (ts : List ℕ) : Type 0 where
  pub at_most_five : length ts ≤ 5
  pub spaced : Spaced ts

-- The last of the requests is no later than the row's last attempt.
abbrev pub Reached : List ℕ → Option ℕ → Type 0
Reached [] last = Unit {0}
Reached (t ∷ ts) none = ⊥
Reached (t ∷ ts) (some l) = t ≤ l

-- The row counts the requests.
pub record Counts (ts : List ℕ) (t : Transaction) : Type 0 where
  pub counted : length ts ≤ t.callback_attempt_count
  pub reached : Reached ts t.callback_last_attempt_at

abbrev pub CountsRow : ℕ → List ℕ → Transaction → Type 0
CountsRow i ts t = has_id i t ≡ true → Counts ts t

pub same_id :
    (i : ℕ) (status : TxStatus) (now : ℕ) (t : Transaction)
    → claims status now i t ≡ true
    → has_id i t ≡ true
same_id i status now t h = first _ _ h
  where
    first : (a b : Bool) → (a && b) ≡ true → a ≡ true
    first a b h = ground arith

-- A row that can be claimed allows one more request now.
pub claim-IsPaced :
    (ts : List ℕ) (i : ℕ) (status : TxStatus) (now : ℕ) (t : Transaction)
    → claims status now i t ≡ true
    → Counts ts t
    → IsPaced ts
    → IsPaced (now ∷ ts)
claim-IsPaced ts i status now t h c p = record {
  at_most_five =
      bound (is_active t.deleted_at) (eq_status t.status status) (is_none t.callback_delivered_at)
        t.callback_attempt_count _ (claimable _ _ h) c.counted;
  spaced = (
    later ts t.callback_attempt_count t.callback_last_attempt_at c.counted c.reached (
        gap (is_active t.deleted_at) (eq_status t.status status) (is_none t.callback_delivered_at)
          (ltb t.callback_attempt_count 5) _ (claimable _ _ h)),
    p.spaced,
  );
}
  where
    claimable : (a b : Bool) → (a && b) ≡ true → b ≡ true
    claimable a b h = ground arith

    bound :
        (b c d : Bool) (n : ℕ) (e : Bool) {m : ℕ}
        → (b && c && d && ltb n 5 && e) ≡ true
        → m ≤ n
        → suc m ≤ 5
    bound b c d n e h k = ground (arith, h, k)

    gap : (b c d e f : Bool) → (b && c && d && e && f) ≡ true → f ≡ true
    gap b c d e f h = ground arith

    later :
        (us : List ℕ) (n : ℕ) (last : Option ℕ)
        → length us ≤ n
        → Reached us last
        → (n == 0 || interval_elapsed now last) ≡ true
        → Later now us
    later [] n last le r e = tt
    later (u ∷ us) n none le r e = absurd r
    later (u ∷ us) zero (some l) le r e = absurd (omega (arith, le))
    later (u ∷ us) (suc n) (some l) le r e = ground (arith, r, e)

-- Some row is claimed, where the claim changes a row.
pub some_claimed :
    (p : Transaction → Bool) (xs : List Transaction)
    → (count_where p xs == 0) ≡ false
    → (t : Transaction) × Has t xs × (p t ≡ true)
some_claimed p [] h = cc
some_claimed p (x ∷ xs) h = elim (Bool-cases (p x)) [
  | inl e ↦ (x, inl refl, e)
  | inr e ↦ let (t, m, k) = some_claimed p xs (rw e at h) in (t, inr m, k)
]

-- and it is the only one of its id.
pub claims_of_id :
    (i : ℕ) (status : TxStatus) (now : ℕ) (xs : List Transaction)
    → count_where (has_id i) xs ≤ 1
    → (count_where (claims status now i) xs == 0) ≡ false
    → All (λ t. has_id i t ≡ true → claims status now i t ≡ true) xs
claims_of_id i status now xs alone h =
    let (t, m, k) = some_claimed (claims status now i) xs h in
    All-mono (λ u same e. subst (λ v. claims status now i v ≡ true) (sym (same e)) k) xs
      (unique_row (has_id i) t xs m (same_id i status now t k) alone)

pub claimed_rows :
    (i : ℕ) (status : TxStatus) (now : ℕ) (ts : List ℕ) (xs : List Transaction)
    → All (λ t. has_id i t ≡ true → claims status now i t ≡ true) xs
    → All (CountsRow i ts) xs
    → All (CountsRow i (now ∷ ts)) (update_where (claims status now i) (count_attempt now) xs)
unfolding update_where
claimed_rows i status now ts [] c h = tt
claimed_rows i status now ts (x ∷ xs) c h = (
  elim (Bool-cases (claims status now i x)) [
    | inl e ↦ rw e (λ k. record { counted = omega (arith, (h.0 k).counted); reached = omega arith })
    | inr e ↦ rw e (λ k. absurd (clash (c.0 k) e))
  ],
  claimed_rows i status now ts xs c.1 h.1,
)
  where
    clash : {b : Bool} → b ≡ true → b ≡ false → ⊥
    clash h k = cc
