-- ===== src/RateLimit/Lease.antt =====
-- The choice of an explorer key for one call.
use crypto_gateway_rp.Common.{
  ℕ, ◌≤◌, ◌≡◌, refl, sym, ap, subst, ◌∙◌, none, List, [], ◌∷◌, ltb, leb, ◌==◌, ==_iff,
  if◌then◌else◌, filter, length, arith, All, All-mono, Bool-cases, inl, inr,
}
use crypto_gateway_rp.RateLimit.{
  ExplorerKey, is_recent, try_take_per_second_slot, set_stamps, first_free_key,
}

-- Before the attempt, the key's stamps of the last second reach its limit, which is at least 1.
abbrev pub AtLimit : ℕ → (ℕ → List ℕ) → ExplorerKey → Type 0
AtLimit now stamps row =
    (row.max_requests_per_second ≤ length (filter (is_recent now) (stamps row.id)))
    × (1 ≤ length (filter (is_recent now) (stamps row.id)))

filter-recent :
    (now : ℕ) (xs : List ℕ)
    → filter (is_recent now) (filter (is_recent now) xs) ≡ filter (is_recent now) xs
filter-recent now [] = refl
filter-recent now (x ∷ xs) = elim (Bool-cases (is_recent now x)) [
  | inl e ↦ rw (e, e) (ap (λ ys. x ∷ ys) (filter-recent now xs))
  | inr e ↦ rw e (filter-recent now xs)
]

set_stamps-recent :
    (now : ℕ) (stamps : ℕ → List ℕ) (id j : ℕ)
    → filter (is_recent now) (set_stamps stamps id (filter (is_recent now) (stamps id)) j)
      ≡ filter (is_recent now) (stamps j)
set_stamps-recent now stamps id j = elim (Bool-cases (j == id)) [
  | inl e ↦
      let same : id ≡ j = sym ((==_iff _ _).0 e) in
      rw e (filter-recent now (stamps id) ∙ ap (λ i. filter (is_recent now) (stamps i)) same)
  | inr e ↦ rw e refl
]

-- When an attempt finds no key, then every key that was offered had as many calls in the last second
-- as it may have.
pub first_free_key-none :
    (now : ℕ) (stamps : ℕ → List ℕ) (rows : List ExplorerKey)
    → (first_free_key now stamps rows).0 ≡ none
    → All (AtLimit now stamps) rows
unfolding first_free_key try_take_per_second_slot
first_free_key-none now stamps [] h = tt
first_free_key-none now stamps (row ∷ rows) h = elim (Bool-cases (leb cap (length recent))) [
  | inl full ↦ (
    ground (arith, full),
    All-mono
        (λ r k.
          subst (λ ys. (r.max_requests_per_second ≤ length ys) × (1 ≤ length ys))
            (set_stamps-recent now stamps row.id r.id) k)
        rows
        (first_free_key-none now (set_stamps stamps row.id recent) rows
          (rw (full, first_free_key) at h)),
  )
  | inr room ↦ cc (rw (room, first_free_key) at h)
]
  where
    recent : List ℕ
    recent = filter (is_recent now) (stamps row.id)

    cap : ℕ
    cap = if ltb row.max_requests_per_second 1 then 1 else row.max_requests_per_second
