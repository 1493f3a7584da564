-- ===== src/RateLimit/Quota.antt =====
-- The daily quota of the explorer keys.
use crypto_gateway_rp.Common.{
  ◌||◌, ℕ, suc, sym, subst, refl, if_split, if_cases, ◌≤◌, ◌≡◌, Bool, true, ◌&&◌, List, [], ◌∷◌,
  ltb, ◌==◌, if◌then◌else◌, arith,
}
use crypto_gateway_rp.RateLimit.{ExplorerKey, count_successful_request}

-- Successful requests, each with its day and key, counted in turn.
pub count_requests : List (ℕ × ℕ) → ExplorerKey → ExplorerKey
count_requests [] row = row
count_requests ((today, id) ∷ calls) row =
    count_requests calls (count_successful_request today id row)

-- A key whose daily maximum is positive and whose count is within it (which a maximum that was lowered
-- since need not be) never counts more requests than the maximum, whatever requests succeed on
-- whatever days.
pub count_requests-within :
    (calls : List (ℕ × ℕ)) (row : ExplorerKey)
    → 1 ≤ row.max_requests_per_day
    → row.requests_today ≤ row.max_requests_per_day
    → (count_requests calls row).requests_today ≤ row.max_requests_per_day
unfolding count_requests count_successful_request
count_requests-within [] row one h = h
count_requests-within ((today, id) ∷ calls) row one h =
    subst (λ m. (count_requests calls next).requests_today ≤ m) same
      (count_requests-within calls next (subst (λ m. 1 ≤ m) (sym same) one)
        (subst (λ m. next.requests_today ≤ m) (sym same) within))
  where
    counted : Bool
    counted =
        row.id == id
        && row.is_active
        && (ltb row.usage_day_utc today || ltb row.requests_today row.max_requests_per_day)

    next : ExplorerKey
    next = count_successful_request today id row

    same : next.max_requests_per_day ≡ row.max_requests_per_day
    same =
        if_cases (λ (r : ExplorerKey). r.max_requests_per_day ≡ row.max_requests_per_day) counted
          refl refl

    bump :
        (a b u : Bool) (n m : ℕ)
        → (a && b && (u || ltb n m)) ≡ true
        → 1 ≤ m
        → n ≤ m
        → (if u then 1 else suc n) ≤ m
    bump a b u n m e one h = ground arith

    within : next.requests_today ≤ row.max_requests_per_day
    within =
        if_split (λ (r : ExplorerKey). r.requests_today ≤ row.max_requests_per_day) counted
          (λ e.
            bump (row.id == id) row.is_active (ltb row.usage_day_utc today) row.requests_today
              row.max_requests_per_day e one h)
          (λ e. h)
