-- ===== src/RateLimit/Spacing.antt =====
-- The deposit scanner's limiter: the rolling second and the least gap between grants.
use crypto_gateway_rp.Common.{
  ℕ, ◌+◌, ◌≤◌, ◌≡◌, refl, false, ◌&&◌, List, [], ◌∷◌, ltb, leb, if_split, length, filter,
  length-filter-le, arith,
}
use crypto_gateway_rp.Store.Queries.{count_where}
use crypto_gateway_rp.RateLimit.{
  is_recent, ScannerAttempt, granted, sleeps, wait_for_deposit_scanner_slot, RailState, min_gap_ms,
}
use crypto_gateway_rp.RateLimit.Window.{Limited, count-recent, count-push}

-- Iterations with the two clock readings of each, which do not go back.
abbrev pub OrderedPairs : ℕ → List (ℕ × ℕ) → Type 0
OrderedPairs from [] = Unit {0}
OrderedPairs from ((now, stamp_at) ∷ ts) =
    (from ≤ now) × (now ≤ stamp_at) × OrderedPairs stamp_at ts

pub record RailHistory : Type 0 where
  pub state : RailState
  pub grants : List ℕ

after_scanner_attempt : ℕ → RailHistory → ScannerAttempt → RailHistory
after_scanner_attempt stamp_at s (granted state) = record {
  state = state;
  grants = stamp_at ∷ s.grants;
}
after_scanner_attempt stamp_at s (sleeps ms) = s

pub scanner_attempts_at : ℕ → RailHistory → List (ℕ × ℕ) → RailHistory
unfolding after_scanner_attempt
scanner_attempts_at max s [] = s
scanner_attempts_at max s ((now, stamp_at) ∷ times) =
    scanner_attempts_at max
      (after_scanner_attempt stamp_at s (wait_for_deposit_scanner_slot max now stamp_at s.state))
      times

-- Neighbouring grants, the later one first, are at least `gap` apart; a grant at time 0 does not count,
-- since the source reads it as no grant.
abbrev pub Spaced : ℕ → List ℕ → Type 0
Spaced gap [] = Unit {0}
Spaced gap (g ∷ []) = Unit {0}
Spaced gap (g ∷ h ∷ gs) = (1 ≤ h → h + gap ≤ g) × Spaced gap (h ∷ gs)

LastGrant : ℕ → List ℕ → Type 0
LastGrant last [] = Unit {0}
LastGrant last (g ∷ gs) = last ≡ g

record IsSpaced (max latest : ℕ) (s : RailHistory) : Type 0 where
  limited : Limited max s.grants
  spaced : Spaced (min_gap_ms max) s.grants
  last : LastGrant s.state.last_grant s.grants
  tracked :
      (now : ℕ)
      → latest ≤ now
      → count_where (is_recent now) s.grants ≡ count_where (is_recent now) s.state.stamps

push-Spaced :
    (gap last now stamp_at : ℕ) (grants : List ℕ)
    → now ≤ stamp_at
    → (ltb 0 last && ltb now (last + gap)) ≡ false
    → LastGrant last grants
    → Spaced gap grants
    → Spaced gap (stamp_at ∷ grants)
unfolding LastGrant
push-Spaced gap last now stamp_at [] h e l k = tt
push-Spaced gap last now stamp_at (g ∷ gs) h e l k = (λ one. ground (arith, h, e, l, one), k)

attempt-IsSpaced :
    (max latest now stamp_at : ℕ) (s : RailHistory)
    → latest ≤ now
    → now ≤ stamp_at
    → IsSpaced max latest s
    → IsSpaced max stamp_at
        (after_scanner_attempt stamp_at s (wait_for_deposit_scanner_slot max now stamp_at s.state))
unfolding after_scanner_attempt wait_for_deposit_scanner_slot LastGrant
attempt-IsSpaced max latest now stamp_at s h l k =
    let recent = filter (is_recent now) s.state.stamps in
    let idle : IsSpaced max stamp_at s = record {
      limited = k.limited;
      spaced = k.spaced;
      last = k.last;
      tracked = λ later m. k.tracked later (omega (arith, h, l, m));
    } in
    if_split (λ a. IsSpaced max stamp_at (after_scanner_attempt stamp_at s a))
      (leb max (length recent)) (λ full. idle)
      (λ room.
        if_split (λ a. IsSpaced max stamp_at (after_scanner_attempt stamp_at s a))
          (ltb 0 s.state.last_grant && ltb now (s.state.last_grant + min_gap_ms max))
          (λ close. idle)
          (λ far. record {
            limited = (
              ground (
                arith,
                room,
                k.tracked stamp_at (omega (arith, h, l)),
                count-recent now stamp_at s.state.stamps l,
                length-filter-le (is_recent stamp_at) recent,
              ),
              k.limited,
            );
            spaced =
                push-Spaced (min_gap_ms max) s.state.last_grant now stamp_at s.grants l far k.last
                  k.spaced;
            last = refl;
            tracked = λ later m. ground (
              arith,
              k.tracked later (omega (arith, h, l, m)),
              count-push (is_recent later) recent stamp_at,
              count-recent now later s.state.stamps (omega (arith, l, m)),
            );
          }))

run-IsSpaced :
    (max latest : ℕ) (times : List (ℕ × ℕ)) (s : RailHistory)
    → OrderedPairs latest times
    → IsSpaced max latest s
    → Limited max (scanner_attempts_at max s times).grants
      × Spaced (min_gap_ms max) (scanner_attempts_at max s times).grants
unfolding scanner_attempts_at
run-IsSpaced max latest [] s h k = (k.limited, k.spaced)
run-IsSpaced max latest ((now, stamp_at) ∷ times) s h k =
    run-IsSpaced max stamp_at times _ h.2 (attempt-IsSpaced max latest now stamp_at s h.0 h.1 k)

-- Whatever calls wait on a rail, and at whatever times the iterations of their loops run, if the clock does not go
-- back then each grant is one of at most `max` in the 1000 ms that end with it, and it comes at least
-- the minimum gap after the grant before it (unless that one was at time 0).
pub scanner_attempts_at-Spaced :
    (max : ℕ) (times : List (ℕ × ℕ))
    → OrderedPairs 0 times
    → Limited max
        (scanner_attempts_at max
          (record { state = record { stamps = []; last_grant = 0 }; grants = [] })
          times).grants
      × Spaced
          (min_gap_ms max)
          (scanner_attempts_at max
            (record { state = record { stamps = []; last_grant = 0 }; grants = [] })
            times).grants
unfolding LastGrant
scanner_attempts_at-Spaced max times h =
    run-IsSpaced max 0 times _ h
      (record { limited = tt; spaced = tt; last = tt; tracked = λ now l. refl })
