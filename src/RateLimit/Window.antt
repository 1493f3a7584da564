-- ===== src/RateLimit/Window.antt =====
-- The rolling second of the limiters, over any sequence of iterations on one key or rail.
use crypto_gateway_rp.Common.{
  ℕ, ap, subst, inl, inr, length-filter-le, ◌+◌, ◌≤◌, ◌≡◌, refl, Bool, true, false, List, [], ◌∷◌,
  ◌++◌, ltb, if◌then◌else◌, if_split, ltb→lt, length, filter, arith, Bool-cases,
}
use crypto_gateway_rp.Store.Queries.{count_where}
use crypto_gateway_rp.RateLimit.{is_recent, Attempt, granted, sleeps, wait_for_slot, wait_ms}

-- The clock does not go back.
abbrev pub Ordered : ℕ → List ℕ → Type 0
Ordered from [] = Unit {0}
Ordered from (t ∷ ts) = (from ≤ t) × Ordered t ts

-- The stored stamps, and all grants so far, the newest first.
pub record Slots : Type 0 where
  pub stamps : List ℕ
  pub grants : List ℕ

after_attempt : ℕ → Slots → Attempt → Slots
after_attempt now s (granted stamps) = record { stamps = stamps; grants = now ∷ s.grants }
after_attempt now s (sleeps ms) = s

-- The iterations at the given times, whichever callers make them.
pub attempts_at : ℕ → Slots → List ℕ → Slots
unfolding after_attempt
attempts_at max s [] = s
attempts_at max s (now ∷ times) =
    attempts_at max (after_attempt now s (wait_for_slot max now s.stamps)) times

-- Each grant is one of at most `max` in the second that ends with it.
abbrev pub Limited : ℕ → List ℕ → Type 0
Limited max [] = Unit {0}
Limited max (g ∷ gs) = (count_where (is_recent g) (g ∷ gs) ≤ max) × Limited max gs

pub count-recent :
    (now later : ℕ) (xs : List ℕ)
    → now ≤ later
    → count_where (is_recent later) (filter (is_recent now) xs) ≡ count_where (is_recent later) xs
count-recent now later [] h = refl
count-recent now later (x ∷ xs) h = ground (arith, count-recent now later xs h)

pub count-push :
    (p : ℕ → Bool) (xs : List ℕ) (x : ℕ) → count_where p (xs ++ (x ∷ [])) ≡ count_where p (x ∷ xs)
count-push p [] x = refl
count-push p (y ∷ ys) x = ground (arith, count-push p ys x)

-- The stamps count as many grants of the last second as there were.
record IsLimited (max latest : ℕ) (s : Slots) : Type 0 where
  limited : Limited max s.grants
  tracked :
      (now : ℕ)
      → latest ≤ now
      → count_where (is_recent now) s.grants ≡ count_where (is_recent now) s.stamps

attempt-IsLimited :
    (max latest now : ℕ) (s : Slots)
    → latest ≤ now
    → IsLimited max latest s
    → IsLimited max now (after_attempt now s (wait_for_slot max now s.stamps))
unfolding after_attempt wait_for_slot
attempt-IsLimited max latest now s h k =
    if_split (λ a. IsLimited max now (after_attempt now s a))
      (ltb (length (filter (is_recent now) s.stamps)) max)
      (λ room. record {
        limited = (ground (arith, k.tracked now h, ltb→lt _ _ room), k.limited);
        tracked = λ later l. ground (
          arith,
          k.tracked later (omega (arith, h, l)),
          count-push (is_recent later) (filter (is_recent now) s.stamps) now,
          count-recent now later s.stamps l,
        );
      })
      (λ full. record {
        limited = k.limited;
        tracked = λ later l. k.tracked later (omega (arith, h, l));
      })

run-IsLimited :
    (max latest : ℕ) (times : List ℕ) (s : Slots)
    → Ordered latest times
    → IsLimited max latest s
    → Limited max (attempts_at max s times).grants
unfolding attempts_at
run-IsLimited max latest [] s h k = k.limited
run-IsLimited max latest (now ∷ times) s h k =
    run-IsLimited max now times _ h.1 (attempt-IsLimited max latest now s h.0 k)

-- Whatever calls wait on a key, and at whatever times the iterations of their loops run, if the clock
-- does not go back then each granted call is one of at most `max` in the 1000 ms that end with it.
pub attempts_at-Limited :
    (max : ℕ) (times : List ℕ)
    → Ordered 0 times
    → Limited max (attempts_at max (record { stamps = []; grants = [] }) times).grants
attempts_at-Limited max times h =
    run-IsLimited max 0 times _ h (record { limited = tt; tracked = λ now l. refl })

-- A caller that sleeps for the time that an iteration returned is served by its next iteration, when
-- no other caller was served in between and the list held no more than `max` stamps.
pub wait_for_slot-progress :
    (max now later : ℕ) (stamps : List ℕ) (ms : ℕ)
    → 1 ≤ max
    → length stamps ≤ max
    → wait_for_slot max now stamps ≡ sleeps ms
    → now + ms ≤ later
    → wait_for_slot max later stamps ≡ granted (filter (is_recent later) stamps ++ (later ∷ []))
unfolding wait_for_slot
wait_for_slot-progress max now later stamps ms one bound e l =
    rw (served (filter (is_recent now) stamps) refl e) refl
  where
    sleeps_injective : {a b : ℕ} → Attempt.sleeps a ≡ sleeps b → a ≡ b
    sleeps_injective h = ap (λ r. elim r [ granted x ↦ 0 | sleeps a ↦ a ]) h

    expired : (o : ℕ) → wait_ms now (o ∷ []) ≡ ms → is_recent later o ≡ false
    expired o h = ground (arith, h, l)

    crowded :
        (recent : List ℕ)
        → filter (is_recent now) stamps ≡ recent
        → ltb (length recent) max ≡ false
        → wait_ms now recent ≡ ms
        → ltb (length (filter (is_recent later) stamps)) max ≡ true
    crowded [] f full w = ground (arith, one, full)
    crowded (o ∷ recent) f full w =
        let same : count_where (is_recent later) (o ∷ recent)
            ≡ count_where (is_recent later) stamps =
          subst (λ xs. count_where (is_recent later) xs ≡ count_where (is_recent later) stamps) f
            (count-recent now later stamps (omega (arith, l))) in
        let all : length (o ∷ recent) ≤ length stamps =
          subst (λ xs. length xs ≤ length stamps) f (length-filter-le (is_recent now) stamps) in
        ground (arith, bound, same, all, expired o w, length-filter-le (is_recent later) recent)

    served :
        (recent : List ℕ)
        → filter (is_recent now) stamps ≡ recent
        → (if ltb (length recent) max
            then Attempt.granted (recent ++ (now ∷ []))
            else Attempt.sleeps (wait_ms now recent))
          ≡ Attempt.sleeps ms
        → ltb (length (filter (is_recent later) stamps)) max ≡ true
    served recent f w = elim (Bool-cases (ltb (length recent) max)) [
      | inl room ↦ cc (rw room at w)
      | inr full ↦ crowded recent f full (sleeps_injective (rw full at w))
    ]
