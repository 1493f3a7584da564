-- ===== src/Pool/Served.antt =====
-- A payer is served from the wallets that there are, where one of them will do.
use crypto_gateway_rp.Common.{
  ℕ, ◌≤◌, ◌≡◌, ◌⊎◌, refl, subst, arith, All, All-mono, none, Bool, true, false, ◌||◌, some, List,
  [], ◌∷◌, leb, filter, find, inl, inr, Bool-cases, Option-cases,
}
use mathlib.Core.Option.{some-injective}
use crypto_gateway_rp.Store.{Wallet, Store}
use crypto_gateway_rp.Store.Queries.{insert_by, sort_by}
use crypto_gateway_rp.Store.Members.{All-Has, Has-filter, Has-sort_by}
use crypto_gateway_rp.Store.Counts.{Has, find-Has}
use crypto_gateway_rp.Pool.{
  PoolConfig, PickArgs, Picked, is_dedicated, is_free, first_of, taken, held_again,
  free_pool_wallet, try_pick_free_pool_wallet, picks, pick_wallet,
}

module _ (field : Wallet → ℕ) where
  insert_by-least :
      (x t : Wallet) (l : List Wallet)
      → first_of l ≡ some t
      → ((first_of (insert_by field x l) ≡ some x) × (field x ≤ field t))
        ⊎ ((first_of (insert_by field x l) ≡ some t) × (field t ≤ field x))
  unfolding insert_by
  insert_by-least x t [] e = cc
  insert_by-least x t (b ∷ bs) e =
      let same : b ≡ t = some-injective _ _ e in
      elim (Bool-cases (leb (field x) (field b))) [
        | inl h ↦
            inl (rw (insert_by, h) refl, subst (λ u. field x ≤ field u) same (ground (arith, h)))
        | inr h ↦ inr (rw (insert_by, h) e, subst (λ u. field u ≤ field x) same (ground (arith, h)))
      ]

  -- The first of the sorted rows is a least one, if there is a row.
  sort_by-least :
      (xs : List Wallet)
      → ((P : Wallet → Type 0) → All P xs)
        ⊎ ((t : Wallet) × (first_of (sort_by field xs) ≡ some t) × All (λ u. field t ≤ field u) xs)
  unfolding sort_by
  sort_by-least [] = inl (λ P. tt)
  sort_by-least (x ∷ xs) = elim (sort_by-least xs) [
    | inl empty ↦ inr (x, alone xs empty, (omega arith, empty _))
    | inr (t, e, h) ↦ elim (insert_by-least x t (sort_by field xs) e) [
      | inl (k, le) ↦ inr (x, k, (omega arith, All-mono (λ u m. omega (arith, le, m)) xs h))
      | inr (k, le) ↦ inr (t, k, (le, h))
    ]
  ]
    where
      alone :
          (ys : List Wallet)
          → ((P : Wallet → Type 0) → All P ys)
          → first_of (insert_by field x (sort_by field ys)) ≡ some x
      alone [] h = refl
      alone (y ∷ ys) h = absurd (h (λ u. ⊥)).0

All-filter :
    (q : Wallet → Bool) (P : Wallet → Type 0) (ws : List Wallet)
    → All P (filter q ws)
    → All (λ u. q u ≡ true → P u) ws
All-filter q P [] h = tt
All-filter q P (w ∷ ws) h = elim (Bool-cases (q w)) [
  | inl e ↦ let k : P w × All P (filter q ws) = rw e at h in (λ z. k.0, All-filter q P ws k.1)
  | inr e ↦ (λ k. cc, All-filter q P ws (rw e at h))
]

first_of-Has : (ws : List Wallet) (t : Wallet) → first_of ws ≡ some t → Has t ws
first_of-Has [] t e = cc
first_of-Has (w ∷ ws) t e = inl (some-injective _ _ e)

find-none-All :
    (q : Wallet → Bool) (ws : List Wallet) → find q ws ≡ none → All (λ u. q u ≡ false) ws
find-none-All q [] h = tt
find-none-All q (w ∷ ws) h = elim (Bool-cases (q w)) [
  | inl e ↦ cc (rw e at h)
  | inr e ↦ (e, find-none-All q ws (rw e at h))
]

-- Which wallet is answered: the payer's own, or where there is none, a free one that is least by its time
-- of creation.
pub data Serves (p : PickArgs) (store : Store) (q : Picked) : Type 0 where
  own :
      (w : Wallet)
      → Has w store.wallets
      → is_dedicated p w ≡ true
      → q.wallet
        ≡ record w { hold_expires_at = some p.hold_until; scan_expires_at = some p.scan_at }
      → Serves p store q
  oldest_free :
      (w : Wallet)
      → All (λ u. is_dedicated p u ≡ false) store.wallets
      → Has w store.wallets
      → is_free p store.wallets w ≡ true
      → All (λ u. is_free p store.wallets u ≡ true → w.created_at ≤ u.created_at) store.wallets
      → q.wallet ≡ record w {
        assigned_user_id = some p.user_id;
        hold_expires_at = some p.hold_until;
        scan_expires_at = some p.scan_at;
      }
      → Serves p store q

try_pick_free_pool_wallet-Serves :
    (p : PickArgs) (store : Store) (w : Wallet)
    → All (λ u. is_dedicated p u ≡ false) store.wallets
    → Has w store.wallets
    → is_free p store.wallets w ≡ true
    → (q : Picked) × (try_pick_free_pool_wallet p store ≡ some q)
      × (q.next_wallet_id ≡ store.next_wallet_id)
      × Serves p store q
unfolding try_pick_free_pool_wallet free_pool_wallet
try_pick_free_pool_wallet-Serves p store w others m h =
    elim (sort_by-least (λ (x : Wallet). x.created_at) (filter is_open store.wallets)) [
      | inl empty ↦ absurd (
          All-Has (λ u. is_open u ≡ true → ⊥) store.wallets w m
            (All-filter is_open (λ u. ⊥) store.wallets (empty (λ u. ⊥))) h)
      | inr (t, e, least) ↦
          let (here, free) = Has-filter is_open store.wallets t (
            Has-sort_by (λ (x : Wallet). x.created_at) (filter is_open store.wallets) t
              (first_of-Has _ t e)) in
          (
            taken p store t,
            rw (try_pick_free_pool_wallet, free_pool_wallet, e) refl,
            refl,
            oldest_free t others here free
                (All-filter is_open (λ u. t.created_at ≤ u.created_at) store.wallets least) refl,
          )
    ]
  where
    is_open : Wallet → Bool
    is_open = is_free p store.wallets

-- Where the payer has a wallet on the rail, or a wallet of it is free, a wallet is picked and no new one is
-- made: it is one of the payer's own, and where the payer has none, a free one that no other free wallet
-- is older than. Its hold and its scan end when they were asked to.
pub pick_wallet-Serves :
    (cfg : PoolConfig) (p : PickArgs) (store : Store) (w : Wallet)
    → Has w store.wallets
    → (is_dedicated p w || is_free p store.wallets w) ≡ true
    → (q : Picked) × (pick_wallet cfg p store ≡ picks q)
      × (q.next_wallet_id ≡ store.next_wallet_id)
      × Serves p store q
unfolding pick_wallet
pick_wallet-Serves cfg p store w m h = elim (Option-cases (find (is_dedicated p) store.wallets)) [
  | inr (d, e) ↦
      let (here, mine) = find-Has (is_dedicated p) store.wallets {t = d} e in
      (held_again p store d, rw (pick_wallet, e) refl, refl, own d here mine refl)
  | inl e ↦
      let others = find-none-All (is_dedicated p) store.wallets e in
      let free : is_free p store.wallets w ≡ true =
        second _ _ h (All-Has (λ u. is_dedicated p u ≡ false) store.wallets w m others) in
      let (q, k, n, served) = try_pick_free_pool_wallet-Serves p store w others m free in
      (q, rw (pick_wallet, e, k) refl, n, served)
]
  where
    second : (a b : Bool) → (a || b) ≡ true → a ≡ false → b ≡ true
    second a b h k = ground arith
