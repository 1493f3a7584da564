-- ===== src/Pool/Release.antt =====
-- The end of holds: releaseExpiredPoolHolds of cron/src/services/wallet-pool/wallet-pool-release.js.
use crypto_gateway_rp.Common.{
  ℕ, ◌<◌, ◌≤◌, ◌≡◌, ◌⊎◌, refl, if_split, if◌then◌else◌, Bool, true, false, ◌&&◌, Option, none, some,
  List, [], ◌∷◌, ltb, is_some, arith, inl, inr, Bool-cases,
}
use crypto_gateway_rp.Store.{Wallet, Store, is_active}
use crypto_gateway_rp.Store.Queries.{update_where, update_where-All, count_where}
use crypto_gateway_rp.Store.Counts.{count-update_same}
use crypto_gateway_rp.Pool.{has_wallet_id, is_assigned_at}
use crypto_gateway_rp.Pool.Exclusive.{IsExclusive, is_of}

abbrev is_before : ℕ → Option ℕ → Bool
is_before now none = false
is_before now (some t) = ltb t now

abbrev pub is_expired_hold : ℕ → Wallet → Bool
is_expired_hold now w =
    is_some w.assigned_user_id && is_before now w.hold_expires_at && is_active w.deleted_at

abbrev pub without_hold : Wallet → Wallet
without_hold w = record w {
  hold_expires_at = none;
  scan_expires_at = none;
  deposit_scan_single_tick_requested = false;
}

-- The number of rows that are changed, and the tables after it.
unfoldable pub release_expired_pool_holds : ℕ → Store → ℕ × Store
release_expired_pool_holds now store = (
  count_where (is_expired_hold now) store.wallets,
  record store { wallets = update_where (is_expired_hold now) without_hold store.wallets },
)

ended : (now : ℕ) (w : Wallet) → is_expired_hold now (without_hold w) ≡ false
ended now w = ground arith

none_left :
    (now : ℕ) (ws : List Wallet)
    → count_where (is_expired_hold now) (update_where (is_expired_hold now) without_hold ws) ≡ 0
unfolding update_where
none_left now [] = refl
none_left now (w ∷ ws) = elim (Bool-cases (is_expired_hold now w)) [
  | inl e ↦ rw (e, ended now w) (none_left now ws)
  | inr e ↦ rw (e, e) (none_left now ws)
]

-- What the release makes of a wallet: a hold of a payer that is past ends, and any other wallet stays.
pub data Ends (now : ℕ) (w after : Wallet) : Type 0 where
  expired :
      (user hold : ℕ)
      → w.assigned_user_id ≡ some user
      → w.hold_expires_at ≡ some hold
      → hold < now
      → w.deleted_at ≡ none
      → after ≡ record w {
        hold_expires_at = none;
        scan_expires_at = none;
        deposit_scan_single_tick_requested = false;
      }
      → Ends now w after
  held : (hold : ℕ) → w.hold_expires_at ≡ some hold → now ≤ hold → after ≡ w → Ends now w after
  not_held : w.hold_expires_at ≡ none → after ≡ w → Ends now w after
  unassigned : w.assigned_user_id ≡ none → after ≡ w → Ends now w after
  deleted : (at_time : ℕ) → w.deleted_at ≡ some at_time → after ≡ w → Ends now w after

expired_facts :
    (now : ℕ) (user hold removal : Option ℕ)
    → (is_some user && is_before now hold && is_active removal) ≡ true
    → (u : ℕ) × (h : ℕ) × (user ≡ some u) × (hold ≡ some h) × (h < now) × (removal ≡ none)
expired_facts now none hold removal e = cc
expired_facts now (some u) none removal e = cc
expired_facts now (some u) (some h) none e = (u, h, refl, refl, ground (arith, e), refl)
expired_facts now (some u) (some h) (some g) e = absurd (ground (arith, e))

kept_facts :
    (now : ℕ) (user hold removal : Option ℕ)
    → (is_some user && is_before now hold && is_active removal) ≡ false
    → (user ≡ none)
      ⊎ ((hold ≡ none) ⊎ (((h : ℕ) × (hold ≡ some h) × (now ≤ h)) ⊎ ((g : ℕ) × (removal ≡ some g))))
kept_facts now none hold removal e = inl refl
kept_facts now (some u) none removal e = inr (inl refl)
kept_facts now (some u) (some h) none e = inr (inr (inl (h, refl, ground (arith, e))))
kept_facts now (some u) (some h) (some g) e = inr (inr (inr (g, refl)))

released-Ends :
    (now : ℕ) (w : Wallet) → Ends now w (if is_expired_hold now w then without_hold w else w)
released-Ends now w =
    if_split (Ends now w) (is_expired_hold now w)
      (λ e.
        let (u, h, assigned, hold, past, active) =
          expired_facts now w.assigned_user_id w.hold_expires_at w.deleted_at e in
        expired u h assigned hold past active refl)
      (λ e. elim (kept_facts now w.assigned_user_id w.hold_expires_at w.deleted_at e) [
        | inl a ↦ unassigned a refl
        | inr (inl n) ↦ not_held n refl
        | inr (inr (inl (h, hold, later))) ↦ held h hold later refl
        | inr (inr (inr (g, removal))) ↦ deleted g removal refl
      ])

-- The lists have one length, and the rows at one place are related.
abbrev pub Each : (Wallet → Wallet → Type 0) → List Wallet → List Wallet → Type 0
Each R [] [] = Unit {0}
Each R [] (y ∷ ys) = ⊥
Each R (x ∷ xs) [] = ⊥
Each R (x ∷ xs) (y ∷ ys) = R x y × Each R xs ys

Each-Ends :
    (now : ℕ) (ws : List Wallet)
    → Each (Ends now) ws (update_where (is_expired_hold now) without_hold ws)
unfolding update_where
Each-Ends now [] = tt
Each-Ends now (w ∷ ws) = (released-Ends now w, Each-Ends now ws)

-- What the release does: it ends the expired holds and nothing else.
pub record Releases (now : ℕ) (store : Store) (result : ℕ × Store) : Type 0 where
  pub rows : Each (Ends now) store.wallets result.1.wallets
  -- A second run at the same time changes no row.
  pub settled : (release_expired_pool_holds now result.1).0 ≡ 0
  -- Every user keeps their wallets.
  pub keeps :
      (id user_id : ℕ)
      → count_where (is_of id user_id) result.1.wallets
        ≡ count_where (is_of id user_id) store.wallets
  pub exclusive : IsExclusive result.1.next_wallet_id result.1.wallets

-- On a table of unique ids below the sequence, where each address of a chain and environment is assigned
-- at most once, the release at a time keeps this and every user's wallets, and it changes the active
-- wallets that are assigned and whose hold ended before that time: these lose the hold, the scan and the
-- single scan that was asked for. Every other wallet stays as it is, and a second run at the same time
-- changes no row.
pub release_expired_pool_holds-Releases :
    (now : ℕ) (store : Store)
    → IsExclusive store.next_wallet_id store.wallets
    → Releases now store (release_expired_pool_holds now store)
unfolding release_expired_pool_holds
release_expired_pool_holds-Releases now store h = record {
  rows = Each-Ends now store.wallets;
  settled = none_left now store.wallets;
  keeps = λ id user_id.
      count-update_same (is_expired_hold now) without_hold (is_of id user_id) (λ x. refl)
        store.wallets;
  exclusive = record {
    one_per_id = λ i. omega (
      arith,
      h.one_per_id i,
      count-update_same (is_expired_hold now) without_hold (has_wallet_id i) (λ x. refl)
          store.wallets,
    );
    below =
        update_where-All (λ (x : Wallet). x.id < store.next_wallet_id) (is_expired_hold now)
          without_hold (λ x k e. k) store.wallets h.below;
    one_assigned = λ env chain address. omega (
      arith,
      h.one_assigned env chain address,
      count-update_same (is_expired_hold now) without_hold (is_assigned_at env chain address)
          (λ x. refl) store.wallets,
    );
  };
}
