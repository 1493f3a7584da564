-- ===== src/Pool/Exclusive.antt =====
-- What the assignment of wallets keeps, and which row a search of the pool answers.
use crypto_gateway_rp.Common.{
  ℕ, ◌≤◌, ◌<◌, ◌≡◌, Bool, true, ◌&&◌, some, List, [], ◌∷◌, ◌==◌, filter, inl, All,
}
use mathlib.Core.Option.{some-injective}
use crypto_gateway_rp.Text.{Text}
use crypto_gateway_rp.Store.{is_active, Chain, GatewayEnv, Wallet}
use crypto_gateway_rp.Store.Queries.{count_where}
use crypto_gateway_rp.Store.Members.{Has-sort_by, Has-filter}
use crypto_gateway_rp.Store.Counts.{Has}
use crypto_gateway_rp.Pool.{
  PickArgs, Picked, has_wallet_id, is_users, is_assigned_at, is_free, first_of, free_pool_wallet,
}

first-Has : {A : Type 0} (xs : List A) (t : A) → first_of xs ≡ some t → Has t xs
first-Has [] t h = cc h
first-Has (x ∷ xs) t h = inl (some-injective _ _ h)

-- A wallet that is taken from the pool stands in the table, and is free.
pub free_pool_wallet-Has :
    (p : PickArgs) (wallets : List Wallet) (w : Wallet)
    → free_pool_wallet p wallets ≡ some w
    → Has w wallets × (is_free p wallets w ≡ true)
unfolding free_pool_wallet
free_pool_wallet-Has p wallets w h = Has-filter (is_free p wallets) wallets w (
    Has-sort_by (λ (x : Wallet). x.created_at) (filter (is_free p wallets) wallets) w
      (first-Has _ w h))

-- Unique ids below the sequence, and each address assigned at most once.
pub record IsExclusive (next : ℕ) (wallets : List Wallet) : Type 0 where
  pub one_per_id : (i : ℕ) → count_where (has_wallet_id i) wallets ≤ 1
  pub below : All (λ (w : Wallet). w.id < next) wallets
  pub one_assigned :
      (env : GatewayEnv) (chain : Chain) (address : Text)
      → count_where (is_assigned_at env chain address) wallets ≤ 1

-- The wallet `id` is assigned to the user.
abbrev pub is_of : ℕ → ℕ → Wallet → Bool
is_of id user_id w = w.id == id && is_users user_id w.assigned_user_id

-- The table stays exclusive, nobody loses a wallet, and the wallet that is answered is an active row of
-- the table, and the user's.
pub record Assigns (p : PickArgs) (wallets : List Wallet) (picked : Picked) : Type 0 where
  pub exclusive : IsExclusive picked.next_wallet_id picked.wallets
  pub keeps :
      (id user_id : ℕ)
      → count_where (is_of id user_id) wallets ≤ count_where (is_of id user_id) picked.wallets
  pub users : is_users p.user_id picked.wallet.assigned_user_id ≡ true
  pub stored : Has picked.wallet picked.wallets
  pub active : is_active picked.wallet.deleted_at ≡ true
