-- ===== src/Pool.antt =====
-- The wallet of a payer: cron/src/services/wallet-pool/assign-pooled-wallet.js. It runs in one database
-- transaction, so an error leaves the tables as they were. Addresses are derived by ethers and tronweb.
pub mod Checkout
pub mod Exclusive
pub mod Taken
pub mod Fresh
pub mod Answer
pub mod Served
pub mod Release
use crypto_gateway_rp.Common.{
  ℕ, zero, suc, ◌+◌, ◌*◌, Bool, true, false, ◌&&◌, ◌||◌, not, Option, none, some, List, [], ◌∷◌,
  ltb, ◌==◌, if◌then◌else◌, any, filter, find, get_or, is_some, is_none,
}
use crypto_gateway_rp.Text.{Text, eq_text}
use crypto_gateway_rp.Store.{Chain, eq_chain, GatewayEnv, eq_env, Wallet, Store, is_active}
use crypto_gateway_rp.Store.Queries.{update_where, sort_by}
use crypto_gateway_rp.Deposit.Parts.{is_evm_chain}

pub record PoolConfig : Type 0 where
  -- `none` is an exception.
  pub merchant_wallet_mnemonic : ℕ → Option Text
  pub derive_evm_address : ℕ → Text → Text
  pub derive_tron_address : ℕ → Text → Text

pub data AssignError : Type 0 where
  assign_exhausted_retries no_free_derivation_index : AssignError
  unsupported_chain mnemonic_unavailable : AssignError

pub data AssignmentSource : Type 0 where
  existing_session pool_pick new_wallet : AssignmentSource

-- Whose wallet, on which rail, and until when it is held and scanned.
pub record PickArgs : Type 0 where
  pub merchant_id : ℕ
  pub environment : GatewayEnv
  pub chain : Chain
  pub currency : Text
  pub network : Text
  pub user_id : ℕ
  pub now : ℕ
  pub hold_until : ℕ
  pub scan_at : ℕ

pub record Picked : Type 0 where
  pub wallet : Wallet
  pub source : AssignmentSource
  pub wallets : List Wallet
  pub next_wallet_id : ℕ

abbrev pub has_wallet_id : ℕ → Wallet → Bool
has_wallet_id id w = w.id == id

abbrev pub is_on_rail : PickArgs → Wallet → Bool
is_on_rail p w =
    w.merchant_id == p.merchant_id
    && eq_env w.environment p.environment
    && eq_chain w.chain p.chain
    && eq_text w.currency p.currency
    && eq_text w.network p.network

abbrev pub is_users : ℕ → Option ℕ → Bool
is_users user_id none = false
is_users user_id (some u) = u == user_id

abbrev pub is_dedicated : PickArgs → Wallet → Bool
is_dedicated p w = is_on_rail p w && is_users p.user_id w.assigned_user_id && is_active w.deleted_at

-- An active wallet with this address that is assigned to somebody.
abbrev pub is_assigned_at : GatewayEnv → Chain → Text → Wallet → Bool
is_assigned_at env chain address w =
    is_active w.deleted_at
    && eq_chain w.chain chain
    && eq_text w.address address
    && eq_env w.environment env
    && is_some w.assigned_user_id

abbrev is_taken_elsewhere : List Wallet → Wallet → Bool
is_taken_elsewhere wallets w =
    any (λ (o : Wallet). is_assigned_at w.environment w.chain w.address o && not (o.id == w.id))
      wallets

abbrev pub is_free : PickArgs → List Wallet → Wallet → Bool
is_free p wallets w =
    is_on_rail p w
    && is_active w.deleted_at
    && is_none w.assigned_user_id
    && not (is_taken_elsewhere wallets w)

abbrev pub held : PickArgs → Wallet → Wallet
held p w = record w { hold_expires_at = some p.hold_until; scan_expires_at = some p.scan_at }

abbrev pub assigned : PickArgs → Wallet → Wallet
assigned p w = record w {
  assigned_user_id = some p.user_id;
  hold_expires_at = some p.hold_until;
  scan_expires_at = some p.scan_at;
}

abbrev pub held_again : PickArgs → Store → Wallet → Picked
held_again p store w = record {
  wallet = held p w;
  source = existing_session;
  wallets = update_where (has_wallet_id w.id) (held p) store.wallets;
  next_wallet_id = store.next_wallet_id;
}

abbrev pub taken : PickArgs → Store → Wallet → Picked
taken p store w = record {
  wallet = assigned p w;
  source = pool_pick;
  wallets = update_where (has_wallet_id w.id) (assigned p) store.wallets;
  next_wallet_id = store.next_wallet_id;
}

abbrev pub first_of : {A : Type 0} → List A → Option A
first_of [] = none
first_of (a ∷ as_) = some a

-- The oldest free wallet of the rail. `SKIP LOCKED` passes over wallets that another transaction holds.
unfoldable pub free_pool_wallet : PickArgs → List Wallet → Option Wallet
unfolding sort_by
free_pool_wallet p wallets =
    first_of (sort_by (λ (w : Wallet). w.created_at) (filter (is_free p wallets) wallets))

unfoldable pub try_pick_free_pool_wallet : PickArgs → Store → Option Picked
unfolding free_pool_wallet
try_pick_free_pool_wallet p store = elim (free_pool_wallet p store.wallets) [
  | none ↦ none
  | some w ↦ some (taken p store w)
]

-- `(max ?? -1) + 1`
abbrev next_after : List Wallet → ℕ
next_after [] = 0
next_after (w ∷ ws) =
    let rest = next_after ws in if ltb w.derivation_index rest then rest else suc w.derivation_index

unfoldable pub next_derivation_index : List Wallet → ℕ → GatewayEnv → Chain → ℕ
next_derivation_index wallets merchant_id env chain = next_after (
    filter
      (λ (w : Wallet).
        w.merchant_id == merchant_id
        && eq_env w.environment env
        && (if is_evm_chain chain then is_evm_chain w.chain else eq_chain w.chain chain)
        && is_active w.deleted_at)
      wallets)

candidate_address : PoolConfig → Chain → ℕ → Text → Option Text
candidate_address cfg chain index mnemonic =
    if is_evm_chain chain
    then some (cfg.derive_evm_address index mnemonic)
    else if eq_chain chain Chain.tron
    then some (cfg.derive_tron_address index mnemonic)
    else none

pub data Created (A : Type 0) : Type 0 where
  made : A → Created A
  -- The unique index on the active wallets of a rail and address.
  conflict : Created A
  failed : AssignError → Created A

-- `bumps` rounds from `index` on.
free_address : PoolConfig → List Wallet → PickArgs → Text → ℕ → ℕ → Created (ℕ × Text)
unfolding candidate_address
free_address cfg wallets p mnemonic index zero = failed no_free_derivation_index
free_address cfg wallets p mnemonic index (suc bumps) =
    let rest = free_address cfg wallets p mnemonic (suc index) bumps in
    elim (candidate_address cfg p.chain index mnemonic) [
      | none ↦ failed unsupported_chain
      | some address ↦
          if any (is_assigned_at p.environment p.chain address) wallets
          then rest
          else made (index, address)
    ]

abbrev pub new_wallet_row : PickArgs → ℕ → (ℕ × Text) → Wallet
new_wallet_row p id place = record {
  id = id;
  merchant_id = p.merchant_id;
  environment = p.environment;
  address = place.1;
  chain = p.chain;
  currency = p.currency;
  network = p.network;
  derivation_index = place.0;
  assigned_user_id = some p.user_id;
  hold_expires_at = some p.hold_until;
  scan_expires_at = some p.scan_at;
  deposit_scan_single_tick_requested = false;
  created_at = p.now;
  deleted_at = none;
}

abbrev violates_unique : PickArgs → Text → Wallet → Bool
violates_unique p address w = is_on_rail p w && eq_text w.address address && is_active w.deleted_at

abbrev pub created_at_place : PickArgs → Store → (ℕ × Text) → Picked
created_at_place p store place = record {
  wallet = new_wallet_row p store.next_wallet_id place;
  source = new_wallet;
  wallets = new_wallet_row p store.next_wallet_id place ∷ store.wallets;
  next_wallet_id = suc store.next_wallet_id;
}

insert_wallet : PickArgs → Store → Created (ℕ × Text) → Created Picked
insert_wallet p store (failed e) = failed e
insert_wallet p store conflict = conflict
insert_wallet p store (made place) =
    if any (violates_unique p place.1) store.wallets
    then conflict
    else made (created_at_place p store place)

unfoldable pub create_new_pooled_wallet : PoolConfig → PickArgs → Store → Created Picked
unfolding free_address insert_wallet next_derivation_index
create_new_pooled_wallet cfg p store = elim (cfg.merchant_wallet_mnemonic p.merchant_id) [
  | none ↦ failed mnemonic_unavailable
  | some mnemonic ↦ insert_wallet p store (
      free_address cfg store.wallets p mnemonic
        (next_derivation_index store.wallets p.merchant_id p.environment p.chain) 256)
]

pub data PickResult : Type 0 where
  picks : Picked → PickResult
  gives_up : AssignError → PickResult

-- A creation that conflicts is rolled back to its savepoint, the pool is tried, and then the creation.
unfoldable pub create_or_pick : PoolConfig → PickArgs → Store → ℕ → PickResult
unfolding create_new_pooled_wallet try_pick_free_pool_wallet
create_or_pick cfg p store zero = gives_up assign_exhausted_retries
create_or_pick cfg p store (suc attempts) =
    let again = create_or_pick cfg p store attempts in
    elim (create_new_pooled_wallet cfg p store) [
      | made picked ↦ picks picked
      | failed e ↦ gives_up e
      | conflict ↦ elim (try_pick_free_pool_wallet p store) [
        | some picked ↦ picks picked
        | none ↦ again
      ]
    ]

unfoldable pub pick_wallet : PoolConfig → PickArgs → Store → PickResult
unfolding create_or_pick try_pick_free_pool_wallet
pick_wallet cfg p store = elim (find (is_dedicated p) store.wallets) [
  | some w ↦ picks (held_again p store w)
  | none ↦ elim (try_pick_free_pool_wallet p store) [
    | some picked ↦ picks picked
    | none ↦ create_or_pick cfg p store 4
  ]
]
