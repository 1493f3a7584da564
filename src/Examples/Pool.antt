-- ===== src/Examples/Pool.antt =====
-- Concrete runs of the assignment of wallets, on the tables of Examples.
use crypto_gateway_rp.Common.{◌≤◌, ◌≡◌, refl, Bool, some, [], ◌∷◌, inl, arith}
use crypto_gateway_rp.Text.{codes}
use crypto_gateway_rp.Store.{Chain, GatewayEnv, Wallet, Store}
use crypto_gateway_rp.Store.Queries.{count_where, sort_by}
use crypto_gateway_rp.Pool.{
  PoolConfig, PickArgs, Picked, picks, pick_wallet, taken, has_wallet_id, is_assigned_at,
  try_pick_free_pool_wallet, free_pool_wallet,
}
use crypto_gateway_rp.Pool.Exclusive.{IsExclusive, Assigns}
use crypto_gateway_rp.Pool.Answer.{pick_wallet-Assigns}
use crypto_gateway_rp.Pool.Served.{Serves, pick_wallet-Serves}
use crypto_gateway_rp.Pool.Release.{
  release_expired_pool_holds, Releases, release_expired_pool_holds-Releases,
}
use crypto_gateway_rp.Examples.{wallet, database}

abbrev pub pool_config : PoolConfig
pool_config = record {
  merchant_wallet_mnemonic = λ m. some (codes "test junk");
  derive_evm_address = λ i m. i ∷ codes "evm";
  derive_tron_address = λ i m. i ∷ codes "tron";
}

abbrev payer_9 : PickArgs
payer_9 = record {
  merchant_id = 3;
  environment = GatewayEnv.live;
  chain = Chain.eth;
  currency = codes "usdt";
  network = codes "erc20";
  user_id = 9;
  now = 2_000;
  hold_until = 3_602_000;
  scan_at = 7_202_000;
}

one_row : (q : Wallet → Bool) (w : Wallet) → count_where q (w ∷ []) ≤ 1
one_row q w = ground arith

pub database-IsExclusive : IsExclusive database.next_wallet_id database.wallets
database-IsExclusive = record {
  one_per_id = λ i. one_row (has_wallet_id i) wallet;
  below = (omega arith, tt);
  one_assigned = λ env chain address. one_row (is_assigned_at env chain address) wallet;
}

picks_wallet : pick_wallet pool_config payer_9 database ≡ picks (taken payer_9 database wallet)
unfolding pick_wallet try_pick_free_pool_wallet free_pool_wallet sort_by
picks_wallet = refl

pick_wallet-Assigns_example : Assigns payer_9 database.wallets (taken payer_9 database wallet)
pick_wallet-Assigns_example =
    pick_wallet-Assigns pool_config payer_9 database (taken payer_9 database wallet) picks_wallet
      database-IsExclusive

pick_wallet-Serves_example :
    (q : Picked) × (pick_wallet pool_config payer_9 database ≡ picks q)
    × (q.next_wallet_id ≡ database.next_wallet_id)
    × Serves payer_9 database q
pick_wallet-Serves_example = pick_wallet-Serves pool_config payer_9 database wallet (inl refl) refl

-- A wallet that payer 9 got, after its hold has ended.
abbrev held_wallet : Wallet
held_wallet = record wallet { assigned_user_id = some 9 }

abbrev held_database : Store
held_database = record database { wallets = held_wallet ∷ [] }

release_expired_pool_holds-Releases_example :
    Releases 1_000 held_database (release_expired_pool_holds 1_000 held_database)
release_expired_pool_holds-Releases_example =
    release_expired_pool_holds-Releases 1_000 held_database (record {
      one_per_id = λ i. one_row (has_wallet_id i) held_wallet;
      below = (omega arith, tt);
      one_assigned = λ env chain address. one_row (is_assigned_at env chain address) held_wallet;
    })
