-- ===== src/Pool/Answer.antt =====
-- The answer of pick_wallet, through the payer's own wallet, the pool and the retried creation.
use crypto_gateway_rp.Common.{
  ℕ, zero, suc, ◌≡◌, refl, ap, subst, some, find, inl, inr, ◌⊎◌, Option-cases, arith,
}
use mathlib.Core.Option.{some-injective}
use crypto_gateway_rp.Store.{Store}
use crypto_gateway_rp.Store.Counts.{find-Has}
use crypto_gateway_rp.Pool.{
  PoolConfig, PickArgs, Picked, is_dedicated, free_pool_wallet, try_pick_free_pool_wallet, Created,
  made, conflict, failed, create_new_pooled_wallet, AssignError, PickResult, picks, gives_up,
  create_or_pick, pick_wallet,
}
use crypto_gateway_rp.Pool.Exclusive.{IsExclusive, Assigns, free_pool_wallet-Has}
use crypto_gateway_rp.Pool.Taken.{held-Assigns, assigned-Assigns}
use crypto_gateway_rp.Pool.Fresh.{create_new_pooled_wallet-Assigns}

picks-injective : (a b : Picked) → picks a ≡ picks b → a ≡ b
picks-injective a b h = ap (λ r. picked_or a r) h
  where
    picked_or : Picked → PickResult → Picked
    picked_or d (picks x) = x
    picked_or d (gives_up e) = d

try_pick_free_pool_wallet-Assigns :
    (p : PickArgs) (store : Store) (picked : Picked)
    → try_pick_free_pool_wallet p store ≡ some picked
    → IsExclusive store.next_wallet_id store.wallets
    → Assigns p store.wallets picked
unfolding try_pick_free_pool_wallet
try_pick_free_pool_wallet-Assigns p store picked h ex =
    elim (Option-cases (free_pool_wallet p store.wallets)) [
      | inl e ↦ cc (rw (try_pick_free_pool_wallet, e) at h)
      | inr (w, e) ↦
          let (m, free) = free_pool_wallet-Has p store.wallets w e in
          subst (Assigns p store.wallets)
            (some-injective _ picked (rw (try_pick_free_pool_wallet, e) at h))
            (assigned-Assigns p store w m free ex)
    ]

Created-cases :
    {A : Type 0} (c : Created A)
    → (c ≡ conflict) ⊎ (((a : A) × (c ≡ made a)) ⊎ ((e : AssignError) × (c ≡ failed e)))
Created-cases conflict = inl refl
Created-cases (made a) = inr (inl (a, refl))
Created-cases (failed e) = inr (inr (e, refl))

create_or_pick-Assigns :
    (cfg : PoolConfig) (p : PickArgs) (store : Store) (attempts : ℕ) (picked : Picked)
    → create_or_pick cfg p store attempts ≡ picks picked
    → IsExclusive store.next_wallet_id store.wallets
    → Assigns p store.wallets picked
unfolding create_or_pick
create_or_pick-Assigns cfg p store zero picked h ex = cc h
create_or_pick-Assigns cfg p store (suc attempts) picked h ex =
    elim (Created-cases (create_new_pooled_wallet cfg p store)) [
      | inr (inl (q, e)) ↦
          subst (Assigns p store.wallets) (picks-injective q picked (rw (create_or_pick, e) at h))
            (create_new_pooled_wallet-Assigns cfg p store q e ex)
      | inr (inr (error, e)) ↦ cc (rw (create_or_pick, e) at h)
      | inl e ↦ elim (Option-cases (try_pick_free_pool_wallet p store)) [
        | inl k ↦
            create_or_pick-Assigns cfg p store attempts picked (rw (create_or_pick, e, k) at h) ex
        | inr (q, k) ↦
            subst (Assigns p store.wallets)
              (picks-injective q picked (rw (create_or_pick, e, k) at h))
              (try_pick_free_pool_wallet-Assigns p store q k ex)
      ]
    ]

-- In a table of unique ids below the sequence, where each address of a chain and environment is assigned
-- at most once, the wallet that a payer gets is the payer's, the table stays so, and no payer has fewer
-- wallets of any id than before.
pub pick_wallet-Assigns :
    (cfg : PoolConfig) (p : PickArgs) (store : Store) (picked : Picked)
    → pick_wallet cfg p store ≡ picks picked
    → IsExclusive store.next_wallet_id store.wallets
    → Assigns p store.wallets picked
unfolding pick_wallet
pick_wallet-Assigns cfg p store picked h ex =
    elim (Option-cases (find (is_dedicated p) store.wallets)) [
      | inl e ↦ elim (Option-cases (try_pick_free_pool_wallet p store)) [
        | inl k ↦ create_or_pick-Assigns cfg p store 4 picked (rw (pick_wallet, e, k) at h) ex
        | inr (q, k) ↦
            subst (Assigns p store.wallets) (picks-injective q picked (rw (pick_wallet, e, k) at h))
              (try_pick_free_pool_wallet-Assigns p store q k ex)
      ]
      | inr (w, e) ↦
          let (m, own) = find-Has (is_dedicated p) store.wallets e in
          subst (Assigns p store.wallets) (picks-injective _ picked (rw (pick_wallet, e) at h))
            (held-Assigns p store w m (ground (arith, own)) (ground (arith, own)) ex)
    ]
