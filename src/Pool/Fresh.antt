-- ===== src/Pool/Fresh.antt =====
-- A wallet that is made: it has a new id, and an address that is assigned to nobody.
use crypto_gateway_rp.Common.{
  ℕ, zero, suc, ◌≡◌, refl, ap, subst, false, List, any, inl, inr, Bool-cases, Option-cases,
  All-mono, arith,
}
use crypto_gateway_rp.Text.{Text}
use crypto_gateway_rp.Store.{Wallet, Store}
use crypto_gateway_rp.Store.Counts.{count-insert-le, any_none, any-none-All}
use crypto_gateway_rp.Pool.{
  PoolConfig, PickArgs, Picked, has_wallet_id, is_assigned_at, candidate_address, Created, made,
  conflict, failed, free_address, new_wallet_row, created_at_place, violates_unique, insert_wallet,
  next_derivation_index, create_new_pooled_wallet,
}
use crypto_gateway_rp.Pool.Taken.{same_place}
use crypto_gateway_rp.Pool.Exclusive.{IsExclusive, Assigns}

pub made-injective : {A : Type 0} (a b : A) → made a ≡ made b → a ≡ b
made-injective {A} a b h = ap (λ (c : Created A). made_or a c) h
  where
    made_or : A → Created A → A
    made_or d (made x) = x
    made_or d conflict = d
    made_or d (failed e) = d

-- The address that is derived for a new wallet is assigned to nobody.
free_address-none :
    (cfg : PoolConfig) (ws : List Wallet) (p : PickArgs) (mnemonic : Text) (index bumps : ℕ)
    (place : ℕ × Text)
    → free_address cfg ws p mnemonic index bumps ≡ made place
    → any (is_assigned_at p.environment p.chain place.1) ws ≡ false
unfolding free_address
free_address-none cfg ws p mnemonic index zero place h = cc h
free_address-none cfg ws p mnemonic index (suc bumps) place h =
    elim (Option-cases (candidate_address cfg p.chain index mnemonic)) [
      | inl e ↦ cc (rw (free_address, e) at h)
      | inr (address, e) ↦
          elim (Bool-cases (any (is_assigned_at p.environment p.chain address) ws)) [
            | inl taken ↦
                free_address-none cfg ws p mnemonic (suc index) bumps place
                  (rw (free_address, e, taken) at h)
            | inr free ↦
                subst (λ (x : ℕ × Text). any (is_assigned_at p.environment p.chain x.1) ws ≡ false)
                  (made-injective (index, address) place (rw (free_address, e, free) at h)) free
          ]
    ]

new_wallet_row-Assigns :
    (p : PickArgs) (store : Store) (place : ℕ × Text)
    → any (is_assigned_at p.environment p.chain place.1) store.wallets ≡ false
    → IsExclusive store.next_wallet_id store.wallets
    → Assigns p store.wallets (created_at_place p store place)
new_wallet_row-Assigns p store place free h = record {
  exclusive = record {
    one_per_id = λ i.
        count-insert-le (has_wallet_id i) (new_wallet_row p store.next_wallet_id place)
          store.wallets
          (λ e.
            any_none (has_wallet_id i) store.wallets
              (All-mono (λ u b. ground (arith, b, e)) store.wallets h.below))
          (h.one_per_id i);
    below = (omega arith, All-mono (λ u b. omega (arith, b)) store.wallets h.below);
    one_assigned = λ env chain address.
        count-insert-le (is_assigned_at env chain address)
          (new_wallet_row p store.next_wallet_id place) store.wallets
          (λ e. any_none (is_assigned_at env chain address) store.wallets (
            All-mono
              (λ u miss. elim (Bool-cases (is_assigned_at env chain address u)) [
                | inl hit ↦ absurd (
                    cc (
                      miss,
                      same_place (new_wallet_row p store.next_wallet_id place) u env chain address
                          (ground (arith, e)) (ground (arith, e)) (ground (arith, e)) hit,
                    ))
                | inr other ↦ other
              ])
              store.wallets
              (any-none-All (is_assigned_at p.environment p.chain place.1) store.wallets free)))
          (h.one_assigned env chain address);
  };
  keeps = λ id user_id. ground arith;
  users = ground arith;
  stored = inl refl;
  active = refl;
}

insert_wallet-Assigns :
    (p : PickArgs) (store : Store) (picked : Picked) (c : Created (ℕ × Text))
    → ((place : ℕ × Text)
        → c ≡ made place
        → any (is_assigned_at p.environment p.chain place.1) store.wallets ≡ false)
    → IsExclusive store.next_wallet_id store.wallets
    → insert_wallet p store c ≡ made picked
    → Assigns p store.wallets picked
unfolding insert_wallet
insert_wallet-Assigns p store picked (failed e) free ex k = cc k
insert_wallet-Assigns p store picked conflict free ex k = cc k
insert_wallet-Assigns p store picked (made place) free ex k =
    elim (Bool-cases (any (violates_unique p place.1) store.wallets)) [
      | inl e ↦ cc (rw (insert_wallet, e) at k)
      | inr e ↦
          subst (Assigns p store.wallets) (made-injective _ picked (rw (insert_wallet, e) at k))
            (new_wallet_row-Assigns p store place (free place refl) ex)
    ]

-- A wallet that is made is stored, and is the payer's.
pub create_new_pooled_wallet-Assigns :
    (cfg : PoolConfig) (p : PickArgs) (store : Store) (picked : Picked)
    → create_new_pooled_wallet cfg p store ≡ made picked
    → IsExclusive store.next_wallet_id store.wallets
    → Assigns p store.wallets picked
unfolding create_new_pooled_wallet
create_new_pooled_wallet-Assigns cfg p store picked h ex =
    elim (Option-cases (cfg.merchant_wallet_mnemonic p.merchant_id)) [
      | inl e ↦ cc (rw (create_new_pooled_wallet, e) at h)
      | inr (mnemonic, e) ↦
          insert_wallet-Assigns p store picked
            (free_address cfg store.wallets p mnemonic
              (next_derivation_index store.wallets p.merchant_id p.environment p.chain) 256)
            (λ place.
              free_address-none cfg store.wallets p mnemonic
                (next_derivation_index store.wallets p.merchant_id p.environment p.chain) 256 place)
            ex (rw (create_new_pooled_wallet, e) at h)
    ]
