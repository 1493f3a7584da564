-- ===== src/Pool/Taken.antt =====
-- Holding a wallet of the payer again, and taking a free one from the pool.
use crypto_gateway_rp.Common.{
  ℕ, ◌<◌, ◌≡◌, refl, sym, subst, true, false, ◌&&◌, not, Option, none, some, List, [], ◌∷◌, ◌==◌,
  ==_iff, is_none, inl, inr, Bool-cases, All, All-mono, arith,
}
use crypto_gateway_rp.Text.{Text, eq_text}
use crypto_gateway_rp.Text.Laws.{eq_text→≡}
use crypto_gateway_rp.Store.{
  is_active, Chain, chain_index, eq_chain, GatewayEnv, eq_env, Wallet, Store,
}
use crypto_gateway_rp.Store.Queries.{update_where-All, count_where}
use crypto_gateway_rp.Store.Members.{Has-update_where}
use crypto_gateway_rp.Store.Counts.{
  Has, unique_row, count-update_same, count-update-le, count-update_drop, count-update-ge,
  any-none-All, count_none,
}
use crypto_gateway_rp.Pool.{
  PickArgs, has_wallet_id, is_users, is_assigned_at, is_free, held, assigned, held_again, taken,
}
use crypto_gateway_rp.Pool.Exclusive.{IsExclusive, is_of, Assigns}

-- Holding a wallet again changes no assignment.
pub held-Assigns :
    (p : PickArgs) (store : Store) (w : Wallet)
    → Has w store.wallets
    → is_users p.user_id w.assigned_user_id ≡ true
    → is_active w.deleted_at ≡ true
    → IsExclusive store.next_wallet_id store.wallets
    → Assigns p store.wallets (held_again p store w)
held-Assigns p store w m own alive h = record {
  exclusive = record {
    one_per_id = λ i. omega (
      arith,
      h.one_per_id i,
      count-update_same (has_wallet_id w.id) (held p) (has_wallet_id i) (λ x. refl) store.wallets,
    );
    below =
        update_where-All (λ (x : Wallet). x.id < store.next_wallet_id) (has_wallet_id w.id) (held p)
          (λ x k e. k) store.wallets h.below;
    one_assigned = λ env chain address. omega (
      arith,
      h.one_assigned env chain address,
      count-update_same (has_wallet_id w.id) (held p) (is_assigned_at env chain address) (λ x. refl)
          store.wallets,
    );
  };
  keeps = λ id user_id. omega (
    arith,
    count-update_same (has_wallet_id w.id) (held p) (is_of id user_id) (λ x. refl) store.wallets,
  );
  users = own;
  stored = Has-update_where (has_wallet_id w.id) (held p) store.wallets w m (ground arith);
  active = alive;
}

pub eq_env→≡ : (a b : GatewayEnv) → eq_env a b ≡ true → a ≡ b
eq_env→≡ a b h = ground (arith, h)

-- Two wallets at one place: what is assigned at the place of the second is assigned at that of the first.
pub same_place :
    (w o : Wallet) (env : GatewayEnv) (chain : Chain) (address : Text)
    → eq_env w.environment env ≡ true
    → eq_chain w.chain chain ≡ true
    → eq_text w.address address ≡ true
    → is_assigned_at env chain address o ≡ true
    → is_assigned_at w.environment w.chain w.address o ≡ true
same_place w o env chain address e c a h =
    let en : w.environment ≡ env = eq_env→≡ _ _ e in
    let ch : chain_index w.chain ≡ chain_index chain =
      (==_iff (chain_index w.chain) (chain_index chain)).0 c in
    let ad : w.address ≡ address = eq_text→≡ w.address address a in rw (en, ch, ad) h

unassigned :
    (w : Wallet) (env : GatewayEnv) (chain : Chain) (address : Text)
    → is_none w.assigned_user_id ≡ true
    → is_assigned_at env chain address w ≡ false
unassigned w env chain address h = ground (arith, h)

unassigned-none : (user_id : ℕ) (a : Option ℕ) → is_none a ≡ true → is_users user_id a ≡ false
unassigned-none user_id none h = refl
unassigned-none user_id (some u) h = cc h

-- A free wallet's place has no assigned wallet.
free-none :
    (p : PickArgs) (ws : List Wallet) (w : Wallet)
    → All (λ (u : Wallet). has_wallet_id w.id u ≡ true → u ≡ w) ws
    → is_free p ws w ≡ true
    → (env : GatewayEnv) (chain : Chain) (address : Text)
    → is_assigned_at env chain address (assigned p w) ≡ true
    → count_where (is_assigned_at env chain address) ws ≡ 0
free-none p ws w only f env chain address hit = count_none (is_assigned_at env chain address) ws (
    All-map2 ws only (
      any-none-All
        (λ (o : Wallet). is_assigned_at w.environment w.chain w.address o && not (o.id == w.id)) ws
        (ground (arith, f))))
  where
    at_none :
        (u : Wallet)
        → (has_wallet_id w.id u ≡ true → u ≡ w)
        → (is_assigned_at w.environment w.chain w.address u && not (u.id == w.id)) ≡ false
        → is_assigned_at env chain address u ≡ false
    at_none u only_w miss = elim (Bool-cases (is_assigned_at env chain address u)) [
      | inr e ↦ e
      | inl e ↦ elim (Bool-cases (u.id == w.id)) [
        | inl same ↦
            let free : is_assigned_at env chain address w ≡ false =
              unassigned w env chain address (ground (arith, f)) in
            subst (λ x. is_assigned_at env chain address x ≡ false) (sym (only_w same)) free
        | inr other ↦
            let k =
              same_place w u env chain address (ground (arith, hit)) (ground (arith, hit))
                (ground (arith, hit)) e in
            absurd (cc (rw (k, other) at miss))
      ]
    ]

    All-map2 :
        (xs : List Wallet)
        → All (λ (u : Wallet). has_wallet_id w.id u ≡ true → u ≡ w) xs
        → All
            (λ (o : Wallet).
              (is_assigned_at w.environment w.chain w.address o && not (o.id == w.id)) ≡ false)
            xs
        → All (λ u. is_assigned_at env chain address u ≡ false) xs
    All-map2 [] k j = tt
    All-map2 (u ∷ us) k j = (at_none u k.0 j.0, All-map2 us k.1 j.1)

pub assigned-Assigns :
    (p : PickArgs) (store : Store) (w : Wallet)
    → Has w store.wallets
    → is_free p store.wallets w ≡ true
    → IsExclusive store.next_wallet_id store.wallets
    → Assigns p store.wallets (taken p store w)
assigned-Assigns p store w m f h =
    let only =
      unique_row (has_wallet_id w.id) w store.wallets m (ground arith) (h.one_per_id w.id) in
    record {
      exclusive = record {
        one_per_id = λ i. omega (
          arith,
          h.one_per_id i,
          count-update_same (has_wallet_id w.id) (assigned p) (has_wallet_id i) (λ x. refl)
              store.wallets,
        );
        below =
            update_where-All (λ (x : Wallet). x.id < store.next_wallet_id) (has_wallet_id w.id)
              (assigned p) (λ x k e. k) store.wallets h.below;
        one_assigned = λ env chain address.
            elim (Bool-cases (is_assigned_at env chain address (assigned p w))) [
              | inl hit ↦ omega (
                arith,
                free-none p store.wallets w only f env chain address hit,
                count-update-le (has_wallet_id w.id) (assigned p) (is_assigned_at env chain address)
                    store.wallets,
                h.one_per_id w.id,
              )
              | inr miss ↦ omega (
                arith,
                h.one_assigned env chain address,
                count-update_drop (has_wallet_id w.id) (assigned p)
                    (is_assigned_at env chain address) store.wallets
                    (All-mono
                      (λ u o e.
                        subst (λ x. is_assigned_at env chain address (assigned p x) ≡ false)
                          (sym (o e)) miss)
                      store.wallets only),
              )
            ];
      };
      keeps = λ id user_id.
          count-update-ge (has_wallet_id w.id) (assigned p) (is_of id user_id) store.wallets (
            All-mono
              (λ u o e k. absurd (
                cc (
                  subst (λ (x : Wallet). is_users user_id x.assigned_user_id ≡ true) (o e)
                      (ground (arith, k)),
                  unassigned-none user_id w.assigned_user_id (ground (arith, f)),
                )))
              store.wallets only);
      users = ground arith;
      stored = Has-update_where (has_wallet_id w.id) (assigned p) store.wallets w m (ground arith);
      active = ground (arith, f);
    }
