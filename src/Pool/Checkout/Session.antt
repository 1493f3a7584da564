-- ===== src/Pool/Checkout/Session.antt =====
-- The session that an assignment answers is the one that the next credit is bound to.
use crypto_gateway_rp.Common.{
  ℕ, ◌≡◌, refl, ap, subst, ◌∙◌, true, false, ◌&&◌, Option, none, some, List, ◌==◌, any, inl, inr,
  Bool-cases, Option-cases, is_empty, ==_iff, get_or, arith,
}
use mathlib.Core.Option.{some-injective}
use crypto_gateway_rp.Text.{Text}
use crypto_gateway_rp.Store.{Transaction, Store, Wallet, is_active}
use crypto_gateway_rp.Store.Counts.{Has, find-Has, unique_row}
use crypto_gateway_rp.Store.Members.{find-some, All-Has}
use crypto_gateway_rp.Checkout.{
  has_key, is_open_checkout, trimmed_key, deposit_session_key_for_new_wallet_transaction,
  assigned_user,
}
use crypto_gateway_rp.Pool.{
  has_wallet_id, is_users, PickArgs, Picked, PickResult, picks, gives_up, pick_wallet,
}
use crypto_gateway_rp.Pool.Exclusive.{IsExclusive, Assigns}
use crypto_gateway_rp.Pool.Answer.{pick_wallet-Assigns}
use crypto_gateway_rp.Pool.Checkout.{
  AssignConfig, AssignRequest, AssignResult, assigns, chain_disabled_for_platform,
  session_key_taken, not_picked, Assigned, find_reusable_created_checkout, reuse_checkout,
  open_checkout, opened, normalize_expected_atomic, is_chain_live_for_platform, with_picked,
  reusable_session, checkout_for, pick_args, assign_picked, assign_pooled_wallet_for_deposit,
  merchant_reference, placeholder_key,
}
use crypto_gateway_rp.Pool.Checkout.Bound.{
  IsBefore, find_reusable_created_checkout-Has, reuse_checkout-bound, open_checkout-bound,
}

-- The wallet is the payer's, found by its id, and a credit of the payer is bound to the answered session.
pub record Opens (user_id : ℕ) (a : Assigned) : Type 0 where
  pub bound :
      deposit_session_key_for_new_wallet_transaction true a.store a.wallet.id (some user_id)
      ≡ some a.deposit_session_key
  pub payer : assigned_user a.store a.wallet.id ≡ some user_id
  pub exclusive : IsExclusive a.store.next_wallet_id a.store.wallets

users_some : (user_id : ℕ) (a : Option ℕ) → is_users user_id a ≡ true → a ≡ some user_id
users_some user_id none h = cc h
users_some user_id (some u) h = ap some ((==_iff u user_id).0 h)

-- The row of a wallet is the one that its id finds.
assigned_user-picked :
    (p : PickArgs) (wallets : List Wallet) (picked : Picked) (store : Store)
    → Assigns p wallets picked
    → store.wallets ≡ picked.wallets
    → assigned_user store picked.wallet.id ≡ some p.user_id
unfolding assigned_user
assigned_user-picked p wallets picked store h e =
    let q = λ (w : Wallet). w.id == picked.wallet.id && is_active w.deleted_at in
    let (t, k) = find-some q picked.wallets picked.wallet h.stored (ground (arith, h.active)) in
    let (m, hit) = find-Has q picked.wallets k in
    let same : t ≡ picked.wallet =
      All-Has (λ (u : Wallet). has_wallet_id picked.wallet.id u ≡ true → u ≡ picked.wallet)
        picked.wallets t m
        (unique_row (has_wallet_id picked.wallet.id) picked.wallet picked.wallets h.stored
          (ground arith) (h.exclusive.one_per_id picked.wallet.id))
        (ground (arith, hit)) in
    rw (assigned_user, e, k)
      (ap (λ (w : Wallet). w.assigned_user_id) same
        ∙ users_some p.user_id picked.wallet.assigned_user_id h.users)

assigns-injective : (a b : Assigned) → assigns a ≡ assigns b → a ≡ b
assigns-injective a b h = ap (λ r. assigned_or a r) h
  where
    assigned_or : Assigned → AssignResult → Assigned
    assigned_or d (assigns x) = x
    assigned_or d chain_disabled_for_platform = d
    assigned_or d session_key_taken = d
    assigned_or d (not_picked e) = d

module _ (cfg : AssignConfig) (now : ℕ) (r : AssignRequest) (picked : Picked) (store : Store)
    (h : IsBefore now store.transactions)
    (ok : Assigns (pick_args cfg now r) store.wallets picked) where
  opened-Opens :
      (reference : Text)
      → is_empty cfg.deposit_session_key ≡ false
      → Opens r.user_id
          (opened cfg.deposit_session_key reference now r picked (with_picked picked store))
  opened-Opens reference full = record {
    bound =
        open_checkout-bound cfg.deposit_session_key reference now r picked.wallet store
          (opened cfg.deposit_session_key reference now r picked (with_picked picked store)).store
          full h refl;
    payer =
        assigned_user-picked (pick_args cfg now r) store.wallets picked
          (opened cfg.deposit_session_key reference now r picked (with_picked picked store)).store
          ok refl;
    exclusive = ok.exclusive;
  }

  reuse_checkout-Opens :
      (reference : Option Text) (t : Transaction) (key : Text)
      → Has t store.transactions
      → is_open_checkout picked.wallet.id (some r.user_id) t ≡ true
      → trimmed_key t.deposit_session_key ≡ some key
      → Opens r.user_id (
          reuse_checkout cfg.gateway_reference now reference picked
            (with_picked picked store)
            t
            key)
  unfolding reuse_checkout
  reuse_checkout-Opens reference t key m e k = record {
    bound =
        reuse_checkout-bound cfg.gateway_reference now r.user_id reference picked
          (with_picked picked store) t key m e k h;
    payer =
        assigned_user-picked (pick_args cfg now r) store.wallets picked
          (reuse_checkout cfg.gateway_reference now reference picked (with_picked picked store) t
            key).store
          ok refl;
    exclusive = ok.exclusive;
  }

  checkout_for-Opens :
      (reference : Option Text) (reusable : Option (Transaction × Text)) (a : Assigned)
      → is_empty cfg.deposit_session_key ≡ false
      → ((t : Transaction) (key : Text)
          → reusable ≡ some (t, key)
          → Has t store.transactions
            × (is_open_checkout picked.wallet.id (some r.user_id) t ≡ true)
            × (trimmed_key t.deposit_session_key ≡ some key))
      → checkout_for cfg.deposit_session_key cfg.gateway_reference now r reference picked
          (with_picked picked store)
          reusable
        ≡ assigns a
      → Opens r.user_id a
  unfolding open_checkout checkout_for
  checkout_for-Opens reference none a full of e =
      elim (Bool-cases
        (any (has_key (placeholder_key r.chain cfg.deposit_session_key)) store.transactions)) [
          | inl used ↦ cc (rw (open_checkout, used) at e)
          | inr free ↦
              subst (Opens r.user_id)
                (assigns-injective
                  (opened cfg.deposit_session_key (get_or reference cfg.gateway_reference) now r
                    picked (with_picked picked store))
                  a (rw (open_checkout, free) at e))
                (opened-Opens (get_or reference cfg.gateway_reference) full)
        ]
  checkout_for-Opens reference (some (t, key)) a full of e =
      let (m, k, n) = of t key refl in
      subst (Opens r.user_id)
        (assigns-injective
          (reuse_checkout cfg.gateway_reference now reference picked (with_picked picked store) t
            key)
          a e)
        (reuse_checkout-Opens reference t key m k n)

reusable_session-Has :
    (store : Store) (wallet_id : ℕ) (r : AssignRequest) (reference : Option Text) (t : Transaction)
    (key : Text)
    → reusable_session store wallet_id r reference ≡ some (t, key)
    → Has t store.transactions
      × (is_open_checkout wallet_id (some r.user_id) t ≡ true)
      × (trimmed_key t.deposit_session_key ≡ some key)
unfolding reusable_session
reusable_session-Has store wallet_id r reference t key h =
    elim (Option-cases (
      find_reusable_created_checkout store wallet_id r.user_id reference
        (normalize_expected_atomic r.expected_amount_atomic))) [
          | inl e ↦ cc (rw (reusable_session, e) at h)
          | inr (u, e) ↦ elim (Option-cases (trimmed_key u.deposit_session_key)) [
            | inl k ↦ cc (rw (reusable_session, e, k) at h)
            | inr (found, k) ↦
                let same : (u, found) ≡ (t, key) =
                  some-injective _ _ (rw (reusable_session, e, k) at h) in
                let (m, o) =
                  find_reusable_created_checkout-Has store wallet_id r.user_id reference
                    (normalize_expected_atomic r.expected_amount_atomic) u e in
                subst
                  (λ (x : Transaction × Text).
                    Has x.0 store.transactions
                    × (is_open_checkout wallet_id (some r.user_id) x.0 ≡ true)
                    × (trimmed_key x.0.deposit_session_key ≡ some x.1))
                  same (m, o, k)
          ]
        ]

-- An assignment answers a wallet that is the payer's, on a table that stays exclusive, and the session
-- that it answers is the one that a credit of the payer on the wallet is then bound to: where ids are
-- unique and below the sequence, each address of a chain and environment is assigned at most once, no
-- transaction is from this millisecond or later, stored session keys have no outer blanks, and the
-- drawn session key is not empty.
pub assign_pooled_wallet_for_deposit-Opens :
    (cfg : AssignConfig) (now : ℕ) (r : AssignRequest) (store : Store) (a : Assigned)
    → assign_pooled_wallet_for_deposit cfg now r store ≡ assigns a
    → IsExclusive store.next_wallet_id store.wallets
    → IsBefore now store.transactions
    → is_empty cfg.deposit_session_key ≡ false
    → Opens r.user_id a
unfolding assign_pooled_wallet_for_deposit assign_picked
assign_pooled_wallet_for_deposit-Opens cfg now r store a h ex before full =
    elim (Bool-cases (is_chain_live_for_platform cfg.chain_enabled r.chain)) [
      | inr off ↦ cc (rw (assign_pooled_wallet_for_deposit, off) at h)
      | inl on ↦
          assigned (pick_wallet cfg.pool (pick_args cfg now r) store)
            (λ picked e. pick_wallet-Assigns cfg.pool (pick_args cfg now r) store picked e ex)
            (rw (assign_pooled_wallet_for_deposit, on) at h)
    ]
  where
    assigned :
        (result : PickResult)
        → ((picked : Picked)
            → result ≡ picks picked
            → Assigns (pick_args cfg now r) store.wallets picked)
        → assign_picked cfg now r store result ≡ assigns a
        → Opens r.user_id a
    assigned (gives_up e) of k = cc k
    assigned (picks picked) of k =
        checkout_for-Opens cfg now r picked store before (of picked refl)
          (merchant_reference r.reference_transaction_id)
          (reusable_session (with_picked picked store) picked.wallet.id r
            (merchant_reference r.reference_transaction_id))
          a full
          (reusable_session-Has (with_picked picked store) picked.wallet.id r
            (merchant_reference r.reference_transaction_id))
          k
