-- ===== src/Deposit/Target.antt =====
-- The row that a credit is merged into: an unpaid row of the credit's own chain.
use crypto_gateway_rp.Common.{
  ◌||◌, ℕ, ◌≡◌, refl, subst, ◌⊎◌, inl, inr, Bool, true, false, ◌&&◌, not, Option, none, some, List,
  or_else, ◌==◌, ==_iff, if◌then◌else◌, Bool-cases, find, arith,
}
use mathlib.Core.Option.{some-injective}
use crypto_gateway_rp.Text.{codes, eq_text, trim, Text, starts_with}
use crypto_gateway_rp.Store.{
  created, Chain, chain_index, eq_chain, TxStatus, pending, success, failed, underpaid, eq_status,
  is_active, Transaction, Store,
}
use crypto_gateway_rp.Store.Queries.{newest, newest-satisfies}
use crypto_gateway_rp.Store.Counts.{Has, find-Has, newest-Has}
use crypto_gateway_rp.Checkout.{created_prefix, is_open_checkout}
use crypto_gateway_rp.Deposit.Parts.{
  Config, Incoming, CreateKeys, admin_target, placeholder, is_merge_target, is_mergeable,
  is_placeholder, in_session, merge_target,
}

or_else-some :
    {A : Type 0} (a b : Option A) {t : A} → or_else a b ≡ some t → (a ≡ some t) ⊎ (b ≡ some t)
or_else-some none b h = inr h
or_else-some (some x) b h = inl h

if-some :
    {A : Type 0} (b : Bool) (a : Option A) {t : A}
    → (if b then a else none) ≡ some t
    → (b ≡ true) × (a ≡ some t)
if-some true a h = (refl, h)
if-some false a h = cc

OnChain : Chain → List Transaction → Transaction → Type 0
OnChain c xs t =
    Has t xs
    × (chain_index t.chain ≡ chain_index c)
    × (eq_status t.status success ≡ false)
    × (starts_with created_prefix t.tx_hash ≡ true)

unpaid_status :
    (s : TxStatus)
    → (eq_status s created || eq_status s pending) ≡ true
    → eq_status s success ≡ false
unpaid_status pending h = refl
unpaid_status success h = cc
unpaid_status failed h = refl
unpaid_status underpaid h = refl
unpaid_status created h = refl

mergeable_unpaid : (t : Transaction) → is_mergeable t ≡ true → eq_status t.status success ≡ false
unfolding is_mergeable
mergeable_unpaid t h = unpaid_status t.status (right (eq_text (trim t.amount) (codes "0")) _ h)
  where
    right : (a b : Bool) → (a && b) ≡ true → b ≡ true
    right a b h = ground arith

placeholder_unpaid :
    (input : Incoming) (t : Transaction)
    → is_placeholder input t ≡ true
    → eq_status t.status success ≡ false
placeholder_unpaid input t h = unpaid_status t.status (
    second (t.wallet_id == input.wallet_id) (eq_status t.status created)
      (starts_with created_prefix t.tx_hash) (is_active t.deleted_at) true _ _ h)
  where
    second : (a b c d e f g : Bool) → (a && b && c && d && e && f) ≡ true → (b || g) ≡ true
    second a b c d e f g h = ground arith

placeholder_prefix :
    (input : Incoming) (t : Transaction)
    → is_placeholder input t ≡ true
    → starts_with created_prefix t.tx_hash ≡ true
placeholder_prefix input t h =
    fourth (t.wallet_id == input.wallet_id) (eq_status t.status created)
      (starts_with created_prefix t.tx_hash) (is_active t.deleted_at) true _ h
  where
    fourth : (a b c d e f : Bool) → (a && b && c && d && e && f) ≡ true → c ≡ true
    fourth a b c d e f h = ground arith

merge_target_prefix :
    (input : Incoming) (id : ℕ) (t : Transaction)
    → is_merge_target input id t ≡ true
    → starts_with created_prefix t.tx_hash ≡ true
unfolding is_merge_target
merge_target_prefix input id t h =
    fourth (t.id == id) (t.wallet_id == input.wallet_id) (eq_chain t.chain input.chain)
      (starts_with created_prefix t.tx_hash) (is_active t.deleted_at) h
  where
    fourth : (a b c d e : Bool) → (a && b && c && d && e) ≡ true → d ≡ true
    fourth a b c d e h = ground arith

third : (a b c d e : Bool) → (a && b && c && d && e) ≡ true → c ≡ true
third a b c d e h = ground arith

merge_target_chain :
    (input : Incoming) (id : ℕ) (t : Transaction)
    → is_merge_target input id t ≡ true
    → chain_index t.chain ≡ chain_index input.chain
unfolding is_merge_target
merge_target_chain input id t h = (==_iff _ _).0 (
    third (t.id == id) (t.wallet_id == input.wallet_id) (eq_chain t.chain input.chain)
      (starts_with created_prefix t.tx_hash) (is_active t.deleted_at) h)

admin_target-OnChain :
    (store : Store) (input : Incoming) {t : Transaction}
    → admin_target store input ≡ some t
    → OnChain input.chain store.transactions t
unfolding OnChain admin_target
admin_target-OnChain store input {t} h = picked input.admin_merge_target h
  where
    second : (a b : Bool) → (a && b) ≡ true → b ≡ true
    second a b h = ground arith

    chosen :
        (id : ℕ) (r : Option Transaction)
        → find (is_merge_target input id) store.transactions ≡ r
        → (elim r [
          | none ↦ none
          | some u ↦ if not (id == 0) && is_mergeable u then some u else none
        ])
          ≡ some t
        → OnChain input.chain store.transactions t
    chosen id none e k = cc
    chosen id (some u) e k =
        let (m, p) = find-Has (is_merge_target input id) store.transactions {t = u} e in
        let (open_row, same) = if-some (not (id == 0) && is_mergeable u) (some u) k in
        subst (OnChain input.chain store.transactions) (some-injective u t same) (
          m,
          merge_target_chain input id u p,
          mergeable_unpaid u (second (not (id == 0)) (is_mergeable u) open_row),
          merge_target_prefix input id u p,
        )

    picked :
        (o : Option ℕ)
        → (elim o [
          | none ↦ none
          | some id ↦ elim (find (is_merge_target input id) store.transactions) [
            | none ↦ none
            | some u ↦ if not (id == 0) && is_mergeable u then some u else none
          ]
        ])
          ≡ some t
        → OnChain input.chain store.transactions t
    picked none k = cc
    picked (some id) k = chosen id _ refl k

placeholder_chain :
    (input : Incoming) (t : Transaction)
    → is_placeholder input t ≡ true
    → chain_index t.chain ≡ chain_index input.chain
placeholder_chain input t h = (==_iff _ _).0 (last (is_open_checkout input.wallet_id none t) _ h)
  where
    last : (a b : Bool) → (a && b) ≡ true → b ≡ true
    last a b h = ground arith

placeholder-OnChain :
    (store : Store) (input : Incoming) (key : Option Text) {t : Transaction}
    → placeholder store input key ≡ some t
    → OnChain input.chain store.transactions t
unfolding OnChain placeholder
placeholder-OnChain store input key {t} h =
    elim (or_else-some (newest session store.transactions) (newest any_one store.transactions) h) [
      | inl e ↦
          found (newest-Has session _ e)
            (first (any_one t) (in_session key t) (newest-satisfies session store.transactions e))
      | inr e ↦ found (newest-Has any_one _ e) (newest-satisfies any_one store.transactions e)
    ]
  where
    first : (a b : Bool) → (a && b) ≡ true → a ≡ true
    first a b h = ground arith

    found :
        Has t store.transactions
        → is_placeholder input t ≡ true
        → Has t store.transactions
          × (chain_index t.chain ≡ chain_index input.chain)
          × (eq_status t.status success ≡ false)
          × (starts_with created_prefix t.tx_hash ≡ true)
    found m h =
        (m, placeholder_chain input t h, placeholder_unpaid input t h, placeholder_prefix input t h)

    any_one : Transaction → Bool
    any_one = is_placeholder input

    session : Transaction → Bool
    session u = is_placeholder input u && in_session key u

pub merge_target-OnChain :
    (cfg : Config) (store : Store) (input : Incoming) (keys : CreateKeys) (status : TxStatus)
    {t : Transaction}
    → merge_target cfg store input keys status ≡ some t
    → Has t store.transactions
      × (chain_index t.chain ≡ chain_index input.chain)
      × (eq_status t.status success ≡ false)
      × (starts_with created_prefix t.tx_hash ≡ true)
unfolding merge_target OnChain
merge_target-OnChain cfg store input keys status {t} h =
    elim (Bool-cases (eq_status status underpaid && not cfg.knows_underpaid)) [
      | inl e ↦ cc (rw e at h)
      | inr e ↦
          elim (or_else-some (admin_target store input)
            (if cfg.knows_created then placeholder store input keys.deposit_session_key else none)
            (rw (e, merge_target) at h)) [
              | inl a ↦ admin_target-OnChain store input a
              | inr p ↦
                  placeholder-OnChain store input keys.deposit_session_key
                    (if-some cfg.knows_created _ p).1
            ]
    ]
