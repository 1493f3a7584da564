-- ===== src/Pool/Checkout/Bound.antt =====
-- The newest open checkout after an assignment is the one that it reused or opened.
use crypto_gateway_rp.Common.{
  ℕ, ◌≤◌, ◌<◌, ◌≡◌, refl, sym, ap, subst, ◌∙◌, Bool, true, false, Option, none, some, List, [], ◌∷◌,
  ◌==◌, filter, take, reverse, inl, inr, ◌⊎◌, Bool-cases, Option-cases, All, All-mono, is_empty,
  arith,
}
use crypto_gateway_rp.Text.{Text}
use crypto_gateway_rp.Store.{Transaction, Store, Wallet}
use crypto_gateway_rp.Store.Queries.{
  update_where, oldest_first, newest, newest-NoneNewer, count_where, is_newer,
}
use crypto_gateway_rp.Store.Counts.{Has, newest-Has, find-Has, unique_row}
use crypto_gateway_rp.Store.Members.{
  Has-filter, All-Has, Has-update_where, Has-reverse, Has-take, Has-oldest_first,
}
use crypto_gateway_rp.Checkout.{
  is_open_checkout, trimmed_key, non_empty, keys_of, deposit_session_key_for_new_wallet_transaction,
  newest_open_created_checkout_for_wallet,
}
use crypto_gateway_rp.Pool.{Picked}
use crypto_gateway_rp.Pool.Checkout.{
  AssignRequest, expects_amount, find_reusable_created_checkout, candidates_taken, is_candidate,
  refreshed, reuse_checkout, placeholder_row,
}

newest-ne-none :
    (p : Transaction → Bool) (t : Transaction) (xs : List Transaction)
    → Has t xs
    → p t ≡ true
    → newest p xs ≡ none
    → ⊥
unfolding newest
newest-ne-none p t [] m e h = m
newest-ne-none p t (x ∷ xs) m e h = elim (Bool-cases (p x)) [
  | inl hit ↦ cc (rw hit at h)
  | inr miss ↦ elim m [
    | inl q ↦ cc (subst (λ u. p u ≡ false) q miss)
    | inr n ↦ newest-ne-none p t xs n e (rw miss at h)
  ]
]

later_is_newer : (t u : Transaction) → u.created_at < t.created_at → is_newer t u ≡ false → ⊥
later_is_newer t u lt h = ground (arith, lt, h)

-- The one open checkout that is created last is the newest.
newest-only :
    (p : Transaction → Bool) (t : Transaction) (xs : List Transaction)
    → Has t xs
    → p t ≡ true
    → All (λ u. (u ≡ t) ⊎ (u.created_at < t.created_at)) xs
    → newest p xs ≡ some t
newest-only p t xs m e rest = elim (Option-cases (newest p xs)) [
  | inl k ↦ absurd (newest-ne-none p t xs m e k)
  | inr (u, k) ↦
      elim (All-Has (λ v. (v ≡ t) ⊎ (v.created_at < t.created_at)) xs u (newest-Has p xs k) rest) [
        | inl same ↦ k ∙ ap some same
        | inr earlier ↦ absurd (
            later_is_newer t u earlier
              (All-Has (λ v. p v ≡ true → is_newer v u ≡ false) xs t m (newest-NoneNewer p xs k) e))
      ]
]

-- Unique ids, no row from this millisecond or later, and session keys without outer blanks.
pub record IsBefore (now : ℕ) (txs : List Transaction) : Type 0 where
  pub one_per_id : (i : ℕ) → count_where (λ (t : Transaction). t.id == i) txs ≤ 1
  pub earlier : All (λ (t : Transaction). t.created_at < now) txs
  pub plain :
      All
        (λ (t : Transaction). non_empty t.deposit_session_key ≡ trimmed_key t.deposit_session_key)
        txs

bound_to :
    (store : Store) (wallet_id user_id : ℕ) (t : Transaction)
    → newest (is_open_checkout wallet_id (some user_id)) store.transactions ≡ some t
    → deposit_session_key_for_new_wallet_transaction true store wallet_id (some user_id)
      ≡ non_empty t.deposit_session_key
unfolding deposit_session_key_for_new_wallet_transaction newest_open_created_checkout_for_wallet
    keys_of
bound_to store wallet_id user_id t h = rw h refl

pub find_reusable_created_checkout-Has :
    (store : Store) (wallet_id user_id : ℕ) (reference requested : Option Text) (t : Transaction)
    → find_reusable_created_checkout store wallet_id user_id reference requested ≡ some t
    → Has t store.transactions × (is_open_checkout wallet_id (some user_id) t ≡ true)
unfolding find_reusable_created_checkout
find_reusable_created_checkout-Has store wallet_id user_id reference requested t h =
    let (m, e) =
      find-Has (expects_amount store wallet_id user_id requested)
        (take (candidates_taken reference) (
          reverse
            (oldest_first (filter (is_candidate wallet_id user_id reference) store.transactions))))
        (h) in
    let (n, k) =
      Has-filter (is_candidate wallet_id user_id reference) store.transactions t
        (Has-oldest_first _ t (Has-reverse _ t (Has-take (candidates_taken reference) _ t m))) in
    (n, ground (arith, k))

refreshed-All :
    (now : ℕ) (t : Transaction) (xs : List Transaction)
    → All (λ (u : Transaction). (u.id == t.id) ≡ true → u ≡ t) xs
    → All (λ (u : Transaction). u.created_at < now) xs
    → All
        (λ u. (u ≡ refreshed now t) ⊎ (u.created_at < now))
        (update_where (λ (u : Transaction). u.id == t.id) (refreshed now) xs)
unfolding update_where
refreshed-All now t [] only h = tt
refreshed-All now t (x ∷ xs) only h = (
  elim (Bool-cases (x.id == t.id)) [
    | inl e ↦ rw e (inl (ap (refreshed now) (only.0 e)))
    | inr e ↦ rw e (inr h.0)
  ],
  refreshed-All now t xs only.1 h.1,
)

pub reuse_checkout-bound :
    (gateway_reference : Text) (now user_id : ℕ) (reference : Option Text) (picked : Picked)
    (store : Store) (t : Transaction) (key : Text)
    → Has t store.transactions
    → is_open_checkout picked.wallet.id (some user_id) t ≡ true
    → trimmed_key t.deposit_session_key ≡ some key
    → IsBefore now store.transactions
    → deposit_session_key_for_new_wallet_transaction true
        (reuse_checkout gateway_reference now reference picked store t key).store
        picked.wallet.id
        (some user_id)
      ≡ some key
unfolding reuse_checkout
reuse_checkout-bound gateway_reference now user_id reference picked store t key m e k h =
    bound_to (reuse_checkout gateway_reference now reference picked store t key).store
      picked.wallet.id user_id (refreshed now t)
      (newest-only (is_open_checkout picked.wallet.id (some user_id)) (refreshed now t)
        (update_where (λ (u : Transaction). u.id == t.id) (refreshed now) store.transactions)
        (Has-update_where (λ (u : Transaction). u.id == t.id) (refreshed now) store.transactions t m
          (ground arith))
        e
        (refreshed-All now t store.transactions
          (unique_row (λ (u : Transaction). u.id == t.id) t store.transactions m (ground arith)
            (h.one_per_id t.id))
          h.earlier))
    ∙ All-Has
        (λ (u : Transaction). non_empty u.deposit_session_key ≡ trimmed_key u.deposit_session_key)
        store.transactions t m h.plain
    ∙ k

pub open_checkout-bound :
    (key reference : Text) (now : ℕ) (r : AssignRequest) (w : Wallet) (store after : Store)
    → is_empty key ≡ false
    → IsBefore now store.transactions
    → after.transactions
      ≡ placeholder_row store.next_transaction_id now r w key reference ∷ store.transactions
    → deposit_session_key_for_new_wallet_transaction true after w.id (some r.user_id) ≡ some key
open_checkout-bound key reference now r w store after full h e =
    bound_to after w.id r.user_id (placeholder_row store.next_transaction_id now r w key reference)
      (subst
        (λ ts.
          newest (is_open_checkout w.id (some r.user_id)) ts
          ≡ some (placeholder_row store.next_transaction_id now r w key reference))
        (sym e)
        (newest-only (is_open_checkout w.id (some r.user_id))
          (placeholder_row store.next_transaction_id now r w key reference)
          (placeholder_row store.next_transaction_id now r w key reference ∷ store.transactions)
          (inl refl) (ground arith)
          (inl refl, All-mono (λ u k. inr k) store.transactions h.earlier)))
    ∙ rw full refl
