-- ===== src/Deposit/Wallets.antt =====
-- An upsert creates no wallet, and it takes none away.
use crypto_gateway_rp.Common.{
  ℕ, ◌≡◌, refl, ap, ◌∙◌, Bool, true, false, ◌&&◌, ◌||◌, not, Option, none, some, ◌==◌, if_cases,
  if◌then◌else◌, is_none, any,
}
use crypto_gateway_rp.Text.{Text}
use crypto_gateway_rp.Store.{
  Wallet, Store, Transaction, TxStatus, success, underpaid, eq_status, is_active,
}
use crypto_gateway_rp.Store.Counts.{any-update_same}
use crypto_gateway_rp.Webhook.{Post, notify_payment_success, notify_payment_underpaid}
use crypto_gateway_rp.Webhook.Wallets.{notify-Same}
use crypto_gateway_rp.Deposit.Parts.{
  Config, Incoming, wallet_exists, prior_row, keys_for_create, next_status, same_on_chain_recipient,
}
use crypto_gateway_rp.Deposit.{
  has_status, write_credit, recorded, apply_credit, finish, upsert_incoming_transaction,
  release_wallet_after_deposit_success,
}

abbrev is_wallet : ℕ → Wallet → Bool
is_wallet id w = w.id == id && is_active w.deleted_at

-- The wallet is there, also after its release.
abbrev pub Exists : ℕ → Store → Type 0
Exists id s = wallet_exists s id ≡ true

release-Exists :
    (id wallet_id : ℕ) (store : Store)
    → Exists id store
    → Exists id (release_wallet_after_deposit_success wallet_id store)
unfolding wallet_exists release_wallet_after_deposit_success
release-Exists id wallet_id store h =
    ap (λ b. not (id == 0) && b)
      (any-update_same (λ w. w.id == wallet_id && is_active w.deleted_at)
        (λ w. record w {
          hold_expires_at = none;
          scan_expires_at = none;
          deposit_scan_single_tick_requested = false;
        })
        (is_wallet id) (λ w. refl) store.wallets)
    ∙ h

pub same-Exists : (id : ℕ) (s t : Store) → t.wallets ≡ s.wallets → Exists id s → Exists id t
unfolding wallet_exists
same-Exists id s t q h = ap (λ ws. not (id == 0) && any (is_wallet id) ws) q ∙ h

-- The handler returns, with the wallet there.
pub record Returns (id : ℕ) (r : Option Store) : Type 0 where
  pub result : Store
  pub returned : r ≡ some result
  pub exists : Exists id result

returns : (id : ℕ) (s : Store) → Exists id s → Returns id (some s)
returns id s h = record { result = s; returned = refl; exists = h }

module _ (cfg : Config) (post : Post) (now : ℕ) (fresh : Text) (id : ℕ) where
  finish-Exists :
      (store : Store) (prior : Option Transaction) (status : TxStatus) (row : Transaction)
      → Exists id store
      → Exists id (finish post now store prior status row)
  unfolding finish notify_payment_success notify_payment_underpaid
  finish-Exists store prior status row h =
      if_cases (Exists id) (became_underpaid && is_none row.callback_delivered_at)
        (same-Exists id released _ (notify-Same released.wallets post _ _ now released row.id refl)
          released_h)
        (if_cases (Exists id) (eq_status status success && is_none row.callback_delivered_at)
          (same-Exists id released _
            (notify-Same released.wallets post _ _ now released row.id refl) released_h)
          released_h)
    where
      became_underpaid : Bool
      became_underpaid = eq_status status underpaid && not (has_status underpaid prior)

      became_success : Bool
      became_success = eq_status status success && not (has_status success prior)

      released : Store
      released =
          if became_success || became_underpaid
          then release_wallet_after_deposit_success row.wallet_id store
          else store

      released_h : Exists id released
      released_h =
          if_cases (Exists id) (became_success || became_underpaid)
            (release-Exists id row.wallet_id store h) h

  apply_credit-Exists :
      (store : Store) (input : Incoming) (prior : Option Transaction)
      → Exists id store
      → Exists id (apply_credit cfg post now fresh store input prior)
  unfolding apply_credit recorded
  apply_credit-Exists store input prior h =
      let keys = keys_for_create cfg fresh store input in
      let status = next_status cfg store input prior keys in
      let written = recorded cfg now store input prior keys status in
      finish-Exists written prior status (write_credit cfg now store input prior keys status).row
        (same-Exists id store written refl h)

  -- Whatever the credit of an active wallet, the upsert returns, and wallet `id` is active afterwards
  -- if it was before.
  pub upsert-Returns :
      (store : Store) (input : Incoming)
      → Exists input.wallet_id store
      → Exists id store
      → Returns id (upsert_incoming_transaction cfg post now fresh store input)
  unfolding upsert_incoming_transaction
  upsert-Returns store input there h =
      rw (upsert_incoming_transaction, there) (credited (prior_row store input))
    where
      credited :
          (r : Option Transaction)
          → Returns id (elim r [
            | none ↦ some (apply_credit cfg post now fresh store input none)
            | some prior ↦
                if not (same_on_chain_recipient cfg input.chain prior.to_address input.to_address)
                then some store
                else if eq_status prior.status underpaid
                then some store
                else some (apply_credit cfg post now fresh store input (some prior))
          ])
      credited none = returns id _ (apply_credit-Exists store input none h)
      credited (some prior) =
          if_cases (Returns id)
            (not (same_on_chain_recipient cfg input.chain prior.to_address input.to_address))
            (returns id store h)
            (if_cases (Returns id) (eq_status prior.status underpaid) (returns id store h)
              (returns id _ (apply_credit-Exists store input (some prior) h)))
