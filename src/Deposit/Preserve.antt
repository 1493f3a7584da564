-- ===== src/Deposit/Preserve.antt =====
-- What an upsert keeps of the transaction table, from what its write to the table keeps.
use crypto_gateway_rp.Common.{
  ℕ, ◌≡◌, refl, subst, ◌&&◌, ◌||◌, not, Bool, Option, none, some, List, if◌then◌else◌, if_cases,
  is_none,
}
use mathlib.Core.Option.{some-injective}
use crypto_gateway_rp.Text.{Text}
use crypto_gateway_rp.Store.{TxStatus, success, underpaid, eq_status, Transaction, Store}
use crypto_gateway_rp.Store.Queries.{update_where}
use crypto_gateway_rp.Webhook.{
  Post, claims, count_attempt, is_active_row, mark_delivered, notify_payment_success,
  notify_payment_underpaid,
}
use crypto_gateway_rp.Webhook.Preserve.{Holds, notify-Holds}
use crypto_gateway_rp.Deposit.Parts.{
  Config, Incoming, same_on_chain_recipient, wallet_exists, keys_for_create, next_status, prior_row,
}
use crypto_gateway_rp.Deposit.{
  has_status, write_credit, recorded, apply_credit, finish, upsert_incoming_transaction,
  release_wallet_after_deposit_success,
}

-- What the handler leaves in the store, unless it throws.
record Keeps {ℓ} (P : ℕ → List Transaction → Type ℓ) (r : Option Store) : Type ℓ where
  kept : (after : Store) → r ≡ some after → Holds P after

kept_by {ℓ} : {P : ℕ → List Transaction → Type ℓ} {s : Store} → Holds P s → Keeps P (some s)
kept_by {P = P} h = record { kept = λ after k. subst (Holds P) (some-injective _ _ k) h }

module _ {ℓ} (P : ℕ → List Transaction → Type ℓ) (now : ℕ)
    (attempt : (next : ℕ) (status : TxStatus) (id : ℕ) (xs : List Transaction)
      → P next xs
      → P next (update_where (claims status now id) (count_attempt now) xs))
    (delivery : (next id : ℕ) (xs : List Transaction)
      → P next xs
      → P next (update_where (is_active_row id) (mark_delivered now) xs))
    (cfg : Config) (post : Post) (fresh : Text) where
  finish-Holds :
      (store : Store) (prior : Option Transaction) (status : TxStatus) (row : Transaction)
      → Holds P store
      → Holds P (finish post now store prior status row)
  unfolding finish notify_payment_success notify_payment_underpaid
      release_wallet_after_deposit_success
  finish-Holds store prior status row h =
      if_cases (Holds P) (became_underpaid && is_none row.callback_delivered_at)
        (notify-Holds P now attempt delivery post _ _ released row.id released_h)
        (if_cases (Holds P) (eq_status status success && is_none row.callback_delivered_at)
          (notify-Holds P now attempt delivery post _ _ released row.id released_h) released_h)
    where
      became_underpaid : Bool
      became_underpaid = eq_status status underpaid && not (has_status underpaid prior)

      became_success : Bool
      became_success = eq_status status success && not (has_status success prior)

      released : Store
      released =
          if became_success || became_underpaid
          then release_wallet_after_deposit_success row.wallet_id store
          else store

      released_h : Holds P released
      released_h =
          if_cases (Holds P) (became_success || became_underpaid) (record { table = h.table }) h

  apply_credit-Holds :
      (store : Store) (input : Incoming) (prior : Option Transaction)
      → Holds P (
          recorded cfg now store input prior
            (keys_for_create cfg fresh store input)
            (next_status cfg store input prior (keys_for_create cfg fresh store input)))
      → Holds P (apply_credit cfg post now fresh store input prior)
  unfolding apply_credit
  apply_credit-Holds store input prior h =
      let keys = keys_for_create cfg fresh store input in
      let status = next_status cfg store input prior keys in
      finish-Holds (recorded cfg now store input prior keys status) prior status
        (write_credit cfg now store input prior keys status).row h

  -- The table before matters only where it has the event already.
  pub upsert-Holds :
      (store : Store) (input : Incoming) (after : Store)
      → ((t : Transaction) → prior_row store input ≡ some t → Holds P store)
      → ((prior : Option Transaction)
          → prior_row store input ≡ prior
          → Holds P (
              recorded cfg now store input prior
                (keys_for_create cfg fresh store input)
                (next_status cfg store input prior (keys_for_create cfg fresh store input))))
      → upsert_incoming_transaction cfg post now fresh store input ≡ some after
      → Holds P after
  unfolding upsert_incoming_transaction
  upsert-Holds store input after h recorded_h e = whole.kept after e
    where
      credited :
          (r : Option Transaction)
          → prior_row store input ≡ r
          → Keeps P (elim r [
            | none ↦ some (apply_credit cfg post now fresh store input none)
            | some prior ↦
                if not (same_on_chain_recipient cfg input.chain prior.to_address input.to_address)
                then some store
                else if eq_status prior.status underpaid
                then some store
                else some (apply_credit cfg post now fresh store input (some prior))
          ])
      credited none e = kept_by (apply_credit-Holds store input none (recorded_h none e))
      credited (some prior) e =
          if_cases (Keeps P)
            (not (same_on_chain_recipient cfg input.chain prior.to_address input.to_address))
            (kept_by (h prior e))
            (if_cases (Keeps P) (eq_status prior.status underpaid) (kept_by (h prior e))
              (kept_by (apply_credit-Holds store input (some prior) (recorded_h (some prior) e))))

      whole : Keeps P (upsert_incoming_transaction cfg post now fresh store input)
      whole =
          if_cases (Keeps P) (not (wallet_exists store input.wallet_id))
            (record { kept = λ s k. cc }) (credited (prior_row store input) refl)
