-- ===== src/Webhook/Preserve.antt =====
-- What a notification keeps of the transaction table.
use crypto_gateway_rp.Common.{
  ℕ, not, Option, none, some, List, [], ◌∷◌, ◌==◌, is_some, find, if_cases,
}
use crypto_gateway_rp.Text.{Text}
use crypto_gateway_rp.Store.{TxStatus, Transaction, Store, eq_status}
use crypto_gateway_rp.Store.Queries.{update_where, count_where}
use crypto_gateway_rp.Checkout.{expected_atomic_for_deposit_session}
use crypto_gateway_rp.Webhook.{
  Post, claims, count_attempt, mark_delivered, is_active_row, url_of, deliver, notify_row, notify,
  notify_each,
}

-- The transaction table has the property, together with the next id of its sequence.
pub record Holds {ℓ} (P : ℕ → List Transaction → Type ℓ) (store : Store) : Type ℓ where
  pub table : P store.next_transaction_id store.transactions

-- What each delivery keeps is kept by every notification, and by a job that notifies several rows.
module _ {ℓ} (P : Store → Type ℓ) (now : ℕ)
    (keep : (post : Post) (status : TxStatus) (reason : Option Text) (store : Store)
        (t : Transaction) (url : Text)
      → P store
      → P (deliver post status reason now store t url)) where
  notify_row-keeps :
      (post : Post) (status : TxStatus) (reason : Option Text) (store : Store) (t : Transaction)
      → P store
      → P (notify_row post status reason now store t)
  unfolding notify_row
  notify_row-keeps post status reason store t h = if_cases P (is_some t.callback_delivered_at) h (
      if_cases P (not (eq_status t.status status)) h
        (elim (url_of store t)
          as (λ u.
            P (elim u [ none ↦ store | some url ↦ deliver post status reason now store t url ])) [
              | none ↦ h
              | some url ↦ keep post status reason store t url h
            ]))

  pub notify-keeps :
      (post : Post) (status : TxStatus) (reason : Transaction → Option Text) (store : Store)
      (id : ℕ)
      → P store
      → P (notify post status reason now store id)
  unfolding notify
  notify-keeps post status reason store id h =
      if_cases P (id == 0) h
        (elim (find (is_active_row id) store.transactions)
          as (λ r.
            P (elim r [ none ↦ store | some t ↦ notify_row post status (reason t) now store t ])) [
              | none ↦ h
              | some t ↦ notify_row-keeps post status (reason t) store t h
            ])

  pub notify_each-keeps :
      (send : Store → ℕ → Store)
      → ((s : Store) (id : ℕ) → P s → P (send s id))
      → (store : Store) (ts : List Transaction) → P store
      → P (notify_each send store ts)
  unfolding notify_each
  notify_each-keeps send kept store [] h = h
  notify_each-keeps send kept store (t ∷ ts) h =
      notify_each-keeps send kept (send store t.id) ts (kept store t.id h)

-- A property of the table that the two updates keep is kept by every notification.
module _ {ℓ} (P : ℕ → List Transaction → Type ℓ) (now : ℕ)
    (attempt : (next : ℕ) (status : TxStatus) (id : ℕ) (xs : List Transaction)
      → P next xs
      → P next (update_where (claims status now id) (count_attempt now) xs))
    (delivery : (next id : ℕ) (xs : List Transaction)
      → P next xs
      → P next (update_where (is_active_row id) (mark_delivered now) xs)) where
  deliver-Holds :
      (post : Post) (status : TxStatus) (reason : Option Text) (store : Store) (t : Transaction)
      (url : Text)
      → Holds P store
      → Holds P (deliver post status reason now store t url)
  unfolding deliver
  deliver-Holds post status reason store t url h =
      let claimed = attempt store.next_transaction_id status t.id store.transactions h.table in
      if_cases (Holds P) (count_where (claims status now t.id) store.transactions == 0) h (
        if_cases (Holds P)
          (post url t (expected_atomic_for_deposit_session store t.wallet_id t.deposit_session_key)
            reason)
          (record { table = delivery store.next_transaction_id t.id _ claimed })
          (record { table = claimed }))

  pub notify-Holds :
      (post : Post) (status : TxStatus) (reason : Transaction → Option Text) (store : Store)
      (id : ℕ)
      → Holds P store
      → Holds P (notify post status reason now store id)
  notify-Holds = notify-keeps (Holds P) now deliver-Holds
