-- ===== src/Deposit/Recorded.antt =====
-- Which on-chain events the table has a row for, before and after an upsert.
use crypto_gateway_rp.Common.{
  ℕ, suc, ◌∙◌, ◌≤◌, ◌≡◌, refl, sym, ap, subst, ◌⊎◌, inl, inr, is_some, Bool, true, false, not, ◌&&◌,
  Option, none, some, List, [], ◌∷◌, ==_iff, arith, All-mono, Bool-cases, if_cases,
}
use crypto_gateway_rp.Text.{Text, starts_with, eq_text}
use crypto_gateway_rp.Text.Laws.{eq_text→≡, eq_text_refl}
use crypto_gateway_rp.Store.{eq_chain, TxStatus, Transaction, Store}
use crypto_gateway_rp.Store.Queries.{update_where, count_where}
use crypto_gateway_rp.Store.Counts.{Has, find-Has, count-update_same, count-update-ge, unique_row}
use crypto_gateway_rp.Store.Members.{Has-update_where}
use crypto_gateway_rp.Checkout.{EventKey, has_key, non_empty, created_prefix}
use crypto_gateway_rp.Webhook.{Post, claims, count_attempt, is_active_row, mark_delivered}
use crypto_gateway_rp.Webhook.Preserve.{Holds}
use crypto_gateway_rp.Deposit.Preserve.{upsert-Holds}
use crypto_gateway_rp.Deposit.Target.{merge_target-OnChain}
use crypto_gateway_rp.Deposit.Unique.{
  IsKeyed, has_id, event_of, eq_event, chain_index_injective, upsert-IsKeyed,
}
use crypto_gateway_rp.Deposit.Parts.{
  merge_target, Config, Incoming, CreateKeys, event_key, prior_row, merged_row, created_row,
}
use crypto_gateway_rp.Deposit.{
  updated_row, write_credit, recorded, remove_placeholders, is_left_over, Written, insert_new,
  merge_into, uses_raw_upsert, upsert_incoming_transaction,
}

-- The table has a row for the event.
IsRecorded : EventKey → ℕ → List Transaction → Type 0
IsRecorded k next xs = 1 ≤ count_where (has_key k) xs

-- A hash that the server did not make up for a checkout.
abbrev pub is_chain_hash : Text → Bool
is_chain_hash h = not (starts_with created_prefix h)

count-Has :
    {A : Type 0} (p : A → Bool) (t : A) (xs : List A) → Has t xs → p t ≡ true → 1 ≤ count_where p xs
count-Has p t [] m e = absurd m
count-Has p t (x ∷ xs) (inl q) e =
    let hit : p x ≡ true = subst (λ u. p u ≡ true) (sym q) e in rw hit (omega arith)
count-Has p t (x ∷ xs) (inr m) e = ground (arith, count-Has p t xs m e)

has_key_refl : (k : EventKey) (t : Transaction) → event_of t ≡ k → has_key k t ≡ true
has_key_refl k t e =
    subst (λ k. has_key k t ≡ true) e
      (all_three _ _ _ ((==_iff _ _).1 refl) (eq_text_refl t.tx_hash) ((==_iff _ _).1 refl))
  where
    all_three : (a b c : Bool) → a ≡ true → b ≡ true → c ≡ true → (a && b && c) ≡ true
    all_three a b c h k l = ground arith

-- An update of other columns keeps what is recorded.
update-IsRecorded :
    (p : Transaction → Bool) (f : Transaction → Transaction) (k : EventKey)
    → ((t : Transaction) → event_of (f t) ≡ event_of t)
    → (next : ℕ) (xs : List Transaction) → IsRecorded k next xs
    → IsRecorded k next (update_where p f xs)
unfolding IsRecorded
update-IsRecorded p f k same next xs h =
    omega (arith, h, count-update_same p f (has_key k) (λ t. ap (eq_event k) (same t)) xs)

-- The row of a made-up hash is not the one of an on-chain event.
pub other_row :
    (k : EventKey) (t : Transaction)
    → is_chain_hash k.tx_hash ≡ true
    → starts_with created_prefix t.tx_hash ≡ true
    → has_key k t ≡ false
other_row k t plain made = apart (eq_chain t.chain k.chain) (eq_text t.tx_hash k.tx_hash) _ (λ e.
    clash (subst (λ h. starts_with created_prefix h ≡ true) (eq_text→≡ t.tx_hash k.tx_hash e) made)
      plain)
  where
    clash : {b : Bool} → b ≡ true → not b ≡ true → ⊥
    clash h k = cc

    apart : (a b c : Bool) → (b ≡ true → ⊥) → (a && b && c) ≡ false
    apart a b c h = elim (Bool-cases b) [ inl e ↦ absurd (h e) | inr e ↦ ground arith ]

-- The event is recorded, or it is the one that a write brings.
Brought : EventKey → EventKey → ℕ → List Transaction → Type 0
Brought ev k next xs = (IsRecorded k next xs × (is_chain_hash k.tx_hash ≡ true)) ⊎ (ev ≡ k)

insert-IsRecorded :
    (row : Transaction) (k : EventKey) (next : ℕ) (xs : List Transaction)
    → Brought (event_of row) k next xs
    → IsRecorded k (suc next) (row ∷ xs)
unfolding IsRecorded Brought
insert-IsRecorded row k next xs (inl h) = ground (arith, h.0)
insert-IsRecorded row k next xs (inr q) =
    count-Has (has_key k) row (row ∷ xs) (inl refl) (has_key_refl k row q)

pub not_both : {b : Bool} → b ≡ true → b ≡ false → ⊥
not_both h k = cc

merge-IsRecorded :
    (f : Transaction → Transaction) (t : Transaction) (ev k : EventKey)
    → event_of (f t) ≡ ev
    → starts_with created_prefix t.tx_hash ≡ true
    → (next : ℕ) (xs : List Transaction) → Has t xs
    → count_where (has_id t.id) xs ≤ 1
    → Brought ev k next xs
    → IsRecorded k next (update_where (has_id t.id) f xs)
unfolding IsRecorded Brought
merge-IsRecorded f t ev k e made next xs m one (inl h) = omega (
  arith,
  h.0,
  count-update-ge (has_id t.id) f (has_key k) xs (
      All-mono
        (λ u same b q.
          absurd (not_both (subst (λ v. has_key k v ≡ true) (same b) q) (other_row k t h.1 made)))
        xs (unique_row (has_id t.id) t xs m ((==_iff _ _).1 refl) one)),
)
merge-IsRecorded f t ev k e made next xs m one (inr q) =
    count-Has (has_key k) (f t) _ (Has-update_where (has_id t.id) f xs t m ((==_iff _ _).1 refl))
      (has_key_refl k (f t) (e ∙ q))

prior-IsRecorded :
    (store : Store) (input : Incoming) (k : EventKey) {prior : Transaction}
    → prior_row store input ≡ some prior
    → Brought (event_key input) k store.next_transaction_id store.transactions
    → IsRecorded k store.next_transaction_id store.transactions
unfolding IsRecorded Brought
prior-IsRecorded store input k e (inl h) = h.0
prior-IsRecorded store input k {prior} e (inr q) =
    let (m, hit) = find-Has (has_key (event_key input)) store.transactions {t = prior} e in
    subst (λ k. 1 ≤ count_where (has_key k) store.transactions) q
      (count-Has (has_key (event_key input)) prior _ m hit)

module _ (cfg : Config) (post : Post) (now : ℕ) (fresh : Text) where
  write_credit-IsRecorded :
      (store : Store) (input : Incoming) (prior : Option Transaction) (keys : CreateKeys)
      (status : TxStatus) (k : EventKey)
      → prior_row store input ≡ prior
      → Holds IsKeyed store
      → Brought (event_key input) k store.next_transaction_id store.transactions
      → IsRecorded k
          (write_credit cfg now store input prior keys status).next_transaction_id
          (write_credit cfg now store input prior keys status).transactions
  unfolding write_credit
  write_credit-IsRecorded store input (some prior) keys status k e h known =
      update-IsRecorded (has_key (event_key input))
        (updated_row (uses_raw_upsert cfg status) now input status) k (λ t. refl) _ _
        (prior-IsRecorded store input k e known)
  write_credit-IsRecorded store input none keys status k e h known =
      placed (merge_target cfg store input keys status) refl
    where
      taken : Option Transaction → Written
      taken r = elim r [
        | none ↦ insert_new now store input keys status
        | some t ↦ merge_into now store input keys status t
      ]

      event_on_chain :
          (t : Transaction)
          → t.chain ≡ input.chain
          → event_of (merged_row now input keys.payer_user_id status t) ≡ event_key input
      event_on_chain t =
          ap (λ ch. record { chain = ch; tx_hash = input.tx_hash; log_index = input.log_index })

      placed :
          (r : Option Transaction)
          → merge_target cfg store input keys status ≡ r
          → IsRecorded k (taken r).next_transaction_id (taken r).transactions
      placed none found =
          insert-IsRecorded (created_row store.next_transaction_id now input keys status) k
            store.next_transaction_id store.transactions known
      placed (some t) found =
          let (here, chain, unpaid, made) =
            merge_target-OnChain cfg store input keys status found in
          merge-IsRecorded (merged_row now input keys.payer_user_id status) t (event_key input) k
            (event_on_chain t (chain_index_injective _ _ chain)) made _ _ here
            (h.table.one_per_id t.id) known

  recorded-IsRecorded :
      (store : Store) (input : Incoming) (prior : Option Transaction) (keys : CreateKeys)
      (status : TxStatus) (k : EventKey)
      → prior_row store input ≡ prior
      → Holds IsKeyed store
      → Brought (event_key input) k store.next_transaction_id store.transactions
      → Holds (IsRecorded k) (recorded cfg now store input prior keys status)
  unfolding recorded remove_placeholders
  recorded-IsRecorded store input prior keys status k e h known =
      let w = write_credit cfg now store input prior keys status in
      let r = write_credit-IsRecorded store input prior keys status k e h known in
      record {
        table =
            if_cases (IsRecorded k w.next_transaction_id)
              (is_some (non_empty w.row.deposit_session_key) && cfg.knows_created)
              (update-IsRecorded (is_left_over w.row)
                (λ t. record t { deleted_at = some now; updated_at = now }) k (λ t. refl) _ _ r)
              r;
      }

  upsert-IsRecorded :
      (store : Store) (input : Incoming) (after : Store) (k : EventKey)
      → Holds IsKeyed store
      → Brought (event_key input) k store.next_transaction_id store.transactions
      → upsert_incoming_transaction cfg post now fresh store input ≡ some after
      → IsRecorded k after.next_transaction_id after.transactions
  upsert-IsRecorded store input after k h known e =
      (upsert-Holds (IsRecorded k) now
        (λ next status id xs.
          update-IsRecorded (claims status now id) (count_attempt now) k (λ t. refl) next xs)
        (λ next id xs.
          update-IsRecorded (is_active_row id) (mark_delivered now) k (λ t. refl) next xs)
        cfg post fresh store input after
        (λ t q. record { table = prior-IsRecorded store input k q known })
        (λ prior q. recorded-IsRecorded store input prior _ _ k q h known) e).table

  -- Where the keys of the table are unique, after an upsert that does not throw exactly one row
  -- stands for the credit's event (chain, transaction hash, log index).
  pub upsert-records :
      (store : Store) (input : Incoming) (after : Store)
      → Holds IsKeyed store
      → upsert_incoming_transaction cfg post now fresh store input ≡ some after
      → count_where (has_key (event_key input)) after.transactions ≡ 1
  unfolding IsRecorded Brought
  upsert-records store input after h e = omega (
    arith,
    upsert-IsRecorded store input after (event_key input) h (inr refl) e,
    (upsert-IsKeyed cfg post now fresh store input after h e).table.one_per_event (event_key input),
  )

  -- The row of another event stays, deleted or not.
  pub upsert-keeps_events :
      (store : Store) (input : Incoming) (after : Store) (k : EventKey)
      → Holds IsKeyed store
      → is_chain_hash k.tx_hash ≡ true
      → count_where (has_key k) store.transactions ≡ 1
      → upsert_incoming_transaction cfg post now fresh store input ≡ some after
      → count_where (has_key k) after.transactions ≡ 1
  unfolding IsRecorded Brought
  upsert-keeps_events store input after k h plain there e = omega (
    arith,
    upsert-IsRecorded store input after k h (inl (omega (arith, there), plain)) e,
    (upsert-IsKeyed cfg post now fresh store input after h e).table.one_per_event k,
  )
