-- ===== src/Deposit/Kept.antt =====
-- The credits that an upsert keeps: rows of on-chain events that are in use.
use crypto_gateway_rp.Common.{
  ℕ, ◌≤◌, ◌≡◌, refl, subst, Bool, true, false, not, ◌&&◌, Option, none, some, List, [], ◌∷◌,
  is_some, ==_iff, arith, All, All-mono, if_cases, ◌==◌, leb,
}
use crypto_gateway_rp.Text.{Text}
use crypto_gateway_rp.Store.{TxStatus, success, created, eq_status, is_active, Transaction, Store}
use crypto_gateway_rp.Store.Queries.{count_where}
use crypto_gateway_rp.Store.Counts.{count-update_same, count-update-ge, unique_row}
use crypto_gateway_rp.Checkout.{EventKey, has_key, non_empty}
use crypto_gateway_rp.Webhook.{Post, claims, count_attempt, is_active_row, mark_delivered}
use crypto_gateway_rp.Webhook.Preserve.{Holds}
use crypto_gateway_rp.Deposit.Preserve.{upsert-Holds}
use crypto_gateway_rp.Deposit.Target.{merge_target-OnChain}
use crypto_gateway_rp.Deposit.Unique.{IsKeyed, has_id}
use crypto_gateway_rp.Deposit.Recorded.{is_chain_hash, other_row, not_both}
use crypto_gateway_rp.Deposit.Parts.{
  Config, Incoming, CreateKeys, in_session, merge_target, next_status, is_underpaid,
  confirmations_for_chain, event_key, merged_row,
}
use crypto_gateway_rp.Deposit.{
  updated_row, write_credit, recorded, remove_placeholders, is_left_over, Written, insert_new,
  merge_into, uses_raw_upsert, upsert_incoming_transaction,
}

-- A row of the event that is not deleted and is no open checkout.
abbrev pub is_credit : EventKey → Transaction → Bool
is_credit k t = has_key k t && is_active t.deleted_at && not (eq_status t.status created)

abbrev Ends : TxStatus → Type 0
Ends s = eq_status s created ≡ false

next_status-credit :
    (cfg : Config) (store : Store) (input : Incoming) (prior : Option Transaction)
    (keys : CreateKeys)
    → Ends (next_status cfg store input prior keys)
unfolding next_status
next_status-credit cfg store input none keys =
    if_cases Ends (not (leb (confirmations_for_chain cfg input.chain) input.confirmations)) refl
      (if_cases Ends (is_underpaid store input keys.deposit_session_key) refl refl)
next_status-credit cfg store input (some prior) keys =
    if_cases Ends (eq_status prior.status success) refl (
      if_cases Ends (not (leb (confirmations_for_chain cfg input.chain) input.confirmations)) refl
        (if_cases Ends (is_underpaid store input prior.deposit_session_key) refl refl))

module _ (k : EventKey) where
  credit-key : (t : Transaction) → is_credit k t ≡ true → has_key k t ≡ true
  credit-key t h = first _ (is_active t.deleted_at) _ h
    where
      first : (a b c : Bool) → (a && b && c) ≡ true → a ≡ true
      first a b c h = ground arith

  updated-credit :
      (raw : Bool) (now : ℕ) (input : Incoming) (status : TxStatus) (t : Transaction)
      → eq_status status created ≡ false
      → is_credit k t ≡ true
      → is_credit k (updated_row raw now input status t) ≡ true
  updated-credit raw now input status t e h =
      kept (has_key k t) (is_active t.deleted_at) (not (eq_status t.status created)) _ h e
    where
      kept : (a b c d : Bool) → (a && b && c) ≡ true → d ≡ false → (a && b && not d) ≡ true
      kept a b c d h e = ground arith

  left_over-no_credit : (row t : Transaction) → is_left_over row t ≡ true → is_credit k t ≡ true → ⊥
  left_over-no_credit row t h c =
      clash (t.wallet_id == row.wallet_id) (in_session row.deposit_session_key t)
        (eq_status t.status created) (is_active t.deleted_at) (has_key k t) h c
    where
      clash : (a b c d e : Bool) → (a && b && c && d) ≡ true → (e && d && not c) ≡ true → ⊥
      clash a b c d e h k = ground arith

  -- At least `n` rows are the credit.
  AtLeast : ℕ → ℕ → List Transaction → Type 0
  AtLeast n next xs = n ≤ count_where (is_credit k) xs

  everywhere :
      {P : Transaction → Type 0} → ((t : Transaction) → P t) → (xs : List Transaction) → All P xs
  everywhere h [] = tt
  everywhere h (x ∷ xs) = (h x, everywhere h xs)

  module _ (cfg : Config) (post : Post) (now : ℕ) (fresh : Text)
      (plain : is_chain_hash k.tx_hash ≡ true) where
    write_credit-AtLeast :
        (n : ℕ) (store : Store) (input : Incoming) (prior : Option Transaction) (keys : CreateKeys)
        (status : TxStatus)
        → Ends status
        → Holds IsKeyed store
        → Holds (AtLeast n) store
        → AtLeast n
            (write_credit cfg now store input prior keys status).next_transaction_id
            (write_credit cfg now store input prior keys status).transactions
    unfolding write_credit AtLeast
    write_credit-AtLeast n store input (some prior) keys status e keyed h = omega (
      arith,
      h.table,
      count-update-ge (has_key (event_key input))
          (updated_row (uses_raw_upsert cfg status) now input status) (is_credit k)
          store.transactions
          (everywhere
            (λ t same c. updated-credit (uses_raw_upsert cfg status) now input status t e c)
            store.transactions),
    )
    write_credit-AtLeast n store input none keys status e keyed h =
        placed (merge_target cfg store input keys status) refl
      where
        taken : Option Transaction → Written
        taken r = elim r [
          | none ↦ insert_new now store input keys status
          | some t ↦ merge_into now store input keys status t
        ]

        placed :
            (r : Option Transaction)
            → merge_target cfg store input keys status ≡ r
            → n ≤ count_where (is_credit k) (taken r).transactions
        placed none found = ground (arith, h.table)
        placed (some t) found =
            let (here, chain, unpaid, made) =
              merge_target-OnChain cfg store input keys status found in
            omega (
              arith,
              h.table,
              count-update-ge (has_id t.id) (merged_row now input keys.payer_user_id status)
                  (is_credit k) store.transactions
                  (All-mono
                    (λ u same b c. absurd (
                      not_both (subst (λ v. has_key k v ≡ true) (same b) (credit-key u c))
                        (other_row k t plain made)))
                    _
                    (unique_row (has_id t.id) t _ here ((==_iff _ _).1 refl)
                      (keyed.table.one_per_id t.id))),
            )

    recorded-AtLeast :
        (n : ℕ) (store : Store) (input : Incoming) (prior : Option Transaction) (keys : CreateKeys)
        (status : TxStatus)
        → Ends status
        → Holds IsKeyed store
        → Holds (AtLeast n) store
        → Holds (AtLeast n) (recorded cfg now store input prior keys status)
    unfolding recorded remove_placeholders AtLeast
    recorded-AtLeast n store input prior keys status e keyed h =
        let w = write_credit cfg now store input prior keys status in
        let r = write_credit-AtLeast n store input prior keys status e keyed h in
        record {
          table =
              if_cases (λ xs. n ≤ count_where (is_credit k) xs)
                (is_some (non_empty w.row.deposit_session_key) && cfg.knows_created)
                (omega (
                  arith,
                  r,
                  count-update-ge (is_left_over w.row)
                      (λ t. record t { deleted_at = some now; updated_at = now }) (is_credit k)
                      w.transactions
                      (everywhere (λ t b c. absurd (left_over-no_credit w.row t b c))
                        w.transactions),
                ))
                r;
        }

    -- Where the keys of the table are unique, an upsert that does not throw leaves at least as many rows
    -- of an event as there were, of those that are not deleted and no open checkout, if the event's hash
    -- does not start as a checkout's made-up one.
    pub upsert-keeps_credits :
        (store : Store) (input : Incoming) (after : Store)
        → Holds IsKeyed store
        → upsert_incoming_transaction cfg post now fresh store input ≡ some after
        → count_where (is_credit k) store.transactions
          ≤ count_where (is_credit k) after.transactions
    unfolding AtLeast
    upsert-keeps_credits store input after keyed e =
        (upsert-Holds (AtLeast n) now
          (λ next status i xs h. omega (
            arith,
            h,
            count-update_same (claims status now i) (count_attempt now) (is_credit k) (λ t. refl)
                xs,
          ))
          (λ next i xs h. omega (
            arith,
            h,
            count-update_same (is_active_row i) (mark_delivered now) (is_credit k) (λ t. refl) xs,
          ))
          cfg post fresh store input after (λ t q. record { table = omega arith })
          (λ prior q.
            recorded-AtLeast n store input prior _ _ (next_status-credit cfg store input prior _)
              keyed (record { table = omega arith }))
          e).table
      where
        n : ℕ
        n = count_where (is_credit k) store.transactions
