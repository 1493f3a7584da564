-- ===== src/Expiry/Drain.antt =====
-- The expiry loop ends, and leaves no stale placeholder behind.
use crypto_gateway_rp.Common.{
  ℕ, zero, suc, ◌+◌, ◌≤◌, ◌<◌, ◌≡◌, refl, sym, ◌∙◌, Bool, true, false, ◌&&◌, Option, none, some,
  List, [], ◌∷◌, ◌==◌, ==_iff, if_cases, arith,
}
use crypto_gateway_rp.Text.{Text, codes}
use crypto_gateway_rp.Store.{TxStatus, Transaction, Store}
use crypto_gateway_rp.Store.Queries.{update_where, count_where}
use crypto_gateway_rp.Store.Counts.{count-update_same}
use crypto_gateway_rp.Webhook.{
  Post, notify_payment_failed, claims, count_attempt, is_active_row, mark_delivered,
}
use crypto_gateway_rp.Webhook.Preserve.{Holds, notify-Holds}
use crypto_gateway_rp.Deposit.{release_wallet_after_deposit_success}
use crypto_gateway_rp.Expiry.{
  is_stale_placeholder, stale_batch, mark_failed, is_still_stale, Progress, expire_row, expire_rows,
  expire_batches, expire_stale_created_checkout_transactions, expiry_cutoff, expiry_batch_size,
}
use crypto_gateway_rp.Expiry.Batch.{
  count-update_out, Has-count, Has-filter, Has-oldest_first, length-oldest_first, take_head,
  take_empty,
}

module _ (knows_created : Bool) (post : Post) (now cutoff : ℕ) where
  stale : Transaction → Bool
  stale = is_stale_placeholder knows_created cutoff

  -- At most `n` rows are stale.
  AtMost : ℕ → ℕ → List Transaction → Type 0
  AtMost n next xs = count_where stale xs ≤ n

  notify_payment_failed-AtMost :
      (n : ℕ) (reason : Option Text) (store : Store) (id : ℕ)
      → Holds (AtMost n) store
      → Holds (AtMost n) (notify_payment_failed post reason now store id)
  unfolding notify_payment_failed stale AtMost is_stale_placeholder
  notify_payment_failed-AtMost n reason store id h =
      notify-Holds (AtMost n) now
        (λ next status id xs k. omega (
          arith,
          k,
          count-update_same (claims status now id) (count_attempt now) stale (λ t. refl) xs,
        ))
        (λ next id xs k. omega (
          arith,
          k,
          count-update_same (is_active_row id) (mark_delivered now) stale (λ t. refl) xs,
        ))
        post TxStatus.failed _ store id h

  failed_is_not_stale : (t : Transaction) → stale (mark_failed now t) ≡ false
  unfolding stale is_stale_placeholder
  failed_is_not_stale t = and_false _
    where
      and_false : (a : Bool) → (a && false) ≡ false
      and_false a = ground arith

  expire_row-AtMost :
      (n : ℕ) (p : Progress) (row : Transaction)
      → count_where stale p.store.transactions
        ≤ n + count_where (is_still_stale knows_created cutoff row.id) p.store.transactions
      → Holds (AtMost n) (expire_row knows_created post now cutoff p row).store
  unfolding expire_row AtMost release_wallet_after_deposit_success stale
  expire_row-AtMost n p row h =
      if_cases (λ (q : Progress). Holds (AtMost n) q.store)
        (count_where still p.store.transactions == 1)
        (notify_payment_failed-AtMost n (some (codes "checkout_expired_unpaid")) _ row.id
          (record { table = fewer }))
        (record { table = fewer })
    where
      still : Transaction → Bool
      still = is_still_stale knows_created cutoff row.id

      and_right : (a b : Bool) → (a && b) ≡ true → b ≡ true
      and_right a b h = ground arith

      fewer : count_where stale (update_where still (mark_failed now) p.store.transactions) ≤ n
      fewer = omega (
        arith,
        h,
        count-update_out still stale (mark_failed now)
            (λ t e. and_right (t.id == row.id) (stale t) e) failed_is_not_stale
            p.store.transactions,
      )

  expire_rows-AtMost :
      (n : ℕ) (rows : List Transaction) (p : Progress)
      → Holds (AtMost n) p.store
      → Holds (AtMost n) (expire_rows knows_created post now cutoff p rows).store
  unfolding expire_rows AtMost
  expire_rows-AtMost n [] p h = h
  expire_rows-AtMost n (row ∷ rows) p h =
      expire_rows-AtMost n rows (expire_row knows_created post now cutoff p row)
        (expire_row-AtMost n p row (omega (arith, h.table)))

  -- A batch that is not empty begins with a stale row of the table.
  batch_head :
      (size : ℕ) (store : Store) {r : Transaction} {rest : List Transaction}
      → stale_batch knows_created cutoff size store ≡ (r ∷ rest)
      → 1 ≤ count_where (is_still_stale knows_created cutoff r.id) store.transactions
  unfolding stale_batch stale
  batch_head size store {r} e =
      let (m, h) =
        Has-filter stale r store.transactions (Has-oldest_first r _ (take_head size _ e)) in
      Has-count (is_still_stale knows_created cutoff r.id) r store.transactions m
        (both (r.id == r.id) (stale r) ((==_iff _ _).1 refl) h)
    where
      both : (a b : Bool) → a ≡ true → b ≡ true → (a && b) ≡ true
      both a b h k = ground arith

  batch_empty :
      (size : ℕ) (store : Store)
      → stale_batch knows_created cutoff (suc size) store ≡ []
      → count_where stale store.transactions ≡ 0
  unfolding stale_batch stale
  batch_empty size store e = sym (length-oldest_first _) ∙ take_empty size _ e

  Drained : Option Progress → Type 0
  Drained r = (q : Progress) × (r ≡ some q) × (count_where stale q.store.transactions ≡ 0)

  one_pass :
      (size fuel : ℕ) (p : Progress)
      → ((row : Transaction) (rows : List Transaction)
          → 1 ≤ count_where (is_still_stale knows_created cutoff row.id) p.store.transactions
          → Drained (
              expire_batches knows_created post now cutoff
                (suc size)
                fuel
                (expire_rows knows_created post now cutoff p (row ∷ rows))))
      → Drained (expire_batches knows_created post now cutoff (suc size) (suc fuel) p)
  unfolding expire_batches Drained
  one_pass size fuel p next = pass (stale_batch knows_created cutoff (suc size) p.store) refl
    where
      pass :
          (batch : List Transaction)
          → stale_batch knows_created cutoff (suc size) p.store ≡ batch
          → Drained (elim batch [
            | [] ↦ some p
            | row ∷ rows ↦
                expire_batches knows_created post now cutoff
                  (suc size)
                  fuel
                  (expire_rows knows_created post now cutoff p (row ∷ rows))
          ])
      pass [] e = (p, refl, batch_empty size p.store e)
      pass (row ∷ rows) e = next row rows (batch_head (suc size) p.store e)

  still_is_stale :
      (id : ℕ) (xs : List Transaction)
      → count_where (is_still_stale knows_created cutoff id) xs ≤ count_where stale xs
  unfolding stale
  still_is_stale id [] = omega arith
  still_is_stale id (x ∷ xs) = ground (arith, still_is_stale id xs)

  -- With more passes than stale rows the loop ends, and then no row is stale.
  expire_batches-Drained :
      (size fuel : ℕ) (p : Progress)
      → Holds (AtMost fuel) p.store
      → Drained (expire_batches knows_created post now cutoff (suc size) (suc fuel) p)
  unfolding AtMost expire_rows
  expire_batches-Drained size zero p h = one_pass size zero p (λ row rows one.
      absurd (omega (arith, one, h.table, still_is_stale row.id p.store.transactions)))
  expire_batches-Drained size (suc fuel) p h = one_pass size (suc fuel) p (λ row rows one.
      expire_batches-Drained size fuel _ (
        expire_rows-AtMost fuel rows _
          (expire_row-AtMost fuel p row (omega (arith, one, h.table)))))

-- A tick of the expiry job ends, after at most one pass more than there are stale placeholders (for
-- any batch size that is asked for and whatever the merchants' endpoints answer), and in the table
-- that it leaves no active unpaid checkout is older than the limit.
pub expire_stale_created_checkout_transactions-drains :
    (knows_created : Bool) (post : Post) (now hours : ℕ) (batch : Option ℕ) (store : Store)
    (fuel : ℕ)
    → count_where (is_stale_placeholder knows_created (expiry_cutoff hours now)) store.transactions
      < fuel
    → (q : Progress) × (expire_stale_created_checkout_transactions knows_created post now hours
          batch fuel store
        ≡ some q)
      × (count_where
            (is_stale_placeholder knows_created (expiry_cutoff hours now))
            q.store.transactions
          ≡ 0)
unfolding expire_stale_created_checkout_transactions stale AtMost Drained
expire_stale_created_checkout_transactions-drains knows_created post now hours batch store
      (suc fuel) h =
    at_size (expiry_batch_size batch) (size_positive batch)
  where
    size_positive : (b : Option ℕ) → 1 ≤ expiry_batch_size b
    size_positive none = omega arith
    size_positive (some n) = ground arith

    at_size :
        (size : ℕ)
        → 1 ≤ size
        → (q : Progress) × (expire_batches knows_created post now
              (expiry_cutoff hours now)
              size
              (suc fuel)
              (record { store = store; total_expired = 0 })
            ≡ some q)
          × (count_where
                (is_stale_placeholder knows_created (expiry_cutoff hours now))
                q.store.transactions
              ≡ 0)
    at_size zero e = absurd (omega (arith, e))
    at_size (suc size) e =
        expire_batches-Drained knows_created post now (expiry_cutoff hours now) size fuel
          (record { store = store; total_expired = 0 }) (record { table = omega (arith, h) })
expire_stale_created_checkout_transactions-drains knows_created post now hours batch store zero h =
    absurd (omega (arith, h))
