-- ===== src/Deposit/Final.antt =====
-- A settled credit is final: no upsert changes or loses it.
use crypto_gateway_rp.Common.{
  ℕ, ◌≤◌, ◌≡◌, refl, sym, subst, ◌&&◌, Bool, true, false, Option, none, some, List, [], ◌∷◌, ◌==◌,
  ==_iff, if_cases, is_some, arith, All, All-mono,
}
use crypto_gateway_rp.Text.{Text, eq_text}
use crypto_gateway_rp.Store.{TxStatus, success, created, eq_status, is_active, Transaction, Store}
use crypto_gateway_rp.Store.Queries.{count_where}
use crypto_gateway_rp.Store.Counts.{count-update_same, count-update-ge, unique_row, find-Has}
use crypto_gateway_rp.Checkout.{has_key, non_empty}
use crypto_gateway_rp.Webhook.{Post, claims, count_attempt, is_active_row, mark_delivered}
use crypto_gateway_rp.Webhook.Preserve.{Holds}
use crypto_gateway_rp.Deposit.Preserve.{upsert-Holds}
use crypto_gateway_rp.Deposit.Target.{merge_target-OnChain}
use crypto_gateway_rp.Deposit.Unique.{IsKeyed, has_id}
use crypto_gateway_rp.Deposit.Parts.{
  Config, Incoming, CreateKeys, in_session, merge_target, next_status, event_key, prior_row,
  merged_row,
}
use crypto_gateway_rp.Deposit.{
  updated_row, write_credit, recorded, remove_placeholders, is_left_over, Written, insert_new,
  merge_into, uses_raw_upsert, upsert_incoming_transaction,
}

-- The row is the settled credit of the given id, wallet, transaction hash, recipient and amount.
abbrev pub is_settled : ℕ → ℕ → Text → Text → Text → Transaction → Bool
is_settled id wallet hash to amount t =
    eq_status t.status success
    && t.id == id
    && t.wallet_id == wallet
    && eq_text t.tx_hash hash
    && eq_text t.to_address to
    && eq_text t.amount amount
    && is_active t.deleted_at

module _ (id wallet : ℕ) (hash to amount : Text) where
  settled : Transaction → Bool
  settled = is_settled id wallet hash to amount

  -- At least `n` rows are this settled credit.
  AtLeast : ℕ → ℕ → List Transaction → Type 0
  AtLeast n next xs = n ≤ count_where settled xs

  status_first : (t : Transaction) → settled t ≡ true → eq_status t.status success ≡ true
  unfolding settled
  status_first t h =
      first (eq_status t.status success) (t.id == id) (t.wallet_id == wallet) _ _ _ _ h
    where
      first : (a b c d e f g : Bool) → (a && b && c && d && e && f && g) ≡ true → a ≡ true
      first a b c d e f g h = ground arith

  -- Another status than success, and the row does not count.
  unsettled : (t : Transaction) → eq_status t.status success ≡ false → settled t ≡ true → ⊥
  unsettled t e h = cc (status_first t h)

  success-settled :
      (raw : Bool) (now : ℕ) (input : Incoming) (status : TxStatus) (t : Transaction)
      → status ≡ success
      → settled t ≡ true
      → settled (updated_row raw now input status t) ≡ true
  unfolding settled
  success-settled raw now input status t e h =
      subst (λ s. settled (updated_row raw now input s t) ≡ true) (sym e)
        (rest (eq_status t.status success) (t.id == id) (t.wallet_id == wallet)
          (eq_text t.tx_hash hash) (eq_text t.to_address to) (eq_text t.amount amount)
          (is_active t.deleted_at) h)
    where
      rest :
          (a b c d e f g : Bool)
          → (a && b && c && d && e && f && g) ≡ true
          → (true && b && c && d && e && f && g) ≡ true
      rest a b c d e f g h = ground arith

  everywhere-All :
      {P : Transaction → Type 0} → ((t : Transaction) → P t) → (xs : List Transaction) → All P xs
  everywhere-All h [] = tt
  everywhere-All h (x ∷ xs) = (h x, everywhere-All h xs)

  left_over_unpaid :
      (row t : Transaction) → is_left_over row t ≡ true → eq_status t.status success ≡ false
  left_over_unpaid row t h = created_unpaid t.status (
      third (t.wallet_id == row.wallet_id) (in_session row.deposit_session_key t)
        (eq_status t.status created) (is_active t.deleted_at) h)
    where
      third : (a b c d : Bool) → (a && b && c && d) ≡ true → c ≡ true
      third a b c d h = ground arith

      created_unpaid : (s : TxStatus) → eq_status s created ≡ true → eq_status s success ≡ false
      created_unpaid TxStatus.pending h = refl
      created_unpaid success h = cc
      created_unpaid TxStatus.failed h = refl
      created_unpaid TxStatus.underpaid h = refl
      created_unpaid created h = refl

  module _ (cfg : Config) (post : Post) (now : ℕ) (fresh : Text) where
    next_status-success :
        (store : Store) (input : Incoming) (prior : Transaction) (keys : CreateKeys)
        → eq_status prior.status success ≡ true
        → next_status cfg store input (some prior) keys ≡ success
    unfolding next_status
    next_status-success store input prior keys h = rw h refl

    write_credit-AtLeast :
        (n : ℕ) (store : Store) (input : Incoming) (prior : Option Transaction) (keys : CreateKeys)
        → prior_row store input ≡ prior
        → Holds IsKeyed store
        → Holds (AtLeast n) store
        → AtLeast n
            (write_credit cfg now store input prior keys
              (next_status cfg store input prior keys)).next_transaction_id
            (write_credit cfg now store input prior keys
              (next_status cfg store input prior keys)).transactions
    unfolding write_credit AtLeast
    write_credit-AtLeast n store input (some prior) keys e k h =
        let status = next_status cfg store input (some prior) keys in
        let (here, hit) = find-Has (has_key (event_key input)) store.transactions {t = prior} e in
        omega (
          arith,
          h.table,
          count-update-ge (has_key (event_key input))
              (updated_row (uses_raw_upsert cfg status) now input status) settled store.transactions
              (All-mono
                (λ t same b q.
                  success-settled (uses_raw_upsert cfg status) now input status t
                    (next_status-success store input prior keys
                      (subst (λ u. eq_status u.status success ≡ true) (same b) (status_first t q)))
                    q)
                _
                (unique_row (has_key (event_key input)) prior _ here hit
                  (k.table.one_per_event (event_key input)))),
        )
    write_credit-AtLeast n store input none keys e k h =
        placed (merge_target cfg store input keys status) refl
      where
        status : TxStatus
        status = next_status cfg store input none keys

        taken : Option Transaction → Written
        taken r = elim r [
          | none ↦ insert_new now store input keys status
          | some t ↦ merge_into now store input keys status t
        ]

        placed :
            (r : Option Transaction)
            → merge_target cfg store input keys status ≡ r
            → n ≤ count_where settled (taken r).transactions
        placed none found = ground (arith, h.table)
        placed (some t) found =
            let (here, chain, unpaid, open_row) =
              merge_target-OnChain cfg store input keys status found in
            omega (
              arith,
              h.table,
              count-update-ge (has_id t.id) (merged_row now input keys.payer_user_id status) settled
                  store.transactions
                  (All-mono
                    (λ u same b q. absurd (
                      unsettled u
                        (subst (λ v. eq_status v.status success ≡ false) (sym (same b)) unpaid) q))
                    _
                    (unique_row (has_id t.id) t _ here ((==_iff _ _).1 refl)
                      (k.table.one_per_id t.id))),
            )

    recorded-AtLeast :
        (n : ℕ) (store : Store) (input : Incoming) (prior : Option Transaction) (keys : CreateKeys)
        → prior_row store input ≡ prior
        → Holds IsKeyed store
        → Holds (AtLeast n) store
        → Holds
            (AtLeast n)
            (recorded cfg now store input prior keys (next_status cfg store input prior keys))
    unfolding recorded remove_placeholders AtLeast
    recorded-AtLeast n store input prior keys e k h =
        let w =
          write_credit cfg now store input prior keys (next_status cfg store input prior keys) in
        let before : n ≤ count_where settled w.transactions =
          write_credit-AtLeast n store input prior keys e k h in
        record {
          table =
              if_cases (AtLeast n w.next_transaction_id)
                (is_some (non_empty w.row.deposit_session_key) && cfg.knows_created)
                (omega (
                  arith,
                  before,
                  count-update-ge (is_left_over w.row)
                      (λ t. record t { deleted_at = some now; updated_at = now }) settled
                      w.transactions
                      (everywhere-All (λ t b q. absurd (unsettled t (left_over_unpaid w.row t b) q))
                        w.transactions),
                ))
                before;
        }

  -- When the keys of the table are unique, then no upsert lowers the number of rows that have status
  -- success, a given id, wallet, transaction hash, recipient and amount, and are not deleted.
  pub upsert-keeps_settled :
      (cfg : Config) (post : Post) (now : ℕ) (fresh : Text) (store : Store) (input : Incoming)
      (after : Store)
      → Holds IsKeyed store
      → upsert_incoming_transaction cfg post now fresh store input ≡ some after
      → count_where (is_settled id wallet hash to amount) store.transactions
        ≤ count_where (is_settled id wallet hash to amount) after.transactions
  unfolding AtLeast settled
  upsert-keeps_settled cfg post now fresh store input after k e =
      (upsert-Holds (AtLeast n) now
        (λ next status i xs h. omega (
          arith,
          h,
          count-update_same (claims status now i) (count_attempt now) settled (λ t. refl) xs,
        ))
        (λ next i xs h. omega (
          arith,
          h,
          count-update_same (is_active_row i) (mark_delivered now) settled (λ t. refl) xs,
        ))
        cfg post fresh store input after (λ t q. record { table = omega arith })
        (λ prior q.
          recorded-AtLeast cfg post now fresh n store input prior _ q k
            (record { table = omega arith }))
        e).table
    where
      n : ℕ
      n = count_where settled store.transactions
