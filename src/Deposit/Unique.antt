-- ===== src/Deposit/Unique.antt =====
-- The keys of the table: no two rows have one id, and no two rows stand for one on-chain event.
use crypto_gateway_rp.Common.{
  ℕ, suc, ◌≤◌, ◌<◌, ◌≡◌, refl, sym, ap, subst, is_some, inl, inr, Bool, true, ◌&&◌, Option, none,
  some, List, [], ◌∷◌, eqb_ℤ, eq_of_parts, ◌==◌, ==_iff, arith, All, All-mono, ◌∙◌, Bool-cases,
  if_cases,
}
use crypto_gateway_rp.Text.{Text, eq_text}
use crypto_gateway_rp.Text.Laws.{eq_text→≡}
use crypto_gateway_rp.Store.{Chain, chain_index, eq_chain, TxStatus, Transaction, Store}
use crypto_gateway_rp.Store.Queries.{update_where, update_where-All, count_where}
use crypto_gateway_rp.Store.Counts.{
  count-update_same, count-update-le, count-update_drop, count-find-none, unique_row,
}
use crypto_gateway_rp.Checkout.{EventKey, has_key, non_empty}
use crypto_gateway_rp.Webhook.{Post, claims, count_attempt, is_active_row, mark_delivered}
use crypto_gateway_rp.Webhook.Preserve.{Holds}
use crypto_gateway_rp.Deposit.Preserve.{upsert-Holds}
use crypto_gateway_rp.Deposit.Target.{merge_target-OnChain}
use crypto_gateway_rp.Deposit.Parts.{
  merge_target, Config, Incoming, CreateKeys, event_key, prior_row, merged_row,
}
use crypto_gateway_rp.Deposit.{
  updated_row, write_credit, recorded, remove_placeholders, is_left_over, Written, insert_new,
  merge_into, uses_raw_upsert, upsert_incoming_transaction,
}

abbrev pub has_id : ℕ → Transaction → Bool
has_id i t = t.id == i

abbrev pub event_of : Transaction → EventKey
event_of t = record { chain = t.chain; tx_hash = t.tx_hash; log_index = t.log_index }

abbrev pub eq_event : EventKey → EventKey → Bool
eq_event k e =
    eq_chain e.chain k.chain && eq_text e.tx_hash k.tx_hash && eqb_ℤ e.log_index k.log_index

-- The primary key, the sequence behind it, and the unique index tx_chain_log_unique.
pub record IsKeyed (next : ℕ) (xs : List Transaction) : Type 0 where
  pub one_per_id : (i : ℕ) → count_where (has_id i) xs ≤ 1
  pub one_per_event : (k : EventKey) → count_where (has_key k) xs ≤ 1
  pub below : All (λ t. t.id < next) xs

-- An update that touches neither key keeps both.
pub update-IsKeyed :
    (p : Transaction → Bool) (f : Transaction → Transaction)
    → ((t : Transaction) → (f t).id ≡ t.id)
    → ((t : Transaction) → event_of (f t) ≡ event_of t)
    → (next : ℕ) (xs : List Transaction) → IsKeyed next xs
    → IsKeyed next (update_where p f xs)
update-IsKeyed p f same_id same_event next xs h = record {
  one_per_id = λ i. omega (
    arith,
    h.one_per_id i,
    count-update_same p f (has_id i) (λ t. ap (λ j. j == i) (same_id t)) xs,
  );
  one_per_event = λ k. omega (
    arith,
    h.one_per_event k,
    count-update_same p f (has_key k) (λ t. ap (eq_event k) (same_event t)) xs,
  );
  below =
      update_where-All (λ t. t.id < next) p f (λ t b e. subst (λ j. j < next) (sym (same_id t)) b)
        xs h.below;
}

attempt-IsKeyed :
    (now next : ℕ) (status : TxStatus) (id : ℕ) (xs : List Transaction)
    → IsKeyed next xs
    → IsKeyed next (update_where (claims status now id) (count_attempt now) xs)
attempt-IsKeyed now next status id =
    update-IsKeyed (claims status now id) (count_attempt now) (λ t. refl) (λ t. refl) next

delivery-IsKeyed :
    (now next id : ℕ) (xs : List Transaction)
    → IsKeyed next xs
    → IsKeyed next (update_where (is_active_row id) (mark_delivered now) xs)
delivery-IsKeyed now next id =
    update-IsKeyed (is_active_row id) (mark_delivered now) (λ t. refl) (λ t. refl) next

pub chain_index_injective : (a b : Chain) → chain_index a ≡ chain_index b → a ≡ b
chain_index_injective a b h = ground arith

eq_event→≡ : (k e : EventKey) → eq_event k e ≡ true → k ≡ e
eq_event→≡ k e h =
    let parts = split _ _ _ h in
    let c = chain_index_injective k.chain e.chain (sym ((==_iff _ _).0 parts.0)) in
    let x = eq_text→≡ e.tx_hash k.tx_hash parts.1 in
    let l = eq_of_parts k.log_index e.log_index (sym ((==_iff _ _).0 parts.2)) in
    λ i. record { chain = c i; tx_hash = sym x i; log_index = l i }
  where
    split : (a b c : Bool) → (a && b && c) ≡ true → (a ≡ true) × (b ≡ true) × (c ≡ true)
    split a b c h = ground arith

-- A new event for at most one row, where no row had it.
merge-IsKeyed :
    (f : Transaction → Transaction) (id : ℕ) (ev : EventKey)
    → ((t : Transaction) → (f t).id ≡ t.id)
    → (next : ℕ) (xs : List Transaction) → All (λ t. has_id id t ≡ true → event_of (f t) ≡ ev) xs
    → count_where (has_key ev) xs ≡ 0
    → IsKeyed next xs
    → IsKeyed next (update_where (has_id id) f xs)
merge-IsKeyed f id ev same_id next xs new_event fresh h = record {
  one_per_id = λ i. omega (
    arith,
    h.one_per_id i,
    count-update_same (has_id id) f (has_id i) (λ t. ap (λ j. j == i) (same_id t)) xs,
  );
  one_per_event = λ k. elim (Bool-cases (eq_event k ev)) [
    | inl e ↦
        subst (λ k. count_where (has_key k) (update_where (has_id id) f xs) ≤ 1)
          (sym (eq_event→≡ k ev e))
          (omega (arith, fresh, h.one_per_id id, count-update-le (has_id id) f (has_key ev) xs))
    | inr e ↦ omega (
      arith,
      h.one_per_event k,
      count-update_drop (has_id id) f (has_key k) xs
          (All-mono (λ t g b. ap (eq_event k) (g b) ∙ e) xs new_event),
    )
  ];
  below =
      update_where-All (λ t. t.id < next) (has_id id) f
        (λ t b e. subst (λ j. j < next) (sym (same_id t)) b) xs h.below;
}

no_id_at_bound :
    (next : ℕ) (xs : List Transaction)
    → All (λ t. t.id < next) xs
    → count_where (has_id next) xs ≡ 0
no_id_at_bound next [] h = refl
no_id_at_bound next (x ∷ xs) h = ground (arith, no_id_at_bound next xs h.1)

insert-IsKeyed :
    (row : Transaction) (next : ℕ) (xs : List Transaction)
    → row.id ≡ next
    → count_where (has_key (event_of row)) xs ≡ 0
    → IsKeyed next xs
    → IsKeyed (suc next) (row ∷ xs)
insert-IsKeyed row next xs e fresh h = record {
  one_per_id = λ i. elim (Bool-cases (row.id == i)) [
    | inl hit ↦
        let none_there : count_where (has_id i) xs ≡ 0 =
          subst (λ j. count_where (has_id j) xs ≡ 0) (sym e ∙ (==_iff _ _).0 hit)
            (no_id_at_bound next xs h.below) in
        rw hit (omega arith)
    | inr miss ↦ rw miss (h.one_per_id i)
  ];
  one_per_event = λ k. elim (Bool-cases (eq_event k (event_of row))) [
    | inl hit ↦
        let none_there : count_where (has_key k) xs ≡ 0 =
          subst (λ k. count_where (has_key k) xs ≡ 0) (sym (eq_event→≡ k (event_of row) hit))
            fresh in
        rw hit (omega arith)
    | inr miss ↦ rw miss (h.one_per_event k)
  ];
  below = (omega arith, All-mono (λ t b. omega arith) xs h.below);
}

module _ (cfg : Config) (post : Post) (now : ℕ) (fresh : Text) where
  write_credit-IsKeyed :
      (store : Store) (input : Incoming) (prior : Option Transaction) (keys : CreateKeys)
      (status : TxStatus)
      → prior_row store input ≡ prior
      → Holds IsKeyed store
      → IsKeyed
          (write_credit cfg now store input prior keys status).next_transaction_id
          (write_credit cfg now store input prior keys status).transactions
  unfolding write_credit
  write_credit-IsKeyed store input (some prior) keys status e h =
      update-IsKeyed (has_key (event_key input))
        (updated_row (uses_raw_upsert cfg status) now input status) (λ t. refl) (λ t. refl) _ _
        h.table
  write_credit-IsKeyed store input none keys status e h =
      placed (merge_target cfg store input keys status) refl
    where
      unseen : count_where (has_key (event_key input)) store.transactions ≡ 0
      unseen = count-find-none (has_key (event_key input)) store.transactions e

      event_on_chain :
          {t u : Transaction}
          → t.chain ≡ input.chain
          → u ≡ t
          → event_of (merged_row now input keys.payer_user_id status u) ≡ event_key input
      event_on_chain c q =
          ap (λ ch. record { chain = ch; tx_hash = input.tx_hash; log_index = input.log_index })
            (ap (λ (v : Transaction). v.chain) q ∙ c)

      taken : Option Transaction → Written
      taken r = elim r [
        | none ↦ insert_new now store input keys status
        | some t ↦ merge_into now store input keys status t
      ]

      placed :
          (r : Option Transaction)
          → merge_target cfg store input keys status ≡ r
          → IsKeyed (taken r).next_transaction_id (taken r).transactions
      placed none found = insert-IsKeyed _ _ _ refl unseen h.table
      placed (some t) found =
          let (here, chain, unpaid, open_row) =
            merge_target-OnChain cfg store input keys status found in
          merge-IsKeyed (merged_row now input keys.payer_user_id status) t.id (event_key input)
            (λ t. refl) _ _
            (All-mono (λ u same b. event_on_chain (chain_index_injective _ _ chain) (same b)) _
              (unique_row (has_id t.id) t _ here ((==_iff _ _).1 refl) (h.table.one_per_id t.id)))
            unseen h.table

  recorded-IsKeyed :
      (store : Store) (input : Incoming) (prior : Option Transaction) (keys : CreateKeys)
      (status : TxStatus)
      → prior_row store input ≡ prior
      → Holds IsKeyed store
      → Holds IsKeyed (recorded cfg now store input prior keys status)
  unfolding recorded remove_placeholders
  recorded-IsKeyed store input prior keys status e h =
      let w = write_credit cfg now store input prior keys status in
      let k = write_credit-IsKeyed store input prior keys status e h in
      record {
        table =
            if_cases (IsKeyed w.next_transaction_id)
              (is_some (non_empty w.row.deposit_session_key) && cfg.knows_created)
              (update-IsKeyed (is_left_over w.row)
                (λ t. record t { deleted_at = some now; updated_at = now }) (λ t. refl) (λ t. refl)
                _ _ k)
              k;
      }

  -- Whatever the credit, if the table has at most one row for each id and at most one row for each
  -- on-chain event (chain, transaction hash, log index), and every id is below the sequence's next
  -- value, then so it is after the upsert: replays, merges into a placeholder, inserts and the
  -- merchant's notification included.
  pub upsert-IsKeyed :
      (store : Store) (input : Incoming) (after : Store)
      → Holds IsKeyed store
      → upsert_incoming_transaction cfg post now fresh store input ≡ some after
      → Holds IsKeyed after
  upsert-IsKeyed store input after h =
      upsert-Holds IsKeyed now (attempt-IsKeyed now) (delivery-IsKeyed now) cfg post fresh store
        input after (λ t e. h) (λ prior e. recorded-IsKeyed store input prior _ _ e h)
