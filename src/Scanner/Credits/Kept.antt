-- ===== src/Scanner/Credits/Kept.antt =====
-- What the credits of a list of blocks keep of the transaction table, and what they leave in it.
use crypto_gateway_rp.Common.{
  ℕ, ◌≡◌, ◌∙◌, ◌⊎◌, ap, refl, sym, subst, inl, inr, true, Option, none, some, get_or, List, [], ◌∷◌,
  Option-cases,
}
use mathlib.Core.Option.{some-injective}
use crypto_gateway_rp.Store.{Chain, Wallet, Transaction, Store}
use crypto_gateway_rp.Store.Queries.{count_where}
use crypto_gateway_rp.Store.Counts.{Has}
use crypto_gateway_rp.Checkout.{EventKey, has_key}
use crypto_gateway_rp.Webhook.Preserve.{Holds}
use crypto_gateway_rp.Deposit.Parts.{Incoming, event_key}
use crypto_gateway_rp.Deposit.Unique.{IsKeyed, upsert-IsKeyed}
use crypto_gateway_rp.Deposit.Recorded.{is_chain_hash, upsert-records, upsert-keeps_events}
use crypto_gateway_rp.Deposit.{upsert_incoming_transaction}
use crypto_gateway_rp.Scanner.{advance_scanner}
use crypto_gateway_rp.Scanner.Credits.{
  ScanSettings, Arrival, Credited, done, thrown, store_of, Fetched, credit_of, credit_log,
  credit_logs, credit_blocks,
}

-- The keys of the table are unique, and one row stands for the event.
pub record Stands (k : EventKey) (next : ℕ) (xs : List Transaction) : Type 0 where
  pub keyed : IsKeyed next xs
  pub one : count_where (has_key k) xs ≡ 1

abbrev WhenDone : (Store → Type 0) → Credited → Type 0
WhenDone P (done store) = P store
WhenDone P (thrown store) = Unit {0}

WhenDone-all : (P : Store → Type 0) (r : Credited) → P (store_of r) → WhenDone P r
WhenDone-all P (done store) h = h
WhenDone-all P (thrown store) h = tt

Credited-cases :
    (r : Credited) → ((store : Store) × (r ≡ done store)) ⊎ ((store : Store) × (r ≡ thrown store))
Credited-cases (done store) = inl (store, refl)
Credited-cases (thrown store) = inr (store, refl)

pub credit_log-IsKeyed :
    (s : ScanSettings) (a : Arrival) (r : Option Incoming) (store after : Store)
    → Holds IsKeyed store
    → credit_log s a r store ≡ some after
    → Holds IsKeyed after
credit_log-IsKeyed s a none store after h e = subst (Holds IsKeyed) (some-injective _ _ e) h
credit_log-IsKeyed s a (some input) store after h e =
    upsert-IsKeyed s.config a.post a.now a.fresh store input after h e

pub credit_log-Stands :
    (s : ScanSettings) (k : EventKey)
    → is_chain_hash k.tx_hash ≡ true
    → (a : Arrival) (r : Option Incoming) (store after : Store) → Holds (Stands k) store
    → credit_log s a r store ≡ some after
    → Holds (Stands k) after
credit_log-Stands s k plain a none store after h e =
    subst (Holds (Stands k)) (some-injective _ _ e) h
credit_log-Stands s k plain a (some input) store after h e =
    let keyed : Holds IsKeyed store = record { table = h.table.keyed } in
    record {
      table = record {
        keyed = (credit_log-IsKeyed s a (some input) store after keyed e).table;
        one =
            upsert-keeps_events s.config a.post a.now a.fresh store input after k keyed plain
              h.table.one e;
      };
    }

module _ (s : ScanSettings) (P : ℕ → List Transaction → Type 0)
    (keep : (a : Arrival) (r : Option Incoming) (store after : Store)
      → Holds P store
      → credit_log s a r store ≡ some after
      → Holds P after)
    (chain : Chain) (wallets : List Wallet) (tip : ℕ) where
  credit_logs-Holds :
      (b : ℕ) (logs : List Arrival) (store : Store)
      → Holds P store
      → Holds P (store_of (credit_logs s chain wallets tip b logs store))
  unfolding credit_logs
  credit_logs-Holds b [] store h = h
  credit_logs-Holds b (a ∷ rest) store h =
      elim (Option-cases (credit_log s a (credit_of s chain wallets tip b a.transfer_log) store)) [
        | inl e ↦ rw (credit_logs, e) h
        | inr (after, e) ↦
            rw (credit_logs, e) (credit_logs-Holds b rest after (keep a _ store after h e))
      ]

  pub credit_blocks-Holds :
      (fetched : Fetched) (bs : List ℕ) (store : Store)
      → Holds P store
      → Holds P (store_of (credit_blocks s chain wallets tip fetched bs store).1)
  unfolding credit_blocks
  credit_blocks-Holds fetched [] store h = h
  credit_blocks-Holds fetched (b ∷ bs) store h =
      let k = credit_logs-Holds b (get_or (fetched b) []) store h in
      elim (Credited-cases (credit_logs s chain wallets tip b (get_or (fetched b) []) store)) [
        | inl (after, e) ↦
            let kept : Holds P after = subst (λ r. Holds P (store_of r)) e k in
            rw (credit_blocks, e)
              (credit_blocks-Holds fetched bs (advance_scanner chain b after)
                (record { table = kept.table }))
        | inr (after, e) ↦
            let kept : Holds P after = subst (λ r. Holds P (store_of r)) e k in
            rw (credit_blocks, e) kept
      ]

module _ (s : ScanSettings) (chain : Chain) (wallets : List Wallet) (tip b : ℕ)
    (input : Incoming) where
  -- A log that is credited is recorded once the block is done.
  credit_logs-Stands :
      is_chain_hash input.tx_hash ≡ true
      → (a : Arrival) → credit_of s chain wallets tip b a.transfer_log ≡ some input
      → (logs : List Arrival) (store : Store) → Has a logs
      → Holds IsKeyed store
      → WhenDone (Holds (Stands (event_key input))) (credit_logs s chain wallets tip b logs store)
  unfolding credit_logs
  credit_logs-Stands plain a found [] store m h = absurd m
  credit_logs-Stands plain a found (x ∷ rest) store m h =
      elim (Option-cases (credit_log s x (credit_of s chain wallets tip b x.transfer_log) store)) [
        | inl e ↦ rw (credit_logs, e) tt
        | inr (after, e) ↦
            rw (credit_logs, e)
              (elim m [
                | inl q ↦
                    WhenDone-all (Holds (Stands (event_key input)))
                      (credit_logs s chain wallets tip b rest after)
                      (credit_logs-Holds s (Stands (event_key input))
                        (credit_log-Stands s (event_key input) plain) chain wallets tip b rest after
                        (here after q e))
                | inr n ↦
                    credit_logs-Stands plain a found rest after n
                      (credit_log-IsKeyed s x _ store after h e)
              ])
      ]
    where
      here :
          (after : Store)
          → x ≡ a
          → credit_log s x (credit_of s chain wallets tip b x.transfer_log) store ≡ some after
          → Holds (Stands (event_key input)) after
      here after q e =
          let e2 : upsert_incoming_transaction s.config x.post x.now x.fresh store input
              ≡ some after =
            ap (λ r. credit_log s x r store)
              (sym (ap (λ (y : Arrival). credit_of s chain wallets tip b y.transfer_log) q ∙ found))
            ∙ e in
          record {
            table = record {
              keyed = (upsert-IsKeyed s.config x.post x.now x.fresh store input after h e2).table;
              one = upsert-records s.config x.post x.now x.fresh store input after h e2;
            };
          }

module _ (s : ScanSettings) (chain : Chain) (wallets : List Wallet) (tip : ℕ) (fetched : Fetched)
    (b : ℕ) (logs : List Arrival) (a : Arrival) (input : Incoming) where
  pub credit_blocks-Stands :
      fetched b ≡ some logs
      → Has a logs
      → credit_of s chain wallets tip b a.transfer_log ≡ some input
      → is_chain_hash input.tx_hash ≡ true
      → (bs : List ℕ) (store : Store) → Holds IsKeyed store
      → Has b (credit_blocks s chain wallets tip fetched bs store).0
      → Holds
          (Stands (event_key input))
          (store_of (credit_blocks s chain wallets tip fetched bs store).1)
  unfolding credit_blocks
  credit_blocks-Stands got m found plain [] store h done_b = absurd done_b
  credit_blocks-Stands got m found plain (c ∷ bs) store h done_b =
      elim (Credited-cases (credit_logs s chain wallets tip c (get_or (fetched c) []) store)) [
        | inr (after, e) ↦ absurd (rw (credit_blocks, e) at done_b)
        | inl (after, e) ↦
            rw (credit_blocks, e)
              (elim (first after e done_b) [
                | inl q ↦
                    credit_blocks-Holds s (Stands (event_key input))
                      (credit_log-Stands s (event_key input) plain) chain wallets tip fetched bs
                      (advance_scanner chain c after) (record { table = (here after q e).table })
                | inr n ↦
                    credit_blocks-Stands got m found plain bs (advance_scanner chain c after)
                      (record { table = (keyed after e).table }) n
              ])
      ]
    where
      first :
          (after : Store)
          → credit_logs s chain wallets tip c (get_or (fetched c) []) store ≡ done after
          → Has b (credit_blocks s chain wallets tip fetched (c ∷ bs) store).0
          → (c ≡ b)
            ⊎ Has b (credit_blocks s chain wallets tip fetched bs (advance_scanner chain c after)).0
      first after e h = rw (credit_blocks, e) at h

      keyed :
          (after : Store)
          → credit_logs s chain wallets tip c (get_or (fetched c) []) store ≡ done after
          → Holds IsKeyed after
      keyed after e =
          subst (λ r. Holds IsKeyed (store_of r)) e
            (credit_logs-Holds s IsKeyed (credit_log-IsKeyed s) chain wallets tip c
              (get_or (fetched c) []) store h)

      here :
          (after : Store)
          → c ≡ b
          → credit_logs s chain wallets tip c (get_or (fetched c) []) store ≡ done after
          → Holds (Stands (event_key input)) after
      here after q e =
          let all : Has a (get_or (fetched c) []) =
            subst (λ o. Has a (get_or o [])) (sym (ap fetched q ∙ got)) m in
          let is_credit : credit_of s chain wallets tip c a.transfer_log ≡ some input =
            ap (λ n. credit_of s chain wallets tip n a.transfer_log) q ∙ found in
          subst (WhenDone (Holds (Stands (event_key input)))) e (
            credit_logs-Stands s chain wallets tip c input plain a is_credit (get_or (fetched c) [])
              store all h)
