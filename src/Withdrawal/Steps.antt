-- ===== src/Withdrawal/Steps.antt =====
-- The life of the payouts: requests, executions and passes of the cron job, one after the other, and
-- what they have handed to the chains.
use crypto_gateway_rp.Common.{
  ℕ, suc, ◌<◌, ◌≡◌, refl, sym, subst, Bool, true, false, List, [], ◌∷◌, ◌++◌, if◌then◌else◌, ◌==◌,
  All, All-mono, arith, any, Option, is_some, ◌&&◌, ==_iff,
}
use crypto_gateway_rp.Numeric.{NumberOps}
use crypto_gateway_rp.Text.{Text}
use crypto_gateway_rp.Store.{WithdrawalStatus, processing, GatewayEnv, eq_env, Withdrawal, Store}
use crypto_gateway_rp.Store.Counts.{count-insert-le}
use crypto_gateway_rp.Balance.{Engine}
use crypto_gateway_rp.Payout.Execute.{World, PayoutOptions, execute_auto_payout, is_terminal}
use crypto_gateway_rp.Payout.Execute.Closed.{is_sent, NoRepeat, OneOpen, Closed}
use crypto_gateway_rp.Payout.Execute.Once.{execute_auto_payout-IsOnce}
use crypto_gateway_rp.Payout.Batch.{process_pending_auto_payouts}
use crypto_gateway_rp.Payout.Batch.Pass.{process_pending_auto_payouts-RunIsOnce}
use crypto_gateway_rp.Withdrawal.{
  answered, AddressLibrary, is_open_status, is_open_payout, merchant_has_pending_payout,
}
use crypto_gateway_rp.Withdrawal.Request.{
  WithdrawalRequest, Created, new_row, create_merchant_withdrawal_request,
}
use crypto_gateway_rp.Withdrawal.Created.{Creation, create_merchant_withdrawal_request-Creation}

eq_env→≡ : (a b : GatewayEnv) → eq_env a b ≡ true → a ≡ b
eq_env→≡ a b h = ground (arith, h)

-- The tables, and the ids of the withdrawals whose transfer was tried, the last first.
pub record Ledger : Type 0 where
  pub store : Store
  pub transfers : List ℕ

module _ (js : NumberOps) (sql : Engine) (lib : AddressLibrary) where
  pub data Step : Ledger → Ledger → Type 0 where
    requests :
        {l : Ledger} (now : ℕ) (suffix second_suffix : Text) (p : WithdrawalRequest) (c : Created)
        → create_merchant_withdrawal_request js sql lib now suffix second_suffix l.store p
          ≡ answered c
        → Step l (record { store = c.store; transfers = l.transfers })
    executes :
        {l : Ledger} (world : World) (opts : PayoutOptions) (id : ℕ)
        → Step l (record {
          store = (execute_auto_payout world opts l.store id).store;
          transfers = (execute_auto_payout world opts l.store id).transfers ++ l.transfers;
        })
    passes :
        {l : Ledger} (world : World) (limit stuck_minutes : ℕ)
        → Step l (record {
          store = (process_pending_auto_payouts world limit stuck_minutes l.store).store;
          transfers =
              (process_pending_auto_payouts world limit stuck_minutes l.store).transfers
              ++ l.transfers;
        })

  pub data Steps : Ledger → Ledger → Type 0 where
    stays : {l : Ledger} → Steps l l
    steps : {a b c : Ledger} → Steps a b → Step b c → Steps a c

  -- The invariant: what was sent is closed and below the sequence, and nothing was sent twice.
  pub record IsPaidOnce (l : Ledger) : Type 0 where
    pub closed : Closed l.transfers l.store
    pub no_repeat : NoRepeat l.transfers

  never_sent : (next : ℕ) (log : List ℕ) → All (λ id. id < next) log → is_sent log next ≡ false
  never_sent next [] h = refl
  never_sent next (i ∷ log) h = ground (arith, h.0, never_sent next log h.1)

  split : (a b c : Bool) → (a && b && c && true) ≡ true → (a ≡ true) × (b ≡ true)
  split a b c h = ground (arith, h)

  request-IsPaidOnce :
      (now : ℕ) (store : Store) (log : List ℕ) (p : WithdrawalRequest) (c : Created)
      → Creation js sql lib now store p c
      → IsPaidOnce (record { store = store; transfers = log })
      → IsPaidOnce (record { store = c.store; transfers = log })
  unfolding new_row
  request-IsPaidOnce now store log p c made h =
      subst (λ (x : Created). IsPaidOnce (record { store = x.store; transfers = log }))
        (sym made.made)
        (record {
          closed = (
            (
              (λ was. cc (was, never_sent store.next_withdrawal_id log h.closed.1), omega arith),
              All-mono (λ w k. (k.0, later k.1)) store.withdrawals h.closed.0,
            ),
            All-mono (λ i k. later k) log h.closed.1,
            λ m env.
                count-insert-le (is_open_payout m env)
                  (new_row js sql lib now store p made.rail made.to_address made.gross
                    made.reference made.reason)
                  store.withdrawals (λ e. alone m env (store_status made.reason) e)
                  (h.closed.2 m env),
          );
          no_repeat = h.no_repeat;
        })
    where
      store_status : Option Text → WithdrawalStatus
      store_status reason = if is_some reason then WithdrawalStatus.failed else processing

      alone :
          (m : ℕ) (env : GatewayEnv) (s : WithdrawalStatus)
          → (p.merchant_id == m && eq_env p.environment env && is_open_status s && true) ≡ true
          → any (is_open_payout m env) store.withdrawals ≡ false
      alone m env s e =
          subst (λ n. any (is_open_payout n env) store.withdrawals ≡ false)
            ((==_iff _ _).0 (split (p.merchant_id == m) _ _ e).0)
            (subst (λ v. any (is_open_payout p.merchant_id v) store.withdrawals ≡ false)
              (eq_env→≡ p.environment env (split (p.merchant_id == m) _ _ e).1)
              (unfold merchant_has_pending_payout in made.none_open))

      later : {i : ℕ} → i < store.next_withdrawal_id → i < suc store.next_withdrawal_id
      later {i} h = omega (arith, h)

  pub Step-IsPaidOnce : (a b : Ledger) → Step a b → IsPaidOnce a → IsPaidOnce b
  Step-IsPaidOnce a b (requests now suffix second_suffix p c made) h =
      request-IsPaidOnce now a.store a.transfers p c
        (create_merchant_withdrawal_request-Creation js sql lib now suffix second_suffix a.store p c
          made)
        h
  Step-IsPaidOnce a b (executes world opts id) h =
      let run = execute_auto_payout-IsOnce world opts a.transfers a.store id h.no_repeat h.closed in
      record { closed = run.closed; no_repeat = run.no_repeat }
  Step-IsPaidOnce a b (passes world limit stuck_minutes) h =
      let run =
        process_pending_auto_payouts-RunIsOnce world a.transfers limit stuck_minutes a.store
          h.no_repeat h.closed in
      record { closed = run.closed; no_repeat = run.no_repeat }

  pub reached : (a b : Ledger) → Steps a b → IsPaidOnce a → IsPaidOnce b
  reached a b stays h = h
  reached a c (steps {b = b} before last) h = Step-IsPaidOnce b c last (reached a b before h)

  -- In every sequence of requests, executions and passes of the cron job that starts with no transfer,
  -- with ids below the sequence and with at most one open payout per merchant and environment, whatever
  -- the chains answer: no withdrawal id is handed to a chain twice, the rows of those that were handed
  -- over are completed or failed, and there is at most one open payout per merchant and environment.
  pub Steps-IsPaidOnce :
      (a b : Ledger)
      → Steps a b
      → a.transfers ≡ []
      → All (λ (w : Withdrawal). w.id < a.store.next_withdrawal_id) a.store.withdrawals
      → OneOpen a.store.withdrawals
      → NoRepeat b.transfers
        × All
            (λ (w : Withdrawal). is_sent b.transfers w.id ≡ true → is_terminal w.status ≡ true)
            b.store.withdrawals
        × OneOpen b.store.withdrawals
  Steps-IsPaidOnce a b s none below open_ =
      let end = reached a b s (record {
        closed = (
          All-mono (λ w k. (λ was. cc (rw none at was), k)) a.store.withdrawals below,
          subst (All (λ id. id < a.store.next_withdrawal_id)) (sym none) tt,
          open_,
        );
        no_repeat = subst NoRepeat (sym none) tt;
      }) in
      (end.no_repeat, All-mono (λ w k. k.0) b.store.withdrawals end.closed.0, end.closed.2)
