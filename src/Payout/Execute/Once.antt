-- ===== src/Payout/Execute/Once.antt =====
-- No withdrawal is paid twice: what executeAutoPayout does to the rows and to the transfers.
use crypto_gateway_rp.Common.{
  ℕ, ◌<◌, ◌≡◌, refl, subst, Bool, true, false, ◌&&◌, ◌||◌, Option, none, some, List, [], ◌∷◌, ◌++◌,
  ℤ, find, All, leb, ◌==◌, inl, inr, Bool-cases, arith, if_cases, if_split,
}
use mathlib.Core.Option.{some-injective}
use crypto_gateway_rp.Text.{Text}
use crypto_gateway_rp.Store.{
  Chain, WithdrawalStatus, GatewayEnv, eq_chain, eq_env, eq_withdrawal_status, Merchant, Withdrawal,
  Store, is_active,
}
use crypto_gateway_rp.Store.Queries.{update_where-All}
use crypto_gateway_rp.Withdrawal.{is_open_status}
use crypto_gateway_rp.Payout.TestRefs.{SimulatedOutcome}
use crypto_gateway_rp.Payout.Signer.{Signer, SignerResult, signed_by, unsigned}
use crypto_gateway_rp.Payout.Execute.{
  World, WithdrawalPatch, Executed, PayoutOptions, SendResult, sent, not_sent, raised,
  is_active_withdrawal, find_withdrawal, patch_withdrawal, finish, apply_simulated_payout_outcome,
  after_send, send_amount, sign_and_send, from_treasury, pay_for_merchant, is_terminal,
  claims_pending, to_processing, mark_processing, execute_row, execute_found, execute_auto_payout,
}
use crypto_gateway_rp.Payout.Execute.Closed.{
  is_sent, NoRepeat, IsClosedIn, Closed, EndsIn, Closed-weaker, update-OneOpen, patch-Closed,
}

-- After a run: the log is extended by what was sent, its rows are closed, and nothing repeats.
pub record IsOnce (log : List ℕ) (r : Executed) : Type 0 where
  pub closed : Closed (r.transfers ++ log) r.store
  pub no_repeat : NoRepeat (r.transfers ++ log)

module _ (world : World) (log : List ℕ) (id : ℕ) (store : Store)
    (under : id < store.next_withdrawal_id) (fresh : is_sent log id ≡ false)
    (unrepeated : NoRepeat log) (h : Closed log store) where
  finish_untried :
      (e : Option Text) (p : WithdrawalPatch) → EndsIn p → IsOnce log (finish world id store e p [])
  unfolding finish
  finish_untried e p ends = record {
    closed =
        Closed-weaker id log (patch_withdrawal world id p store)
          (patch-Closed world id p log store ends under h);
    no_repeat = unrepeated;
  }

  finish_tried :
      (e : Option Text) (p : WithdrawalPatch)
      → EndsIn p
      → IsOnce log (finish world id store e p (id ∷ []))
  unfolding finish
  finish_tried e p ends = record {
    closed = patch-Closed world id p log store ends under h;
    no_repeat = (fresh, unrepeated);
  }

  simulated-IsOnce :
      (o : SimulatedOutcome) → IsOnce log (apply_simulated_payout_outcome world id store o)
  unfolding apply_simulated_payout_outcome
  simulated-IsOnce SimulatedOutcome.failed = finish_untried _ _ (λ w. refl)
  simulated-IsOnce SimulatedOutcome.completed = finish_untried _ _ (λ w. refl)

  after_send-IsOnce : (answer : SendResult) → IsOnce log (after_send world id store answer)
  unfolding after_send
  after_send-IsOnce (sent hash) = finish_tried _ _ (λ w. refl)
  after_send-IsOnce (not_sent e detail) = finish_tried _ _ (λ w. refl)
  after_send-IsOnce (raised e) = finish_tried _ _ (λ w. refl)

module _ (world : World) (log : List ℕ) (store : Store) (row : Withdrawal)
    (under : row.id < store.next_withdrawal_id) (fresh : is_sent log row.id ≡ false)
    (unrepeated : NoRepeat log) (h : Closed log store) where
  send_amount-IsOnce :
      (signer : Signer) (amount : Option ℤ) → IsOnce log (send_amount world store row signer amount)
  unfolding send_amount
  send_amount-IsOnce signer none =
      finish_untried world log row.id store under fresh unrepeated h _ _ (λ w. refl)
  send_amount-IsOnce signer (some amount) =
      if_cases (IsOnce log) (eq_chain row.chain Chain.tron || eq_chain row.chain Chain.eth)
        (after_send-IsOnce world log row.id store under fresh unrepeated h _)
        (finish_untried world log row.id store under fresh unrepeated h _ _ (λ w. refl))

  sign_and_send-IsOnce : (s : SignerResult) → IsOnce log (sign_and_send world store row s)
  unfolding sign_and_send
  sign_and_send-IsOnce (unsigned e message) =
      finish_untried world log row.id store under fresh unrepeated h _ _ (λ w. refl)
  sign_and_send-IsOnce (signed_by signer) = send_amount-IsOnce signer _

  from_treasury-IsOnce : (t : Option Text) → IsOnce log (from_treasury world store row t)
  unfolding from_treasury
  from_treasury-IsOnce none =
      finish_untried world log row.id store under fresh unrepeated h _ _ (λ w. refl)
  from_treasury-IsOnce (some treasury) = sign_and_send-IsOnce _

  pay_for_merchant-IsOnce : (m : Option Merchant) → IsOnce log (pay_for_merchant world store row m)
  unfolding pay_for_merchant
  pay_for_merchant-IsOnce none =
      finish_untried world log row.id store under fresh unrepeated h _ _ (λ w. refl)
  pay_for_merchant-IsOnce (some merchant) = from_treasury-IsOnce _

-- Only pending rows are marked, and those were not sent.
mark-Closed :
    (world : World) (log : List ℕ) (store : Store) (row : Withdrawal)
    → Closed log store
    → Closed log (mark_processing world store row)
unfolding mark_processing
mark-Closed world log store row h =
    if_cases (Closed log) (eq_withdrawal_status row.status WithdrawalStatus.pending)
      (
        update_where-All (IsClosedIn log store.next_withdrawal_id) (claims_pending row.id)
            (to_processing world.now)
            (λ w k e. (
              λ was.
                  cc (pending_open w.status (w.id == row.id) (is_active w.deleted_at) (k.0 was) e),
              k.1,
            ))
            store.withdrawals h.0,
        h.1,
        update-OneOpen (claims_pending row.id) (to_processing world.now) store.withdrawals
            (λ m env w e k.
              was_open w.status (w.id == row.id) (is_active w.deleted_at) (w.merchant_id == m)
                (eq_env w.environment env) e k)
            h.2,
      )
      h
  where
    was_open :
        (s : WithdrawalStatus) (a b c d : Bool)
        → (a && eq_withdrawal_status s WithdrawalStatus.pending && b) ≡ true
        → (c && d && true && b) ≡ true
        → (c && d && is_open_status s && b) ≡ true
    was_open s a b c d h k = ground (arith, h, k)

    pending_open :
        (s : WithdrawalStatus) (a b : Bool)
        → is_terminal s ≡ true
        → (a && eq_withdrawal_status s WithdrawalStatus.pending && b) ≡ true
        → true ≡ false
    pending_open s a b h k = ground (arith, h, k)

mark-next :
    (world : World) (store : Store) (row : Withdrawal)
    → row.id < store.next_withdrawal_id
    → row.id < (mark_processing world store row).next_withdrawal_id
unfolding mark_processing
mark-next world store row h =
    if_cases (λ (s : Store). row.id < s.next_withdrawal_id)
      (eq_withdrawal_status row.status WithdrawalStatus.pending) h h

execute_row-IsOnce :
    (world : World) (opts : PayoutOptions) (log : List ℕ) (store : Store) (row : Withdrawal)
    → IsClosedIn log store.next_withdrawal_id row
    → NoRepeat log
    → Closed log store
    → IsOnce log (execute_row world opts store row)
unfolding execute_row
execute_row-IsOnce world opts log store row here unrepeated h =
    if_split (IsOnce log) (is_terminal row.status)
      (λ e. record { closed = h; no_repeat = unrepeated })
      (λ e.
        let fresh : is_sent log row.id ≡ false = elim (Bool-cases (is_sent log row.id)) [
          | inl was ↦ cc (here.0 was, e)
          | inr never ↦ never
        ] in
        if_cases (IsOnce log) (eq_env row.environment GatewayEnv.sandbox)
          (simulated-IsOnce world log row.id store here.1 fresh unrepeated h _)
          (pay_for_merchant-IsOnce world log (mark_processing world store row) row
            (mark-next world store row here.1) fresh unrepeated (mark-Closed world log store row h)
            _))

find-All :
    (P : Withdrawal → Type 0) (p : Withdrawal → Bool) (rows : List Withdrawal) {w : Withdrawal}
    → All P rows
    → find p rows ≡ some w
    → P w
find-All P p [] h e = cc e
find-All P p (x ∷ xs) {w} h e = elim (Bool-cases (p x)) [
  | inl hit ↦ subst P (some-injective _ _ (rw hit at e)) h.0
  | inr miss ↦ find-All P p xs h.1 (rw miss at e)
]

-- From tables whose sent rows are closed, and a log of transfers without repetition, a run leaves both
-- so.
pub execute_auto_payout-IsOnce :
    (world : World) (opts : PayoutOptions) (log : List ℕ) (store : Store) (id : ℕ)
    → NoRepeat log
    → Closed log store
    → IsOnce log (execute_auto_payout world opts store id)
unfolding execute_auto_payout find_withdrawal
execute_auto_payout-IsOnce world opts log store id unrepeated h =
    if_cases (IsOnce log) (leb 1 id)
      (found (find (is_active_withdrawal id) store.withdrawals) (λ w e.
        find-All (IsClosedIn log store.next_withdrawal_id) (is_active_withdrawal id)
          store.withdrawals h.0 e))
      (record { closed = h; no_repeat = unrepeated })
  where
    found :
        (o : Option Withdrawal)
        → ((w : Withdrawal) → o ≡ some w → IsClosedIn log store.next_withdrawal_id w)
        → IsOnce log (execute_found world opts store o)
    found none rows = unfold execute_found in record { closed = h; no_repeat = unrepeated }
    found (some w) rows =
        unfold execute_found in execute_row-IsOnce world opts log store w (rows w refl) unrepeated h
