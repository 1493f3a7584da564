-- ===== src/Payout/Batch/Pass.antt =====
-- A pass of the cron job pays no withdrawal twice.
use crypto_gateway_rp.Common.{ℕ, ◌-◌, ◌*◌, ◌≡◌, refl, sym, ap, subst, List, [], ◌∷◌, ◌++◌, length}
use crypto_gateway_rp.Text.{codes, print_number}
use crypto_gateway_rp.Store.{Store}
use crypto_gateway_rp.Payout.Execute.{
  World, Executed, failed_patch, execute_auto_payout, patch_withdrawal,
}
use crypto_gateway_rp.Payout.Execute.Closed.{NoRepeat, Closed, patch-keeps_Closed}
use crypto_gateway_rp.Payout.Execute.Once.{IsOnce, execute_auto_payout-IsOnce}
use crypto_gateway_rp.Payout.Batch.{
  BatchRun, start_run, no_options, counted, stuck_ids, waiting_ids, clamped, fail_stuck,
  execute_each, process_pending_auto_payouts,
}

append_assoc : (a b c : List ℕ) → (a ++ b) ++ c ≡ a ++ (b ++ c)
append_assoc [] b c = refl
append_assoc (x ∷ a) b c = ap (λ l. x ∷ l) (append_assoc a b c)

stuck-Closed :
    (world : World) (log : List ℕ) (mins : ℕ) (store : Store) (ids : List ℕ)
    → Closed log store
    → Closed log (fail_stuck world mins store ids)
unfolding fail_stuck
stuck-Closed world log mins store [] h = h
stuck-Closed world log mins store (id ∷ ids) h =
    let p = failed_patch (
      codes "auto_payout_timeout: stuck processing > "
      ++ print_number mins
      ++ codes "m without tx_hash") in
    let after = patch_withdrawal world id p store in
    stuck-Closed world log mins after ids (patch-keeps_Closed world id p log store (λ w. refl) h)

pub record RunIsOnce (log : List ℕ) (run : BatchRun) : Type 0 where
  pub closed : Closed (run.transfers ++ log) run.store
  pub no_repeat : NoRepeat (run.transfers ++ log)

counted-RunIsOnce :
    (log : List ℕ) (run : BatchRun) (r : Executed)
    → IsOnce (run.transfers ++ log) r
    → RunIsOnce log (counted run r)
counted-RunIsOnce log run r h =
    let same = sym (append_assoc r.transfers run.transfers log) in
    record {
      closed = subst (λ l. Closed l r.store) same h.closed;
      no_repeat = subst NoRepeat same h.no_repeat;
    }

execute_each-RunIsOnce :
    (world : World) (log : List ℕ) (run : BatchRun) (ids : List ℕ)
    → RunIsOnce log run
    → RunIsOnce log (execute_each world run ids)
unfolding execute_each
execute_each-RunIsOnce world log run [] h = h
execute_each-RunIsOnce world log run (id ∷ ids) h =
    let r = execute_auto_payout world no_options run.store id in
    execute_each-RunIsOnce world log (counted run r) ids (
      counted-RunIsOnce log run r (
        execute_auto_payout-IsOnce world no_options (run.transfers ++ log) run.store id h.no_repeat
          h.closed))

pub process_pending_auto_payouts-RunIsOnce :
    (world : World) (log : List ℕ) (limit stuck_minutes : ℕ) (store : Store)
    → NoRepeat log
    → Closed log store
    → RunIsOnce log (process_pending_auto_payouts world limit stuck_minutes store)
unfolding process_pending_auto_payouts
process_pending_auto_payouts-RunIsOnce world log limit stuck_minutes store unrepeated h =
    let mins = clamped 5 1440 15 stuck_minutes in
    let stuck = stuck_ids store (world.now - mins * 60_000) (clamped 1 50 10 limit) in
    let unstuck = fail_stuck world mins store stuck in
    let pending = waiting_ids unstuck (clamped 1 50 10 limit) in
    execute_each-RunIsOnce world log (start_run (length stuck) (length pending) unstuck) pending
      (record { closed = stuck-Closed world log mins store stuck h; no_repeat = unrepeated })
