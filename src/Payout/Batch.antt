-- ===== src/Payout/Batch.antt =====
-- processPendingAutoPayouts of server/src/services/payout/execute-auto-payout.js, which
-- cron/src/jobs/auto-payout-cron.js runs every minute.
pub mod Pass
use crypto_gateway_rp.Common.{
  ℕ, zero, suc, ◌+◌, ◌-◌, ◌*◌, Bool, true, false, ◌&&◌, Option, none, some, List, [], ◌∷◌, ◌++◌,
  map, if◌then◌else◌, ltb, leb, ◌==◌, is_none, filter, take, length,
}
use crypto_gateway_rp.Text.{Text, codes, print_number}
use crypto_gateway_rp.Store.{
  WithdrawalStatus, processing, completed, eq_withdrawal_status, Withdrawal, Store, is_active,
}
use crypto_gateway_rp.Store.Queries.{sort_by}
use crypto_gateway_rp.Payout.TestRefs.{FlagInput}
use crypto_gateway_rp.Payout.Execute.{
  World, Executed, PayoutOptions, failed_patch, patch_withdrawal, execute_auto_payout,
}

-- `Math.min(high, Math.max(low, x || standard))`, where an absent number is 0.
abbrev pub clamped : ℕ → ℕ → ℕ → ℕ → ℕ
clamped low high standard x =
    let y = if x == 0 then standard else x in
    if ltb high y then high else if ltb y low then low else y

is_stuck : ℕ → Withdrawal → Bool
is_stuck stuck_before w =
    eq_withdrawal_status w.status processing
    && is_none w.tx_hash
    && ltb w.updated_at stuck_before
    && is_active w.deleted_at

is_waiting : Withdrawal → Bool
is_waiting w = eq_withdrawal_status w.status WithdrawalStatus.pending && is_active w.deleted_at

abbrev withdrawal_ids : List Withdrawal → List ℕ
withdrawal_ids rows = map (λ (w : Withdrawal). w.id) rows

pub stuck_ids : Store → ℕ → ℕ → List ℕ
unfolding is_stuck sort_by
stuck_ids store stuck_before limit = withdrawal_ids (
    take limit (
      sort_by (λ (w : Withdrawal). w.updated_at)
        (filter (is_stuck stuck_before) store.withdrawals)))

pub waiting_ids : Store → ℕ → List ℕ
unfolding is_waiting sort_by
waiting_ids store limit =
    withdrawal_ids (
      take limit (sort_by (λ (w : Withdrawal). w.created_at) (filter is_waiting store.withdrawals)))

unfoldable pub fail_stuck : World → ℕ → Store → List ℕ → Store
unfolding patch_withdrawal print_number
fail_stuck world stuck_mins store [] = store
fail_stuck world stuck_mins store (id ∷ ids) =
    fail_stuck world stuck_mins
      (patch_withdrawal world id
        (failed_patch (
          codes "auto_payout_timeout: stuck processing > "
          ++ print_number stuck_mins
          ++ codes "m without tx_hash"))
        store)
      ids

pub record BatchRun : Type 0 where
  pub stuck_marked_failed : ℕ
  pub pending_attempted : ℕ
  pub completed_count : ℕ
  pub failed_count : ℕ
  pub store : Store
  -- The ids that were tried, the last first.
  pub transfers : List ℕ

abbrev pub no_options : PayoutOptions
no_options = record { force_fail = FlagInput.other; simulate_result = none }

abbrev pub is_completed : Executed → Bool
is_completed r = elim r.error [
  | some e ↦ false
  | none ↦ elim r.withdrawal [ none ↦ false | some w ↦ eq_withdrawal_status w.status completed ]
]

abbrev pub counted : BatchRun → Executed → BatchRun
counted run r = record run {
  completed_count = if is_completed r then suc run.completed_count else run.completed_count;
  failed_count = if is_completed r then run.failed_count else suc run.failed_count;
  store = r.store;
  transfers = r.transfers ++ run.transfers;
}

abbrev pub start_run : ℕ → ℕ → Store → BatchRun
start_run stuck pending store = record {
  stuck_marked_failed = stuck;
  pending_attempted = pending;
  completed_count = 0;
  failed_count = 0;
  store = store;
  transfers = [];
}

-- Each of the ids is executed on the tables that the one before it left.
unfoldable pub execute_each : World → BatchRun → List ℕ → BatchRun
unfolding execute_auto_payout
execute_each world run [] = run
execute_each world run (id ∷ ids) =
    execute_each world (counted run (execute_auto_payout world no_options run.store id)) ids

unfoldable pub process_pending_auto_payouts : World → ℕ → ℕ → Store → BatchRun
unfolding stuck_ids waiting_ids fail_stuck execute_each
process_pending_auto_payouts world limit_option stuck_minutes_option store =
    let limit = clamped 1 50 10 limit_option in
    let stuck_mins = clamped 5 1440 15 stuck_minutes_option in
    let stuck = stuck_ids store (world.now - stuck_mins * 60_000) limit in
    let unstuck = fail_stuck world stuck_mins store stuck in
    let pending = waiting_ids unstuck limit in
    execute_each world (start_run (length stuck) (length pending) unstuck) pending
