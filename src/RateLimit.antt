-- ===== src/RateLimit.antt =====
-- The limiters of calls to upstream nodes and explorers: server/src/lib/network-rpc-rate-limit.js and
-- the key pool of server/src/lib/deposit-scanner-explorer-key-pool.js. A time is Date.now(); a stamp
-- list has its oldest stamp first. Each loop is given as its one iteration: between two awaits nothing
-- else runs, so the iterations of all callers follow one another.
pub mod Window
pub mod Spacing
pub mod Quota
pub mod Lease
use crypto_gateway_rp.Common.{
  ℕ, suc, ◌+◌, ◌-◌, ◌/◌, Bool, true, false, ◌&&◌, ◌||◌, not, Option, none, some, List, [], ◌∷◌,
  ◌++◌, ltb, leb, ◌==◌, if◌then◌else◌, length, filter, is_empty, find,
}
use crypto_gateway_rp.Text.{Text}

pub data Rail : Type 0 where
  erc20 trc20 : Rail

-- depositScannerApiMaxPerSecondErc20 and …Trc20 of the settings.
pub record RailLimits : Type 0 where
  pub max_per_second_erc20 : ℕ
  pub max_per_second_trc20 : ℕ

unfoldable pub effective_deposit_scanner_max_per_second : RailLimits → Rail → ℕ
effective_deposit_scanner_max_per_second limits erc20 =
    if ltb 0 limits.max_per_second_erc20 then limits.max_per_second_erc20 else 3
effective_deposit_scanner_max_per_second limits trc20 = limits.max_per_second_trc20

abbrev pub is_recent : ℕ → ℕ → Bool
is_recent now t = ltb (now - t) 1_000

-- `1000 - (now - stamps[0]) + 1`, at least 1.
abbrev pub wait_ms : ℕ → List ℕ → ℕ
wait_ms now [] = 1
wait_ms now (oldest ∷ stamps) = let ms = 1_001 + oldest - now in if ltb ms 1 then 1 else ms

-- One iteration either returns, with the stamps that it stores, or sleeps.
pub data Attempt : Type 0 where
  granted : List ℕ → Attempt
  sleeps : ℕ → Attempt

-- The loop of waitForSlot, which is entered for a positive maximum only.
unfoldable pub wait_for_slot : ℕ → ℕ → List ℕ → Attempt
wait_for_slot max now stamps =
    let recent = filter (is_recent now) stamps in
    if ltb (length recent) max then granted (recent ++ (now ∷ [])) else sleeps (wait_ms now recent)

-- The entries of one rail in depositScannerStampsByRail and depositScannerLastGrantMsByRail.
pub record RailState : Type 0 where
  pub stamps : List ℕ
  pub last_grant : ℕ

-- `Math.max(1, Math.ceil(1000 / max))`, for a positive maximum.
unfoldable pub min_gap_ms : ℕ → ℕ
min_gap_ms max = let gap = (1_000 + max - 1) / max in if ltb gap 1 then 1 else gap

pub data ScannerAttempt : Type 0 where
  granted : RailState → ScannerAttempt
  sleeps : ℕ → ScannerAttempt

-- The loop of waitForDepositScannerSlot, for a positive maximum; the clock is read again for the stamp.
unfoldable pub wait_for_deposit_scanner_slot : ℕ → ℕ → ℕ → RailState → ScannerAttempt
wait_for_deposit_scanner_slot max now stamp_at s =
    let recent = filter (is_recent now) s.stamps in
    let gap = min_gap_ms max in
    if leb max (length recent)
    then sleeps (wait_ms now recent)
    else if ltb 0 s.last_grant && ltb now (s.last_grant + gap)
    then sleeps (s.last_grant + gap - now)
    else granted (record { stamps = recent ++ (stamp_at ∷ []); last_grant = stamp_at })

-- acquireOutboundRpcSlot: a maximum of 0 switches the limiter off.
unfoldable pub acquire_outbound_rpc_slot : ℕ → ℕ → List ℕ → Attempt
unfolding wait_for_slot
acquire_outbound_rpc_slot max now stamps =
    if max == 0 then Attempt.granted stamps else wait_for_slot max now stamps

-- acquireDepositScannerApiSlot, with the maximum of the rail.
unfoldable pub acquire_deposit_scanner_api_slot :
    RailLimits → Rail → ℕ → ℕ → RailState → ScannerAttempt
unfolding effective_deposit_scanner_max_per_second wait_for_deposit_scanner_slot
acquire_deposit_scanner_api_slot limits rail now stamp_at s =
    let max = effective_deposit_scanner_max_per_second limits rail in
    if max == 0 then ScannerAttempt.granted s else wait_for_deposit_scanner_slot max now stamp_at s

-- A row of deposit_scanner_explorer_api_keys; a day is a number of UTC days.
pub record ExplorerKey : Type 0 where
  pub id : ℕ
  pub is_active : Bool
  pub max_requests_per_day : ℕ
  pub max_requests_per_second : ℕ
  pub requests_today : ℕ
  pub usage_day_utc : ℕ

unfoldable pub effective_requests_today_for_utc : ExplorerKey → ℕ → ℕ
effective_requests_today_for_utc row today =
    if row.usage_day_utc == today then row.requests_today else 0

-- Whether the row is offered; `decrypts` is the cipher's answer, a key that is not empty.
unfoldable pub has_daily_budget : (ExplorerKey → Bool) → ℕ → ExplorerKey → Bool
unfolding effective_requests_today_for_utc
has_daily_budget decrypts today row =
    row.is_active
    && not (leb row.max_requests_per_day (effective_requests_today_for_utc row today))
    && decrypts row

-- tryTakePerSecondSlot on the key's stamps, with the stamps that it leaves.
unfoldable pub try_take_per_second_slot : ℕ → ℕ → List ℕ → Bool × List ℕ
try_take_per_second_slot max_per_second now stamps =
    let recent = filter (is_recent now) stamps in
    let cap = if ltb max_per_second 1 then 1 else max_per_second in
    if leb cap (length recent) then (false, recent) else (true, recent ++ (now ∷ []))

abbrev pub set_stamps : (ℕ → List ℕ) → ℕ → List ℕ → ℕ → List ℕ
set_stamps stamps id value j = if j == id then value else stamps j

-- The inner loop of acquireDepositScannerExplorerApiLease over the rows in sort order.
unfoldable pub first_free_key : ℕ → (ℕ → List ℕ) → List ExplorerKey → Option ℕ × (ℕ → List ℕ)
unfolding try_take_per_second_slot
first_free_key now stamps [] = (none, stamps)
first_free_key now stamps (row ∷ rows) =
    let (taken, left) = try_take_per_second_slot row.max_requests_per_second now (stamps row.id) in
    let rest = first_free_key now (set_stamps stamps row.id left) rows in
    if taken then (some row.id, set_stamps stamps row.id left) else rest

-- The statement of recordDepositScannerExplorerSuccessfulRequest on one row.
unfoldable pub count_successful_request : ℕ → ℕ → ExplorerKey → ExplorerKey
count_successful_request today id row =
    if row.id == id
      && row.is_active
      && (ltb row.usage_day_utc today || ltb row.requests_today row.max_requests_per_day)
    then record row {
      requests_today = if ltb row.usage_day_utc today then 1 else suc row.requests_today;
      usage_day_utc = if ltb row.usage_day_utc today then today else row.usage_day_utc;
    }
    else row
