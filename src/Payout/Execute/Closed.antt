-- ===== src/Payout/Execute/Closed.antt =====
-- A payout that was sent is closed, and at most one per merchant and environment is open: what the
-- writes of executeAutoPayout keep of the two.
use crypto_gateway_rp.Common.{
  ℕ, ◌<◌, ◌≤◌, ◌≡◌, Bool, true, false, ◌&&◌, ◌||◌, not, Option, none, some, List, [], ◌∷◌,
  if◌then◌else◌, any, All, All-mono, ◌==◌, arith, get_or, is_empty, if_cases, if_split,
}
use crypto_gateway_rp.Text.{Text, trim}
use crypto_gateway_rp.Store.{WithdrawalStatus, GatewayEnv, eq_env, Withdrawal, Store, is_active}
use crypto_gateway_rp.Store.Queries.{count_where, update_where, update_where-All}
use crypto_gateway_rp.Store.Counts.{count-update_none_new}
use crypto_gateway_rp.Withdrawal.{is_open_status, is_open_payout}
use crypto_gateway_rp.Payout.Execute.{
  World, WithdrawalPatch, has_withdrawal_id, patched, with_network_fee, write_withdrawals,
  store_fee, fill_missing_network_fee, fill_fresh, find_withdrawal, patch_withdrawal, is_terminal,
}

abbrev pub is_sent : List ℕ → ℕ → Bool
is_sent log id = any (λ i. i == id) log

abbrev pub NoRepeat : List ℕ → Type 0
NoRepeat [] = Unit
NoRepeat (i ∷ is) = (is_sent is i ≡ false) × NoRepeat is

-- A row under the sequence's next value, completed or failed if it was sent.
abbrev pub IsClosedIn : List ℕ → ℕ → Withdrawal → Type 0
IsClosedIn log next w = (is_sent log w.id ≡ true → is_terminal w.status ≡ true) × (w.id < next)

-- At most one open payout per merchant and environment.
abbrev pub OneOpen : List Withdrawal → Type 0
OneOpen rows =
    (merchant_id : ℕ) (env : GatewayEnv) → count_where (is_open_payout merchant_id env) rows ≤ 1

abbrev pub Closed : List ℕ → Store → Type 0
Closed log store =
    All (IsClosedIn log store.next_withdrawal_id) store.withdrawals
    × All (λ id. id < store.next_withdrawal_id) log
    × OneOpen store.withdrawals

abbrev pub EndsIn : WithdrawalPatch → Type 0
EndsIn p = (w : Withdrawal) → is_terminal (patched 0 p w).status ≡ true

IsClosedIn-weaker :
    (id next : ℕ) (log : List ℕ) (w : Withdrawal)
    → IsClosedIn (id ∷ log) next w
    → IsClosedIn log next w
IsClosedIn-weaker id next log w k = (λ e. k.0 (here (id == w.id) e), k.1)
  where
    here : (a : Bool) {b : Bool} → b ≡ true → (if a then true else b) ≡ true
    here a {b} h = ground (arith, h)

pub Closed-weaker :
    (id : ℕ) (log : List ℕ) (store : Store) → Closed (id ∷ log) store → Closed log store
Closed-weaker id log store h =
    (All-mono (IsClosedIn-weaker id store.next_withdrawal_id log) store.withdrawals h.0, h.1.1, h.2)

-- A patch that ends the payout closes its rows.
update-Closed :
    (now id next : ℕ) (p : WithdrawalPatch) (log : List ℕ)
    → EndsIn p
    → (rows : List Withdrawal) → All (IsClosedIn log next) rows
    → All (IsClosedIn (id ∷ log) next) (update_where (has_withdrawal_id id) (patched now p) rows)
unfolding update_where
update-Closed now id next p log ends [] h = tt
update-Closed now id next p log ends (w ∷ ws) h = (
  if_split (IsClosedIn (id ∷ log) next) (w.id == id) (λ e. (λ k. ends w, h.0.1))
      (λ e. (λ k. h.0.0 (other w.id id (is_sent log w.id) e k), h.0.1)),
  update-Closed now id next p log ends ws h.1,
)
  where
    other : (a b : ℕ) (c : Bool) → (a == b) ≡ false → (if b == a then true else c) ≡ true → c ≡ true
    other a b c e k = ground (arith, e, k)

pub update-OneOpen :
    (p : Withdrawal → Bool) (f : Withdrawal → Withdrawal) (rows : List Withdrawal)
    → ((m : ℕ) (env : GatewayEnv) (w : Withdrawal)
        → p w ≡ true
        → is_open_payout m env (f w) ≡ true
        → is_open_payout m env w ≡ true)
    → OneOpen rows
    → OneOpen (update_where p f rows)
update-OneOpen p f rows keep h m env =
    omega (arith, h m env, count-update_none_new p f (is_open_payout m env) (keep m env) rows)

-- A row that a patch ends is not open.
pub ended :
    (now : ℕ) (p : WithdrawalPatch)
    → EndsIn p
    → (m : ℕ) (env : GatewayEnv) (w : Withdrawal) → is_open_payout m env (patched now p w) ≡ true
    → is_open_payout m env w ≡ true
ended now p ends m env w h =
    not_open (patched now p w).status (w.merchant_id == m) (eq_env w.environment env)
      (is_active w.deleted_at) (is_open_payout m env w) (ends w) h
  where
    not_open :
        (s : WithdrawalStatus) (a b c d : Bool)
        → is_terminal s ≡ true
        → (a && b && is_open_status s && c) ≡ true
        → d ≡ true
    not_open s a b c d h k = ground (arith, h, k)

-- The fee's columns concern no status.
fee-Closed :
    (world : World) (log : List ℕ) (store : Store) (w : Withdrawal)
    → Closed log store
    → Closed log (fill_missing_network_fee world store w)
unfolding fill_missing_network_fee store_fee
fee-Closed world log store w h =
    if_cases (Closed log)
      (is_empty (trim (get_or w.tx_hash []))
        || not (is_empty (trim (get_or w.network_fee_native_atomic []))))
      h (stored (world.fetch_network_fee w.chain (trim (get_or w.tx_hash []))))
  where
    stored : (fee : Option (Text × Text)) → Closed log (store_fee world store w fee)
    stored none = h
    stored (some fee) = (
      update_where-All (IsClosedIn log store.next_withdrawal_id) (has_withdrawal_id w.id)
          (with_network_fee world.now fee) (λ x k e. k) store.withdrawals h.0,
      h.1,
      update-OneOpen (has_withdrawal_id w.id) (with_network_fee world.now fee) store.withdrawals
          (λ m env x e k. k) h.2,
    )

fresh-Closed :
    (world : World) (log : List ℕ) (store : Store) (o : Option Withdrawal)
    → Closed log store
    → Closed log (fill_fresh world store o)
unfolding fill_fresh
fresh-Closed world log store none h = h
fresh-Closed world log store (some w) h =
    if_cases (Closed log) (is_empty (get_or w.tx_hash [])) h (fee-Closed world log store w h)

pub patch-Closed :
    (world : World) (id : ℕ) (p : WithdrawalPatch) (log : List ℕ) (store : Store)
    → EndsIn p
    → id < store.next_withdrawal_id
    → Closed log store
    → Closed (id ∷ log) (patch_withdrawal world id p store)
unfolding patch_withdrawal
patch-Closed world id p log store ends under h =
    let written =
      write_withdrawals store
        (update_where (has_withdrawal_id id) (patched world.now p) store.withdrawals) in
    fresh-Closed world (id ∷ log) written (find_withdrawal written id) (
      update-Closed world.now id store.next_withdrawal_id p log ends store.withdrawals h.0,
      (under, h.1),
      update-OneOpen (has_withdrawal_id id) (patched world.now p) store.withdrawals
          (λ m env w e. ended world.now p ends m env w) h.2,
    )

-- A patch that ends a payout opens no closed row.
pub patch-keeps_Closed :
    (world : World) (id : ℕ) (p : WithdrawalPatch) (log : List ℕ) (store : Store)
    → EndsIn p
    → Closed log store
    → Closed log (patch_withdrawal world id p store)
unfolding patch_withdrawal
patch-keeps_Closed world id p log store ends h =
    let written =
      write_withdrawals store
        (update_where (has_withdrawal_id id) (patched world.now p) store.withdrawals) in
    fresh-Closed world log written (find_withdrawal written id) (
      All-mono (IsClosedIn-weaker id store.next_withdrawal_id log) written.withdrawals
          (update-Closed world.now id store.next_withdrawal_id p log ends store.withdrawals h.0),
      h.1,
      update-OneOpen (has_withdrawal_id id) (patched world.now p) store.withdrawals
          (λ m env w e. ended world.now p ends m env w) h.2,
    )
