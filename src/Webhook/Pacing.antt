-- ===== src/Webhook/Pacing.antt =====
-- How often and how fast a payment webhook is posted.
use crypto_gateway_rp.Common.{ℕ, ◌≤◌, ◌≡◌, sym, subst, Option, none, List, [], ◌∷◌, arith, All}
use crypto_gateway_rp.Text.{Text}
use crypto_gateway_rp.Store.{TxStatus, Transaction, Store, success, underpaid}
use crypto_gateway_rp.Store.Queries.{count_where}
use crypto_gateway_rp.Webhook.{
  notify_each, Post, notify, failure_reason, notify_payment_success, notify_payment_failed,
  notify_payment_underpaid, stuck_rows, retry_stuck_success_callbacks, retry_stuck_failed_callbacks,
  retry_stuck_underpaid_callbacks,
}
use crypto_gateway_rp.Deposit.Unique.{has_id}
use crypto_gateway_rp.Webhook.Preserve.{notify-keeps, notify_each-keeps}
use crypto_gateway_rp.Webhook.Claims.{posts_of, IsPaced, CountsRow}
use crypto_gateway_rp.Webhook.Tracked.{Tracked, deliver-Tracked}

-- What the outside world can ask of the webhook code: one notification, or a tick of a retry job.
pub data Call : Type 0 where
  notifies retries : TxStatus → ℕ → Call

step : Post → ℕ → Store → Call → Store
step post now store (notifies success id) = notify_payment_success post now store id
step post now store (notifies underpaid id) = notify_payment_underpaid post now store id
step post now store (notifies TxStatus.failed id) = notify_payment_failed post none now store id
step post now store (retries success limit) = retry_stuck_success_callbacks post now store limit
step post now store (retries underpaid limit) = retry_stuck_underpaid_callbacks post now store limit
step post now store (retries TxStatus.failed limit) =
    retry_stuck_failed_callbacks post now store limit
step post now store call = store

-- Calls in turn, each with its time and the endpoint's answers.
pub run : Store → List (Post × ℕ × Call) → Store
unfolding step
run store [] = store
run store ((post, now, call) ∷ calls) = run (step post now store call) calls

module _ (i now : ℕ) where
  keep :
      (post : Post) (status : TxStatus) (reason : Transaction → Option Text) (store : Store)
      (id : ℕ)
      → Tracked i store
      → Tracked i (notify post status reason now store id)
  keep = notify-keeps (Tracked i) now (deliver-Tracked i now)

  keep_each :
      (send : Store → ℕ → Store)
      → ((s : Store) (id : ℕ) → Tracked i s → Tracked i (send s id))
      → (store : Store) (ts : List Transaction) → Tracked i store
      → Tracked i (notify_each send store ts)
  keep_each = notify_each-keeps (Tracked i) now (deliver-Tracked i now)

  step-Tracked :
      (post : Post) (store : Store) (call : Call)
      → Tracked i store
      → Tracked i (step post now store call)
  unfolding step notify_payment_success notify_payment_underpaid notify_payment_failed
      retry_stuck_success_callbacks retry_stuck_failed_callbacks retry_stuck_underpaid_callbacks
  step-Tracked post store (notifies success id) h = keep post success (λ t. none) store id h
  step-Tracked post store (notifies underpaid id) h = keep post underpaid (λ t. none) store id h
  step-Tracked post store (notifies TxStatus.failed id) h =
      keep post TxStatus.failed (failure_reason none) store id h
  step-Tracked post store (retries success limit) h =
      keep_each _ (keep post success (λ t. none)) store (stuck_rows success now store limit) h
  step-Tracked post store (retries underpaid limit) h =
      keep_each _ (keep post underpaid (λ t. none)) store (stuck_rows underpaid now store limit) h
  step-Tracked post store (retries TxStatus.failed limit) h =
      keep_each _ (keep post TxStatus.failed (failure_reason none)) store
        (stuck_rows TxStatus.failed now store limit) h
  step-Tracked post store call h = h

run-Tracked :
    (i : ℕ) (store : Store) (calls : List (Post × ℕ × Call))
    → Tracked i store
    → Tracked i (run store calls)
unfolding run
run-Tracked i store [] h = h
run-Tracked i store ((post, now, call) ∷ calls) h =
    run-Tracked i (step post now store call) calls (step-Tracked i now post store call h)

unsent :
    (i : ℕ) (posted : List (ℕ × ℕ)) (xs : List Transaction)
    → posted ≡ []
    → All (CountsRow i (posts_of i posted)) xs
unsent i posted [] e = tt
unsent i posted (x ∷ xs) e = (
  subst (λ ps. CountsRow i (posts_of i ps) x) (sym e)
      (λ k. record { counted = omega arith; reached = tt }),
  unsent i posted xs e,
)

-- Where at most one row has an id and no request was sent: whatever automatic notifications and retry
-- passes follow, in whatever order, at whatever times, and whatever the merchants' endpoints answer, at
-- most five requests are sent for that row, and each is at least 60000 milliseconds after the one before.
pub run-IsPaced :
    (i : ℕ) (store : Store) (calls : List (Post × ℕ × Call))
    → count_where (has_id i) store.transactions ≤ 1
    → store.posted ≡ []
    → IsPaced (posts_of i (run store calls).posted)
run-IsPaced i store calls alone none_sent =
    (run-Tracked i store calls (record {
      alone = alone;
      paced =
          subst (λ ps. IsPaced (posts_of i ps)) (sym none_sent)
            (record { at_most_five = omega arith; spaced = tt });
      rows = unsent i store.posted store.transactions none_sent;
    })).paced
