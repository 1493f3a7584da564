-- ===== src/Webhook/Wallets.antt =====
-- A notification changes no wallet.
use crypto_gateway_rp.Common.{ℕ, ◌≡◌, Option, List, ◌==◌, if_cases}
use crypto_gateway_rp.Text.{Text}
use crypto_gateway_rp.Store.{Wallet, Store, Transaction, TxStatus}
use crypto_gateway_rp.Store.Queries.{count_where}
use crypto_gateway_rp.Checkout.{expected_atomic_for_deposit_session}
use crypto_gateway_rp.Webhook.Preserve.{notify-keeps}
use crypto_gateway_rp.Webhook.{Post, claims, deliver, notify}

module _ (wallets : List Wallet) where
  -- The store has these wallets.
  abbrev pub Same : Store → Type 0
  Same s = s.wallets ≡ wallets

  deliver-Same :
      (post : Post) (status : TxStatus) (reason : Option Text) (now : ℕ) (store : Store)
      (t : Transaction) (url : Text)
      → Same store
      → Same (deliver post status reason now store t url)
  unfolding deliver
  deliver-Same post status reason now store t url h =
      if_cases Same (count_where (claims status now t.id) store.transactions == 0) h (
        if_cases Same
          (post url t (expected_atomic_for_deposit_session store t.wallet_id t.deposit_session_key)
            reason)
          h h)

  pub notify-Same :
      (post : Post) (status : TxStatus) (reason : Transaction → Option Text) (now : ℕ)
      (store : Store) (id : ℕ)
      → Same store
      → Same (notify post status reason now store id)
  notify-Same post status reason now =
      notify-keeps Same now (λ p s r store t url h. deliver-Same p s r now store t url h) post
        status reason
