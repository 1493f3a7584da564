-- ===== src/Checkout/Lifo.antt =====
-- Which open checkout a new on-chain credit belongs to.
use crypto_gateway_rp.Common.{ℕ, ◌≡◌, refl, Bool, true, false, Option, none, some}
use crypto_gateway_rp.Text.{Text}
use crypto_gateway_rp.Store.{Transaction, Store}
use crypto_gateway_rp.Store.Queries.{newest, newest-satisfies, newest-NoneNewer, NoneNewer}
use crypto_gateway_rp.Store.Counts.{Has, newest-Has}
use crypto_gateway_rp.Checkout.{
  is_open_checkout, payer_filter, keys_of, non_empty, session_key_of,
  newest_open_created_checkout_for_wallet,
}

-- The key of a row of the table that is an open checkout of the wallet (and of the payer, where one is
-- given), where no such checkout is newer, by time of creation and then by id.
abbrev pub NewestKey : Store → ℕ → Option ℕ → Text → Type 0
NewestKey store wallet_id payer key =
    (t : Transaction) × Has t store.transactions
    × (is_open_checkout wallet_id payer t ≡ true)
    × (non_empty t.deposit_session_key ≡ some key)
    × NoneNewer (is_open_checkout wallet_id payer) t store.transactions

pub newest_open-NewestKey :
    (knows_created : Bool) (store : Store) (wallet_id : ℕ) (payer : Option ℕ) (ignore_payer : Bool)
    (key : Text)
    → session_key_of
        (newest_open_created_checkout_for_wallet knows_created store wallet_id payer ignore_payer)
      ≡ some key
    → NewestKey store wallet_id (payer_filter store wallet_id payer ignore_payer) key
unfolding newest_open_created_checkout_for_wallet keys_of
newest_open-NewestKey false store wallet_id payer ignore_payer key h = cc h
newest_open-NewestKey true store wallet_id payer ignore_payer key h =
    found (newest is_open store.transactions) refl h
  where
    is_open : Transaction → Bool
    is_open = is_open_checkout wallet_id (payer_filter store wallet_id payer ignore_payer)

    found :
        (r : Option Transaction)
        → newest is_open store.transactions ≡ r
        → session_key_of (keys_of r) ≡ some key
        → NewestKey store wallet_id (payer_filter store wallet_id payer ignore_payer) key
    found none e k = cc k
    found (some t) e k =
        (t, newest-Has is_open _ e, newest-satisfies is_open _ e, k, newest-NoneNewer is_open _ e)
