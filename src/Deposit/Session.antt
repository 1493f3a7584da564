-- ===== src/Deposit/Session.antt =====
-- Which open checkout a new on-chain credit belongs to.
use crypto_gateway_rp.Text.{Text}
use crypto_gateway_rp.Store.{Store}
