-- ===== src/Pool/Checkout/Credited.antt =====
-- An assignment and the credit that follows it.
use crypto_gateway_rp.Text.{Text}
use crypto_gateway_rp.Store.{Store}
