-- ===== src/Payout.antt =====
-- Payouts to merchants: server/src/services/payout.
pub mod TestRefs
pub mod Policy
pub mod Signer
pub mod Execute
pub mod Batch
