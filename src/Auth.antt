-- ===== src/Auth.antt =====
-- Who a request to the gateway comes from.
pub mod Json
pub mod Order
pub mod Canonical
pub mod Sealed
pub mod Gateway
pub mod Accepted
pub mod Proven
pub mod Complete
pub mod RoundTrip
