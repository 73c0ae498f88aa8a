-- ===== src/Payment.antt =====
-- The payment service (payment-service/internal).
pub mod Model
pub mod Repository
pub mod Service
pub mod Text
pub mod Http
pub mod Grpc
pub mod Tails
pub mod Machine
pub mod Creation
pub mod Run
pub mod Idempotency
pub mod Ledger
pub mod Refunds
pub mod Outcomes
pub mod Settlement
pub mod Messages
pub mod Listing
mod Tests
