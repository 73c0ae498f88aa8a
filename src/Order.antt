-- ===== src/Order.antt =====
-- The order service (order-service/internal).
pub mod Model
pub mod Repository
pub mod Service
pub mod Consumer
pub mod Text
pub mod Http
pub mod Grpc
pub mod Trace
pub mod History
pub mod Run
pub mod Totals
pub mod Outcomes
mod Tests
