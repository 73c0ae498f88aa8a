-- ===== src/Gateway.antt =====
-- The rate limit of the gateway (api-gateway/internal/gateway).
pub mod Limiter
pub mod Window
pub mod Router
pub mod Payments
pub mod Orders
pub mod Products
pub mod Reviews
pub mod Users
mod Tests
