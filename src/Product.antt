-- ===== src/Product.antt =====
-- The product service (product-service/internal/product).
pub mod Model
pub mod Repository
pub mod Memory
pub mod Postgres
pub mod Service
pub mod Http
pub mod Grpc
pub mod Store
pub mod Stock
pub mod Sales
pub mod Inventory
pub mod Races
pub mod Page
mod Tests
