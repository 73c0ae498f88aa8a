-- ===== src/Review.antt =====
-- The review service (review-service/internal).
pub mod Model
pub mod Repository
pub mod Service
pub mod Grpc
pub mod Rows
pub mod Changes
pub mod Freshness
pub mod Bounds
mod Tests
