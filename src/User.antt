-- ===== src/User.antt =====
-- The user service (user-service/internal).
pub mod Model
pub mod Repository
pub mod Redis
pub mod Service
pub mod Http
pub mod Grpc
pub mod Sessions
pub mod Lookups
pub mod Runs
pub mod Guesses
pub mod Profiles
pub mod Accounts
mod Tests
