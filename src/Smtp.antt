-- ===== src/Smtp.antt =====
-- The mail service (smtp-service/internal), and the mails of the payment service.
pub mod Service
pub mod Grpc
pub mod Carriers
mod Tests
