-- ===== src/Smtp/Grpc.antt =====
-- smtp-service/internal/grpcapi/server.go, and its callers: payment-service/internal/email/grpc.go
-- and user-service/internal/email/service.go.
use kazakh_express.Base.{String, Option}
use kazakh_express.Base.Int.{ℤ}
use kazakh_express.Effect.{Error, Env, Action}
use kazakh_express.Payment.Model.{Email, receipt, refund, failure}
use kazakh_express.Smtp.Service
use kazakh_express.Smtp.Service.{
  Config, Db, Resend, welcome_subject, welcome_body, payment_receipt_subject, payment_receipt_body,
  payment_refund_subject, payment_refund_body, payment_failure_subject, payment_failure_body,
}

module _ (cfg : Config) (env : Env) (resend : Resend) (done : Option Error) where
  -- The answer `Accepted: true` holds nothing.
  unfoldable pub send_email : String → String → String → Action Db (Unit {0})
  send_email to subject body = Service.send_email cfg env resend done to subject body

  unfoldable pub send_welcome_email : String → String → Action Db (Unit {0})
  send_welcome_email to first_name = send_email to welcome_subject (welcome_body first_name)

  unfoldable pub send_payment_receipt : String → String → String → ℤ → Action Db (Unit {0})
  send_payment_receipt to payment_id order_id amount_kzt =
      send_email to payment_receipt_subject (payment_receipt_body payment_id order_id amount_kzt)

  unfoldable pub send_payment_refund : String → String → String → ℤ → String → Action Db (Unit {0})
  send_payment_refund to payment_id order_id amount_kzt reason =
      send_email to payment_refund_subject
        (payment_refund_body payment_id order_id amount_kzt reason)

  unfoldable pub send_payment_failure : String → String → String → ℤ → String → Action Db (Unit {0})
  send_payment_failure to payment_id order_id amount_kzt reason =
      send_email to payment_failure_subject
        (payment_failure_body payment_id order_id amount_kzt reason)

  -- `SendReceipt`, `SendRefund` and `SendFailure` of the payment service's `GRPCSender`.
  unfoldable pub send_payment : Email → Action Db (Unit {0})
  send_payment (receipt to payment_id order_id amount_kzt) =
      send_payment_receipt to payment_id order_id amount_kzt
  send_payment (refund to payment_id order_id amount_kzt reason) =
      send_payment_refund to payment_id order_id amount_kzt reason
  send_payment (failure to payment_id order_id amount_kzt reason) =
      send_payment_failure to payment_id order_id amount_kzt reason
