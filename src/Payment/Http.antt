-- ===== src/Payment/Http.antt =====
-- payment-service/internal/http/handler.go: the routes of the payment service.
use kazakh_express.Base.{ℕ, String, Option, none, some, not, is_empty, if◌then◌else◌}
use kazakh_express.Effect.{Error, invalid_input, invalid_state, not_found, Env}
use kazakh_express.Http.{
  one, many, error_of, error_text, text, Reply, Handler, respond, answer, invalid_json,
}
use kazakh_express.Payment.Model.{
  Payment, CreateInput, RefundInput, ConfirmInput, CancelInput, Db, Status, succeeded, cancelled,
  failed,
}
use kazakh_express.Payment.Text.{status_of}
use kazakh_express.Payment.Service
use kazakh_express.Payment.Service.{Provider}

-- The body of `mockWebhook`.
pub record Webhook : Type 0 where
  pub payment_id : String
  pub status : String
  pub provider_transaction_id : String
  pub reason : String

-- A request on each registered route, with the parameter of its path and its decoded body; a body
-- that is no JSON is `none`.
pub data Request : Type 0 where
  health metrics : Request
  create : Option CreateInput → Request
  list by_order by_id : String → Request
  webhook : Option Webhook → Request
  refund : String → Option RefundInput → Request
  confirm : String → Option ConfirmInput → Request
  cancel : String → Option CancelInput → Request

-- The body of `metrics`.
abbrev pub metrics_text : String
metrics_text =
    "# HELP payment_service_up Payment service process health.\n# TYPE payment_service_up gauge\npayment_service_up 1\n"

-- `handleServiceError`
unfoldable pub service_error : Error → Reply Payment
service_error invalid_input = record { status = 400; body = error_of invalid_input }
service_error not_found = record { status = 404; body = error_of not_found }
service_error invalid_state = record { status = 409; body = error_of invalid_state }
service_error _ = record { status = 500; body = error_text "internal server error" }

module _ (env : Env) where
  unfoldable pub list_payments : String → Handler Db Payment
  list_payments customer_id =
      let all = respond service_error 200 many (Service.list env) in
      let own = respond service_error 200 many (Service.list_by_customer_id env customer_id) in
      if not (is_empty customer_id) then own else all

  unfoldable pub refund_payment : String → Option RefundInput → Handler Db Payment
  refund_payment id none = answer invalid_json
  refund_payment id (some input) =
      respond service_error 200 one (Service.refund_payment env (record input { payment_id = id }))

  unfoldable pub confirm_payment : String → Option ConfirmInput → Handler Db Payment
  confirm_payment id none = answer invalid_json
  confirm_payment id (some input) =
      respond service_error 200 one (Service.confirm env (record input { payment_id = id }))

  unfoldable pub cancel_payment : String → Option CancelInput → Handler Db Payment
  cancel_payment id none = answer invalid_json
  cancel_payment id (some input) =
      respond service_error 200 one (Service.cancel env (record input { payment_id = id }))

  abbrev pub webhook_confirm : Webhook → Handler Db Payment
  webhook_confirm input = respond service_error 200 one (
      Service.confirm env (record {
        payment_id = input.payment_id;
        provider_transaction_id = input.provider_transaction_id;
      }))

  abbrev pub webhook_cancel : Webhook → Handler Db Payment
  webhook_cancel input =
      respond service_error 200 one
        (Service.cancel env (record { payment_id = input.payment_id; reason = input.reason }))

  -- The switch of `mockWebhook`.
  unfoldable pub webhook_as : Status → Webhook → Handler Db Payment
  webhook_as succeeded input = webhook_confirm input
  webhook_as cancelled input = webhook_cancel input
  webhook_as failed input = webhook_cancel input
  webhook_as _ input =
      answer (record { status = 400; body = error_text "unsupported webhook status" })

  unfoldable pub mock_webhook : Option Webhook → Handler Db Payment
  mock_webhook none = answer invalid_json
  mock_webhook (some input) = webhook_as (status_of input.status) input

module _ (env : Env) (ttl : ℕ) (provider : Provider) where
  unfoldable pub create_payment : Option CreateInput → Handler Db Payment
  create_payment none = answer invalid_json
  create_payment (some input) =
      respond service_error 201 one (Service.create env ttl provider input)

  -- `registerPaymentRoutes`
  unfoldable pub serve : Request → Handler Db Payment
  serve Request.health = answer (record { status = 200; body = text "ok" })
  serve Request.metrics = answer (record { status = 200; body = text metrics_text })
  serve (Request.create input) = create_payment input
  serve (Request.list customer_id) = list_payments env customer_id
  serve (Request.by_order id) = respond service_error 200 one (Service.get_by_order_id env id)
  serve (Request.by_id id) = respond service_error 200 one (Service.get_by_id env id)
  serve (Request.webhook input) = mock_webhook env input
  serve (Request.refund id input) = refund_payment env id input
  serve (Request.confirm id input) = confirm_payment env id input
  serve (Request.cancel id input) = cancel_payment env id input
