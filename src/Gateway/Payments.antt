-- ===== src/Gateway/Payments.antt =====
-- api-gateway/internal/paymentservice: the client of the payment service and its routes.
pub mod Relay
pub mod Retry
mod Tests
use kazakh_express.Base.{ℕ, String, Option, none, some, List, map, ◌==◌, if◌then◌else◌}
use kazakh_express.Base.Int.{ℤ}
use kazakh_express.Effect.{Outcome, Env, Action, pure, ◌>>=◌}
use kazakh_express.Http.{
  one, many, text, Handler, respond, answer, invalid_json, remote, bad_gateway, unhealthy,
}
use kazakh_express.Payment.Model.{RefundInput, ConfirmInput, CancelInput, Db}
use kazakh_express.Payment.Service.{Provider}
use kazakh_express.Payment.Grpc
use kazakh_express.Payment.Grpc.{MethodProto, StatusProto, CreateProto, PaymentProto}

-- model.go
pub record Payment : Type 0 where
  pub id : String
  pub order_id : String
  pub customer_id : String
  pub customer_email : String
  pub amount_kzt : ℤ
  pub method : String
  pub status : String
  pub provider_transaction_id : String
  pub idempotency_key : String
  pub refund_reason : String
  pub failure_reason : String
  pub created_at : String
  pub updated_at : String

pub record CreatePaymentRequest : Type 0 where
  pub order_id : String
  pub customer_id : String
  pub customer_email : String
  pub amount_kzt : ℤ
  pub method : String
  pub idempotency_key : String

unfoldable pub method_to_proto : String → MethodProto
method_to_proto method =
    if method == "card"
    then MethodProto.card
    else if method == "kaspi"
    then MethodProto.kaspi
    else if method == "wallet"
    then MethodProto.wallet
    else MethodProto.unspecified

unfoldable pub method_from_proto : MethodProto → String
method_from_proto MethodProto.card = "card"
method_from_proto MethodProto.kaspi = "kaspi"
method_from_proto MethodProto.wallet = "wallet"
method_from_proto _ = ""

unfoldable pub status_from_proto : StatusProto → String
status_from_proto StatusProto.pending = "pending"
status_from_proto StatusProto.succeeded = "succeeded"
status_from_proto StatusProto.failed = "failed"
status_from_proto StatusProto.refunded = "refunded"
status_from_proto StatusProto.cancelled = "cancelled"
status_from_proto _ = ""

unfoldable pub payment_from_proto : PaymentProto → Payment
unfolding method_from_proto status_from_proto
payment_from_proto item = record {
  id = item.id;
  order_id = item.order_id;
  customer_id = item.customer_id;
  customer_email = item.customer_email;
  amount_kzt = item.amount_kzt;
  method = method_from_proto item.method;
  status = status_from_proto item.status;
  provider_transaction_id = item.provider_transaction_id;
  idempotency_key = item.idempotency_key;
  refund_reason = item.refund_reason;
  failure_reason = item.failure_reason;
  created_at = item.created_at;
  updated_at = item.updated_at;
}

-- The message of `CreatePayment`.
unfoldable pub create_message : CreatePaymentRequest → CreateProto
unfolding method_to_proto
create_message input = record {
  order_id = input.order_id;
  customer_id = input.customer_id;
  customer_email = input.customer_email;
  amount_kzt = input.amount_kzt;
  method = method_to_proto input.method;
  idempotency_key = input.idempotency_key;
}

-- The client: a call over `link`, and the payment that its answer holds.
module _ (link : Outcome) (env : Env) (format : ℕ → String) where
  unfoldable pub client_get : String → Action Db Payment
  client_get id = do
    output ← remote link (Grpc.get_payment env format id)
    pure (payment_from_proto output)

  unfoldable pub client_get_by_order_id : String → Action Db Payment
  client_get_by_order_id id = do
    output ← remote link (Grpc.get_payment_by_order_id env format id)
    pure (payment_from_proto output)

  unfoldable pub client_list : String → Action Db (List Payment)
  client_list customer_id = do
    output ← remote link (Grpc.list_payments env format customer_id)
    pure (map payment_from_proto output)

  unfoldable pub client_refund : RefundInput → Action Db Payment
  client_refund input = do
    output ← remote link (Grpc.refund_payment env format input)
    pure (payment_from_proto output)

  unfoldable pub client_confirm : ConfirmInput → Action Db Payment
  client_confirm input = do
    output ← remote link (Grpc.confirm_payment env format input)
    pure (payment_from_proto output)

  unfoldable pub client_cancel : CancelInput → Action Db Payment
  client_cancel input = do
    output ← remote link (Grpc.cancel_payment env format input)
    pure (payment_from_proto output)

  unfoldable pub refund_payment : String → Option RefundInput → Handler Db Payment
  refund_payment id none = answer invalid_json
  refund_payment id (some input) =
      respond bad_gateway 200 one (client_refund (record input { payment_id = id }))

  unfoldable pub confirm_payment : String → Option ConfirmInput → Handler Db Payment
  confirm_payment id none = answer invalid_json
  confirm_payment id (some input) =
      respond bad_gateway 200 one (client_confirm (record input { payment_id = id }))

  unfoldable pub cancel_payment : String → Option CancelInput → Handler Db Payment
  cancel_payment id none = answer invalid_json
  cancel_payment id (some input) =
      respond bad_gateway 200 one (client_cancel (record input { payment_id = id }))

module _ (link : Outcome) (env : Env) (format : ℕ → String) (ttl : ℕ) (provider : Provider) where
  unfoldable pub client_create : CreatePaymentRequest → Action Db Payment
  client_create input = do
    output ← remote link (Grpc.create_payment env format ttl provider (create_message input))
    pure (payment_from_proto output)

  unfoldable pub create_payment : Option CreatePaymentRequest → Handler Db Payment
  create_payment none = answer invalid_json
  create_payment (some input) = respond bad_gateway 201 one (client_create input)

-- `Health`: the server answers "ok".
unfoldable pub client_health : Outcome → Action Db String
client_health link = remote link (pure "ok")

-- A request on each route.
pub data Request : Type 0 where
  health : Request
  create : Option CreatePaymentRequest → Request
  list by_order by_id : String → Request
  refund : String → Option RefundInput → Request
  confirm : String → Option ConfirmInput → Request
  cancel : String → Option CancelInput → Request

-- `RegisterRoutes`
unfoldable pub serve : Outcome → Env → (ℕ → String) → ℕ → Provider → Request → Handler Db Payment
serve link env format ttl provider Request.health = respond unhealthy 200 text (client_health link)
serve link env format ttl provider (Request.create input) =
    create_payment link env format ttl provider input
serve link env format ttl provider (Request.list customer_id) =
    respond bad_gateway 200 many (client_list link env format customer_id)
serve link env format ttl provider (Request.by_order id) =
    respond bad_gateway 200 one (client_get_by_order_id link env format id)
serve link env format ttl provider (Request.by_id id) =
    respond bad_gateway 200 one (client_get link env format id)
serve link env format ttl provider (Request.refund id input) =
    refund_payment link env format id input
serve link env format ttl provider (Request.confirm id input) =
    confirm_payment link env format id input
serve link env format ttl provider (Request.cancel id input) =
    cancel_payment link env format id input
