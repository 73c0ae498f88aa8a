-- ===== src/Payment/Grpc.antt =====
-- payment-service/internal/grpcapi/server.go: the payment service over gRPC. The messages are those
-- that the code reads and writes, field by field; an enum of protobuf may hold any other number.
use kazakh_express.Base.{ℕ, String, List, map, not, is_empty, if◌then◌else◌}
use kazakh_express.Base.Int.{ℤ}
use kazakh_express.Effect.{Env, Action, pure, ◌>>=◌}
use kazakh_express.Payment.Model
use kazakh_express.Payment.Model.{
  Status, Method, Payment, RefundInput, ConfirmInput, CancelInput, Db,
}
use kazakh_express.Payment.Service
use kazakh_express.Payment.Service.{Provider}

-- `paymentv1.PaymentMethod`
pub data MethodProto : Type 0 where
  unspecified card kaspi wallet : MethodProto
  number : ℕ → MethodProto

-- `paymentv1.PaymentStatus`
pub data StatusProto : Type 0 where
  unspecified pending succeeded failed refunded cancelled : StatusProto
  number : ℕ → StatusProto

-- `paymentv1.CreatePaymentRequest`
pub record CreateProto : Type 0 where
  pub order_id : String
  pub customer_id : String
  pub customer_email : String
  pub amount_kzt : ℤ
  pub method : MethodProto
  pub idempotency_key : String

-- `paymentv1.Payment`
pub record PaymentProto : Type 0 where
  pub id : String
  pub order_id : String
  pub customer_id : String
  pub customer_email : String
  pub amount_kzt : ℤ
  pub method : MethodProto
  pub status : StatusProto
  pub provider_transaction_id : String
  pub idempotency_key : String
  pub refund_reason : String
  pub failure_reason : String
  pub created_at : String
  pub updated_at : String

unfoldable pub method_from_proto : MethodProto → Method
method_from_proto MethodProto.card = Model.card
method_from_proto MethodProto.kaspi = Model.kaspi
method_from_proto MethodProto.wallet = Model.wallet
method_from_proto _ = Model.other_method ""

unfoldable pub method_to_proto : Method → MethodProto
method_to_proto Model.card = MethodProto.card
method_to_proto Model.kaspi = MethodProto.kaspi
method_to_proto Model.wallet = MethodProto.wallet
method_to_proto _ = MethodProto.unspecified

unfoldable pub status_to_proto : Status → StatusProto
status_to_proto Model.pending = StatusProto.pending
status_to_proto Model.succeeded = StatusProto.succeeded
status_to_proto Model.failed = StatusProto.failed
status_to_proto Model.refunded = StatusProto.refunded
status_to_proto Model.cancelled = StatusProto.cancelled
status_to_proto _ = StatusProto.unspecified

-- `format` is `formatTime`: the text of a time in RFC 3339.
module _ (format : ℕ → String) where
  unfoldable pub payment_to_proto : Payment → PaymentProto
  unfolding method_to_proto status_to_proto
  payment_to_proto item = record {
    id = item.id;
    order_id = item.order_id;
    customer_id = item.customer_id;
    customer_email = item.customer_email;
    amount_kzt = item.amount_kzt;
    method = method_to_proto item.method;
    status = status_to_proto item.status;
    provider_transaction_id = item.provider_transaction_id;
    idempotency_key = item.idempotency_key;
    refund_reason = item.refund_reason;
    failure_reason = item.failure_reason;
    created_at = format item.created_at;
    updated_at = format item.updated_at;
  }

module _ (env : Env) (format : ℕ → String) where
  unfoldable pub get_payment : String → Action Db PaymentProto
  get_payment payment_id = do
    result ← Service.get_by_id env payment_id
    pure (payment_to_proto format result)

  unfoldable pub get_payment_by_order_id : String → Action Db PaymentProto
  get_payment_by_order_id order_id = do
    result ← Service.get_by_order_id env order_id
    pure (payment_to_proto format result)

  -- The choice of `ListPayments`.
  unfoldable pub listed : String → Action Db (List Payment)
  listed customer_id =
      if not (is_empty customer_id)
      then Service.list_by_customer_id env customer_id
      else Service.list env

  unfoldable pub list_payments : String → Action Db (List PaymentProto)
  list_payments customer_id = do
    result ← listed customer_id
    pure (map (payment_to_proto format) result)

  unfoldable pub refund_payment : RefundInput → Action Db PaymentProto
  refund_payment input = do
    result ← Service.refund_payment env input
    pure (payment_to_proto format result)

  unfoldable pub confirm_payment : ConfirmInput → Action Db PaymentProto
  confirm_payment input = do
    result ← Service.confirm env input
    pure (payment_to_proto format result)

  unfoldable pub cancel_payment : CancelInput → Action Db PaymentProto
  cancel_payment input = do result ← Service.cancel env input; pure (payment_to_proto format result)

-- The input that `CreatePayment` makes of a message.
unfoldable pub input_of : CreateProto → Model.CreateInput
unfolding method_from_proto
input_of input = record {
  order_id = input.order_id;
  customer_id = input.customer_id;
  customer_email = input.customer_email;
  amount_kzt = input.amount_kzt;
  method = method_from_proto input.method;
  idempotency_key = input.idempotency_key;
}

unfoldable pub create_payment :
    Env → (ℕ → String) → ℕ → Provider → CreateProto → Action Db PaymentProto
create_payment env format ttl provider input = do
  result ← Service.create env ttl provider (input_of input)
  pure (payment_to_proto format result)
