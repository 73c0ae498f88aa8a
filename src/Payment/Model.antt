-- ===== src/Payment/Model.antt =====
-- payment-service/internal/payment/model.go, and the tables and logs that the service writes to.
use kazakh_express.Base.{ℕ, String, List, Bool, true, false}
use kazakh_express.Base.Int.{ℤ}

-- `type Status string`: the constants of the source, and any other text.
pub data Status : Type 0 where
  pending succeeded failed refunded cancelled : Status
  other_status : String → Status

pub data Method : Type 0 where
  card kaspi wallet : Method
  other_method : String → Method

-- Times are nanoseconds.
pub record Payment : Type 0 where
  pub id : String
  pub order_id : String
  pub customer_id : String
  pub customer_email : String
  pub amount_kzt : ℤ
  pub method : Method
  pub status : Status
  pub provider_transaction_id : String
  pub idempotency_key : String
  pub refund_reason : String
  pub failure_reason : String
  pub created_at : ℕ
  pub updated_at : ℕ

pub record CreateInput : Type 0 where
  pub order_id : String
  pub customer_id : String
  pub customer_email : String
  pub amount_kzt : ℤ
  pub method : Method
  pub idempotency_key : String

pub record RefundInput : Type 0 where
  pub payment_id : String
  pub reason : String

pub record CancelInput : Type 0 where
  pub payment_id : String
  pub reason : String

pub record ConfirmInput : Type 0 where
  pub payment_id : String
  pub provider_transaction_id : String

pub record ListFilter : Type 0 where
  pub customer_id : String

pub record ProviderResult : Type 0 where
  pub status : Status
  pub provider_transaction_id : String
  pub failure_reason : String

pub record PaymentEvent : Type 0 where
  pub payment_id : String
  pub order_id : String
  pub customer_id : String
  pub amount_kzt : ℤ
  pub status : Status
  pub reason : String
  pub provider_transaction_id : String
  pub occurred_at : ℕ

-- `ReceiptEmail`, `RefundEmail` and `FailureEmail`: to, payment, order, amount, reason.
pub data Email : Type 0 where
  receipt : String → String → String → ℤ → Email
  refund failure : String → String → String → ℤ → String → Email

-- A row of the table `refunds`.
pub record Refund : Type 0 where
  pub payment_id : String
  pub reason : String
  pub amount_kzt : ℤ
  pub created_at : ℕ

-- The subjects of the broker.
pub data Topic : Type 0 where
  payment_created payment_succeeded payment_failed payment_refunded payment_cancelled : Topic

-- An entry of the idempotency store: the Redis key, the payment, and the time when it expires.
pub record Saved : Type 0 where
  pub key : String
  pub payment_id : String
  pub expires : ℕ

-- The tables of the database, the keys in Redis, and what the broker, the provider and the mail
-- service have been sent, oldest first.
pub record Db : Type 0 where
  pub payments : List Payment
  pub events : List PaymentEvent
  pub refunds : List Refund
  pub saved : List Saved
  pub published : List (Topic × PaymentEvent)
  pub charged : List Payment
  pub mailed : List Email

abbrev pub is_succeeded : Status → Bool
is_succeeded succeeded = true
is_succeeded _ = false

abbrev pub is_pending : Status → Bool
is_pending pending = true
is_pending _ = false

abbrev pub is_failed : Status → Bool
is_failed failed = true
is_failed _ = false

abbrev pub is_refunded : Status → Bool
is_refunded refunded = true
is_refunded _ = false

abbrev pub is_cancelled : Status → Bool
is_cancelled cancelled = true
is_cancelled _ = false

abbrev pub is_wallet : Method → Bool
is_wallet wallet = true
is_wallet _ = false

-- The subjects of internal/messaging/nats.go.
abbrev pub subject : Topic → String
subject payment_created = "payment.created"
subject payment_succeeded = "payment.succeeded"
subject payment_failed = "payment.failed"
subject payment_refunded = "payment.refunded"
subject payment_cancelled = "payment.cancelled"
