-- ===== src/Payment/Repository.antt =====
-- payment-service/internal/payment/repository.go (PostgresRepository) with the constraints of
-- payment-service/migrations, and payment-service/internal/cache/redis.go.
use kazakh_express.Base.{
  ℕ, ◌+◌, ◌*◌, ◌/◌, String, ◌==◌, Bool, true, false, not, ◌&&◌, Option, none, some, List, [], ◌∷◌,
  ◌++◌, ltb, is_empty, is_some, select, if◌then◌else◌,
}
use kazakh_express.Base.Int.{pos, ltb_ℤ}
use kazakh_express.Base.Decimal.{concat}
use kazakh_express.Base.Table.{find, update_where}
use kazakh_express.Base.Sorting.{newest_first}
use kazakh_express.Effect.{
  Result, ok, err, not_found, fault, Env, Action, pure, call, ◌>>◌, reads, queries, checked,
  or_raise,
}
use kazakh_express.Payment.Model.{
  Status, Method, other_status, other_method, Payment, ListFilter, PaymentEvent, Saved, Db,
  is_refunded,
}

-- `check (method in (...))` and `check (status in (...))`.
abbrev pub known_method : Method → Bool
known_method (other_method _) = false
known_method _ = true

abbrev pub known_status : Status → Bool
known_status (other_status _) = false
known_status _ = true

-- A `timestamptz` column keeps microseconds: pgx drops what is below them.
unfoldable pub micros : ℕ → ℕ
micros t = t / 1000 * 1000

-- A payment as its row is read back.
abbrev pub as_row : Payment → Payment
as_row p = record p { created_at = micros p.created_at; updated_at = micros p.updated_at }

-- The constraints on a new row: the primary key, the unique idempotency key, and the checks.
abbrev pub insertable : Payment → Db → Bool
insertable p d =
    not (is_some (find (λ q. q.id) p.id d.payments))
    && not (is_some (find (λ q. q.idempotency_key) p.idempotency_key d.payments))
    && ltb_ℤ (pos 0) p.amount_kzt
    && known_method p.method
    && known_status p.status

unfoldable pub create : Env → Payment → Action Db Payment
create env p = do
  call env "create payment" (
      checked "create payment" (insertable p)
        (λ d. record d { payments = d.payments ++ as_row p ∷ [] }))
  pure p

-- `GetByID`
unfoldable pub get_by_id : Env → String → Action Db Payment
get_by_id env id =
    call env "get payment" (queries (λ d. or_raise (find (λ p. p.id) id d.payments) not_found))

abbrev pub latest : String → List Payment → Option Payment
latest order_id ps = find (λ p. p.order_id) order_id (newest_first (λ p. p.created_at) ps)

-- `GetByOrderID`: the newest payment of the order.
unfoldable pub get_by_order_id : Env → String → Action Db Payment
get_by_order_id env order_id =
    call env "get payment by order id"
      (queries (λ d. or_raise (latest order_id d.payments) not_found))

-- The rows that a filter asks for: all of them, or those of one customer.
abbrev pub matching : ListFilter → List Payment → List Payment
matching filter ps =
    if is_empty filter.customer_id then ps else select (λ p. p.customer_id == filter.customer_id) ps

unfoldable pub list : Env → ListFilter → Action Db (List Payment)
list env filter =
    call env "list payments"
      (reads (λ d. newest_first (λ p. p.created_at) (matching filter d.payments)))

-- The columns that `Update` sets.
abbrev pub set_columns : Payment → Payment → Payment
set_columns p q = record q {
  status = p.status;
  provider_transaction_id = p.provider_transaction_id;
  refund_reason = p.refund_reason;
  failure_reason = p.failure_reason;
  updated_at = micros p.updated_at;
}

abbrev pub update_rows : Payment → Db → Result Payment × Db
update_rows p d =
    if is_some (find (λ q. q.id) p.id d.payments)
    then if known_status p.status
      then (ok p, record d { payments = update_where (λ q. q.id) p.id (set_columns p) d.payments })
      else (err (fault "update payment"), d)
    else (err not_found, d)

unfoldable pub update : Env → Payment → Action Db Payment
update env p = call env "update payment" (λ t d. update_rows p d)

-- Both inserts name the payment as a foreign key.
abbrev pub has_payment : String → Db → Bool
has_payment id d = is_some (find (λ q. q.id) id d.payments)

unfoldable pub append_refund : Env → PaymentEvent → Action Db (Unit {0})
append_refund env event = call env "append refund" (
    checked "append refund" (has_payment event.payment_id) (λ d. record d {
      refunds =
          d.refunds
          ++ record {
            payment_id = event.payment_id;
            reason = event.reason;
            amount_kzt = event.amount_kzt;
            created_at = micros event.occurred_at;
          }
            ∷ [];
    }))

abbrev pub event_row : PaymentEvent → PaymentEvent
event_row event = record event { occurred_at = micros event.occurred_at }

unfoldable pub append_event : Env → PaymentEvent → Action Db (Unit {0})
append_event env event = do
  call env "append payment event" (
      checked "append payment event"
        (λ d. has_payment event.payment_id d && known_status event.status)
        (λ d. record d { events = d.events ++ event_row event ∷ [] }))
  if is_refunded event.status then append_refund env event else pure tt

-- `redisKey`
abbrev pub redis_key : String → String
redis_key key = concat "payment:idempotency:" key

-- GET answers an entry that has not expired.
abbrev pub live : ℕ → Option Saved → Option String
live t none = none
live t (some e) = if ltb t e.expires then some e.payment_id else none

-- `GetPaymentID`
unfoldable pub get_payment_id : Env → String → Action Db (Option String)
get_payment_id env key =
    call env "get idempotency key"
      (λ t d. (ok (live t (find (λ e. e.key) (redis_key key) d.saved)), d))

-- `SavePaymentID`: SET with a time to live; the newest entry of a key stands first.
unfoldable pub save_payment_id : Env → ℕ → String → String → Action Db (Unit {0})
save_payment_id env ttl key payment_id = call env "save idempotency key" (λ t d. (
  ok tt,
  record d {
    saved = record { key = redis_key key; payment_id = payment_id; expires = t + ttl } ∷ d.saved;
  },
))
