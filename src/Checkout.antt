-- ===== src/Checkout.antt =====
-- The payment and the order service together: what one publishes, the other reads.
pub mod Settled
mod Tests
use kazakh_express.Base.{List, [], ◌∷◌, some}
use kazakh_express.Effect.{Env, World}
use kazakh_express.Payment.Model
use kazakh_express.Payment.Model.{Topic, subject}
use kazakh_express.Payment.Text.{status_text}
use kazakh_express.Order.Model as OrderModel
use kazakh_express.Order.Model.{PaymentEvent}
use kazakh_express.Order.Service.{Parts}
use kazakh_express.Order.Consumer.{on_payment}

-- What the order service reads from the JSON of a payment event.
abbrev pub received : Model.PaymentEvent → PaymentEvent
received e = record {
  payment_id = e.payment_id;
  order_id = e.order_id;
  customer_id = e.customer_id;
  status = status_text e.status;
  reason = e.reason;
  occurred_at = e.occurred_at;
}

-- The messages of the payment service, delivered one after the other.
unfoldable pub deliver :
    Env → Parts → List (Topic × Model.PaymentEvent) → World OrderModel.Db → World OrderModel.Db
deliver env parts [] v = v
deliver env parts ((topic, e) ∷ ms) v =
    deliver env parts ms (on_payment env parts (subject topic) (some (received e)) v).1
