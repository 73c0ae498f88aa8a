-- ===== src/Order/Consumer.antt =====
-- The messages that the order service reads (order-service/internal/messaging/nats.go).
use kazakh_express.Base.{String, Option, none, some, ◌==◌, if◌then◌else◌}
use kazakh_express.Effect.{Env, Action, pure, ignore}
use kazakh_express.Order.Model.{PaymentEvent, StockReservedEvent, Db}
use kazakh_express.Order.Service
use kazakh_express.Order.Service.{Parts}

-- A message that does not decode, and an error of the handler, are only logged.
unfoldable pub consume : {E : Type 0} → (E → Action Db (Unit {0})) → Option E → Action Db (Unit {0})
consume handler none = pure tt
consume handler (some event) = ignore (handler event)

module _ (env : Env) (parts : Parts) where
  -- The subscriptions of `Start` to payments; there is no other.
  unfoldable pub on_payment : String → Option PaymentEvent → Action Db (Unit {0})
  on_payment subject message =
      if subject == "payment.succeeded"
      then consume (Service.handle_payment_succeeded env parts) message
      else if subject == "payment.failed"
      then consume (Service.handle_payment_failed env parts) message
      else pure tt

  unfoldable pub on_stock_reserved : Option StockReservedEvent → Action Db (Unit {0})
  on_stock_reserved message = consume (Service.handle_stock_reserved env) message
