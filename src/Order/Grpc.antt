-- ===== src/Order/Grpc.antt =====
-- order-service/internal/grpcapi/server.go: the order service over gRPC. The messages are those that
-- the code reads and writes, field by field; an enum of protobuf may hold any other number.
use kazakh_express.Base.{ℕ, String, List, map}
use kazakh_express.Base.Int.{ℤ, wrap32}
use kazakh_express.Effect.{Env, Action, pure, ◌>>=◌}
use kazakh_express.Order.Model
use kazakh_express.Order.Model.{Status, Item, Order, Db}
use kazakh_express.Order.Service
use kazakh_express.Order.Service.{Parts}

-- `orderv1.OrderStatus`
pub data StatusProto : Type 0 where
  unspecified created paid payment_failed shipped completed canceled : StatusProto
  number : ℕ → StatusProto

-- `orderv1.OrderItem`, whose quantity is an int32.
pub record ItemProto : Type 0 where
  pub product_id : String
  pub name : String
  pub quantity : ℤ
  pub price_kzt : ℤ

-- `orderv1.Order`
pub record OrderProto : Type 0 where
  pub id : String
  pub customer_id : String
  pub items : List ItemProto
  pub status : StatusProto
  pub total_kzt : ℤ
  pub created_at : String
  pub updated_at : String

-- `orderv1.CreateOrderRequest`
pub record CreateProto : Type 0 where
  pub customer_id : String
  pub items : List ItemProto

unfoldable pub status_to_proto : Status → StatusProto
status_to_proto Model.created = StatusProto.created
status_to_proto Model.paid = StatusProto.paid
status_to_proto Model.payment_failed = StatusProto.payment_failed
status_to_proto Model.shipped = StatusProto.shipped
status_to_proto Model.completed = StatusProto.completed
status_to_proto Model.canceled = StatusProto.canceled
status_to_proto _ = StatusProto.unspecified

unfoldable pub status_from_proto : StatusProto → Status
status_from_proto StatusProto.paid = Model.paid
status_from_proto StatusProto.payment_failed = Model.payment_failed
status_from_proto StatusProto.shipped = Model.shipped
status_from_proto StatusProto.completed = Model.completed
status_from_proto StatusProto.canceled = Model.canceled
status_from_proto _ = Model.created

abbrev pub item_to_proto : Item → ItemProto
item_to_proto item = record {
  product_id = item.product_id;
  name = item.name;
  quantity = wrap32 item.quantity;
  price_kzt = item.price_kzt;
}

unfoldable pub items_to_proto : List Item → List ItemProto
items_to_proto items = map item_to_proto items

abbrev pub item_from_proto : ItemProto → Item
item_from_proto item = record {
  product_id = item.product_id;
  name = item.name;
  quantity = item.quantity;
  price_kzt = item.price_kzt;
}

unfoldable pub items_from_proto : List ItemProto → List Item
items_from_proto items = map item_from_proto items

-- `format` is `formatTime`: the text of a time in RFC 3339.
unfoldable pub to_proto : (ℕ → String) → Order → OrderProto
unfolding items_to_proto status_to_proto
to_proto format o = record {
  id = o.id;
  customer_id = o.customer_id;
  items = items_to_proto o.items;
  status = status_to_proto o.status;
  total_kzt = o.total_kzt;
  created_at = format o.created_at;
  updated_at = format o.updated_at;
}

-- The input that `CreateOrder` makes of a message.
unfoldable pub input_of : CreateProto → Model.CreateInput
unfolding items_from_proto
input_of req = record { customer_id = req.customer_id; items = items_from_proto req.items }

module _ (env : Env) (parts : Parts) (format : ℕ → String) where
  unfoldable pub create_order : CreateProto → Action Db OrderProto
  create_order req = do
    placed ← Service.create env parts (input_of req)
    pure (to_proto format placed)

  unfoldable pub get_order : String → Action Db OrderProto
  get_order id = do found ← Service.get_by_id env id; pure (to_proto format found)

  unfoldable pub list_orders : Action Db (List OrderProto)
  list_orders = do orders ← Service.list env; pure (map (to_proto format) orders)

  unfoldable pub update_order_status : String → StatusProto → Action Db OrderProto
  update_order_status id status = do
    updated ← Service.update_status env parts id (status_from_proto status)
    pure (to_proto format updated)

  unfoldable pub cancel_order : String → String → Action Db OrderProto
  cancel_order id reason = do
    cancelled ← Service.cancel env parts id reason
    pure (to_proto format cancelled)
