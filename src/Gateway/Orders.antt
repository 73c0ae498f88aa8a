-- ===== src/Gateway/Orders.antt =====
-- api-gateway/internal/orderservice: the client of the order service and its routes.
pub mod Relay
mod Tests
use kazakh_express.Base.{ℕ, String, Option, none, some, List, map, ◌==◌, if◌then◌else◌}
use kazakh_express.Base.Int.{ℤ, wrap32}
use kazakh_express.Effect.{Outcome, Env, Action, pure, ◌>>=◌}
use kazakh_express.Http.{
  one, many, text, Handler, respond, answer, invalid_json, remote, bad_gateway, unhealthy,
}
use kazakh_express.Order.Model.{Db}
use kazakh_express.Order.Service.{Parts}
use kazakh_express.Order.Grpc
use kazakh_express.Order.Grpc.{StatusProto, ItemProto, OrderProto, CreateProto}

-- model.go
pub record Item : Type 0 where
  pub product_id : String
  pub name : String
  pub quantity : ℤ
  pub price_kzt : ℤ

pub record Order : Type 0 where
  pub id : String
  pub customer_id : String
  pub items : List Item
  pub status : String
  pub total_kzt : ℤ
  pub created_at : String
  pub updated_at : String

pub record CreateOrderRequest : Type 0 where
  pub customer_id : String
  pub items : List Item

unfoldable pub status_to_proto : String → StatusProto
status_to_proto status =
    if status == "paid"
    then StatusProto.paid
    else if status == "payment_failed"
    then StatusProto.payment_failed
    else if status == "shipped"
    then StatusProto.shipped
    else if status == "completed"
    then StatusProto.completed
    else if status == "canceled"
    then StatusProto.canceled
    else StatusProto.created

unfoldable pub status_from_proto : StatusProto → String
status_from_proto StatusProto.paid = "paid"
status_from_proto StatusProto.payment_failed = "payment_failed"
status_from_proto StatusProto.shipped = "shipped"
status_from_proto StatusProto.completed = "completed"
status_from_proto StatusProto.canceled = "canceled"
status_from_proto _ = "created"

abbrev pub item_to_proto : Item → ItemProto
item_to_proto item = record {
  product_id = item.product_id;
  name = item.name;
  quantity = wrap32 item.quantity;
  price_kzt = item.price_kzt;
}

unfoldable pub items_to_proto : List Item → List ItemProto
items_to_proto items = map item_to_proto items

abbrev pub item_from_proto : ItemProto → Item
item_from_proto item = record {
  product_id = item.product_id;
  name = item.name;
  quantity = item.quantity;
  price_kzt = item.price_kzt;
}

unfoldable pub items_from_proto : List ItemProto → List Item
items_from_proto items = map item_from_proto items

unfoldable pub order_from_proto : OrderProto → Order
unfolding items_from_proto status_from_proto
order_from_proto item = record {
  id = item.id;
  customer_id = item.customer_id;
  items = items_from_proto item.items;
  status = status_from_proto item.status;
  total_kzt = item.total_kzt;
  created_at = item.created_at;
  updated_at = item.updated_at;
}

-- The message of `CreateOrder`.
unfoldable pub create_message : CreateOrderRequest → CreateProto
unfolding items_to_proto
create_message input = record {
  customer_id = input.customer_id;
  items = items_to_proto input.items;
}

-- The client: a call over `link`, and the order that its answer holds.
module _ (link : Outcome) (env : Env) (parts : Parts) (format : ℕ → String) where
  unfoldable pub client_create : CreateOrderRequest → Action Db Order
  client_create input = do
    output ← remote link (Grpc.create_order env parts format (create_message input))
    pure (order_from_proto output)

  unfoldable pub client_get : String → Action Db Order
  client_get id = do
    output ← remote link (Grpc.get_order env parts format id)
    pure (order_from_proto output)

  unfoldable pub client_list : Action Db (List Order)
  client_list = do
    output ← remote link (Grpc.list_orders env parts format)
    pure (map order_from_proto output)

  unfoldable pub client_update_status : String → String → Action Db Order
  client_update_status id status = do
    output ← remote link (Grpc.update_order_status env parts format id (status_to_proto status))
    pure (order_from_proto output)

  unfoldable pub client_cancel : String → String → Action Db Order
  client_cancel id reason = do
    output ← remote link (Grpc.cancel_order env parts format id reason)
    pure (order_from_proto output)

  unfoldable pub create_order : Option CreateOrderRequest → Handler Db Order
  create_order none = answer invalid_json
  create_order (some input) = respond bad_gateway 201 one (client_create input)

  unfoldable pub update_status : String → Option String → Handler Db Order
  update_status id none = answer invalid_json
  update_status id (some status) = respond bad_gateway 200 one (client_update_status id status)

-- `Health`: the server answers "ok".
unfoldable pub client_health : Outcome → Action Db String
client_health link = remote link (pure "ok")

-- A request on each route; of the body of a cancellation only the reason, if any, is used.
pub data Request : Type 0 where
  health list : Request
  create : Option CreateOrderRequest → Request
  by_id : String → Request
  patch_status : String → Option String → Request
  cancel : String → String → Request

-- `RegisterRoutes`
unfoldable pub serve : Outcome → Env → Parts → (ℕ → String) → Request → Handler Db Order
serve link env parts format Request.health = respond unhealthy 200 text (client_health link)
serve link env parts format Request.list =
    respond bad_gateway 200 many (client_list link env parts format)
serve link env parts format (Request.create input) = create_order link env parts format input
serve link env parts format (Request.by_id id) =
    respond bad_gateway 200 one (client_get link env parts format id)
serve link env parts format (Request.patch_status id status) =
    update_status link env parts format id status
serve link env parts format (Request.cancel id reason) =
    respond bad_gateway 200 one (client_cancel link env parts format id reason)
