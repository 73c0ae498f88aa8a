-- ===== src/Gateway/Orders/Relay.antt =====
-- The routes of the gateway beside those of the order service itself.
use mathlib.Core.Path.{fun_ext}
use kazakh_express.Base.{
  ℕ, String, none, some, List, [], ◌∷◌, map, ◌≡◌, refl, ap, ◌∙◌, subst, ◌↔◌, Bool, true, false,
  if◌then◌else◌, arith,
}
use kazakh_express.Base.Int.{fits32, wrap32, wrap32_fits, wrap32-fits32}
use kazakh_express.Effect.{
  Error, done, Env, World, ◌>>=◌, invalid_input, invalid_state, not_found, rejected, fault,
}
use kazakh_express.Http.{respond, answer, remote, one, many, bad_gateway, Reply, Handler}
use kazakh_express.Http.Relayed.{IsRelayed, relay_one, relay_many}
use kazakh_express.Order.Model
use kazakh_express.Order.Model.{CreateInput, Db, is_allowed_status}
use kazakh_express.Order.Text.{status_of, status_text, status_text-status_of, unknown_text}
use kazakh_express.Order.Service
use kazakh_express.Order.Service.{Parts}
use kazakh_express.Order.Http
use kazakh_express.Order.Http.{service_error}
use kazakh_express.Order.Grpc
use kazakh_express.Order.Grpc.{input_of, to_proto}
use kazakh_express.Gateway.Orders.{
  item_from_proto, items_from_proto, status_from_proto, Item, Order, CreateOrderRequest, Request,
  create_message, order_from_proto, status_to_proto, items_to_proto, item_to_proto, serve,
  create_order, update_status, client_create, client_get, client_list, client_update_status,
  client_cancel, client_health,
}

-- The order that the messages bring to the client of the gateway.
abbrev pub view : (ℕ → String) → Model.Order → Order
view format o = order_from_proto (to_proto format o)

-- The order that the client of the gateway is to see: every field, a quantity in 32 bits, the text of
-- the status, where any that is unknown shows as `created`, and the times as texts.
abbrev pub seen_item : Model.Item → Item
seen_item i = record {
  product_id = i.product_id;
  name = i.name;
  quantity = wrap32 i.quantity;
  price_kzt = i.price_kzt;
}

abbrev pub seen_status : Model.Status → String
seen_status s = if is_allowed_status s then status_text s else "created"

abbrev pub seen : (ℕ → String) → Model.Order → Order
seen format o = record {
  id = o.id;
  customer_id = o.customer_id;
  items = map seen_item o.items;
  status = seen_status o.status;
  total_kzt = o.total_kzt;
  created_at = format o.created_at;
  updated_at = format o.updated_at;
}

items_seen :
    (is : List Model.Item) → map item_from_proto (map Grpc.item_to_proto is) ≡ map seen_item is
items_seen [] = refl
items_seen (i ∷ is) = ap (λ l. seen_item i ∷ l) (items_seen is)

status_seen : (s : Model.Status) → status_from_proto (Grpc.status_to_proto s) ≡ seen_status s
unfolding status_from_proto Grpc.status_to_proto
status_seen Model.created = refl
status_seen Model.paid = refl
status_seen Model.payment_failed = refl
status_seen Model.shipped = refl
status_seen Model.completed = refl
status_seen Model.canceled = refl
status_seen Model.no_status = refl
status_seen (Model.other_status s) = refl

view-seen : (format : ℕ → String) (o : Model.Order) → view format o ≡ seen format o
unfolding order_from_proto to_proto items_from_proto Grpc.items_to_proto
view-seen format o = rw (items_seen o.items, status_seen o.status) refl

-- What the service reads from the same JSON.
abbrev pub direct_item : Item → Model.Item
direct_item i = record {
  product_id = i.product_id;
  name = i.name;
  quantity = i.quantity;
  price_kzt = i.price_kzt;
}

abbrev pub direct_input : CreateOrderRequest → CreateInput
direct_input i = record { customer_id = i.customer_id; items = map direct_item i.items }

abbrev pub all_fit : List Item → Bool
all_fit [] = true
all_fit (i ∷ is) = elim (fits32 i.quantity) [ true ↦ all_fit is | false ↦ false ]

-- The same request on the handlers of the service.
unfoldable pub direct : Env → Parts → Request → Handler Db Model.Order
direct env parts Request.health =
    answer (record { status = 200; body = kazakh_express.Http.text "ok" })
direct env parts Request.list = Http.list_orders env parts
direct env parts (Request.create none) = Http.create_order env parts none
direct env parts (Request.create (some i)) = Http.create_order env parts (some (direct_input i))
direct env parts (Request.by_id id) = Http.get_order env parts id
direct env parts (Request.patch_status id none) = Http.update_status env parts id none
direct env parts (Request.patch_status id (some s)) =
    Http.update_status env parts id (some (status_of s))
direct env parts (Request.cancel id reason) = Http.cancel_order env parts id reason

-- Quantities that an int32 holds, and a status that the service knows.
abbrev pub passes : Request → Bool
passes (Request.create (some i)) = all_fit i.items
passes (Request.patch_status id (some s)) = is_allowed_status (status_of s)
passes _ = true

errors-IsRelayed :
    (format : ℕ → String) (e : Error) → IsRelayed (view format) (service_error e) (bad_gateway e)
unfolding service_error
errors-IsRelayed format invalid_input = refl
errors-IsRelayed format invalid_state = refl
errors-IsRelayed format not_found = refl
errors-IsRelayed format (rejected t) = refl
errors-IsRelayed format (fault t) = refl

arrived : List Item → List Model.Item
arrived is = map Grpc.item_from_proto (map item_to_proto is)

fits_of_arrived : (i : Item) → wrap32 i.quantity ≡ i.quantity → fits32 i.quantity ≡ true
fits_of_arrived i h = subst (λ q. fits32 q ≡ true) h (wrap32-fits32 i.quantity)

all_arrive : (is : List Item) → all_fit is ≡ true → arrived is ≡ map direct_item is
unfolding arrived
all_arrive [] h = refl
all_arrive (i ∷ is) h = ground (arith, wrap32_fits i.quantity, all_arrive is)

all_fit-arrived : (is : List Item) → arrived is ≡ map direct_item is → all_fit is ≡ true
unfolding arrived
all_fit-arrived [] h = refl
all_fit-arrived (i ∷ is) h =
    let first : wrap32 i.quantity ≡ i.quantity = cc in
    ground (arith, fits_of_arrived i first, all_fit-arrived is cc)

-- The items of an order arrive as they were sent if each quantity fits in 32 bits, and only then:
-- the gateway puts a quantity, an `int`, into an `int32`.
pub items_arrive :
    (i : CreateOrderRequest)
    → ((input_of (create_message i)).items ≡ (direct_input i).items) ↔ (all_fit i.items ≡ true)
unfolding input_of create_message items_to_proto Grpc.items_from_proto arrived
items_arrive i = (all_fit-arrived i.items, all_arrive i.items)

text_passes :
    (s : Model.Status)
    → is_allowed_status s ≡ true
    → Grpc.status_from_proto (status_to_proto (status_text s)) ≡ s
unfolding Grpc.status_from_proto status_to_proto
text_passes Model.created h = refl
text_passes Model.paid h = refl
text_passes Model.payment_failed h = refl
text_passes Model.shipped h = refl
text_passes Model.completed h = refl
text_passes Model.canceled h = refl
text_passes Model.no_status h = cc
text_passes (Model.other_status s) h = cc

-- A status that the service knows comes through the message.
status_passes :
    (s : String)
    → is_allowed_status (status_of s) ≡ true
    → Grpc.status_from_proto (status_to_proto s) ≡ status_of s
status_passes s h =
    ap (λ t. Grpc.status_from_proto (status_to_proto t)) (status_text-status_of s)
    ∙ text_passes (status_of s) h

-- One that it does not know becomes `created`.
status_lost :
    (s : String)
    → is_allowed_status (status_of s) ≡ false
    → Grpc.status_from_proto (status_to_proto s) ≡ Model.created
unfolding Grpc.status_from_proto status_to_proto status_of
status_lost s h =
    rw
      (
        unknown_text s "paid" h refl,
        unknown_text s "payment_failed" h refl,
        unknown_text s "shipped" h refl,
        unknown_text s "completed" h refl,
        unknown_text s "canceled" h refl,
      )
      refl

created_passes : Grpc.status_from_proto (status_to_proto "created") ≡ Model.created
unfolding status_of
created_passes = status_passes "created" refl

module _ (env : Env) (parts : Parts) (format : ℕ → String) where
  relayed :
      (r : Request) (w : World Db)
      → passes r ≡ true
      → let s = direct env parts r w in
        let g = serve done env parts format r w in IsRelayed (view format) s.0 g.0 × (g.1 ≡ s.1)
  unfolding direct Http.list_orders Http.create_order Http.get_order Http.update_status
      Http.cancel_order serve create_order update_status client_create client_get client_list
      client_update_status client_cancel client_health Grpc.create_order Grpc.get_order
      Grpc.list_orders Grpc.update_order_status Grpc.cancel_order answer respond remote input_of
      create_message ◌>>=◌
  relayed Request.health w h = (refl, refl)
  relayed Request.list w h =
      relay_many (to_proto format) order_from_proto service_error (errors-IsRelayed format) 200
        (Service.list env) w
  relayed (Request.create none) w h = (refl, refl)
  relayed (Request.create (some i)) w h =
      subst
        (λ items.
          let g = create_order done env parts format (some i) w in
          let input : CreateInput = record { customer_id = i.customer_id; items = items } in
          let s = respond service_error 201 one (Service.create env parts input) w in
          IsRelayed (view format) s.0 g.0 × (g.1 ≡ s.1))
        ((items_arrive i).1 h)
        (relay_one (to_proto format) order_from_proto service_error (errors-IsRelayed format) 201
          (Service.create env parts (input_of (create_message i))) w)
  relayed (Request.by_id id) w h =
      relay_one (to_proto format) order_from_proto service_error (errors-IsRelayed format) 200
        (Service.get_by_id env id) w
  relayed (Request.patch_status id none) w h = (refl, refl)
  relayed (Request.patch_status id (some s)) w h =
      subst
        (λ status.
          let g = update_status done env parts format id (some s) w in
          let d = respond service_error 200 one (Service.update_status env parts id status) w in
          IsRelayed (view format) d.0 g.0 × (g.1 ≡ d.1))
        (status_passes s h)
        (relay_one (to_proto format) order_from_proto service_error (errors-IsRelayed format) 200
          (Service.update_status env parts id (Grpc.status_from_proto (status_to_proto s))) w)
  relayed (Request.cancel id reason) w h =
      relay_one (to_proto format) order_from_proto service_error (errors-IsRelayed format) 200
        (Service.cancel env parts id reason) w

  -- A request on a route of the gateway whose call is delivered, whose quantities fit in 32 bits and
  -- whose status is one that the service knows, leaves the order service in the state in which the
  -- same request leaves it on the service's own handler. The answer has the same status and shows the
  -- same orders, field by field, with quantities in 32 bits and times as texts; an error of the service
  -- is 502 here.
  pub gateway_order :
      (r : Request) (w : World Db)
      → passes r ≡ true
      → let s = direct env parts r w in
        let g = serve done env parts format r w in IsRelayed (seen format) s.0 g.0 × (g.1 ≡ s.1)
  gateway_order r w h =
      subst
        (λ v.
          let s = direct env parts r w in
          let g = serve done env parts format r w in IsRelayed v s.0 g.0 × (g.1 ≡ s.1))
        (fun_ext (view-seen format)) (relayed r w h)

  -- A status that the service does not know is refused by the service's own handler, with 400 and
  -- before any call. Through the gateway it is taken for `created`: the call has the effect and the
  -- answer of one that sets the order to `created`.
  pub unknown_status_resets :
      (id s : String) (w : World Db)
      → is_allowed_status (status_of s) ≡ false
      → (Http.update_status env parts id (some (status_of s)) w ≡ (service_error invalid_input, w))
        × (update_status done env parts format id (some s) w
            ≡ update_status done env parts format id (some "created") w)
  unfolding Http.update_status Service.update_status update_status client_update_status respond
      Grpc.update_order_status ◌>>=◌
  unknown_status_resets id s w h = (rw h (ground arith), rw (status_lost s h, created_passes) refl)
