-- ===== src/Order/Http.antt =====
-- order-service/internal/http/handler.go: the routes of the order service, from the method and the
-- path of a request.
pub mod Routes
use kazakh_express.Base.{
  String, Bool, Option, none, some, List, [], ◌∷◌, ◌==◌, ◌&&◌, ◌||◌, if◌then◌else◌,
}
use kazakh_express.Effect.{Error, invalid_input, not_found, Env}
use kazakh_express.Http.{
  one, many, error_of, error_text, text, empty, Reply, Handler, respond, answer, invalid_json,
}
use kazakh_express.Http.Paths.{split, trim, trim_prefix, is_blank, cut_prefix}
use kazakh_express.Order.Model.{Status, Order, CreateInput, Db}
use kazakh_express.Order.Service
use kazakh_express.Order.Service.{Parts}

pub record Request : Type 0 where
  pub method : String
  pub path : String
  pub body : String

-- What encoding/json reads from a body: a body that is no JSON is `none`, and for a cancellation
-- the reason that it has set all the same.
pub record Json : Type 0 where
  pub create : String → Option CreateInput
  pub update_status : String → Option Status
  pub cancel_reason : String → String

-- `handleServiceError`
unfoldable pub service_error : Error → Reply Order
service_error invalid_input = record { status = 400; body = error_of invalid_input }
service_error not_found = record { status = 404; body = error_of not_found }
service_error _ = record { status = 500; body = error_text "internal server error" }

abbrev pub not_allowed : Reply Order
not_allowed = record { status = 405; body = empty }

abbrev pub order_not_found : Reply Order
order_not_found = record { status = 404; body = error_text "order not found" }

abbrev pub metrics_text : String
metrics_text = "kazakhexpress_service_up{service=\"order\"} 1\n"

-- The parts of the path behind `/orders/`.
abbrev pub parts_of : String → List String
parts_of path = split (trim (trim_prefix "/orders/" path))

module _ (env : Env) (parts : Parts) where
  unfoldable pub create_order : Option CreateInput → Handler Db Order
  create_order none = answer invalid_json
  create_order (some input) = respond service_error 201 one (Service.create env parts input)

  unfoldable pub list_orders : Handler Db Order
  list_orders = respond service_error 200 many (Service.list env)

  unfoldable pub get_order : String → Handler Db Order
  get_order id = respond service_error 200 one (Service.get_by_id env id)

  unfoldable pub update_status : String → Option Status → Handler Db Order
  update_status id none = answer invalid_json
  update_status id (some status) =
      respond service_error 200 one (Service.update_status env parts id status)

  unfoldable pub cancel_order : String → String → Handler Db Order
  cancel_order id reason = respond service_error 200 one (Service.cancel env parts id reason)

module _ (json : Json) (env : Env) (parts : Parts) where
  unfoldable pub orders : Request → Handler Db Order
  orders r =
      if r.method == "POST"
      then create_order env parts (json.create r.body)
      else if r.method == "GET"
      then list_orders env parts
      else answer not_allowed

  -- The branches of `orderByID` for one part, for two, and for any other number.
  unfoldable pub order_of_parts : Request → List String → Handler Db Order
  order_of_parts r [] = answer order_not_found
  order_of_parts r (id ∷ []) =
      if is_blank id
      then answer order_not_found
      else if r.method == "GET"
      then get_order env parts id
      else answer not_allowed
  order_of_parts r (id ∷ word ∷ []) =
      if is_blank id
      then answer order_not_found
      else if (word == "status") && (r.method == "PATCH")
      then update_status env parts id (json.update_status r.body)
      else if (word == "cancel") && (r.method == "POST")
      then cancel_order env parts id (json.cancel_reason r.body)
      else answer not_allowed
  order_of_parts r (id ∷ _ ∷ _ ∷ _) =
      if is_blank id then answer order_not_found else answer not_allowed

  -- `orderByID`
  unfoldable pub order_by_id : Request → Handler Db Order
  order_by_id r = order_of_parts r (parts_of r.path)

  abbrev pub behind_orders : Request → Option String → Handler Db Order
  behind_orders r none = answer (record { status = 404; body = text "404 page not found\n" })
  behind_orders r (some _) = order_by_id r

  -- `Routes`, on a path that the mux has cleaned.
  unfoldable pub serve : Request → Handler Db Order
  serve r =
      if r.path == "/health"
      then answer (record { status = 200; body = text "ok" })
      else if r.path == "/metrics"
      then answer (record { status = 200; body = text metrics_text })
      else if r.path == "/orders"
      then orders r
      else behind_orders r (cut_prefix "/orders/" r.path)
