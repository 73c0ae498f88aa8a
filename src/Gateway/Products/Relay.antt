-- ===== src/Gateway/Products/Relay.antt =====
-- The routes of the gateway beside those of the product service itself.
use kazakh_express.Base.{
  ℕ, String, Option, none, some, ◌≡◌, refl, ap, subst, Bool, true, ◌&&◌, arith,
}
use kazakh_express.Base.Int.{ℤ, fits32, wrap32_fits, wrap32}
use kazakh_express.Effect.{
  Error, done, Env, World, ◌>>=◌, invalid_input, invalid_state, not_found, rejected, fault,
}
use kazakh_express.Http.{Handler, respond, answer, remote, one, json_of, bad_gateway}
use kazakh_express.Http.Relayed.{IsRelayed, relay_one, relay_slice}
use kazakh_express.Product.Model
use kazakh_express.Product.Model.{CreateInput, ListFilter, Db}
use kazakh_express.Product.Service
use kazakh_express.Product.Service.{Service}
use kazakh_express.Product.Http
use kazakh_express.Product.Http.{
  Upload, no_file, cannot_open, cannot_read, file, service_error, read_limited, default_query,
}
use kazakh_express.Product.Grpc
use kazakh_express.Product.Grpc.{to_proto, image_to_proto}
use kazakh_express.Gateway.Products.{
  Product, ProductImage, CreateProductRequest, from_proto, image_from_proto, create_message,
  list_message, client_create, client_get, client_list, client_update_stock, client_add_image,
  create, get, update_stock, add_image, list,
}

-- The product that the client of the gateway is to see: every field, with the stock in 32 bits and the
-- times as texts.
abbrev pub seen : (ℕ → String) → Model.Product → Product
seen format p = record {
  id = p.id;
  name = p.name;
  description = p.description;
  price_kzt = p.price_kzt;
  stock = wrap32 p.stock;
  image_url = p.image_url;
  created_at = format p.created_at;
  updated_at = format p.updated_at;
}

-- The product and the image that the messages bring to the client of the gateway.
abbrev pub view : (ℕ → String) → Model.Product → Product
view format p = from_proto (to_proto format p)

abbrev pub image_view : (ℕ → String) → Model.ProductImage → ProductImage
image_view format i = image_from_proto (image_to_proto format i)

-- A request on each route but those of images.
pub data Request : Type 0 where
  health : Request
  create_product : Option CreateProductRequest → Request
  list_products : Option String → Option String → String → Request
  get_product : String → Request
  set_stock : String → Option ℤ → Request

abbrev pub direct_input : CreateProductRequest → CreateInput
direct_input i = record {
  name = i.name;
  description = i.description;
  price_kzt = i.price_kzt;
  stock = i.stock;
}

module _ (atoi : String → ℤ) (env : Env) (s : Service) where
  -- The same request on the handlers of the service.
  unfoldable pub direct : Request → Handler Db Model.Product
  direct health = answer (record { status = 200; body = kazakh_express.Http.text "ok" })
  direct (create_product none) = Http.create_product env s none
  direct (create_product (some i)) = Http.create_product env s (some (direct_input i))
  direct (list_products limit offset query) = Http.list_products atoi env s limit offset query
  direct (get_product id) = Http.get_product env s id
  direct (set_stock id stock) = Http.update_stock env s id stock

  unfoldable pub through : (ℕ → String) → Request → Handler Db Product
  through format health = kazakh_express.Gateway.Products.health done
  through format (create_product i) = create done env s format i
  through format (list_products limit offset query) = list done atoi env s format limit offset query
  through format (get_product id) = get done env s format id
  through format (set_stock id stock) = update_stock done env s format id stock

-- Its numbers fit in 32 bits.
abbrev pub passes : (String → ℤ) → Request → Bool
passes atoi (create_product (some i)) = fits32 i.stock
passes atoi (list_products limit offset query) =
    fits32 (atoi (default_query "50" limit)) && fits32 (atoi (default_query "0" offset))
passes atoi (set_stock id (some stock)) = fits32 stock
passes atoi _ = true

errors-IsRelayed :
    {A V : Type 0} (f : A → V) (e : Error) → IsRelayed f (service_error e) (bad_gateway e)
unfolding service_error
errors-IsRelayed f invalid_input = refl
errors-IsRelayed f invalid_state = refl
errors-IsRelayed f not_found = refl
errors-IsRelayed f (rejected t) = refl
errors-IsRelayed f (fault t) = refl

create_passes :
    (i : CreateProductRequest) → fits32 i.stock ≡ true → create_message i ≡ direct_input i
unfolding create_message
create_passes i h = ap (λ n. record (direct_input i) { stock = n }) (wrap32_fits i.stock h)

list_passes :
    (limit offset : ℤ) (query : String)
    → (fits32 limit && fits32 offset) ≡ true
    → list_message limit offset query ≡ record { limit = limit; offset = offset; query = query }
unfolding list_message
list_passes limit offset query h = ground (arith, wrap32_fits limit, wrap32_fits offset)

module _ (atoi : String → ℤ) (env : Env) (s : Service) (format : ℕ → String) where
  relayed :
      (r : Request) (w : World Db)
      → passes atoi r ≡ true
      → let d = direct atoi env s r w in
        let g = through atoi env s format r w in IsRelayed (view format) d.0 g.0 × (g.1 ≡ d.1)
  unfolding direct through kazakh_express.Gateway.Products.health Http.create_product
      Http.list_products Http.get_product Http.update_stock create get update_stock list
      client_create client_get client_list client_update_stock Grpc.create_product Grpc.get_product
      Grpc.list_products Grpc.update_stock answer respond remote ◌>>=◌
  relayed health w h = (refl, refl)
  relayed (create_product none) w h = (refl, refl)
  relayed (create_product (some i)) w h =
      subst
        (λ input.
          let g = create done env s format (some i) w in
          let d = respond service_error 201 one (Service.create env s input) w in
          IsRelayed (view format) d.0 g.0 × (g.1 ≡ d.1))
        (create_passes i h)
        (relay_one (to_proto format) from_proto service_error (errors-IsRelayed (view format)) 201
          (Service.create env s (create_message i)) w)
  relayed (list_products limit offset query) w h =
      let n = atoi (default_query "50" limit) in
      let m = atoi (default_query "0" offset) in
      subst
        (λ filter.
          let g = list done atoi env s format limit offset query w in
          let d = respond service_error 200 json_of (Service.list env s filter) w in
          IsRelayed (view format) d.0 g.0 × (g.1 ≡ d.1))
        (list_passes n m query h)
        (relay_slice (to_proto format) from_proto service_error (errors-IsRelayed (view format)) 200
          (Service.list env s (list_message n m query)) w)
  relayed (get_product id) w h =
      relay_one (to_proto format) from_proto service_error (errors-IsRelayed (view format)) 200
        (Service.get_by_id env s id) w
  relayed (set_stock id none) w h = (refl, refl)
  relayed (set_stock id (some stock)) w h =
      subst
        (λ n.
          let g = update_stock done env s format id (some stock) w in
          let d = respond service_error 200 one (Service.update_stock env s id n) w in
          IsRelayed (view format) d.0 g.0 × (g.1 ≡ d.1))
        (wrap32_fits stock h)
        (relay_one (to_proto format) from_proto service_error (errors-IsRelayed (view format)) 200
          (Service.update_stock env s id (wrap32 stock)) w)

  view-seen : view format ≡ seen format
  unfolding from_proto to_proto
  view-seen = refl

  -- A request on a route of the gateway for products, other than those of images, whose call is
  -- delivered and whose numbers fit in 32 bits, leaves the product service, over any repository, in the
  -- state in which the same request leaves it on the service's own handler. The answer has the same
  -- status and shows the same products, field by field, with a stock in 32 bits and times as texts;
  -- an answer null of the service is an empty list here, and an error is 502.
  pub gateway_product :
      (r : Request) (w : World Db)
      → passes atoi r ≡ true
      → let d = direct atoi env s r w in
        let g = through atoi env s format r w in IsRelayed (seen format) d.0 g.0 × (g.1 ≡ d.1)
  gateway_product r w h =
      subst
        (λ v.
          let d = direct atoi env s r w in
          let g = through atoi env s format r w in IsRelayed v d.0 g.0 × (g.1 ≡ d.1))
        view-seen (relayed r w h)

-- The same for an image, whose file is missing, unreadable, or read up to 10 MiB.
pub gateway_image :
    (env : Env) (s : Service) (format : ℕ → String) (id : String) (upload : Upload) (w : World Db)
    → let d = Http.add_image env s id upload w in
      let g = add_image done env s format id upload w in
      IsRelayed (image_view format) d.0 g.0 × (g.1 ≡ d.1)
unfolding Http.add_image add_image client_add_image Grpc.add_product_image answer respond remote
    ◌>>=◌
gateway_image env s format id no_file w = (refl, refl)
gateway_image env s format id cannot_open w = (refl, refl)
gateway_image env s format id cannot_read w = (refl, refl)
gateway_image env s format id (file name content_type size) w =
    relay_one (image_to_proto format) image_from_proto service_error
      (errors-IsRelayed (image_view format)) 201
      (Service.add_image env s (record {
        product_id = id;
        filename = name;
        content_type = content_type;
        content = read_limited size;
      }))
      w
