-- ===== src/Product/Http.antt =====
-- product-service/internal/http/handler.go: the routes of the product service.
use kazakh_express.Base.{ℕ, String, Option, none, some, ltb, if◌then◌else◌}
use kazakh_express.Base.Int.{ℤ}
use kazakh_express.Effect.{Error, invalid_input, not_found, Env}
use kazakh_express.Http.{
  one, json_of, error_of, error_text, Reply, Handler, respond, answer, invalid_json,
}
use kazakh_express.Product.Model.{Product, ProductImage, CreateInput, Db}
use kazakh_express.Product.Service
use kazakh_express.Product.Service.{Service}

-- The form file `image`: it may be missing, or fail to open or to be read; its content is given by
-- its length.
pub data Upload : Type 0 where
  no_file cannot_open cannot_read : Upload
  file : String → String → ℕ → Upload

-- The error of `writeResult`.
unfoldable pub service_error : {A : Type 0} → Error → Reply A
service_error invalid_input = record { status = 400; body = error_of invalid_input }
service_error not_found = record { status = 404; body = error_of not_found }
service_error e = record { status = 500; body = error_of e }

abbrev pub bad_request : {A : Type 0} → String → Reply A
bad_request t = record { status = 400; body = error_text t }

-- `io.LimitReader(opened, 10<<20)`: what is behind 10 MiB is left unread, with no error.
unfoldable pub read_limited : ℕ → ℕ
read_limited size = if ltb 10485760 size then 10485760 else size

-- `c.DefaultQuery`
abbrev pub default_query : String → Option String → String
default_query d none = d
default_query d (some q) = q

-- `atoi` is the number that strconv.Atoi answers, whose error is dropped.
module _ (atoi : String → ℤ) (env : Env) (s : Service) where
  unfoldable pub list_products : Option String → Option String → String → Handler Db Product
  list_products limit offset query = respond service_error 200 json_of (
      Service.list env s (record {
        limit = atoi (default_query "50" limit);
        offset = atoi (default_query "0" offset);
        query = query;
      }))

module _ (env : Env) (s : Service) where
  unfoldable pub create_product : Option CreateInput → Handler Db Product
  create_product none = answer invalid_json
  create_product (some input) = respond service_error 201 one (Service.create env s input)

  unfoldable pub get_product : String → Handler Db Product
  get_product id = respond service_error 200 one (Service.get_by_id env s id)

  -- The body holds the stock.
  unfoldable pub update_stock : String → Option ℤ → Handler Db Product
  update_stock id none = answer invalid_json
  update_stock id (some stock) = respond service_error 200 one (Service.update_stock env s id stock)

  unfoldable pub add_image : String → Upload → Handler Db ProductImage
  add_image id no_file = answer (bad_request "image form file is required")
  add_image id cannot_open = answer (bad_request "cannot open image")
  add_image id cannot_read = answer (bad_request "cannot read image")
  add_image id (file name content_type size) = respond service_error 201 one (
      Service.add_image env s (record {
        product_id = id;
        filename = name;
        content_type = content_type;
        content = read_limited size;
      }))
