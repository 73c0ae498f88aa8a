-- ===== src/Gateway/Products.antt =====
-- api-gateway/internal/productservice: the client of the product service and its routes.
pub mod Relay
mod Tests
use kazakh_express.Base.{ℕ, String, Option, none, some, List, map}
use kazakh_express.Base.Int.{ℤ, wrap32}
use kazakh_express.Effect.{Outcome, Env, Action, pure, ◌>>=◌}
use kazakh_express.Http.{
  one, many, text, Handler, respond, answer, invalid_json, remote, bad_gateway,
}
use kazakh_express.Product.Model.{CreateInput, ImageInput, ListFilter, Db}
use kazakh_express.Product.Service.{Service}
use kazakh_express.Product.Http.{
  Upload, no_file, cannot_open, cannot_read, file, bad_request, read_limited, default_query,
}
use kazakh_express.Product.Grpc
use kazakh_express.Product.Grpc.{ProductProto, ImageProto}

-- model.go
pub record Product : Type 0 where
  pub id : String
  pub name : String
  pub description : String
  pub price_kzt : ℤ
  pub stock : ℤ
  pub image_url : String
  pub created_at : String
  pub updated_at : String

pub record ProductImage : Type 0 where
  pub id : String
  pub product_id : String
  pub object : String
  pub url : String
  pub created_at : String

pub record CreateProductRequest : Type 0 where
  pub name : String
  pub description : String
  pub price_kzt : ℤ
  pub stock : ℤ

unfoldable pub from_proto : ProductProto → Product
from_proto item = record {
  id = item.id;
  name = item.name;
  description = item.description;
  price_kzt = item.price_kzt;
  stock = item.stock;
  image_url = item.image_url;
  created_at = item.created_at;
  updated_at = item.updated_at;
}

-- The image that `AddImage` makes of an answer.
unfoldable pub image_from_proto : ImageProto → ProductImage
image_from_proto item = record {
  id = item.id;
  product_id = item.product_id;
  object = item.object_name;
  url = item.url;
  created_at = item.created_at;
}

-- The message of `Create`, with an int32 for the stock.
unfoldable pub create_message : CreateProductRequest → CreateInput
create_message input = record {
  name = input.name;
  description = input.description;
  price_kzt = input.price_kzt;
  stock = wrap32 input.stock;
}

-- The message of `List`.
unfoldable pub list_message : ℤ → ℤ → String → ListFilter
list_message limit offset query = record {
  limit = wrap32 limit;
  offset = wrap32 offset;
  query = query;
}

-- The client: a call over `link`, and what its answer holds.
module _ (link : Outcome) (env : Env) (s : Service) (format : ℕ → String) where
  unfoldable pub client_create : CreateProductRequest → Action Db Product
  client_create input = do
    output ← remote link (Grpc.create_product env s format (create_message input))
    pure (from_proto output)

  unfoldable pub client_get : String → Action Db Product
  client_get id = do
    output ← remote link (Grpc.get_product env s format id)
    pure (from_proto output)

  unfoldable pub client_list : ℤ → ℤ → String → Action Db (List Product)
  client_list limit offset query = do
    output ← remote link (Grpc.list_products env s format (list_message limit offset query))
    pure (map from_proto output)

  unfoldable pub client_update_stock : String → ℤ → Action Db Product
  client_update_stock id stock = do
    output ← remote link (Grpc.update_stock env s format id (wrap32 stock))
    pure (from_proto output)

  unfoldable pub client_add_image : ImageInput → Action Db ProductImage
  client_add_image input = do
    output ← remote link (Grpc.add_product_image env s format input)
    pure (image_from_proto output)

  unfoldable pub create : Option CreateProductRequest → Handler Db Product
  create none = answer invalid_json
  create (some input) = respond bad_gateway 201 one (client_create input)

  unfoldable pub get : String → Handler Db Product
  get id = respond bad_gateway 200 one (client_get id)

  unfoldable pub update_stock : String → Option ℤ → Handler Db Product
  update_stock id none = answer invalid_json
  update_stock id (some stock) = respond bad_gateway 200 one (client_update_stock id stock)

  unfoldable pub add_image : String → Upload → Handler Db ProductImage
  add_image id no_file = answer (bad_request "image form file is required")
  add_image id cannot_open = answer (bad_request "cannot open image")
  add_image id cannot_read = answer (bad_request "cannot read image")
  add_image id (file name content_type size) = respond bad_gateway 201 one (
      client_add_image (record {
        product_id = id;
        filename = name;
        content_type = content_type;
        content = read_limited size;
      }))

module _ (link : Outcome) (atoi : String → ℤ) (env : Env) (s : Service) (format : ℕ → String) where
  unfoldable pub list : Option String → Option String → String → Handler Db Product
  list limit offset query = respond bad_gateway 200 many (
      client_list link env s format (atoi (default_query "50" limit))
        (atoi (default_query "0" offset)) query)

-- `Health`: the server answers "ok", and an error is one of `writeResult`.
unfoldable pub health : Outcome → Handler Db Product
health link = respond bad_gateway 200 text (remote link (pure "ok"))
