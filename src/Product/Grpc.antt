-- ===== src/Product/Grpc.antt =====
-- product-service/internal/grpcapi/server.go: the product service over gRPC. The messages are those
-- that the code reads and writes, field by field; stocks, quantities and limits are int32.
use kazakh_express.Base.{ℕ, String, List, map}
use kazakh_express.Base.Int.{ℤ, wrap32}
use kazakh_express.Effect.{Env, Action, pure, ◌>>=◌}
use kazakh_express.Http.{elements}
use kazakh_express.Product.Model.{Product, ProductImage, CreateInput, ImageInput, ListFilter, Db}
use kazakh_express.Product.Service
use kazakh_express.Product.Service.{Service}

-- `productv1.Product`
pub record ProductProto : Type 0 where
  pub id : String
  pub name : String
  pub description : String
  pub price_kzt : ℤ
  pub stock : ℤ
  pub image_url : String
  pub created_at : String
  pub updated_at : String

-- `productv1.ProductImage`
pub record ImageProto : Type 0 where
  pub id : String
  pub product_id : String
  pub object_name : String
  pub url : String
  pub created_at : String

-- `format` is `formatTime`: the text of a time in RFC 3339.
unfoldable pub to_proto : (ℕ → String) → Product → ProductProto
to_proto format p = record {
  id = p.id;
  name = p.name;
  description = p.description;
  price_kzt = p.price_kzt;
  stock = wrap32 p.stock;
  image_url = p.image_url;
  created_at = format p.created_at;
  updated_at = format p.updated_at;
}

-- The answer of `AddProductImage`.
unfoldable pub image_to_proto : (ℕ → String) → ProductImage → ImageProto
image_to_proto format i = record {
  id = i.id;
  product_id = i.product_id;
  object_name = i.object;
  url = i.url;
  created_at = format i.created_at;
}

-- The messages hold the fields of the inputs, with int32 for int.
module _ (env : Env) (s : Service) (format : ℕ → String) where
  unfoldable pub create_product : CreateInput → Action Db ProductProto
  create_product req = do p ← Service.create env s req; pure (to_proto format p)

  unfoldable pub get_product : String → Action Db ProductProto
  get_product id = do p ← Service.get_by_id env s id; pure (to_proto format p)

  unfoldable pub list_products : ListFilter → Action Db (List ProductProto)
  list_products req = do
    products ← Service.list env s req
    pure (map (to_proto format) (elements products))

  unfoldable pub update_stock : String → ℤ → Action Db ProductProto
  update_stock id stock = do p ← Service.update_stock env s id stock; pure (to_proto format p)

  unfoldable pub reserve_stock : String → ℤ → Action Db ProductProto
  reserve_stock id quantity = do
    p ← Service.reserve_stock env s id quantity
    pure (to_proto format p)

  unfoldable pub release_stock : String → ℤ → Action Db ProductProto
  release_stock id quantity = do
    p ← Service.release_stock env s id quantity
    pure (to_proto format p)

  unfoldable pub add_product_image : ImageInput → Action Db ImageProto
  add_product_image req = do image ← Service.add_image env s req; pure (image_to_proto format image)
