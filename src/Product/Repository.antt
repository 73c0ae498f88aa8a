-- ===== src/Product/Repository.antt =====
-- product-service/internal/product/repository.go: the interface.
use kazakh_express.Base.{String, Bool, is_some}
use kazakh_express.Base.Table.{find}
use kazakh_express.Effect.{Action}
use kazakh_express.Http.{Slice}
use kazakh_express.Product.Model.{Product, ProductImage, ListFilter, Db}

-- `Repository`
pub record Repository : Type 0 where
  pub create : Product → Action Db Product
  pub list : ListFilter → Action Db (Slice Product)
  pub get_by_id : String → Action Db Product
  pub update : Product → Action Db Product
  pub add_image : ProductImage → Action Db ProductImage

abbrev pub has_product : String → Db → Bool
has_product id d = is_some (find (λ p. p.id) id d.products)
