-- ===== src/Product/Model.antt =====
-- product-service/internal/product/model.go, and the tables and logs that the service writes to.
use kazakh_express.Base.{ℕ, String, List}
use kazakh_express.Base.Int.{ℤ}

pub record Product : Type 0 where
  pub id : String
  pub name : String
  pub description : String
  pub price_kzt : ℤ
  pub stock : ℤ
  pub image_url : String
  pub created_at : ℕ
  pub updated_at : ℕ

pub record ProductImage : Type 0 where
  pub id : String
  pub product_id : String
  pub object : String
  pub url : String
  pub created_at : ℕ

pub record CreateInput : Type 0 where
  pub name : String
  pub description : String
  pub price_kzt : ℤ
  pub stock : ℤ

pub record ListFilter : Type 0 where
  pub limit : ℤ
  pub offset : ℤ
  pub query : String

-- The content of an image is given by its length.
pub record ImageInput : Type 0 where
  pub product_id : String
  pub filename : String
  pub content_type : String
  pub content : ℕ

pub record Event : Type 0 where
  pub product_id : String
  pub name : String
  pub stock : ℤ
  pub quantity : ℤ
  pub occurred_at : ℕ

pub data Topic : Type 0 where
  product_created stock_updated stock_reserved stock_released : Topic

-- The tables, the objects in the image storage, and the messages sent, oldest first.
pub record Db : Type 0 where
  pub products : List Product
  pub images : List ProductImage
  pub objects : List String
  pub published : List (Topic × Event)
