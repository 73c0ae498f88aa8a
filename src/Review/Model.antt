-- ===== src/Review/Model.antt =====
-- review-service/internal/review/model.go, and the tables, cache and logs that the service writes to.
use kazakh_express.Base.{ℕ, String, List}
use kazakh_express.Base.Int.{ℤ}

pub record Review : Type 0 where
  pub id : String
  pub product_id : String
  pub customer_id : String
  pub rating : ℤ
  pub comment : String
  pub created_at : ℕ
  pub updated_at : ℕ

-- The average is `total / count`, and 0 if there is no review; its rounding to a `float64` is left
-- out.
pub record Rating : Type 0 where
  pub product_id : String
  pub total : ℤ
  pub count : ℕ

pub record CreateInput : Type 0 where
  pub product_id : String
  pub customer_id : String
  pub rating : ℤ
  pub comment : String

pub record UpdateInput : Type 0 where
  pub rating : ℤ
  pub comment : String

pub record ListFilter : Type 0 where
  pub product_id : String
  pub limit : ℤ
  pub offset : ℤ

pub record Event : Type 0 where
  pub review_id : String
  pub product_id : String
  pub customer_id : String
  pub rating : ℤ
  pub occurred_at : ℕ

-- What is published, under the subject of its constructor.
pub data Message : Type 0 where
  review_created review_updated review_deleted : Event → Message
  rating_updated : Rating → Message

-- An entry of the cache; its key is the identifier of the product, between a fixed prefix and a
-- fixed suffix.
pub record Cached : Type 0 where
  pub key : String
  pub rating : Rating
  pub expires : ℕ

-- The table, the cache (newest entry first) and the messages sent (oldest first).
pub record Db : Type 0 where
  pub reviews : List Review
  pub cached : List Cached
  pub published : List Message
