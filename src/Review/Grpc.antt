-- ===== src/Review/Grpc.antt =====
-- review-service/internal/grpcapi/server.go: the review service over gRPC. The messages are those
-- that the code reads and writes, field by field; ratings and limits are int32.
use kazakh_express.Base.{ℕ, String, List, map}
use kazakh_express.Base.Int.{ℤ, wrap32}
use kazakh_express.Effect.{Env, Action, pure, ◌>>=◌}
use kazakh_express.Review.Model.{Review, Rating, CreateInput, UpdateInput, ListFilter, Db}
use kazakh_express.Review.Service
use kazakh_express.Review.Service.{Parts}

-- `reviewv1.Review`
pub record ReviewProto : Type 0 where
  pub id : String
  pub product_id : String
  pub customer_id : String
  pub rating : ℤ
  pub comment : String
  pub created_at : String
  pub updated_at : String

-- `format` is `formatTime`: the text of a time in RFC 3339.
unfoldable pub to_proto : (ℕ → String) → Review → ReviewProto
to_proto format r = record {
  id = r.id;
  product_id = r.product_id;
  customer_id = r.customer_id;
  rating = wrap32 r.rating;
  comment = r.comment;
  created_at = format r.created_at;
  updated_at = format r.updated_at;
}

-- The messages hold the fields of the inputs, with int32 for int.
module _ (env : Env) (parts : Parts) (format : ℕ → String) where
  unfoldable pub create_review : CreateInput → Action Db ReviewProto
  create_review req = do review ← Service.create env parts req; pure (to_proto format review)

  unfoldable pub get_review : String → Action Db ReviewProto
  get_review id = do found ← Service.get env parts id; pure (to_proto format found)

  unfoldable pub list_product_reviews : ListFilter → Action Db (List ReviewProto)
  list_product_reviews req = do
    reviews ← Service.list_by_product env parts req
    pure (map (to_proto format) reviews)

  unfoldable pub update_review : String → UpdateInput → Action Db ReviewProto
  update_review id req = do
    updated ← Service.update env parts id req
    pure (to_proto format updated)

  -- The answer `Deleted: true` holds nothing.
  unfoldable pub delete_review : String → Action Db (Unit {0})
  delete_review id = Service.delete env parts id

  -- The message holds the product, the average and the count.
  unfoldable pub get_product_rating : String → Action Db Rating
  get_product_rating product_id = Service.rating env parts product_id
