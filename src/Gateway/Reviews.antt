-- ===== src/Gateway/Reviews.antt =====
-- api-gateway/internal/reviewservice: the client of the review service and its routes.
pub mod Relay
use kazakh_express.Base.{ℕ, String, Option, none, some, List, map}
use kazakh_express.Base.Int.{ℤ, wrap32}
use kazakh_express.Effect.{Outcome, Env, Action, pure, ◌>>=◌}
use kazakh_express.Http.{
  one, many, text, Handler, respond, answer, invalid_json, remote, bad_gateway,
}
use kazakh_express.Product.Http.{default_query}
use kazakh_express.Review.Model.{Rating, CreateInput, UpdateInput, ListFilter, Db}
use kazakh_express.Review.Service.{Parts}
use kazakh_express.Review.Grpc
use kazakh_express.Review.Grpc.{ReviewProto}

-- model.go
pub record Review : Type 0 where
  pub id : String
  pub product_id : String
  pub customer_id : String
  pub rating : ℤ
  pub comment : String
  pub created_at : String
  pub updated_at : String

pub record CreateReviewRequest : Type 0 where
  pub customer_id : String
  pub rating : ℤ
  pub comment : String

pub record UpdateReviewRequest : Type 0 where
  pub rating : ℤ
  pub comment : String

unfoldable pub from_proto : ReviewProto → Review
from_proto item = record {
  id = item.id;
  product_id = item.product_id;
  customer_id = item.customer_id;
  rating = item.rating;
  comment = item.comment;
  created_at = item.created_at;
  updated_at = item.updated_at;
}

-- The messages of `Create`, `Update` and `List`, with an int32 for an int.
unfoldable pub create_message : String → CreateReviewRequest → CreateInput
create_message product_id input = record {
  product_id = product_id;
  customer_id = input.customer_id;
  rating = wrap32 input.rating;
  comment = input.comment;
}

unfoldable pub update_message : UpdateReviewRequest → UpdateInput
update_message input = record { rating = wrap32 input.rating; comment = input.comment }

unfoldable pub list_message : String → ℤ → ℤ → ListFilter
list_message product_id limit offset = record {
  product_id = product_id;
  limit = wrap32 limit;
  offset = wrap32 offset;
}

-- The client: a call over `link`, and what its answer holds.
module _ (link : Outcome) (env : Env) (parts : Parts) (format : ℕ → String) where
  unfoldable pub client_create : String → CreateReviewRequest → Action Db Review
  client_create product_id input = do
    output ← remote link (Grpc.create_review env parts format (create_message product_id input))
    pure (from_proto output)

  unfoldable pub client_get : String → Action Db Review
  client_get id = do
    output ← remote link (Grpc.get_review env parts format id)
    pure (from_proto output)

  unfoldable pub client_list : String → ℤ → ℤ → Action Db (List Review)
  client_list product_id limit offset = do
    output ←
        remote link
          (Grpc.list_product_reviews env parts format (list_message product_id limit offset))
    pure (map from_proto output)

  unfoldable pub client_update : String → UpdateReviewRequest → Action Db Review
  client_update id input = do
    output ← remote link (Grpc.update_review env parts format id (update_message input))
    pure (from_proto output)

  unfoldable pub client_delete : String → Action Db (Unit {0})
  client_delete id = remote link (Grpc.delete_review env parts format id)

  unfoldable pub client_rating : String → Action Db Rating
  client_rating product_id = remote link (Grpc.get_product_rating env parts format product_id)

  unfoldable pub create : String → Option CreateReviewRequest → Handler Db Review
  create product_id none = answer invalid_json
  create product_id (some input) = respond bad_gateway 201 one (client_create product_id input)

  unfoldable pub rating : String → Handler Db Rating
  rating product_id = respond bad_gateway 200 one (client_rating product_id)

  unfoldable pub get : String → Handler Db Review
  get id = respond bad_gateway 200 one (client_get id)

  unfoldable pub update : String → Option UpdateReviewRequest → Handler Db Review
  update id none = answer invalid_json
  update id (some input) = respond bad_gateway 200 one (client_update id input)

  unfoldable pub delete : String → Handler Db Review
  delete id = respond bad_gateway 200 (λ _. text "deleted") (client_delete id)

-- `atoi` is the number that strconv.Atoi answers, whose error is dropped.
module _ (link : Outcome) (atoi : String → ℤ) (env : Env) (parts : Parts)
    (format : ℕ → String) where
  unfoldable pub list : String → Option String → Option String → Handler Db Review
  list product_id limit offset = respond bad_gateway 200 many (
      client_list link env parts format product_id (atoi (default_query "50" limit))
        (atoi (default_query "0" offset)))

-- `Health`: the server answers "ok", and an error is one of `writeResult`.
unfoldable pub health : Outcome → Handler Db Review
health link = respond bad_gateway 200 text (remote link (pure "ok"))
