-- ===== src/Review/Service.antt =====
-- review-service/internal/review/service.go.
use kazakh_express.Base.{
  ℕ, String, Bool, ◌||◌, Option, none, some, List, [], ◌∷◌, ◌++◌, is_empty, if◌then◌else◌,
}
use kazakh_express.Base.Int.{ℤ, pos, ltb_ℤ}
use kazakh_express.Base.Decimal.{concat, decimal}
use kazakh_express.Effect.{
  Result, ok, err, invalid_input, attempt, Env, World, Action, pure, raise_if, call, ignore, when,
  get_time, ◌>>=◌, ◌>>◌, writes,
}
use kazakh_express.Review.Model.{
  Review, Rating, CreateInput, UpdateInput, ListFilter, Message, review_created, review_updated,
  review_deleted, rating_updated, Db,
}
use kazakh_express.Review.Repository

-- Which of the optional parts of `Service` are set, and the time to live of the cache.
pub record Parts : Type 0 where
  pub cache : Bool
  pub publisher : Bool
  pub ttl : ℕ

abbrev pub first_of : {A : Type 0} → Result (Option A) × World Db → Result (Option A) × World Db
first_of (ok a, w) = (ok a, w)
first_of (err e, w) = (ok none, w)

abbrev pub is_bad_rating : ℤ → Bool
is_bad_rating rating = ltb_ℤ rating (pos 1) || ltb_ℤ (pos 5) rating

abbrev pub new_review : CreateInput → ℕ → Review
new_review input now = record {
  id = concat "rev-" (decimal now);
  product_id = input.product_id;
  customer_id = input.customer_id;
  rating = input.rating;
  comment = input.comment;
  created_at = now;
  updated_at = now;
}

abbrev pub rewritten : UpdateInput → ℕ → Review → Review
rewritten input now r = record r {
  rating = input.rating;
  comment = input.comment;
  updated_at = now;
}

module _ (env : Env) (parts : Parts) where
  unfoldable pub publish : Message → Action Db (Unit {0})
  publish message = when parts.publisher (
      ignore
        (call env "publish" (writes (λ d. record d { published = d.published ++ message ∷ [] }))))

  unfoldable pub publish_rating : Option Rating → Action Db (Unit {0})
  publish_rating none = pure tt
  publish_rating (some rating) = publish (rating_updated rating)

  -- `ratingChanged`
  unfoldable pub rating_changed : String → Action Db (Unit {0})
  rating_changed product_id = do
    when parts.cache (ignore (Repository.delete_rating env product_id))
    rating ← attempt (Repository.rating env product_id)
    publish_rating rating

  unfoldable pub create : CreateInput → Action Db Review
  create input = do
    raise_if (is_empty input.product_id || is_empty input.customer_id || is_bad_rating input.rating)
        invalid_input
    now ← get_time env
    created ← Repository.create env (new_review input now)
    rating_changed created.product_id
    publish (
        review_created (record {
          review_id = created.id;
          product_id = created.product_id;
          customer_id = created.customer_id;
          rating = created.rating;
          occurred_at = now;
        }))
    pure created

  unfoldable pub get : String → Action Db Review
  get id = do raise_if (is_empty id) invalid_input; Repository.get_by_id env id

  unfoldable pub list_by_product : ListFilter → Action Db (List Review)
  list_by_product filter = do
    raise_if (is_empty filter.product_id) invalid_input
    Repository.list_by_product env filter

  unfoldable pub update : String → UpdateInput → Action Db Review
  update id input = do
    raise_if (is_empty id || is_bad_rating input.rating) invalid_input
    review ← Repository.get_by_id env id
    now ← get_time env
    updated ← Repository.update env (rewritten input now review)
    rating_changed updated.product_id
    publish (
        review_updated (record {
          review_id = updated.id;
          product_id = updated.product_id;
          customer_id = "";
          rating = updated.rating;
          occurred_at = updated.updated_at;
        }))
    pure updated

  -- The last step of `Delete`: the clock is read only for a message.
  unfoldable pub publish_deleted : String → String → Action Db (Unit {0})
  publish_deleted id product_id = when parts.publisher (
      get_time env >>= λ now. publish (
        review_deleted (record {
          review_id = id;
          product_id = product_id;
          customer_id = "";
          rating = pos 0;
          occurred_at = now;
        })))

  unfoldable pub delete : String → Action Db (Unit {0})
  delete id = do
    review ← Repository.get_by_id env id
    Repository.delete env id
    rating_changed review.product_id
    publish_deleted id review.product_id

  -- `Rating`, when the cache gives none.
  unfoldable pub rating_of_rows : String → Action Db Rating
  rating_of_rows product_id = do
    rating ← Repository.rating env product_id
    when parts.cache (ignore (Repository.set_rating env parts.ttl rating))
    pure rating

  -- What the cache gives: nothing if there is none, if it fails, or if it has no live entry.
  unfoldable pub read_cache : String → Action Db (Option Rating)
  read_cache product_id w =
      if parts.cache then first_of (Repository.get_rating env product_id w) else (ok none, w)

  unfoldable pub rating_or : String → Option Rating → Action Db Rating
  rating_or product_id (some rating) = pure rating
  rating_or product_id none = rating_of_rows product_id

  unfoldable pub rating : String → Action Db Rating
  rating product_id = do
    raise_if (is_empty product_id) invalid_input
    cached ← read_cache product_id
    rating_or product_id cached
