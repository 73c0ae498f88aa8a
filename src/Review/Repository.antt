-- ===== src/Review/Repository.antt =====
-- review-service/internal/review/repository.go (PostgresRepository) with the constraints of
-- review-service/migrations, and the Redis cache of internal/cache/redis.go.
use kazakh_express.Base.{
  ℕ, ◌+◌, String, ◌==◌, Bool, not, ◌&&◌, ◌||◌, Option, none, some, List, [], ◌∷◌, ◌++◌, is_some,
  select, take, drop, length, ltb, if◌then◌else◌,
}
use kazakh_express.Base.Int.{ℤ, pos, ◌+ℤ◌, pos_part, ltb_ℤ, leb_ℤ}
use kazakh_express.Base.Table.{find, update_where, delete_where}
use kazakh_express.Base.Sorting.{newest_first}
use kazakh_express.Effect.{
  Result, ok, err, not_found, fault, Env, Action, pure, call, ◌>>◌, reads, queries, writes, checked,
  or_raise,
}
use kazakh_express.Review.Model.{Review, Rating, ListFilter, Cached, Db}

-- CHECK (rating BETWEEN 1 AND 5)
abbrev pub in_range : ℤ → Bool
in_range rating = leb_ℤ (pos 1) rating && leb_ℤ rating (pos 5)

abbrev pub has_review : String → Db → Bool
has_review id d = is_some (find (λ r. r.id) id d.reviews)

unfoldable pub create : Env → Review → Action Db Review
create env review = do
  call env "create review" (
      checked "create review" (λ d. not (has_review review.id d) && in_range review.rating)
        (λ d. record d { reviews = d.reviews ++ review ∷ [] }))
  pure review

unfoldable pub get_by_id : Env → String → Action Db Review
get_by_id env id =
    call env "get review" (queries (λ d. or_raise (find (λ r. r.id) id d.reviews) not_found))

-- The page that `ListByProduct` asks for.
abbrev pub page_limit : ℤ → ℕ
page_limit n = if leb_ℤ n (pos 0) || ltb_ℤ (pos 100) n then 50 else pos_part n

abbrev pub page_offset : ℤ → ℕ
page_offset n = if ltb_ℤ n (pos 0) then 0 else pos_part n

abbrev pub of_product : String → List Review → List Review
of_product id = select (λ r. r.product_id == id)

unfoldable pub list_by_product : Env → ListFilter → Action Db (List Review)
list_by_product env filter = call env "list reviews" (
    reads (λ d. take (page_limit filter.limit) (
      drop (page_offset filter.offset)
        (newest_first (λ r. r.created_at) (of_product filter.product_id d.reviews)))))

-- The columns that `Update` sets.
abbrev pub set_columns : Review → Review → Review
set_columns r q = record q { rating = r.rating; comment = r.comment; updated_at = r.updated_at }

abbrev pub update_rows : Review → Db → Result Review × Db
update_rows r d =
    if has_review r.id d
    then if in_range r.rating
      then (ok r, record d { reviews = update_where (λ q. q.id) r.id (set_columns r) d.reviews })
      else (err (fault "update review"), d)
    else (err not_found, d)

unfoldable pub update : Env → Review → Action Db Review
update env review = call env "update review" (λ t d. update_rows review d)

-- `Delete`: no row deleted is not found.
abbrev pub delete_rows : String → Db → Result (Unit {0}) × Db
delete_rows id d = (
  if has_review id d then ok tt else err not_found,
  record d { reviews = delete_where (λ r. r.id) id d.reviews },
)

unfoldable pub delete : Env → String → Action Db (Unit {0})
delete env id = call env "delete review" (λ t d. delete_rows id d)

abbrev pub total : List Review → ℤ
total [] = pos 0
total (r ∷ rs) = r.rating +ℤ total rs

-- AVG(rating) and COUNT(*) of the rows of a product.
abbrev pub rating_of : String → List Review → Rating
rating_of id rs =
    let mine = of_product id rs in
    record { product_id = id; total = total mine; count = length mine }

unfoldable pub rating : Env → String → Action Db Rating
rating env id = call env "rating" (reads (λ d. rating_of id d.reviews))

-- GET answers an entry that has not expired.
abbrev pub live : ℕ → Option Cached → Option Rating
live t none = none
live t (some e) = if ltb t e.expires then some e.rating else none

-- `GetRating`, `SetRating`, `DeleteRating`
unfoldable pub get_rating : Env → String → Action Db (Option Rating)
get_rating env id = call env "get rating" (λ t d. (ok (live t (find (λ e. e.key) id d.cached)), d))

unfoldable pub set_rating : Env → ℕ → Rating → Action Db (Unit {0})
set_rating env ttl r = call env "set rating" (λ t d. (
  ok tt,
  record d { cached = record { key = r.product_id; rating = r; expires = t + ttl } ∷ d.cached },
))

unfoldable pub delete_rating : Env → String → Action Db (Unit {0})
delete_rating env id =
    call env "delete rating"
      (writes (λ d. record d { cached = delete_where (λ e. e.key) id d.cached }))
