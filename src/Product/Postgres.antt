-- ===== src/Product/Postgres.antt =====
-- product-service/internal/product/repository.go: `PostgresRepository`, with the constraints of
-- product-service/migrations. `matches` is the test of a row against the query text (ILIKE).
use kazakh_express.Base.{
  ℕ, String, Bool, not, ◌&&◌, ◌||◌, List, [], ◌∷◌, ◌++◌, is_some, is_empty, select, take, drop,
  if◌then◌else◌,
}
use kazakh_express.Base.Int.{ℤ, pos, pos_part, ltb_ℤ, leb_ℤ, fits32}
use kazakh_express.Base.Table.{find, update_where}
use kazakh_express.Base.Sorting.{newest_first}
use kazakh_express.Effect.{
  Result, ok, err, not_found, fault, Env, Action, pure, call, transaction, get_time, ◌>>=◌, ◌>>◌,
  reads, queries, writes, checked, or_raise,
}
use kazakh_express.Http.{Slice, nil, slice}
use kazakh_express.Product.Model.{Product, ProductImage, ListFilter, Db}
use kazakh_express.Product.Repository.{Repository, has_product}

-- CHECK (price_kzt >= 0), stock INTEGER CHECK (stock >= 0).
abbrev pub in_range : Product → Bool
in_range p = leb_ℤ (pos 0) p.price_kzt && leb_ℤ (pos 0) p.stock && fits32 p.stock

unfoldable pub create : Env → Product → Action Db Product
create env p = do
  call env "create product" (
      checked "create product" (λ d. not (has_product p.id d) && in_range p)
        (λ d. record d { products = d.products ++ p ∷ [] }))
  pure p

-- The page that `List` asks for.
abbrev pub page_limit : ℤ → ℕ
page_limit n = if leb_ℤ n (pos 0) || ltb_ℤ (pos 100) n then 50 else pos_part n

abbrev pub page_offset : ℤ → ℕ
page_offset n = if ltb_ℤ n (pos 0) then 0 else pos_part n

abbrev pub page : (String → Product → Bool) → ListFilter → List Product → List Product
page matches filter ps = take (page_limit filter.limit) (
    drop (page_offset filter.offset) (
      newest_first (λ p. p.created_at)
        (select (λ p. is_empty filter.query || matches filter.query p) ps)))

-- `var products []Product`, to which each row is appended.
abbrev pub appended : List Product → Slice Product
appended [] = nil
appended (p ∷ ps) = slice (p ∷ ps)

unfoldable pub list : Env → (String → Product → Bool) → ListFilter → Action Db (Slice Product)
list env matches filter =
    call env "list products" (reads (λ d. appended (page matches filter d.products)))

unfoldable pub get_by_id : Env → String → Action Db Product
get_by_id env id =
    call env "get product" (queries (λ d. or_raise (find (λ p. p.id) id d.products) not_found))

-- The columns that `Update` sets.
abbrev pub set_columns : Product → Product → Product
set_columns p q = record q {
  name = p.name;
  description = p.description;
  price_kzt = p.price_kzt;
  stock = p.stock;
  image_url = p.image_url;
  updated_at = p.updated_at;
}

abbrev pub update_rows : Product → Db → Result Product × Db
update_rows p d =
    if has_product p.id d
    then if in_range p
      then (ok p, record d { products = update_where (λ q. q.id) p.id (set_columns p) d.products })
      else (err (fault "update product"), d)
    else (err not_found, d)

unfoldable pub update : Env → Product → Action Db Product
update env p = call env "update product" (λ t d. update_rows p d)

abbrev pub with_image : ProductImage → ℕ → Product → Product
with_image image now p = record p { image_url = image.url; updated_at = now }

-- `RowsAffected() == 0` is not found.
abbrev pub set_image : ProductImage → ℕ → Db → Result (Unit {0}) × Db
set_image image now d = (
  if has_product image.product_id d then ok tt else err not_found,
  record d {
    products = update_where (λ q. q.id) image.product_id (with_image image now) d.products;
  },
)

unfoldable pub add_image_rows : Env → ProductImage → Action Db ProductImage
add_image_rows env image = do
  call env "insert image" (
      checked "insert image"
        (λ d. has_product image.product_id d && not (is_some (find (λ i. i.id) image.id d.images)))
        (λ d. record d { images = d.images ++ image ∷ [] }))
  now ← get_time env
  call env "update image url" (λ t d. set_image image now d)
  pure image

unfoldable pub add_image : Env → ProductImage → Action Db ProductImage
add_image env image = do
  call env "begin image tx" (writes (λ d. d))
  transaction env "commit image tx" (add_image_rows env image)

unfoldable pub postgres : Env → (String → Product → Bool) → Repository
postgres env matches = record {
  create = create env;
  list = list env matches;
  get_by_id = get_by_id env;
  update = update env;
  add_image = add_image env;
}
