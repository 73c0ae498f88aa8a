-- ===== src/Product/Memory.antt =====
-- product-service/internal/product/repository.go: `MemoryRepository`. The map is the table with its
-- keys; writing to a key that is there keeps its place, and the order of a map is not part of it.
use kazakh_express.Base.{ℕ, ◌+◌, String, [], ◌∷◌, ◌++◌, if◌then◌else◌}
use kazakh_express.Base.Table.{find, update_where}
use kazakh_express.Effect.{ok, err, not_found, Env, Action, or_raise}
use kazakh_express.Http.{Slice, slice}
use kazakh_express.Product.Model.{Product, ProductImage, ListFilter, Db}
use kazakh_express.Product.Repository.{Repository, has_product}

abbrev pub put : Product → Db → Db
put p d =
    if has_product p.id d
    then record d { products = update_where (λ q. q.id) p.id (λ _. p) d.products }
    else record d { products = d.products ++ p ∷ [] }

unfoldable pub create : Product → Action Db Product
create p w = (ok p, record w { db = put p w.db })

unfoldable pub list : ListFilter → Action Db (Slice Product)
list filter w = (ok (slice w.db.products), w)

unfoldable pub get_by_id : String → Action Db Product
get_by_id id w = (or_raise (find (λ p. p.id) id w.db.products) not_found, w)

unfoldable pub update : Product → Action Db Product
update p w =
    if has_product p.id w.db then (ok p, record w { db = put p w.db }) else (err not_found, w)

abbrev pub with_image : ProductImage → ℕ → Product → Product
with_image image now p = record p { image_url = image.url; updated_at = now }

-- The time is read while the lock is held, if the product is there.
unfoldable pub add_image : Env → ProductImage → Action Db ProductImage
add_image env image w =
    if has_product image.product_id w.db
    then (
      ok image,
      record {
        db = record w.db {
          products =
              update_where (λ q. q.id) image.product_id (with_image image (env.now w.tick))
                w.db.products;
        };
        tick = w.tick + 1;
      },
    )
    else (err not_found, w)

unfoldable pub memory : Env → Repository
memory env = record {
  create = create;
  list = list;
  get_by_id = get_by_id;
  update = update;
  add_image = add_image env;
}
