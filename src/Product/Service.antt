-- ===== src/Product/Service.antt =====
-- product-service/internal/product/service.go.
use kazakh_express.Base.{
  ℕ, String, ◌==◌, Bool, not, ◌||◌, [], ◌∷◌, ◌++◌, eqb, is_empty, if◌then◌else◌,
}
use kazakh_express.Base.Int.{ℤ, pos, ◌+ℤ◌, ◌-ℤ◌, wrap64, ltb_ℤ, leb_ℤ}
use kazakh_express.Base.Decimal.{concat, decimal}
use kazakh_express.Effect.{
  ok, invalid_input, Env, Action, pure, raise_if, call, ignore, when, get_time, ◌>>=◌, ◌>>◌, writes,
}
use kazakh_express.Http.{Slice}
use kazakh_express.Product.Model.{
  Product, ProductImage, CreateInput, ListFilter, ImageInput, Event, Topic, product_created,
  stock_updated, stock_reserved, stock_released, Db,
}
use kazakh_express.Product.Repository.{Repository}

-- A `Service`: its repository, which of the optional parts are set, and what the storage answers
-- for the name of an object. `base_name` is `strings.TrimSpace(filepath.Base(name))`.
pub record Service : Type 0 where
  pub repo : Repository
  pub storage : Bool
  pub publisher : Bool
  pub url_of : String → String
  pub base_name : String → String

module _ (env : Env) (s : Service) where
  -- `_ = s.publisher.Publish…`
  unfoldable pub publish : Topic → Event → Action Db (Unit {0})
  publish topic event = when s.publisher (
      ignore (
        call env "publish"
          (writes (λ d. record d { published = d.published ++ (topic, event) ∷ [] }))))

  unfoldable pub create : CreateInput → Action Db Product
  create input = do
    raise_if (is_empty input.name || ltb_ℤ input.price_kzt (pos 0) || ltb_ℤ input.stock (pos 0))
        invalid_input
    now ← get_time env
    created ← s.repo.create (record {
      id = concat "prd-" (decimal now);
      name = input.name;
      description = input.description;
      price_kzt = input.price_kzt;
      stock = input.stock;
      image_url = "";
      created_at = now;
      updated_at = now;
    })
    publish product_created (record {
      product_id = created.id;
      name = created.name;
      stock = created.stock;
      quantity = pos 0;
      occurred_at = now;
    })
    pure created

  unfoldable pub list : ListFilter → Action Db (Slice Product)
  list filter = s.repo.list filter

  -- `GetByID`
  unfoldable pub get_by_id : String → Action Db Product
  get_by_id id = do raise_if (is_empty id) invalid_input; s.repo.get_by_id id

  -- The message about a stock.
  abbrev pub stock_event : String → ℤ → ℤ → ℕ → Event
  stock_event id stock quantity at = record {
    product_id = id;
    name = "";
    stock = stock;
    quantity = quantity;
    occurred_at = at;
  }

  -- The assignments before `s.repo.Update`.
  abbrev pub with_stock : ℤ → ℕ → Product → Product
  with_stock stock now p = record p { stock = stock; updated_at = now }

  -- `UpdateStock`, from the row that was read.
  unfoldable pub set_row : String → ℤ → Product → Action Db Product
  set_row id stock p = do
    now ← get_time env
    updated ← s.repo.update (with_stock stock now p)
    publish stock_updated (stock_event id stock (pos 0) updated.updated_at)
    pure updated

  unfoldable pub update_stock : String → ℤ → Action Db Product
  update_stock id stock = do
    raise_if (is_empty id || ltb_ℤ stock (pos 0)) invalid_input
    p ← s.repo.get_by_id id
    set_row id stock p

  -- `ReserveStock`, from the row that was read.
  unfoldable pub reserve_row : String → ℤ → Product → Action Db Product
  reserve_row id quantity p = do
    raise_if (ltb_ℤ p.stock quantity) invalid_input
    now ← get_time env
    updated ← s.repo.update (with_stock (wrap64 (p.stock -ℤ quantity)) now p)
    publish stock_reserved (stock_event id updated.stock quantity updated.updated_at)
    pure updated

  unfoldable pub reserve_stock : String → ℤ → Action Db Product
  reserve_stock id quantity = do
    raise_if (is_empty id || leb_ℤ quantity (pos 0)) invalid_input
    p ← s.repo.get_by_id id
    reserve_row id quantity p

  -- `ReleaseStock`, from the row that was read.
  unfoldable pub release_row : String → ℤ → Product → Action Db Product
  release_row id quantity p = do
    now ← get_time env
    updated ← s.repo.update (with_stock (wrap64 (p.stock +ℤ quantity)) now p)
    publish stock_released (stock_event id updated.stock quantity updated.updated_at)
    pure updated

  unfoldable pub release_stock : String → ℤ → Action Db Product
  release_stock id quantity = do
    raise_if (is_empty id || leb_ℤ quantity (pos 0)) invalid_input
    p ← s.repo.get_by_id id
    release_row id quantity p

  -- The name that `AddImage` gives the file.
  abbrev pub image_name : String → String
  image_name filename =
      let name = s.base_name filename in
      if name == "." || is_empty name then "product-image" else name

  unfoldable pub add_image : ImageInput → Action Db ProductImage
  add_image input = do
    raise_if (is_empty input.product_id || eqb input.content 0 || not s.storage) invalid_input
    now ← get_time env
    let object = concat "products/" (
        concat input.product_id
          (concat "/" (concat (decimal now) (concat "-" (image_name input.filename)))))
    url ←
        call env "save object"
          (λ t d. (ok (s.url_of object), record d { objects = d.objects ++ object ∷ [] }))
    s.repo.add_image (record {
      id = concat "img-" (decimal now);
      product_id = input.product_id;
      object = object;
      url = url;
      created_at = now;
    })
