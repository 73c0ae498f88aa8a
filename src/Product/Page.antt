-- ===== src/Product/Page.antt =====
-- The page that `List` of the Postgres repository answers.
use kazakh_express.Base.{
  ◌≤◌, String, ◌≡◌, subst, Bool, List, [], ◌∷◌, refl, arith, length, length-take-le,
}
use kazakh_express.Base.Int.{ℤ}
use kazakh_express.Effect.{ok, Env, World, ◌>>=◌}
use kazakh_express.Product.Model.{Product, ListFilter, Db}
use kazakh_express.Product.Postgres
use kazakh_express.Http.{Slice, elements}
use kazakh_express.Product.Postgres.{appended, page, page_limit}

list-page :
    (env : Env) (matches : String → Product → Bool) (filter : ListFilter) (w : World Db)
    (ps : Slice Product)
    → (Postgres.list env matches filter w).0 ≡ ok ps
    → appended (page matches filter w.db.products) ≡ ps
unfolding Postgres.list ◌>>=◌
list-page env matches filter w ps h = ground arith

elements-appended : (ps : List Product) → elements (appended ps) ≡ ps
elements-appended [] = refl
elements-appended (p ∷ ps) = refl

page_limit-bound : (n : ℤ) → (1 ≤ page_limit n) × (page_limit n ≤ 100)
page_limit-bound n = ground arith

-- A page that is answered has at most 100 products, whatever limit is asked for, and no more than
-- the limit if that is from 1 to 100.
pub page_bounded :
    (env : Env) (matches : String → Product → Bool) (filter : ListFilter) (w : World Db)
    (ps : Slice Product)
    → (Postgres.list env matches filter w).0 ≡ ok ps
    → (length (elements ps) ≤ 100) × (length (elements ps) ≤ page_limit filter.limit)
page_bounded env matches filter w ps h =
    let le : length (elements ps) ≤ page_limit filter.limit =
      subst (λ ps. length (elements ps) ≤ page_limit filter.limit)
        (list-page env matches filter w ps h)
        (rw (elements-appended (page matches filter w.db.products))
          (length-take-le (page_limit filter.limit) _)) in
    let bound = (page_limit-bound filter.limit).1 in (omega arith, le)
