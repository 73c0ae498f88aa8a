-- ===== src/Review/Rows.antt =====
-- How a change of one review shows in the ratings (review-service/internal/review/repository.go,
-- `Rating`) of the other products.
use kazakh_express.Base.{String, ◌==◌, eq_iff, ◌≡◌, refl, false, some, List, [], ◌∷◌, ◌++◌, arith}
use kazakh_express.Base.Table.{find, keys, has, IsDistinct, update_where, delete_where}
use kazakh_express.Review.Model.{Review}
use kazakh_express.Review.Repository.{of_product}

abbrev pub ids : List Review → List String
ids = keys (λ r. r.id)

pub of_product-append :
    (j : String) (rs : List Review) (r : Review)
    → (r.product_id == j) ≡ false
    → of_product j (rs ++ r ∷ []) ≡ of_product j rs
of_product-append j [] r other = ground arith
of_product-append j (q ∷ rs) r other = ground (arith, of_product-append j rs r other)

module _ (k : String) where
  absent-update :
      (f : Review → Review) (rs : List Review)
      → has k (ids rs) ≡ false
      → update_where (λ r. r.id) k f rs ≡ rs
  absent-update f [] h = refl
  absent-update f (r ∷ rs) h = ground (arith, absent-update f rs)

  absent-delete : (rs : List Review) → has k (ids rs) ≡ false → delete_where (λ r. r.id) k rs ≡ rs
  absent-delete [] h = refl
  absent-delete (r ∷ rs) h = ground (arith, absent-delete rs)

  -- A change of the one row with an identifier is not seen by another product.
  pub of_product-update :
      (j : String) (f : Review → Review) (rs : List Review) {r : Review}
      → IsDistinct (ids rs)
      → find (λ r. r.id) k rs ≡ some r
      → (r.product_id == j) ≡ false
      → ((q : Review) → (f q).product_id ≡ q.product_id)
      → of_product j (update_where (λ r. r.id) k f rs) ≡ of_product j rs
  of_product-update j f [] d h other same = cc
  of_product-update j f (q ∷ rs) {r} d h other same =
      ground
        (arith, same q, eq_iff q.id k, absent-update f rs, of_product-update j f rs {r = r} d.1)

  pub of_product-delete :
      (j : String) (rs : List Review) {r : Review}
      → IsDistinct (ids rs)
      → find (λ r. r.id) k rs ≡ some r
      → (r.product_id == j) ≡ false
      → of_product j (delete_where (λ r. r.id) k rs) ≡ of_product j rs
  of_product-delete j [] d h other = cc
  of_product-delete j (q ∷ rs) {r} d h other =
      ground (arith, eq_iff q.id k, absent-delete rs, of_product-delete j rs {r = r} d.1)

  has-delete :
      (j : String) (rs : List Review)
      → has j (ids rs) ≡ false
      → has j (ids (delete_where (λ r. r.id) k rs)) ≡ false
  has-delete j [] h = refl
  has-delete j (q ∷ rs) h = ground (arith, has-delete j rs)

  pub IsDistinct-delete :
      (rs : List Review) → IsDistinct (ids rs) → IsDistinct (ids (delete_where (λ r. r.id) k rs))
  IsDistinct-delete [] d = tt
  IsDistinct-delete (q ∷ rs) d = ground (arith, has-delete q.id rs, IsDistinct-delete rs d.1)
