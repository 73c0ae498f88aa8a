-- ===== src/Review/Tests.antt =====
-- The review service on concrete inputs.
use kazakh_express.Base.{◌*◌, ◌≡◌, refl, true, List, [], ◌∷◌}
use kazakh_express.Base.Int.{◌≤ℤ◌, pos}
use kazakh_express.Base.Decimal.{decimal}
use kazakh_express.Effect.{ok, done, Env, World}
use kazakh_express.Review.Model.{Review, Db}
use kazakh_express.Review.Repository.{rating_of}
use kazakh_express.Review.Service
use kazakh_express.Review.Service.{Parts}
use kazakh_express.Review.Bounds.{run_rating-bounds}
use kazakh_express.Review.Freshness.{Op, run, IsCoherent, rating_exact}

abbrev calm : Env
calm = record { outcome = λ n. done; now = λ n. n; uuid = decimal }

abbrev all_parts : Parts
all_parts = record { cache = true; publisher = true; ttl = 1000 }

abbrev tea_review : Review
tea_review = record {
  id = "rev-0";
  product_id = "tea";
  customer_id = "c1";
  rating = pos 5;
  comment = "good";
  created_at = 0;
  updated_at = 0;
}

abbrev reviewed : World Db
reviewed = record {
  db = record { reviews = tea_review ∷ []; cached = []; published = [] };
  tick = 0;
}

-- A rating that fills the cache, and two changes.
abbrev calls : List Op
calls =
    Op.rating "tea"
    ∷ Op.create (record { product_id = "tea"; customer_id = "c2"; rating = pos 2; comment = "" })
    ∷ Op.rating "tea"
    ∷ Op.update "rev-0" (record { rating = pos 4; comment = "ok" })
    ∷ []

reviewed-IsCoherent : IsCoherent reviewed.db
reviewed-IsCoherent = record { distinct = (refl, tt); fresh = λ id e found. cc found }

rating_exact_example :
    (Service.rating calm all_parts "tea" (run calm all_parts calls reviewed)).0
    ≡ ok (rating_of "tea" (run calm all_parts calls reviewed).db.reviews)
rating_exact_example =
    rating_exact calm all_parts (λ n. refl) refl calls "tea" reviewed reviewed-IsCoherent refl

run_rating-bounds_example :
    let r = rating_of "tea" (run calm all_parts calls reviewed).db.reviews in
    (pos r.count ≤ℤ r.total) × (r.total ≤ℤ pos (5 * r.count))
run_rating-bounds_example = run_rating-bounds calm all_parts calls reviewed "tea" (refl, tt)
