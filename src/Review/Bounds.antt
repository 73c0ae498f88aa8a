-- ===== src/Review/Bounds.antt =====
-- The bounds of a rating (review-service/internal/review/repository.go, `Rating`).
use kazakh_express.Base.{
  ◌*◌, String, ◌==◌, ◌≡◌, Bool, true, ◌&&◌, Option, none, some, List, [], ◌∷◌, ◌++◌, All, length,
  arith, Bool-cases, inl, inr,
}
use kazakh_express.Base.Int.{pos, ◌≤ℤ◌, +ℤ_parts}
use kazakh_express.Base.Table.{update_where, delete_where}
use kazakh_express.Effect.{attempt, Env, World, ◌>>=◌}
use kazakh_express.Effect.Keeps.{
  Keeps, Keeps-bind, Keeps-call, Keeps-pure, Respects, Respects-checked, keeps_rules,
}
use kazakh_express.Review.Model.{Review, Rating, CreateInput, UpdateInput, Message, Db}
use kazakh_express.Review.Repository
use kazakh_express.Review.Repository.{
  in_range, of_product, total, rating_of, set_columns, update_rows, delete_rows, has_review,
}
use kazakh_express.Review.Service
use kazakh_express.Review.Service.{
  Parts, publish, publish_rating, rating_changed, publish_deleted, read_cache, first_of, rating_or,
  rating_of_rows,
}
use kazakh_express.Review.Freshness.{Op, apply, run}

abbrev pub InRange : List Review → Type 0
InRange = All (λ r. in_range r.rating ≡ true)

InRange-append :
    (rs : List Review) (r : Review) → InRange rs → in_range r.rating ≡ true → InRange (rs ++ r ∷ [])
InRange-append [] r h k = (k, tt)
InRange-append (q ∷ rs) r h k = (h.0, InRange-append rs r h.1 k)

InRange-update :
    (k : String) (r : Review) (rs : List Review)
    → in_range r.rating ≡ true
    → InRange rs
    → InRange (update_where (λ q. q.id) k (set_columns r) rs)
InRange-update k r [] good h = tt
InRange-update k r (q ∷ rs) good h =
    let rest = InRange-update k r rs good h.1 in
    elim (Bool-cases (q.id == k)) [
      | inl this ↦ rw this (good, rest)
      | inr other ↦ rw other (h.0, rest)
    ]

InRange-delete :
    (k : String) (rs : List Review) → InRange rs → InRange (delete_where (λ q. q.id) k rs)
InRange-delete k [] h = tt
InRange-delete k (q ∷ rs) h =
    let rest = InRange-delete k rs h.1 in
    elim (Bool-cases (q.id == k)) [ inl this ↦ rw this rest | inr other ↦ rw other (h.0, rest) ]

of_product-InRange : (id : String) (rs : List Review) → InRange rs → InRange (of_product id rs)
of_product-InRange id [] h = tt
of_product-InRange id (r ∷ rs) h =
    let rest = of_product-InRange id rs h.1 in
    elim (Bool-cases (r.product_id == id)) [
      | inl this ↦ rw this (h.0, rest)
      | inr other ↦ rw other rest
    ]

total-bounds :
    (rs : List Review)
    → InRange rs
    → (pos (length rs) ≤ℤ total rs) × (total rs ≤ℤ pos (5 * length rs))
total-bounds [] h = (omega arith, omega arith)
total-bounds (r ∷ rs) h = grind (arith, +ℤ_parts r.rating (total rs), total-bounds rs h.1)

abbrev pub Good : Db → Type 0
Good d = InRange d.reviews

update_rows-Good : (r : Review) → Respects {A = Review} Good (λ t d. update_rows r d)
update_rows-Good r = record {
  of = λ t d h. elim (Bool-cases (has_review r.id d)) [
    | inl there ↦ elim (Bool-cases (in_range r.rating)) [
      | inl good ↦ rw (there, good) (InRange-update r.id r d.reviews good h)
      | inr bad ↦ rw (there, bad) h
    ]
    | inr missing ↦ rw missing h
  ];
}

delete_rows-Good : (id : String) → Respects {A = Unit {0}} Good (λ t d. delete_rows id d)
delete_rows-Good id = record { of = λ t d h. InRange-delete id d.reviews h }

and_second : (a b : Bool) → (a && b) ≡ true → b ≡ true
and_second a b h = ground arith

module _ (env : Env) where
  insert-Good : (r : Review) → Keeps Good (Repository.create env r)
  unfolding Repository.create
  insert-Good r =
      Keeps-bind _ _
        (Keeps-call env "create review" _ (
          Respects-checked "create review" _ _
            (λ d good h. InRange-append d.reviews r h (and_second _ _ good))))
        (λ _. Keeps-pure r)

  get-Good : (id : String) → Keeps Good (Repository.get_by_id env id)
  unfolding Repository.get_by_id
  get-Good id = search keeps_rules depth 9

  update-Good : (r : Review) → Keeps Good (Repository.update env r)
  unfolding Repository.update
  update-Good r = search (keeps_rules, update_rows-Good) depth 9

  delete-Good : (id : String) → Keeps Good (Repository.delete env id)
  unfolding Repository.delete
  delete-Good id = search (keeps_rules, delete_rows-Good) depth 9

  module _ (parts : Parts) where
    publish-Good : (m : Message) → Keeps Good (publish env parts m)
    unfolding publish
    publish-Good m = search keeps_rules depth 9

    publish_rating-Good : (o : Option Rating) → Keeps Good (publish_rating env parts o)
    unfolding publish_rating
    publish_rating-Good none = search keeps_rules depth 9
    publish_rating-Good (some r) = publish-Good (Message.rating_updated r)

    read_rating-Good : (id : String) → Keeps Good (attempt (Repository.rating env id))
    unfolding attempt Repository.rating ◌>>=◌
    read_rating-Good id = record { at = λ w h. ground arith }

    changed-Good : (id : String) → Keeps Good (rating_changed env parts id)
    unfolding rating_changed Repository.delete_rating
    changed-Good id = search (keeps_rules, publish_rating-Good, read_rating-Good) depth 12

    create-Good : (i : CreateInput) → Keeps Good (Service.create env parts i)
    unfolding Service.create
    create-Good i = search (keeps_rules, insert-Good, changed-Good, publish-Good) depth 14

    rewrite-Good : (id : String) (i : UpdateInput) → Keeps Good (Service.update env parts id i)
    unfolding Service.update
    rewrite-Good id i =
        search (keeps_rules, get-Good, update-Good, changed-Good, publish-Good) depth 14

    publish_deleted-Good : (id product : String) → Keeps Good (publish_deleted env parts id product)
    unfolding publish_deleted
    publish_deleted-Good id product = search (keeps_rules, publish-Good) depth 9

    remove-Good : (id : String) → Keeps Good (Service.delete env parts id)
    unfolding Service.delete
    remove-Good id =
        search (keeps_rules, get-Good, delete-Good, changed-Good, publish_deleted-Good) depth 14

    read_cache-Good : (id : String) → Keeps Good (read_cache env parts id)
    unfolding read_cache Repository.get_rating ◌>>=◌
    read_cache-Good id = record { at = λ w h. grind arith }

    rows-Good : (id : String) → Keeps Good (rating_of_rows env parts id)
    unfolding rating_of_rows Repository.rating Repository.set_rating
    rows-Good id = search keeps_rules depth 12

    rating_or-Good : (id : String) (o : Option Rating) → Keeps Good (rating_or env parts id o)
    unfolding rating_or
    rating_or-Good id none = rows-Good id
    rating_or-Good id (some r) = search keeps_rules

    rating-Good : (id : String) → Keeps Good (Service.rating env parts id)
    unfolding Service.rating
    rating-Good id = search (keeps_rules, read_cache-Good, rating_or-Good) depth 12

    apply-Good : (op : Op) (w : World Db) → Good w.db → Good (apply env parts op w).db
    unfolding apply
    apply-Good (Op.create i) w h = (create-Good i).at w h
    apply-Good (Op.update id i) w h = (rewrite-Good id i).at w h
    apply-Good (Op.delete id) w h = (remove-Good id).at w h
    apply-Good (Op.rating id) w h = (rating-Good id).at w h

    run-Good : (ops : List Op) (w : World Db) → Good w.db → Good (run env parts ops w).db
    unfolding run
    run-Good [] w h = h
    run-Good (op ∷ ops) w h = run-Good ops (apply env parts op w) (apply-Good op w h)

    -- From a state whose ratings are from 1 to 5, after any calls, and whatever fails: the total of
    -- the ratings of a product is at least their count and at most five times their count.
    pub run_rating-bounds :
        (ops : List Op) (w : World Db) (id : String)
        → InRange w.db.reviews
        → let r = rating_of id (run env parts ops w).db.reviews in
          (pos r.count ≤ℤ r.total) × (r.total ≤ℤ pos (5 * r.count))
    run_rating-bounds ops w id h = total-bounds _ (of_product-InRange id _ (run-Good ops w h))
