-- ===== src/Review/Changes.antt =====
-- What each method of the review service does to the rows and to the cache, when nothing fails.
use kazakh_express.Base.{
  ℕ, ◌+◌, String, ◌≡◌, ap, ◌⊎◌, inl, inr, true, false, none, some, List, [], ◌∷◌, ◌++◌, is_empty,
  arith, Option-cases,
}
use kazakh_express.Base.Table.{find, delete_where, update_where}
use kazakh_express.Effect.{attempt, ok, done, Env, World, ◌>>=◌}
use kazakh_express.Review.Model.{Review, CreateInput, UpdateInput, Cached, Db}
use kazakh_express.Review.Repository
use kazakh_express.Review.Repository.{rating_of, live, set_columns, has_review}
use kazakh_express.Review.Service
use kazakh_express.Review.Service.{
  Parts, publish, publish_rating, rating_changed, read_cache, rating_or, rating_of_rows,
  publish_deleted, new_review, rewritten,
}

abbrev pub evict : String → List Cached → List Cached
evict = delete_where (λ e. e.key)

module _ (env : Env) (parts : Parts) (up : (n : ℕ) → env.outcome n ≡ done)
    (on : parts.cache ≡ true) where
  -- A change of the rating of a product empties its entry, and changes no row.
  pub changed :
      (id : String) (w : World Db)
      → ((rating_changed env parts id w).1.db.reviews ≡ w.db.reviews)
        × ((rating_changed env parts id w).1.db.cached ≡ evict id w.db.cached)
  unfolding rating_changed attempt publish publish_rating Repository.delete_rating Repository.rating
      ◌>>=◌
  changed id w = ground (arith, up w.tick, up (w.tick + 1))

  pub create-db :
      (input : CreateInput) (w : World Db)
      → let d' = (Service.create env parts input w).1.db in
        let r = new_review input (env.now w.tick) in
        ((d'.reviews ≡ w.db.reviews) × (d'.cached ≡ w.db.cached))
        ⊎ ((has_review r.id w.db ≡ false)
            × (d'.reviews ≡ w.db.reviews ++ r ∷ [])
            × (d'.cached ≡ evict r.product_id w.db.cached))
  unfolding Service.create publish Repository.create ◌>>=◌
  create-db input w = grind (arith, up (w.tick + 1), changed)

  update_row-db :
      (id : String) (input : UpdateInput) (w : World Db) (r : Review)
      → find (λ q. q.id) id w.db.reviews ≡ some r
      → let d' = (Service.update env parts id input w).1.db in
        ((d'.reviews ≡ w.db.reviews) × (d'.cached ≡ w.db.cached))
        ⊎ ((d'.reviews
              ≡ update_where
                  (λ q. q.id)
                  r.id
                  (set_columns (rewritten input (env.now (w.tick + 1)) r))
                  w.db.reviews)
            × (d'.cached ≡ evict r.product_id w.db.cached))
  unfolding Service.update publish Repository.get_by_id Repository.update ◌>>=◌
  update_row-db id input w r found = grind (arith, up w.tick, up (w.tick + 1 + 1), changed)

  update-none-db :
      (id : String) (input : UpdateInput) (w : World Db)
      → find (λ q. q.id) id w.db.reviews ≡ none
      → (Service.update env parts id input w).1.db ≡ w.db
  unfolding Service.update publish Repository.get_by_id Repository.update ◌>>=◌
  update-none-db id input w absent = ground (arith, up w.tick)

  pub update-db :
      (id : String) (input : UpdateInput) (w : World Db)
      → let d' = (Service.update env parts id input w).1.db in
        ((d'.reviews ≡ w.db.reviews) × (d'.cached ≡ w.db.cached))
        ⊎ ((r : Review) × (find (λ q. q.id) id w.db.reviews ≡ some r)
            × (d'.reviews
                ≡ update_where
                    (λ q. q.id)
                    r.id
                    (set_columns (rewritten input (env.now (w.tick + 1)) r))
                    w.db.reviews)
            × (d'.cached ≡ evict r.product_id w.db.cached))
  update-db id input w = elim (Option-cases (find (λ q. q.id) id w.db.reviews)) [
    | inl absent ↦
        let same = update-none-db id input w absent in
        inl (ap (λ d. d.reviews) same, ap (λ d. d.cached) same)
    | inr (r, found) ↦ elim (update_row-db id input w r found) [
      | inl same ↦ inl same
      | inr (rows, cached) ↦ inr (r, found, rows, cached)
    ]
  ]

  delete_row-db :
      (id : String) (w : World Db) (r : Review)
      → find (λ q. q.id) id w.db.reviews ≡ some r
      → let d' = (Service.delete env parts id w).1.db in
        (d'.reviews ≡ delete_where (λ q. q.id) id w.db.reviews)
        × (d'.cached ≡ evict r.product_id w.db.cached)
  unfolding Service.delete publish_deleted publish Repository.get_by_id Repository.delete ◌>>=◌
  delete_row-db id w r found = grind (arith, up w.tick, up (w.tick + 1), changed)

  delete-none-db :
      (id : String) (w : World Db)
      → find (λ q. q.id) id w.db.reviews ≡ none
      → (Service.delete env parts id w).1.db ≡ w.db
  unfolding Service.delete publish_deleted publish Repository.get_by_id Repository.delete ◌>>=◌
  delete-none-db id w absent = ground (arith, up w.tick)

  pub delete-db :
      (id : String) (w : World Db)
      → let d' = (Service.delete env parts id w).1.db in
        ((d'.reviews ≡ w.db.reviews) × (d'.cached ≡ w.db.cached))
        ⊎ ((r : Review) × (find (λ q. q.id) id w.db.reviews ≡ some r)
            × (d'.reviews ≡ delete_where (λ q. q.id) id w.db.reviews)
            × (d'.cached ≡ evict r.product_id w.db.cached))
  delete-db id w = elim (Option-cases (find (λ q. q.id) id w.db.reviews)) [
    | inl absent ↦
        let same = delete-none-db id w absent in
        inl (ap (λ d. d.reviews) same, ap (λ d. d.cached) same)
    | inr (r, found) ↦
        let (rows, cached) = delete_row-db id w r found in inr (r, found, rows, cached)
  ]

  -- The entry that a rating that is read may add.
  abbrev pub fresh_entry : String → World Db → Cached
  fresh_entry id w = record {
    key = id;
    rating = rating_of id w.db.reviews;
    expires = env.now (w.tick + 1 + 1) + parts.ttl;
  }

  pub rating-db :
      (id : String) (w : World Db)
      → let d' = (Service.rating env parts id w).1.db in
        (d'.reviews ≡ w.db.reviews)
        × ((d'.cached ≡ w.db.cached) ⊎ (d'.cached ≡ fresh_entry id w ∷ w.db.cached))
  unfolding Service.rating read_cache rating_or rating_of_rows Repository.get_rating
      Repository.set_rating Repository.rating ◌>>=◌
  rating-db id w = grind (arith, up w.tick, up (w.tick + 1), up (w.tick + 1 + 1))

  rating_absent :
      (id : String) (w : World Db)
      → is_empty id ≡ false
      → find (λ e. e.key) id w.db.cached ≡ none
      → (Service.rating env parts id w).0 ≡ ok (rating_of id w.db.reviews)
  unfolding Service.rating read_cache rating_or rating_of_rows Repository.get_rating
      Repository.set_rating Repository.rating ◌>>=◌
  rating_absent id w named absent = ground (arith, up w.tick, up (w.tick + 1))

  rating_found :
      (id : String) (w : World Db) (e : Cached)
      → is_empty id ≡ false
      → find (λ e. e.key) id w.db.cached ≡ some e
      → ((Service.rating env parts id w).0 ≡ ok (rating_of id w.db.reviews))
        ⊎ ((Service.rating env parts id w).0 ≡ ok e.rating)
  unfolding Service.rating read_cache rating_or rating_of_rows Repository.get_rating
      Repository.set_rating Repository.rating ◌>>=◌
  rating_found id w e named found = grind (arith, up w.tick, up (w.tick + 1))

  -- What a call for a rating answers: an entry of the cache, or the rating of the rows.
  pub rating-answer :
      (id : String) (w : World Db)
      → is_empty id ≡ false
      → ((Service.rating env parts id w).0 ≡ ok (rating_of id w.db.reviews))
        ⊎ ((e : Cached) × (find (λ e. e.key) id w.db.cached ≡ some e)
            × ((Service.rating env parts id w).0 ≡ ok e.rating))
  rating-answer id w named = elim (Option-cases (find (λ e. e.key) id w.db.cached)) [
    | inl absent ↦ inl (rating_absent id w named absent)
    | inr (e, found) ↦ elim (rating_found id w e named found) [
      | inl fresh ↦ inl fresh
      | inr kept ↦ inr (e, found, kept)
    ]
  ]
