-- ===== src/Review/Freshness.antt =====
-- The ratings that the review service (review-service/internal/review/service.go) answers from its
-- cache, through any calls that meet no fault.
use kazakh_express.Base.{
  ℕ, ◌+◌, String, ◌==◌, eq_iff, ◌≡◌, refl, sym, ◌∙◌, ap, subst, some_inj, inl, inr, true, false,
  Option, none, some, List, [], ◌∷◌, is_empty, is_some, length, arith, Bool-cases,
}
use kazakh_express.Base.Table.{
  find, key-find, keys-append, keys-update_where, IsDistinct, IsDistinct-append, has-keys-none,
  find-delete_where,
}
use kazakh_express.Effect.{ok, done, Env, World}
use kazakh_express.Review.Model.{Review, CreateInput, UpdateInput, Cached, Db}
use kazakh_express.Review.Repository.{rating_of, of_product, set_columns, total}
use kazakh_express.Review.Service
use kazakh_express.Review.Service.{Parts, new_review, rewritten}
use kazakh_express.Review.Rows.{
  ids, of_product-append, of_product-update, of_product-delete, IsDistinct-delete,
}
use kazakh_express.Review.Changes.{
  evict, create-db, update-db, delete-db, rating-db, rating-answer, fresh_entry,
}

-- The calls that write rows or the cache.
pub data Op : Type 0 where
  create : CreateInput → Op
  update : String → UpdateInput → Op
  delete : String → Op
  rating : String → Op

unfoldable pub apply : Env → Parts → Op → World Db → World Db
apply env parts (Op.create input) w = (Service.create env parts input w).1
apply env parts (Op.update id input) w = (Service.update env parts id input w).1
apply env parts (Op.delete id) w = (Service.delete env parts id w).1
apply env parts (Op.rating id) w = (Service.rating env parts id w).1

unfoldable pub run : Env → Parts → List Op → World Db → World Db
run env parts [] w = w
run env parts (op ∷ ops) w = run env parts ops (apply env parts op w)

-- The identifiers are distinct, and every entry of the cache is the rating of the rows.
pub record IsCoherent (d : Db) : Type 0 where
  pub distinct : IsDistinct (ids d.reviews)
  pub fresh :
      (id : String) (e : Cached)
      → find (λ e. e.key) id d.cached ≡ some e
      → e.rating ≡ rating_of id d.reviews

-- A change of the rows of one product only, whose entry is removed.
pub record Changes (id : String) (d d' : Db) : Type 0 where
  pub distinct : IsDistinct (ids d'.reviews)
  pub others : (j : String) → (id == j) ≡ false → of_product j d'.reviews ≡ of_product j d.reviews
  pub cached : d'.cached ≡ evict id d.cached

Changes-IsCoherent : {id : String} {d d' : Db} → Changes id d d' → IsCoherent d → IsCoherent d'
Changes-IsCoherent {id} {d} {d'} c h = record {
  distinct = c.distinct;
  fresh = λ j e found.
      let found' : find (λ e. e.key) j (evict id d.cached) ≡ some e = rw c.cached at found in
      elim (Bool-cases (id == j)) [
        | inl this ↦ ground (arith, find-delete_where (λ e. e.key) id j d.cached)
        | inr other ↦
            let old : find (λ e. e.key) j d.cached ≡ some e =
              ground (arith, find-delete_where (λ e. e.key) id j d.cached) in
            h.fresh j e old
            ∙ ap (λ rs. record { product_id = j; total = total rs; count = length rs })
                (sym (c.others j other))
      ];
}

same-IsCoherent :
    (d d' : Db) → d'.reviews ≡ d.reviews → d'.cached ≡ d.cached → IsCoherent d → IsCoherent d'
same-IsCoherent d d' rows cached h = record {
  distinct = subst (λ rs. IsDistinct (ids rs)) (sym rows) h.distinct;
  fresh = λ id e found.
      h.fresh id e (ap (find (λ e. e.key) id) (sym cached) ∙ found) ∙ ap (rating_of id) (sym rows);
}

not_some : (o : Option Review) → is_some o ≡ false → o ≡ none
not_some none h = refl
not_some (some r) h = cc

-- One more entry in front, with the rating of its product.
added_fresh :
    (rs : List Review) (cached : List Cached) (new : Cached)
    → new.rating ≡ rating_of new.key rs
    → ((id : String) (e : Cached)
        → find (λ e. e.key) id cached ≡ some e
        → e.rating ≡ rating_of id rs)
    → (id : String) (e : Cached) → find (λ e. e.key) id (new ∷ cached) ≡ some e
    → e.rating ≡ rating_of id rs
added_fresh rs cached new right fresh id e found = elim (Bool-cases (new.key == id)) [
  | inl this ↦
      let first : new ≡ e = some_inj (rw this at found) in
      ap (λ e. e.rating) (sym first) ∙ right ∙ ap (λ k. rating_of k rs) ((eq_iff new.key id).0 this)
  | inr other ↦ fresh id e (rw other at found)
]

module _ (env : Env) (parts : Parts) (up : (n : ℕ) → env.outcome n ≡ done)
    (on : parts.cache ≡ true) where
  apply-IsCoherent :
      (op : Op) (w : World Db) → IsCoherent w.db → IsCoherent (apply env parts op w).db
  unfolding apply
  apply-IsCoherent (Op.create input) w h = elim (create-db env parts up on input w) [
    | inl (rows, cached) ↦ same-IsCoherent w.db _ rows cached h
    | inr (new, rows, cached) ↦
        Changes-IsCoherent
          (record {
            distinct =
                subst IsDistinct (sym (ap ids rows ∙ keys-append (λ r. r.id) w.db.reviews _)) (
                  IsDistinct-append _ (ids w.db.reviews)
                    (has-keys-none (λ r. r.id) _ w.db.reviews (not_some _ new)) h.distinct);
            others = λ j other. ap (of_product j) rows ∙ of_product-append j w.db.reviews _ other;
            cached = cached;
          })
          h
  ]
  apply-IsCoherent (Op.update id input) w h = elim (update-db env parts up on id input w) [
    | inl (rows, cached) ↦ same-IsCoherent w.db _ rows cached h
    | inr (r, found, rows, cached) ↦
        let same = key-find (λ q. q.id) id w.db.reviews found in
        let f = set_columns (rewritten input (env.now (w.tick + 1)) r) in
        let found' = ap (λ k. find (λ q. q.id) k w.db.reviews) same ∙ found in
        Changes-IsCoherent
          (record {
            distinct =
                subst IsDistinct
                  (sym (
                    ap ids rows
                    ∙ keys-update_where (λ q. q.id) (λ q. q.id) r.id f w.db.reviews (λ q. refl)))
                  h.distinct;
            others = λ j other.
                ap (of_product j) rows
                ∙ of_product-update r.id j f w.db.reviews h.distinct found' other (λ q. refl);
            cached = cached;
          })
          h
  ]
  apply-IsCoherent (Op.delete id) w h = elim (delete-db env parts up on id w) [
    | inl (rows, cached) ↦ same-IsCoherent w.db _ rows cached h
    | inr (r, found, rows, cached) ↦
        Changes-IsCoherent
          (record {
            distinct =
                subst IsDistinct (sym (ap ids rows)) (IsDistinct-delete id w.db.reviews h.distinct);
            others = λ j other.
                ap (of_product j) rows ∙ of_product-delete id j w.db.reviews h.distinct found other;
            cached = cached;
          })
          h
  ]
  apply-IsCoherent (Op.rating id) w h =
      let (rows, cached) = rating-db env parts up on id w in
      elim cached [
        | inl same ↦ same-IsCoherent w.db _ rows same h
        | inr added ↦ record {
          distinct = subst (λ rs. IsDistinct (ids rs)) (sym rows) h.distinct;
          fresh = λ j e found.
              added_fresh w.db.reviews w.db.cached (fresh_entry env parts up on id w) refl h.fresh j
                e (ap (find (λ e. e.key) j) (sym added) ∙ found)
              ∙ ap (rating_of j) (sym rows);
        }
      ]

  -- From a state where this holds, after any calls of a service with a cache that meet no fault: the
  -- identifiers of the reviews are distinct, and every entry of the cache, expired or not, is the
  -- rating of the stored reviews of its product.
  pub run-IsCoherent :
      (ops : List Op) (w : World Db) → IsCoherent w.db → IsCoherent (run env parts ops w).db
  unfolding run
  run-IsCoherent [] w h = h
  run-IsCoherent (op ∷ ops) w h =
      run-IsCoherent ops (apply env parts op w) (apply-IsCoherent op w h)

  -- After any calls that meet no fault, from a state whose cache agrees with its rows, a call for the
  -- rating of a product answers that of the reviews that are stored then, from the cache or not.
  pub rating_exact :
      (ops : List Op) (id : String) (w : World Db)
      → IsCoherent w.db
      → is_empty id ≡ false
      → let w' = run env parts ops w in
        (Service.rating env parts id w').0 ≡ ok (rating_of id w'.db.reviews)
  rating_exact ops id w h named =
      let w' = run env parts ops w in
      elim (rating-answer env parts up on id w' named) [
        | inl fresh ↦ fresh
        | inr (e, found, kept) ↦ kept ∙ ap ok ((run-IsCoherent ops w h).fresh id e found)
      ]
