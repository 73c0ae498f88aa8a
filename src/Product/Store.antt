-- ===== src/Product/Store.antt =====
-- What the product service relies on of a repository, and that both repositories do so.
use kazakh_express.Base.{
  ℕ, String, ◌==◌, eq_iff, ◌≡◌, refl, ◌⊎◌, inl, inr, Bool, true, false, List, [], ◌∷◌, Option, none,
  some, arith, Bool-cases, is_some, if◌then◌else◌,
}
use kazakh_express.Base.Table.{find, update_where, map_some}
use kazakh_express.Effect.{
  Result, is_ok, ok, done, refused, lost, Outcome, Env, World, settle, ◌>>=◌,
}
use kazakh_express.Product.Model.{Product, Db}
use kazakh_express.Product.Repository.{Repository}
use kazakh_express.Product.Memory
use kazakh_express.Product.Memory.{memory}
use kazakh_express.Product.Postgres
use kazakh_express.Product.Postgres.{postgres, set_columns, update_rows, in_range}

-- The stock of one row is written, and no other row is.
pub record Written (p : Product) (ps ps' : List Product) : Type 0 where
  pub row : Product
  pub found : find (λ r. r.id) p.id ps' ≡ some row
  pub stock : row.stock ≡ p.stock
  pub others :
      (id : String) → (p.id == id) ≡ false → find (λ r. r.id) id ps' ≡ find (λ r. r.id) id ps

pub record IsStore (repo : Repository) : Type 0 where
  pub read_keeps : (id : String) (w : World Db) → (repo.get_by_id id w).1.db ≡ w.db
  pub read_finds :
      (id : String) (w : World Db) (p : Product)
      → (repo.get_by_id id w).0 ≡ ok p
      → find (λ r. r.id) id w.db.products ≡ some p
  pub update_cases :
      (p : Product) (w : World Db)
      → ((is_ok (repo.update p w).0 ≡ false) × ((repo.update p w).1.db.products ≡ w.db.products))
        ⊎ Written p w.db.products (repo.update p w).1.db.products
  pub update_answers :
      (p : Product) (w : World Db) (q : Product) → (repo.update p w).0 ≡ ok q → q ≡ p

module _ (f : Product → Product) where
  -- An update that may set the key of its row, to what it was.
  find-rewritten :
      (k j : String) (ps : List Product)
      → ((r : Product) → r.id ≡ k → (f r).id ≡ k)
      → find (λ r. r.id) j (update_where (λ r. r.id) k f ps)
        ≡ (if k == j then map_some f (find (λ r. r.id) j ps) else find (λ r. r.id) j ps)
  find-rewritten k j [] same = ground arith
  find-rewritten k j (r ∷ ps) same = ground (
    arith,
    same r,
    eq_iff r.id k,
    eq_iff r.id j,
    eq_iff (f r).id j,
    eq_iff k j,
    find-rewritten k j ps same,
  )

  rewritten :
      (p : Product) (ps : List Product) (old : Product)
      → find (λ r. r.id) p.id ps ≡ some old
      → ((r : Product) → r.id ≡ p.id → (f r).id ≡ p.id)
      → ((r : Product) → (f r).stock ≡ p.stock)
      → Written p ps (update_where (λ r. r.id) p.id f ps)
  rewritten p ps old h same stock = record {
    row = f old;
    found = ground (arith, find-rewritten p.id p.id ps same, eq_iff p.id p.id);
    stock = stock old;
    others = λ id other. ground (arith, find-rewritten p.id id ps same);
  }

is_some_row : {A : Type 0} (o : Option A) → is_some o ≡ true → (a : A) × (o ≡ some a)
is_some_row none h = cc
is_some_row (some a) h = (a, refl)

-- What a statement about one product may leave.
abbrev pub Settled : Product → Db → Result Product × Db → Type 0
Settled p d (r, d') =
    ((is_ok r ≡ false) × (d'.products ≡ d.products)) ⊎ Written p d.products d'.products

update_rows-Settled : (p : Product) (d : Db) → Settled p d (update_rows p d)
update_rows-Settled p d = elim (Bool-cases (is_some (find (λ r. r.id) p.id d.products))) [
  | inl there ↦
      let (old, found) = is_some_row _ there in
      elim (Bool-cases (in_range p)) [
        | inl good ↦
            rw (there, good)
              (inr (rewritten (set_columns p) p d.products old found (λ r same. same) (λ r. refl)))
        | inr bad ↦ rw (there, bad) (inl (refl, refl))
      ]
  | inr missing ↦ rw missing (inl (refl, refl))
]

settled :
    (p : Product) (d : Db) (o : Outcome) (t : ℕ)
    → Settled p d (settle o "update product" (λ t d. update_rows p d) t d)
settled p d done t = update_rows-Settled p d
settled p d refused t = inl (refl, refl)
settled p d lost t = elim (update_rows-Settled p d) [
  | inl (failed, same) ↦ inl (refl, same)
  | inr written ↦ inr written
]

module _ (env : Env) where
  pub memory-IsStore : IsStore (memory env)
  unfolding memory Memory.get_by_id Memory.update
  memory-IsStore = record {
    read_keeps = λ id w. refl;
    read_finds = λ id w p h. ground arith;
    update_cases = λ p w. elim (Bool-cases (is_some (find (λ r. r.id) p.id w.db.products))) [
      | inl there ↦
          let (old, found) = is_some_row _ there in
          inr (rw there (rewritten (λ _. p) p w.db.products old found (λ r same. refl) (λ r. refl)))
      | inr missing ↦ inl (rw missing (refl, refl))
    ];
    update_answers = λ p w q h. ground arith;
  }

  module _ (matches : String → Product → Bool) where
    pub postgres-IsStore : IsStore (postgres env matches)
    unfolding postgres Postgres.get_by_id Postgres.update ◌>>=◌
    postgres-IsStore = record {
      read_keeps = λ id w. ground arith;
      read_finds = λ id w p h. ground arith;
      update_cases = λ p w. settled p w.db (env.outcome w.tick) (env.now w.tick);
      update_answers = λ p w q h. ground arith;
    }
