-- ===== src/Product/Inventory.antt =====
-- The product service (product-service/internal/product/service.go) against an abstract inventory,
-- which knows of each product its stock only.
use kazakh_express.Base.{
  ◌+◌, String, ◌==◌, eq_iff, ◌≡◌, refl, ◌∙◌, ap, subst, ◌⊎◌, inl, inr, Bool, true, false, not, ◌&&◌,
  List, [], ◌∷◌, Option, some, arith, Bool-cases, if◌then◌else◌,
}
use kazakh_express.Base.Int.{ℤ, pos, ◌+ℤ◌, ◌-ℤ◌, wrap64, ltb_ℤ, leb_ℤ}
use kazakh_express.Base.Table.{find, key-find, map_some}
use kazakh_express.Effect.{Env, World, Action, ◌>>=◌}
use kazakh_express.Effect.Cases.{bind_cases, guard_cases}
use kazakh_express.Product.Model.{Product, Db}
use kazakh_express.Product.Service
use kazakh_express.Product.Service.{Service, set_row, reserve_row, release_row, with_stock, publish}
use kazakh_express.Product.Store.{Written, IsStore}

abbrev pub Stocks : Type 0
Stocks = String → Option ℤ

-- The abstract view of the tables.
abbrev pub stock_of : Db → Stocks
stock_of d id = map_some (λ r. r.stock) (find (λ r. r.id) id d.products)

pub data Op : Type 0 where
  set reserve release : String → ℤ → Op

abbrev pub product_of : Op → String
product_of (set id n) = id
product_of (reserve id q) = id
product_of (release id q) = id

-- The stock that an operation leaves, and whether it may be done.
abbrev pub target : Op → ℤ → ℤ
target (set id n) old = n
target (reserve id q) old = wrap64 (old -ℤ q)
target (release id q) old = wrap64 (old +ℤ q)

abbrev pub is_allowed : Op → ℤ → Bool
is_allowed (set id n) old = not (ltb_ℤ n (pos 0))
is_allowed (reserve id q) old = not (leb_ℤ q (pos 0)) && not (ltb_ℤ old q)
is_allowed (release id q) old = not (leb_ℤ q (pos 0))

-- A step of the inventory: nothing changes, or the operation is allowed and the stock of its
-- product, and of no other, becomes its target.
abbrev pub Step : Op → Stocks → Stocks → Type 0
Step op a b =
    ((other : String) → b other ≡ a other)
    ⊎ ((old : ℤ) × (a (product_of op) ≡ some old)
        × (is_allowed op old ≡ true)
        × ((other : String)
            → b other ≡ (if product_of op == other then some (target op old) else a other)))

-- The steps of a sequence of operations.
pub data Steps : List Op → Stocks → Stocks → Type 0 where
  over : {a b : Stocks} → ((other : String) → b other ≡ a other) → Steps [] a b
  next :
      {a b c : Stocks} (op : Op) (ops : List Op)
      → Step op a b
      → Steps ops b c
      → Steps (op ∷ ops) a c

written_stock :
    {p : Product} {ps ps' : List Product} (written : Written p ps ps') (id : String)
    → map_some (λ r. r.stock) (find (λ r. r.id) id ps')
      ≡ (if p.id == id then some p.stock else map_some (λ r. r.stock) (find (λ r. r.id) id ps))
written_stock {p} written id =
    ground (arith, eq_iff p.id id, written.found, written.stock, written.others id)

module _ (env : Env) (s : Service) (store : IsStore s.repo) where
  unfoldable pub apply : Op → World Db → World Db
  apply (set id n) w = (Service.update_stock env s id n w).1
  apply (reserve id q) w = (Service.reserve_stock env s id q w).1
  apply (release id q) w = (Service.release_stock env s id q w).1

  unfoldable pub run : List Op → World Db → World Db
  unfolding apply
  run [] w = w
  run (op ∷ ops) w = run ops (apply op w)

  -- The row that is written for a stock.
  abbrev updated : ℤ → Product → World Db → Db
  updated n p w =
      (s.repo.update (with_stock env s n (env.now w.tick) p)
        (record { db = w.db; tick = w.tick + 1 })).1.db

  updated-Step :
      (op : Op) (p : Product) (w : World Db) (d' : Db)
      → find (λ r. r.id) (product_of op) w.db.products ≡ some p
      → is_allowed op p.stock ≡ true
      → d'.products ≡ (updated (target op p.stock) p w).products
      → Step op (stock_of w.db) (stock_of d')
  updated-Step op p w d' there good rows =
      let same = key-find (λ r. r.id) (product_of op) w.db.products there in
      elim (store.update_cases (with_stock env s (target op p.stock) (env.now w.tick) p)
        (record { db = w.db; tick = w.tick + 1 })) [
          | inl (failed, unchanged) ↦ inl (λ other. rw (rows ∙ unchanged) refl)
          | inr written ↦ inr (
            p.stock,
            rw there refl,
            good,
            λ other. rw rows (
                written_stock written other
                ∙ ap (λ i. if i == other then some (target op p.stock) else stock_of w.db other)
                    same),
          )
        ]

  -- The rest of an operation, from the row that its read has answered.
  read-Step :
      (op : Op) (f : Product → Action Db Product) (w : World Db)
      → ((p : Product) (w' : World Db)
          → (is_allowed op p.stock ≡ true)
              × ((f p w').1.db.products ≡ (updated (target op p.stock) p w').products)
            ⊎ ((f p w').1.db ≡ w'.db))
      → Step op (stock_of w.db) (stock_of ((s.repo.get_by_id (product_of op) >>= f) w).1.db)
  read-Step op f w rest =
      let same = store.read_keeps (product_of op) w in
      bind_cases (λ r. Step op (stock_of w.db) (stock_of r.1.db)) (s.repo.get_by_id (product_of op))
        f w (λ e failed. inl (λ other. ap (λ d. stock_of d other) same))
        (λ p read.
          let w' = (s.repo.get_by_id (product_of op) w).1 in
          let there =
            ap (λ d. find (λ r. r.id) (product_of op) d.products) same
            ∙ store.read_finds (product_of op) w p read in
          subst (λ d. Step op (stock_of d) (stock_of (f p w').1.db)) same
            (elim (rest p w') [
              | inl (good, rows) ↦ updated-Step op p w' (f p w').1.db there good rows
              | inr unchanged ↦ inl (λ other. ap (λ d. stock_of d other) unchanged)
            ]))

  reserve_row-rest :
      (id : String) (q : ℤ) (p : Product) (w : World Db)
      → leb_ℤ q (pos 0) ≡ false
      → (is_allowed (reserve id q) p.stock ≡ true)
          × ((reserve_row env s id q p w).1.db.products
              ≡ (updated (target (reserve id q) p.stock) p w).products)
        ⊎ ((reserve_row env s id q p w).1.db ≡ w.db)
  unfolding reserve_row publish ◌>>=◌
  reserve_row-rest id q p w positive = elim (Bool-cases (ltb_ℤ p.stock q)) [
    | inl few ↦ inr (rw few refl)
    | inr enough ↦ inl (ground arith, ground arith)
  ]

  set_row-rest :
      (id : String) (n : ℤ) (p : Product) (w : World Db)
      → (set_row env s id n p w).1.db.products ≡ (updated (target (set id n) p.stock) p w).products
  unfolding set_row publish ◌>>=◌
  set_row-rest id n p w = ground arith

  release_row-rest :
      (id : String) (q : ℤ) (p : Product) (w : World Db)
      → (release_row env s id q p w).1.db.products
        ≡ (updated (target (release id q) p.stock) p w).products
  unfolding release_row publish ◌>>=◌
  release_row-rest id q p w = ground arith

  apply-Step : (op : Op) (w : World Db) → Step op (stock_of w.db) (stock_of (apply op w).db)
  unfolding apply Service.update_stock Service.reserve_stock Service.release_stock
  apply-Step (set id n) w =
      guard_cases (λ r. Step (set id n) (stock_of w.db) (stock_of r.1.db)) _ _ _ w
        (λ bad. inl (λ other. refl))
        (λ good. read-Step (set id n) _ w (λ p w'. inl (ground arith, set_row-rest id n p w')))
  apply-Step (reserve id q) w =
      guard_cases (λ r. Step (reserve id q) (stock_of w.db) (stock_of r.1.db)) _ _ _ w
        (λ bad. inl (λ other. refl))
        (λ good. read-Step (reserve id q) _ w (λ p w'. reserve_row-rest id q p w' (ground arith)))
  apply-Step (release id q) w =
      guard_cases (λ r. Step (release id q) (stock_of w.db) (stock_of r.1.db)) _ _ _ w
        (λ bad. inl (λ other. refl))
        (λ good.
          read-Step (release id q) _ w (λ p w'. inl (ground arith, release_row-rest id q p w')))

  -- The service, over any repository that reads and writes rows by their identifier, and whatever
  -- fails, implements the inventory: a sequence of its operations is a sequence of steps from the
  -- stocks before to the stocks after, each of which does nothing or sets one stock as it is allowed.
  pub run-Steps :
      (ops : List Op) (w : World Db) → Steps ops (stock_of w.db) (stock_of (run ops w).db)
  unfolding run
  run-Steps [] w = over (λ other. refl)
  run-Steps (op ∷ ops) w = next op ops (apply-Step op w) (run-Steps ops (apply op w))
