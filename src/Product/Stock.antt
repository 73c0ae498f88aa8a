-- ===== src/Product/Stock.antt =====
-- How reservations and releases (product-service/internal/product/service.go) change the stock.
use kazakh_express.Base.{
  ℕ, ◌+◌, ◌-◌, ◌≤◌, ◌<◌, String, ◌≡◌, sym, ◌∙◌, ap, subst, some_inj, inl, inr, true, false, List,
  [], ◌∷◌, some, arith, Bool-cases,
}
use kazakh_express.Base.Int.{
  ℤ, pos, negsuc, pos_part, ◌+ℤ◌, ◌-ℤ◌, wrap64, wrap64-pos, sign_bit, ltb_ℤ, leb_ℤ,
}
use kazakh_express.Base.Table.{find, key-find}
use kazakh_express.Effect.{Result, ok, err, invalid_input, Env, World, ◌>>=◌}
use kazakh_express.Effect.Cases.{bind_cases, guard_cases}
use kazakh_express.Product.Model.{Product, Db}
use kazakh_express.Product.Service.{Service, reserve_row, reserve_stock, with_stock, publish}
use kazakh_express.Product.Store.{IsStore}

-- The difference that a reservation writes.
pub reserved_stock : (n k : ℕ) → n < sign_bit → k ≤ n → wrap64 (pos n -ℤ pos k) ≡ pos (n - k)
unfolding ◌-ℤ◌
reserved_stock n k fits enough =
    let exact : pos n -ℤ pos k ≡ pos (n - k) = ground arith in
    ap wrap64 exact ∙ wrap64-pos (n - k) (omega arith)

released_stock : (n k : ℕ) → n + k < sign_bit → wrap64 (pos n +ℤ pos k) ≡ pos (n + k)
unfolding ◌+ℤ◌
released_stock n k fits =
    let exact : pos n +ℤ pos k ≡ pos (n + k) = ground arith in
    ap wrap64 exact ∙ wrap64-pos (n + k) fits

module _ (env : Env) (s : Service) (id : String) (quantity : ℤ) where
  abbrev pub after_time : World Db → World Db
  after_time w = record { db = w.db; tick = w.tick + 1 }

  -- The row that a reservation writes.
  abbrev pub reserved : Product → World Db → Product
  reserved p w = with_stock env s (wrap64 (p.stock -ℤ quantity)) (env.now w.tick) p

  -- A reservation from a row that was read refuses, or is the update of the stock and a message.
  pub reserve_row-refused :
      (p : Product) (w : World Db)
      → ltb_ℤ p.stock quantity ≡ true
      → reserve_row env s id quantity p w ≡ (err invalid_input, w)
  unfolding reserve_row ◌>>=◌
  reserve_row-refused p w h = rw h

  pub reserve_row-updates :
      (p : Product) (w : World Db)
      → ltb_ℤ p.stock quantity ≡ false
      → ((reserve_row env s id quantity p w).0 ≡ (s.repo.update (reserved p w) (after_time w)).0)
        × ((reserve_row env s id quantity p w).1.db.products
            ≡ (s.repo.update (reserved p w) (after_time w)).1.db.products)
  unfolding reserve_row publish ◌>>=◌
  reserve_row-updates p w h = ground arith

-- At most `n` units of a product were sold or are in stock.
abbrev pub Left : String → ℕ → ℕ → List Product → Type 0
Left id n sold ps =
    (r : Product) × (m : ℕ) × (find (λ r. r.id) id ps ≡ some r) × (r.stock ≡ pos m) × (sold + m ≤ n)

-- The units that an answer grants.
abbrev pub granted : ℤ → Result Product → ℕ
granted quantity (ok p) = pos_part quantity
granted quantity (err e) = 0

module _ (env : Env) (s : Service) (store : IsStore s.repo) where
  -- What the update of a stock leaves.
  update-Left :
      (p : Product) (w : World Db) (old : Product) (n k : ℕ)
      → find (λ r. r.id) p.id w.db.products ≡ some old
      → old.stock ≡ pos n
      → k ≤ n
      → p.stock ≡ pos (n - k)
      → Left p.id n (granted (pos k) (s.repo.update p w).0) (s.repo.update p w).1.db.products
  update-Left p w old n k there stock enough less = elim (store.update_cases p w) [
    | inl (failed, same) ↦ (old, n, ap (find (λ r. r.id) p.id) same ∙ there, stock, ground arith)
    | inr written ↦ (written.row, n - k, written.found, written.stock ∙ less, ground arith)
  ]

  kept :
      (id : String) (w : World Db) {p : Product}
      → find (λ r. r.id) id w.db.products ≡ some p
      → find (λ r. r.id) id (s.repo.get_by_id id w).1.db.products ≡ some p
  kept id w there = ap (λ d. find (λ r. r.id) id d.products) (store.read_keeps id w) ∙ there

  reserve_row-Left :
      (id : String) (quantity : ℤ) (p : Product) (w : World Db) (n : ℕ)
      → find (λ r. r.id) id w.db.products ≡ some p
      → p.stock ≡ pos n
      → n < sign_bit
      → leb_ℤ quantity (pos 0) ≡ false
      → Left id n
          (granted quantity (reserve_row env s id quantity p w).0)
          (reserve_row env s id quantity p w).1.db.products
  reserve_row-Left id (negsuc j) p w n there stock fits positive = ground arith
  reserve_row-Left id (pos k) p w n there stock fits positive =
      elim (Bool-cases (ltb_ℤ p.stock (pos k))) [
        | inl few ↦
            rw (reserve_row-refused env s id (pos k) p w few) (p, n, there, stock, omega arith)
        | inr enough ↦
            let (answer, rows) = reserve_row-updates env s id (pos k) p w enough in
            let same = key-find (λ r. r.id) id w.db.products there in
            let le : k ≤ n = ground arith in
            rw (answer, rows)
              (subst
                (λ i.
                  let u =
                    s.repo.update (reserved env s id (pos k) p w) (after_time env s id (pos k) w) in
                  Left i n (granted (pos k) u.0) u.1.db.products)
                same
                (update-Left (reserved env s id (pos k) p w) (after_time env s id (pos k) w) p n k
                  (ap (λ i. find (λ r. r.id) i w.db.products) same ∙ there) stock le
                  (ap (λ z. wrap64 (z -ℤ pos k)) stock ∙ reserved_stock n k fits le)))
      ]

  -- One reservation: what it grants and what it leaves is no more than there was.
  reserve_stock-Left :
      (id : String) (quantity : ℤ) (w : World Db) (p : Product) (n : ℕ)
      → find (λ r. r.id) id w.db.products ≡ some p
      → p.stock ≡ pos n
      → n < sign_bit
      → Left id n
          (granted quantity (reserve_stock env s id quantity w).0)
          (reserve_stock env s id quantity w).1.db.products
  unfolding reserve_stock
  reserve_stock-Left id quantity w p n there stock fits =
      guard_cases (λ r. Left id n (granted quantity r.0) r.1.db.products) _ _ _ w
        (λ bad. (p, n, there, stock, omega arith))
        (λ good.
          bind_cases (λ r. Left id n (granted quantity r.0) r.1.db.products) (s.repo.get_by_id id) _
            w (λ e failed. (p, n, kept id w there, stock, omega arith))
            (λ q read.
              let read_p : q ≡ p = some_inj (sym (store.read_finds id w q read) ∙ there) in
              reserve_row-Left id quantity q (s.repo.get_by_id id w).1 n
                (kept id w there ∙ ap some (sym read_p)) (ap (λ r. r.stock) read_p ∙ stock) fits
                (ground arith)))

  -- Reservations of one product, one after the other: the units that they grant, and the state.
  abbrev pub reserve_all : String → List ℤ → World Db → ℕ × World Db
  reserve_all id [] w = (0, w)
  reserve_all id (quantity ∷ rest) w =
      let (r, w') = reserve_stock env s id quantity w in
      let (sold, w'') = reserve_all id rest w' in (granted quantity r + sold, w'')

  -- Reservations of one product that run one after the other, whatever fails, never sell more than
  -- there was: the units that they grant and the stock that is left are at most the stock before.
  pub never_oversold :
      (id : String) (quantities : List ℤ) (w : World Db) (p : Product) (n : ℕ)
      → find (λ r. r.id) id w.db.products ≡ some p
      → p.stock ≡ pos n
      → n < sign_bit
      → (r : Product) × (m : ℕ) × (find (λ r. r.id) id (reserve_all id quantities w).1.db.products
          ≡ some r)
        × (r.stock ≡ pos m)
        × ((reserve_all id quantities w).0 + m ≤ n)
  never_oversold id [] w p n there stock fits = (p, n, there, stock, omega arith)
  never_oversold id (quantity ∷ rest) w p n there stock fits =
      let (q, m, there', stock', le) = reserve_stock-Left id quantity w p n there stock fits in
      let (r, l, there'', stock'', le') =
        never_oversold id rest (reserve_stock env s id quantity w).1 q m there' stock'
          (omega arith) in
      (r, l, there'', stock'', omega arith)
