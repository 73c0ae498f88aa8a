-- ===== src/Product/Races.antt =====
-- Two reservations of one product (product-service/internal/product/service.go) on Postgres, one
-- after the other and at once.
use kazakh_express.Base.{
  ℕ, ◌+◌, ◌-◌, ◌≤◌, ◌<◌, String, eq_iff, ◌≡◌, refl, ap, Bool, true, some, arith,
}
use kazakh_express.Base.Int.{pos, leb_ℤ}
use kazakh_express.Base.Table.{find, find-update_where}
use kazakh_express.Effect.{is_ok, ok, done, Env, World, ◌>>=◌}
use kazakh_express.Product.Model.{Product, Db}
use kazakh_express.Product.Postgres
use kazakh_express.Product.Postgres.{postgres, set_columns}
use kazakh_express.Product.Service.{Service, reserve_row, publish}
use kazakh_express.Product.Stock.{reserved_stock}

abbrev pub on_postgres : Env → (String → Product → Bool) → Service → Service
on_postgres env matches s = record s { repo = postgres env matches }

module _ (env : Env) (matches : String → Product → Bool) (s : Service)
    (up : (n : ℕ) → env.outcome n ≡ done) where
  -- The write of one reservation, from the row that it has read, in an environment with no fault.
  -- The stored row may be a later version.
  reserve_row-writes :
      (p old : Product) (n k : ℕ) (w : World Db)
      → find (λ r. r.id) p.id w.db.products ≡ some old
      → p.stock ≡ pos n
      → n < 2147483648
      → k ≤ n
      → leb_ℤ (pos 0) p.price_kzt ≡ true
      → let q = record p { stock = pos (n - k); updated_at = env.now w.tick } in
        ((reserve_row env (on_postgres env matches s) p.id (pos k) p w).0 ≡ ok q)
        × (find
              (λ r. r.id)
              p.id
              (reserve_row env (on_postgres env matches s) p.id (pos k) p w).1.db.products
            ≡ some (set_columns q old))
  unfolding reserve_row publish postgres Postgres.update ◌>>=◌
  reserve_row-writes p old n k w there stock fits enough price = ground (
    arith,
    up (w.tick + 1),
    reserved_stock n k,
    find-update_where (λ r. r.id) p.id p.id
        (set_columns (record p { stock = pos (n - k); updated_at = env.now w.tick })) w.db.products
        (λ r. refl),
    eq_iff p.id p.id,
  )

  reads_row :
      (id : String) (p : Product) (w : World Db)
      → find (λ r. r.id) id w.db.products ≡ some p
      → (on_postgres env matches s).repo.get_by_id id w ≡ (ok p, record w { tick = w.tick + 1 })
  unfolding postgres Postgres.get_by_id ◌>>=◌
  reads_row id p w there = ground (arith, up w.tick)

  -- Two reservations of one product that both read its row before either writes, with no fault,
  -- are both granted if each is no more than the stock, and the stock that is left is that of the
  -- later one alone: the units of the other are sold again.
  pub lost_update :
      (p : Product) (n k l : ℕ) (w : World Db)
      → find (λ r. r.id) p.id w.db.products ≡ some p
      → p.stock ≡ pos n
      → n < 2147483648
      → k ≤ n
      → l ≤ n
      → leb_ℤ (pos 0) p.price_kzt ≡ true
      → let shop = on_postgres env matches s in
        let (first_read, w') = shop.repo.get_by_id p.id w in
        let (second_read, w'') = shop.repo.get_by_id p.id w' in
        let (first, middle) = reserve_row env shop p.id (pos k) p w'' in
        let (second, final) = reserve_row env shop p.id (pos l) p middle in
        (q : Product) × (first_read ≡ ok p)
        × (second_read ≡ ok p)
        × (is_ok first ≡ true)
        × (is_ok second ≡ true)
        × (find (λ r. r.id) p.id final.db.products ≡ some q)
        × (q.stock ≡ pos (n - l))
  lost_update p n k l w there stock fits le le' price =
      let shop = on_postgres env matches s in
      let w' : World Db = record { db = w.db; tick = w.tick + 1 } in
      let w'' : World Db = record { db = w.db; tick = w.tick + 1 + 1 } in
      let (granted, written) = reserve_row-writes p p n k w'' there stock fits le price in
      let middle = (reserve_row env shop p.id (pos k) p w'').1 in
      let (granted', written') = reserve_row-writes p _ n l middle written stock fits le' price in
      rw (reads_row p.id p w there, reads_row p.id p w' there)
        (_, refl, refl, ap is_ok granted, ap is_ok granted', written', refl)
