-- ===== src/Product/Sales.antt =====
-- What a reservation that answers has done (product-service/internal/product/service.go).
use kazakh_express.Base.{
  String, ◌==◌, eq_iff, ◌≡◌, sym, ◌∙◌, ap, inl, inr, false, List, some, arith, Bool-cases,
  if◌then◌else◌,
}
use kazakh_express.Base.Int.{ℤ, pos, ◌-ℤ◌, wrap64, ltb_ℤ, leb_ℤ}
use kazakh_express.Base.Table.{find, key-find}
use kazakh_express.Effect.{Result, is_ok, ok, Env, World}
use kazakh_express.Effect.Cases.{bind_ok, guard_ok}
use kazakh_express.Product.Model.{Product, Db}
use kazakh_express.Product.Service.{Service, reserve_row, reserve_stock}
use kazakh_express.Product.Store.{Written, IsStore}
use kazakh_express.Product.Stock.{reserved, after_time, reserve_row-refused, reserve_row-updates}

absurd_ok : {A : Type 0} {B : Type 0} {r : Result A} {a : A} → r ≡ ok a → is_ok r ≡ false → B
absurd_ok h failed = cc

module _ (env : Env) (s : Service) (store : IsStore s.repo) where
  -- A row that is written, and the others.
  Written-find :
      {p : Product} {ps ps' : List Product} (written : Written p ps ps') (id : String)
      → find (λ r. r.id) id ps' ≡ (if p.id == id then some written.row else find (λ r. r.id) id ps)
  Written-find {p} written id = ground (arith, eq_iff p.id id, written.found, written.others id)

  -- A reservation from a row that was read, if it answers.
  reserve_row-ok :
      (id : String) (quantity : ℤ) (p : Product) (w : World Db) (q : Product)
      → (reserve_row env s id quantity p w).0 ≡ ok q
      → (ltb_ℤ p.stock quantity ≡ false)
        × (q.stock ≡ wrap64 (p.stock -ℤ quantity))
        × Written
            (reserved env s id quantity p w)
            w.db.products
            (reserve_row env s id quantity p w).1.db.products
  reserve_row-ok id quantity p w q h = elim (Bool-cases (ltb_ℤ p.stock quantity)) [
    | inl few ↦ ground (arith, reserve_row-refused env s id quantity p w few)
    | inr enough ↦
        let (answer, rows) = reserve_row-updates env s id quantity p w enough in
        let updated = sym answer ∙ h in
        (
          enough,
          ap (λ r. r.stock)
              (store.update_answers (reserved env s id quantity p w)
                (after_time env s id quantity w) q updated),
          rw rows
              (elim (store.update_cases (reserved env s id quantity p w)
                (after_time env s id quantity w)) [
                  | inl (failed, same) ↦ absurd_ok updated failed
                  | inr written ↦ written
                ]),
        )
  ]

  -- A reservation that answers has found the product with enough stock, and has written and
  -- answered that stock less the quantity; the row of any other identifier is as it was.
  pub reserve_stock-ok :
      (id : String) (quantity : ℤ) (w : World Db) (q : Product) (other : String)
      → (reserve_stock env s id quantity w).0 ≡ ok q
      → (p : Product) × (r : Product) × (find (λ r. r.id) id w.db.products ≡ some p)
        × (leb_ℤ quantity (pos 0) ≡ false)
        × (ltb_ℤ p.stock quantity ≡ false)
        × (q.stock ≡ wrap64 (p.stock -ℤ quantity))
        × (r.stock ≡ q.stock)
        × (find (λ r. r.id) other (reserve_stock env s id quantity w).1.db.products
            ≡ (if id == other then some r else find (λ r. r.id) other w.db.products))
  unfolding reserve_stock
  reserve_stock-ok id quantity w q other h =
      let (valid, step) = guard_ok _ _ _ w h in
      let (p, read, rest) =
        bind_ok (s.repo.get_by_id id) (reserve_row env s id quantity) w
          (ap (λ x. x.0) (sym step) ∙ h) in
      let w' = (s.repo.get_by_id id w).1 in
      let run = step ∙ rest in
      let (enough, stock, written) =
        reserve_row-ok id quantity p w' q (ap (λ x. x.0) (sym run) ∙ h) in
      let there = store.read_finds id w p read in
      let same = key-find (λ r. r.id) id w.db.products there in
      (
        p,
        written.row,
        there,
        ground arith,
        enough,
        stock,
        written.stock ∙ sym stock,
        ap (λ x. find (λ r. r.id) other x.1.db.products) run
            ∙ Written-find written other
            ∙ ap
                (λ i.
                  if i == other then some written.row else find (λ r. r.id) other w'.db.products)
                same
            ∙ ap (λ d. if id == other then some written.row else find (λ r. r.id) other d.products)
                (store.read_keeps id w),
      )
