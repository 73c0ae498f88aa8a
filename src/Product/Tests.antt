-- ===== src/Product/Tests.antt =====
-- The product service on concrete inputs.
use kazakh_express.Base.{
  ℕ, ◌+◌, ◌≤◌, String, ◌==◌, ◌≡◌, refl, Bool, true, false, List, [], ◌∷◌, none, some, arith,
}
use kazakh_express.Base.Int.{ℤ, pos, ◌-ℤ◌, wrap64, ltb_ℤ, leb_ℤ}
use kazakh_express.Base.Decimal.{decimal}
use kazakh_express.Base.Table.{find}
use kazakh_express.Effect.{ok, done, is_ok, Env, World, ◌>>=◌}
use kazakh_express.Product.Model.{Product, Db}
use kazakh_express.Product.Postgres
use kazakh_express.Product.Postgres.{postgres, page_limit}
use kazakh_express.Product.Service.{Service, reserve_row, reserve_stock, publish}
use kazakh_express.Product.Store.{postgres-IsStore}
use kazakh_express.Product.Stock.{never_oversold, reserve_all}
use kazakh_express.Product.Sales.{reserve_stock-ok}
use kazakh_express.Product.Inventory.{Op, stock_of, Steps, run, run-Steps}
use kazakh_express.Product.Races.{lost_update}

abbrev calm : Env
calm = record { outcome = λ n. done; now = λ n. n; uuid = decimal }

abbrev by_name : String → Product → Bool
by_name text p = p.name == text

abbrev shop : Service
shop = record {
  repo = postgres calm by_name;
  storage = false;
  publisher = true;
  url_of = λ object. object;
  base_name = λ name. name;
}

abbrev tea : Product
tea = record {
  id = "prd-1";
  name = "tea";
  description = "";
  price_kzt = pos 500;
  stock = pos 5;
  image_url = "";
  created_at = 0;
  updated_at = 0;
}

abbrev stocked : World Db
stocked = record {
  db = record { products = tea ∷ []; images = []; objects = []; published = [] };
  tick = 0;
}

abbrev stock_changes : List Op
stock_changes =
    Op.reserve "prd-1" (pos 3) ∷ Op.release "prd-1" (pos 1) ∷ Op.set "prd-2" (pos 4) ∷ []

abbrev requests : List ℤ
requests = pos 3 ∷ pos 3 ∷ pos 2 ∷ []

never_oversold_example :
    (r : Product) × (m : ℕ) × (find
        (λ r. r.id)
        "prd-1"
        (reserve_all calm shop
          (postgres-IsStore calm by_name)
          "prd-1"
          requests
          stocked).1.db.products
      ≡ some r)
    × (r.stock ≡ pos m)
    × ((reserve_all calm shop (postgres-IsStore calm by_name) "prd-1" requests stocked).0 + m ≤ 5)
never_oversold_example =
    never_oversold calm shop (postgres-IsStore calm by_name) "prd-1" requests stocked tea 5 refl
      refl (omega arith)

reserve_stock-ok_example :
    (p : Product) × (r : Product) × (find (λ r. r.id) "prd-1" stocked.db.products ≡ some p)
    × (leb_ℤ (pos 3) (pos 0) ≡ false)
    × (ltb_ℤ p.stock (pos 3) ≡ false)
    × (pos 2 ≡ wrap64 (p.stock -ℤ pos 3))
    × (r.stock ≡ pos 2)
    × (find (λ r. r.id) "prd-2" (reserve_stock calm shop "prd-1" (pos 3) stocked).1.db.products
        ≡ none)
unfolding reserve_stock reserve_row publish postgres Postgres.get_by_id Postgres.update ◌>>=◌ wrap64
    ◌-ℤ◌
reserve_stock-ok_example =
    reserve_stock-ok calm shop (postgres-IsStore calm by_name) "prd-1" (pos 3) stocked
      (record tea { stock = pos 2; updated_at = 1 }) "prd-2" refl

-- Of five units, three and then four are sold.
lost_update_example :
    let (first_read, w') = shop.repo.get_by_id "prd-1" stocked in
    let (second_read, w'') = shop.repo.get_by_id "prd-1" w' in
    let (first, middle) = reserve_row calm shop "prd-1" (pos 3) tea w'' in
    let (second, final) = reserve_row calm shop "prd-1" (pos 4) tea middle in
    (q : Product) × (first_read ≡ ok tea)
    × (second_read ≡ ok tea)
    × (is_ok first ≡ true)
    × (is_ok second ≡ true)
    × (find (λ r. r.id) "prd-1" final.db.products ≡ some q)
    × (q.stock ≡ pos 1)
lost_update_example =
    lost_update calm by_name shop (λ n. refl) tea 5 3 4 stocked refl refl (omega arith)
      (omega arith) (omega arith) refl

run-Steps_example :
    Steps stock_changes
      (stock_of stocked.db)
      (stock_of (run calm shop (postgres-IsStore calm by_name) stock_changes stocked).db)
run-Steps_example = run-Steps calm shop (postgres-IsStore calm by_name) stock_changes stocked
