-- ===== src/Order/Tests.antt =====
-- The order service on concrete inputs.
use kazakh_express.Base.{
  none, ◌==◌, if◌then◌else◌, ◌≡◌, refl, ◌⊎◌, true, false, [], ◌∷◌, some, arith,
}
use kazakh_express.Base.Int.{pos}
use kazakh_express.Base.Decimal.{decimal, concat}
use kazakh_express.Base.Table.{find}
use kazakh_express.Effect.{ok, done, is_ok, Env, World}
use kazakh_express.Order.Model.{
  Status, created, paid, completed, canceled, no_status, Item, Order, PaymentEvent, Db,
}
use kazakh_express.Http.{answer}
use kazakh_express.Order.Http
use kazakh_express.Order.Http.{Json, get_order, cancel_order, not_allowed}
use kazakh_express.Order.Http.Routes.{at, order_routes}
use kazakh_express.Order.Repository
use kazakh_express.Order.Repository.{row_of, set_status}
use kazakh_express.Order.Service
use kazakh_express.Order.Service.{Parts, total_from}
use kazakh_express.Order.Trace.{IsTraced, entry}
use kazakh_express.Order.Run.{Op, run, run-IsTraced}
use kazakh_express.Order.Totals.{checked_total}
use kazakh_express.Order.Outcomes.{cancel_refused, payment_overrides, create_atomic, item_rows}

abbrev calm : Env
calm = record { outcome = λ n. done; now = λ n. n; uuid = decimal }

-- A body of which nothing is read.
abbrev no_body : Json
no_body = record { create = λ b. none; update_status = λ b. none; cancel_reason = λ b. "" }

abbrev all_parts : Parts
all_parts = record { publisher = true; cache = true }

abbrev empty : World Db
empty = record {
  db = record { orders = []; items = []; history = []; cached = []; published = [] };
  tick = 0;
}

abbrev tea : Item
tea = record { product_id = "prd-1"; name = "tea"; quantity = pos 2; price_kzt = pos 500 }

abbrev tea_order : Order
tea_order = record {
  id = "ord-1";
  customer_id = "c1";
  items = tea ∷ [];
  status = created;
  total_kzt = pos 1000;
  created_at = 1;
  updated_at = 1;
}

abbrev with_order : Status → World Db
with_order status = record empty {
  db = record empty.db { orders = record (row_of tea_order) { status = status } ∷ [] };
}

abbrev paid_event : PaymentEvent
paid_event = record {
  payment_id = "p1";
  order_id = "ord-1";
  customer_id = "c1";
  status = "succeeded";
  reason = "";
  occurred_at = 7;
}

run-IsTraced_example :
    IsTraced
      (run calm all_parts
        (Op.create (record { customer_id = "c1"; items = tea ∷ [] })
          ∷ Op.payment_succeeded paid_event
          ∷ Op.cancel "ord-1" "late"
          ∷ [])
        empty).db
run-IsTraced_example =
    run-IsTraced calm all_parts
      (Op.create (record { customer_id = "c1"; items = tea ∷ [] })
        ∷ Op.payment_succeeded paid_event
        ∷ Op.cancel "ord-1" "late"
        ∷ [])
      empty (record { at = λ id. refl })

checked_total_example : total_from (pos 0) (tea ∷ tea ∷ []) ≡ ok (pos 2000)
checked_total_example = checked_total (tea ∷ tea ∷ []) (omega arith)

cancel_refused_example :
    (is_ok (Service.cancel calm all_parts "ord-1" "late" (with_order completed)).0 ≡ false)
    × ((Service.cancel calm all_parts "ord-1" "late" (with_order completed)).1.db
        ≡ (with_order completed).db)
cancel_refused_example =
    cancel_refused calm all_parts "ord-1" "late" (with_order completed)
      (record (row_of tea_order) { status = completed }) refl refl

-- A payment message after the cancellation of the order.
payment_overrides_example :
    let w = with_order canceled in
    let d' = (Service.handle_payment_succeeded calm all_parts paid_event w).1.db in
    ((Service.handle_payment_succeeded calm all_parts paid_event w).0 ≡ ok tt)
    × (find (λ r. r.id) "ord-1" d'.orders
        ≡ some (set_status paid 3 (record (row_of tea_order) { status = canceled })))
    × (d'.history ≡ entry "ord-1" canceled paid "payment.succeeded" 3 ∷ [])
payment_overrides_example =
    payment_overrides calm all_parts paid_event (with_order canceled)
      (record (row_of tea_order) { status = canceled }) (λ n. refl) refl refl

create_atomic_example :
    let d' = (Repository.create calm tea_order empty).1.db in
    (d' ≡ empty.db)
    ⊎ ((d'.orders ≡ row_of tea_order ∷ [])
        × (d'.items ≡ item_rows "ord-1" (tea ∷ []))
        × (d'.history ≡ entry "ord-1" no_status created "order created" 1 ∷ []))
create_atomic_example = create_atomic calm tea_order empty

order_routes_example :
    (at no_body calm all_parts "PATCH" "{}" "ord-1"
      ≡ (if "PATCH" == "GET" then get_order calm all_parts "ord-1" else answer not_allowed))
    × (at no_body calm all_parts "PATCH" "{}" (concat "ord-1" "/status") ≡ (
        if "PATCH" == "PATCH"
        then Http.update_status calm all_parts "ord-1" none
        else answer not_allowed))
    × (at no_body calm all_parts "PATCH" "{}" (concat "ord-1" "/cancel") ≡ (
        if "PATCH" == "POST" then cancel_order calm all_parts "ord-1" "" else answer not_allowed))
order_routes_example =
    order_routes no_body calm all_parts "PATCH" "{}" "ord-1"
      (refl, (refl, (refl, (refl, (refl, (refl, tt))))))
