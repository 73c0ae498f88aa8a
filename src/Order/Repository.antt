-- ===== src/Order/Repository.antt =====
-- order-service/internal/order/repository.go (PostgresRepository) with the constraints of
-- order-service/migrations, and order-service/internal/cache/redis.go.
use kazakh_express.Base.{
  ℕ, String, ◌==◌, Bool, not, ◌&&◌, List, [], ◌∷◌, ◌++◌, is_some, if◌then◌else◌,
}
use kazakh_express.Base.Int.{pos, ltb_ℤ, leb_ℤ, fits32}
use kazakh_express.Base.Table.{find, update_where}
use kazakh_express.Base.Sorting.{newest_first}
use kazakh_express.Effect.{
  Result, not_found, Env, Action, pure, call, transaction, ◌>>=◌, ◌>>◌, reads, queries, writes,
  checked, or_raise,
}
use kazakh_express.Order.Model.{Status, no_status, Item, Order, Row, ItemRow, Db, is_allowed_status}

abbrev pub row_of : Order → Row
row_of o = record {
  id = o.id;
  customer_id = o.customer_id;
  status = o.status;
  total_kzt = o.total_kzt;
  created_at = o.created_at;
  updated_at = o.updated_at;
}

-- `scanOrder`, with the items that `listItems` adds.
abbrev pub order_of : List Item → Row → Order
order_of items r = record {
  id = r.id;
  customer_id = r.customer_id;
  items = items;
  status = r.status;
  total_kzt = r.total_kzt;
  created_at = r.created_at;
  updated_at = r.updated_at;
}

abbrev pub items_of : String → List ItemRow → List Item
items_of id [] = []
items_of id (r ∷ rs) = if r.order_id == id then r.item ∷ items_of id rs else items_of id rs

-- `listItems`, in the order of insertion.
unfoldable pub list_items : Env → String → Action Db (List Item)
list_items env id = call env "list order items" (reads (λ d. items_of id d.items))

-- The constraints on a new order and on an item.
abbrev pub insertable : Order → Db → Bool
insertable o d =
    not (is_some (find (λ r. r.id) o.id d.orders))
    && is_allowed_status o.status
    && leb_ℤ (pos 0) o.total_kzt

abbrev pub insertable_item : String → Item → Db → Bool
insertable_item id item d =
    is_some (find (λ r. r.id) id d.orders)
    && ltb_ℤ (pos 0) item.quantity
    && fits32 item.quantity
    && leb_ℤ (pos 0) item.price_kzt

-- One round of the loop over the items of `Create`, and the loop.
unfoldable pub insert_item : Env → String → Item → Action Db (Unit {0})
insert_item env id item = call env "create order item" (
    checked "create order item" (insertable_item id item)
      (λ d. record d { items = d.items ++ record { order_id = id; item = item } ∷ [] }))

unfoldable pub insert_items : Env → String → List Item → Action Db (Unit {0})
insert_items env id [] = pure tt
insert_items env id (item ∷ items) = do insert_item env id item; insert_items env id items

-- `insertStatusHistory`
unfoldable pub insert_status_history :
    Env → String → Status → Status → String → ℕ → Action Db (Unit {0})
insert_status_history env id from to reason created_at = call env "insert order status history" (
    checked "insert order status history" (λ d. is_some (find (λ r. r.id) id d.orders))
      (λ d. record d {
        history =
            d.history
            ++ record {
              order_id = id;
              from_status = from;
              to_status = to;
              reason = reason;
              created_at = created_at;
            }
              ∷ [];
      }))

-- The statements between `Begin` and `Commit` of `Create`.
unfoldable pub create_rows : Env → Order → Action Db Order
create_rows env o = do
  call env "create order"
      (checked "create order" (insertable o) (λ d. record d { orders = d.orders ++ row_of o ∷ [] }))
  insert_items env o.id o.items
  insert_status_history env o.id no_status o.status "order created" o.created_at
  pure o

-- `Begin` is a call of its own.
unfoldable pub begin : Env → String → Action Db (Unit {0})
begin env what = call env what (writes (λ d. d))

unfoldable pub create : Env → Order → Action Db Order
create env o = do
  begin env "begin create order"
  transaction env "commit create order" (create_rows env o)

-- The loop over the rows of `List`: one query for the items of each order.
unfoldable pub with_items : Env → List Row → Action Db (List Order)
with_items env [] = pure []
with_items env (r ∷ rs) = do
  items ← list_items env r.id
  rest ← with_items env rs
  pure (order_of items r ∷ rest)

unfoldable pub list : Env → Action Db (List Order)
list env = do
  rows ← call env "list orders" (reads (λ d. newest_first (λ r. r.created_at) d.orders))
  with_items env rows

-- `GetByID`
unfoldable pub get_by_id : Env → String → Action Db Order
get_by_id env id = do
  r ← call env "get order" (queries (λ d. or_raise (find (λ r. r.id) id d.orders) not_found))
  items ← list_items env r.id
  pure (order_of items r)

abbrev pub set_status : Status → ℕ → Row → Row
set_status to now r = record r { status = to; updated_at = now }

-- `update orders ... returning`: the row as it stands after the update.
abbrev pub update_returning : String → Status → ℕ → Db → Result Row × Db
update_returning id to now d =
    let rows = update_where (λ r. r.id) id (set_status to now) d.orders in
    (or_raise (find (λ r. r.id) id rows) not_found, record d { orders = rows })

-- The statements between `Begin` and `Commit` of `UpdateStatus`.
unfoldable pub update_status_rows : Env → String → Status → Status → String → Action Db Row
update_status_rows env id from to reason = do
  updated ← call env "update order status" (λ now d. update_returning id to now d)
  insert_status_history env id from to reason updated.updated_at
  pure updated

-- `UpdateStatus`. The check of the column is the caller's: every status that the service passes is
-- allowed.
unfoldable pub update_status : Env → String → Status → Status → String → Action Db Order
update_status env id from to reason = do
  begin env "begin update order status"
  updated ← transaction env "commit update order status" (update_status_rows env id from to reason)
  items ← list_items env updated.id
  pure (order_of items updated)

-- `RedisStatusCache.SetStatus`
unfoldable pub set_cached : Env → String → Status → Action Db (Unit {0})
set_cached env id status =
    call env "set order status" (writes (λ d. record d { cached = (id, status) ∷ d.cached }))
