-- ===== src/Order/Service.antt =====
-- order-service/internal/order/service.go.
use kazakh_express.Base.{
  ℕ, String, Bool, true, false, not, ◌||◌, List, [], ◌∷◌, ◌++◌, is_empty, if◌then◌else◌,
}
use kazakh_express.Base.Int.{ℤ, pos, ◌+ℤ◌, ◌*ℤ◌, wrap64, ltb_ℤ, leb_ℤ}
use kazakh_express.Base.Decimal.{concat, decimal}
use kazakh_express.Effect.{
  Result, ok, err, invalid_input, Env, Action, pure, raise_if, lift, call, ignore, when, get_time,
  ◌>>=◌, ◌>>◌, writes,
}
use kazakh_express.Order.Model.{
  Status, created, paid, payment_failed, canceled, Item, Order, CreateInput, Event, PaymentEvent,
  StockReservedEvent, Topic, order_created, order_cancelled, order_completed, Db, is_completed,
  is_canceled, is_allowed_status,
}
use kazakh_express.Order.Repository

-- Which of the optional parts of `Service` are set.
pub record Parts : Type 0 where
  pub publisher : Bool
  pub cache : Bool

abbrev pub is_bad_item : Item → Bool
is_bad_item item =
    is_empty item.product_id || leb_ℤ item.quantity (pos 0) || ltb_ℤ item.price_kzt (pos 0)

-- The loop of `Create`: `total` is an `int64`, and so is every product.
unfoldable pub total_from : ℤ → List Item → Result ℤ
total_from total [] = ok total
total_from total (item ∷ items) =
    let rest = total_from (wrap64 (total +ℤ wrap64 (item.quantity *ℤ item.price_kzt))) items in
    if is_bad_item item then err invalid_input else rest

abbrev pub has_no_items : List Item → Bool
has_no_items [] = true
has_no_items (_ ∷ _) = false

-- `eventFromOrder`
unfoldable pub event_from_order : Env → Order → String → Action Db Event
event_from_order env o reason = do
  now ← get_time env
  pure (record {
    order_id = o.id;
    customer_id = o.customer_id;
    status = o.status;
    total_kzt = o.total_kzt;
    reason = reason;
    occurred_at = now;
  })

-- `cacheStatus`: an error is only logged.
unfoldable pub cache_status : Env → Parts → Order → Action Db (Unit {0})
cache_status env parts o = when parts.cache (ignore (Repository.set_cached env o.id o.status))

-- `publish`, with the message that the caller builds: an error is only logged.
unfoldable pub publish : Env → Parts → Topic → Order → String → Action Db (Unit {0})
publish env parts topic o reason = when parts.publisher (
    ignore (
      event_from_order env o reason >>= λ event.
      call env "publish"
        (writes (λ d. record d { published = d.published ++ (topic, event) ∷ [] }))))

abbrev pub new_order : CreateInput → ℤ → ℕ → Order
new_order input total now = record {
  id = concat "ord-" (decimal now);
  customer_id = input.customer_id;
  items = input.items;
  status = created;
  total_kzt = total;
  created_at = now;
  updated_at = now;
}

unfoldable pub create : Env → Parts → CreateInput → Action Db Order
create env parts input = do
  raise_if (is_empty input.customer_id || has_no_items input.items) invalid_input
  total ← lift (total_from (pos 0) input.items)
  now ← get_time env
  o ← Repository.create env (new_order input total now)
  cache_status env parts o
  publish env parts order_created o ""
  pure o

unfoldable pub list : Env → Action Db (List Order)
list env = Repository.list env

-- `GetByID`
unfoldable pub get_by_id : Env → String → Action Db Order
get_by_id env id = do raise_if (is_empty id) invalid_input; Repository.get_by_id env id

-- `UpdateStatus`
unfoldable pub update_status : Env → Parts → String → Status → Action Db Order
update_status env parts id status = do
  raise_if (is_empty id || not (is_allowed_status status)) invalid_input
  o ← Repository.get_by_id env id
  updated ← Repository.update_status env id o.status status "manual status update"
  cache_status env parts updated
  when (is_completed updated.status) (publish env parts order_completed updated "")
  pure updated

unfoldable pub cancel : Env → Parts → String → String → Action Db Order
cancel env parts id reason = do
  raise_if (is_empty id) invalid_input
  o ← Repository.get_by_id env id
  raise_if (is_completed o.status || is_canceled o.status) invalid_input
  updated ← Repository.update_status env id o.status canceled reason
  cache_status env parts updated
  publish env parts order_cancelled updated reason
  pure updated

-- `HandlePaymentSucceeded`
unfoldable pub handle_payment_succeeded : Env → Parts → PaymentEvent → Action Db (Unit {0})
handle_payment_succeeded env parts event = do
  raise_if (is_empty event.order_id) invalid_input
  o ← Repository.get_by_id env event.order_id
  updated ← Repository.update_status env event.order_id o.status paid "payment.succeeded"
  cache_status env parts updated

-- `HandlePaymentFailed`
unfoldable pub handle_payment_failed : Env → Parts → PaymentEvent → Action Db (Unit {0})
handle_payment_failed env parts event = do
  raise_if (is_empty event.order_id) invalid_input
  o ← Repository.get_by_id env event.order_id
  updated ← Repository.update_status env event.order_id o.status payment_failed event.reason
  cache_status env parts updated

-- `HandleStockReserved`
unfoldable pub handle_stock_reserved : Env → StockReservedEvent → Action Db (Unit {0})
handle_stock_reserved env event = do
  raise_if (is_empty event.order_id) invalid_input
  Repository.get_by_id env event.order_id
  pure tt
