-- ===== src/Order/Outcomes.antt =====
-- The answers of the order service: what it refuses, and what a payment message does.
use kazakh_express.Base.{
  ℕ, ◌+◌, String, eq_iff, ◌≡◌, refl, sym, ◌∙◌, ap, ◌⊎◌, inl, inr, true, false, ◌||◌, List, [], ◌∷◌,
  ◌++◌, some, arith, is_empty,
}
use mathlib.Core.List.{append-nil, append_assoc}
use kazakh_express.Base.Table.{find, find-update_where}
use kazakh_express.Effect.{is_ok, ok, done, Env, World, pure, ◌>>=◌}
use kazakh_express.Effect.Cases.{transaction_cases, bind_cases, bind_ok}
use kazakh_express.Order.Model.{
  paid, payment_failed, Item, ItemRow, Order, PaymentEvent, Row, Db, is_completed, is_canceled,
  no_status,
}
use kazakh_express.Order.Repository
use kazakh_express.Order.Repository.{
  row_of, create_rows, insert_item, insert_items, begin, list_items, update_status_rows,
  insert_status_history, set_status,
}
use kazakh_express.Order.Service
use kazakh_express.Order.Service.{Parts, has_no_items, cache_status}
use kazakh_express.Order.Trace.{entry, begin-db, create_rows-ok}

-- A stored order that is completed or canceled is not canceled: whatever the environment does, the
-- call fails and the tables, the cache and the messages stay as they are.
pub cancel_refused :
    (env : Env) (parts : Parts) (id reason : String) (w : World Db) (r : Row)
    → find (λ r. r.id) id w.db.orders ≡ some r
    → (is_completed r.status || is_canceled r.status) ≡ true
    → (is_ok (Service.cancel env parts id reason w).0 ≡ false)
      × ((Service.cancel env parts id reason w).1.db ≡ w.db)
unfolding Service.cancel Repository.get_by_id list_items ◌>>=◌
cancel_refused env parts id reason w r stored over = (ground arith, ground arith)

-- A payment message, in an environment with no fault, makes any stored order paid, whatever its
-- status is, and says so in the history.
pub payment_overrides :
    (env : Env) (parts : Parts) (e : PaymentEvent) (w : World Db) (r : Row)
    → ((n : ℕ) → env.outcome n ≡ done)
    → is_empty e.order_id ≡ false
    → find (λ r. r.id) e.order_id w.db.orders ≡ some r
    → let now = env.now (w.tick + 1 + 1 + 1) in
      let d' = (Service.handle_payment_succeeded env parts e w).1.db in
      ((Service.handle_payment_succeeded env parts e w).0 ≡ ok tt)
      × (find (λ r. r.id) e.order_id d'.orders ≡ some (set_status paid now r))
      × (d'.history ≡ w.db.history ++ entry e.order_id r.status paid "payment.succeeded" now ∷ [])
unfolding Service.handle_payment_succeeded Repository.get_by_id Repository.update_status list_items
    begin update_status_rows insert_status_history cache_status Repository.set_cached ◌>>=◌
payment_overrides env parts e w r up named stored = ground (
  arith,
  up w.tick,
  up (w.tick + 1),
  up (w.tick + 1 + 1),
  up (w.tick + 1 + 1 + 1),
  up (w.tick + 1 + 1 + 1 + 1),
  up (w.tick + 1 + 1 + 1 + 1 + 1),
  up (w.tick + 1 + 1 + 1 + 1 + 1 + 1),
  up (w.tick + 1 + 1 + 1 + 1 + 1 + 1 + 1),
  eq_iff e.order_id e.order_id,
  find-update_where (λ r. r.id) e.order_id e.order_id
      (set_status paid (env.now (w.tick + 1 + 1 + 1))) w.db.orders (λ r. refl),
)

-- The message of a failed payment makes it `payment_failed`, whatever its status is.
pub failure_overrides :
    (env : Env) (parts : Parts) (e : PaymentEvent) (w : World Db) (r : Row)
    → ((n : ℕ) → env.outcome n ≡ done)
    → is_empty e.order_id ≡ false
    → find (λ r. r.id) e.order_id w.db.orders ≡ some r
    → find (λ r. r.id) e.order_id (Service.handle_payment_failed env parts e w).1.db.orders
      ≡ some (set_status payment_failed (env.now (w.tick + 1 + 1 + 1)) r)
unfolding Service.handle_payment_failed Repository.get_by_id Repository.update_status list_items
    begin update_status_rows insert_status_history cache_status Repository.set_cached ◌>>=◌
failure_overrides env parts e w r up named stored = ground (
  arith,
  up w.tick,
  up (w.tick + 1),
  up (w.tick + 1 + 1),
  up (w.tick + 1 + 1 + 1),
  up (w.tick + 1 + 1 + 1 + 1),
  up (w.tick + 1 + 1 + 1 + 1 + 1),
  up (w.tick + 1 + 1 + 1 + 1 + 1 + 1),
  up (w.tick + 1 + 1 + 1 + 1 + 1 + 1 + 1),
  eq_iff e.order_id e.order_id,
  find-update_where (λ r. r.id) e.order_id e.order_id
      (set_status payment_failed (env.now (w.tick + 1 + 1 + 1))) w.db.orders (λ r. refl),
)

-- The rows of the items of one order.
abbrev pub item_rows : String → List Item → List ItemRow
item_rows id [] = []
item_rows id (item ∷ items) = record { order_id = id; item = item } ∷ item_rows id items

-- One insert of an item that is accepted.
insert_item-ok :
    (env : Env) (id : String) (item : Item) (w : World Db)
    → (insert_item env id item w).0 ≡ ok tt
    → (insert_item env id item w).1.db.items
      ≡ w.db.items ++ record { order_id = id; item = item } ∷ []
unfolding insert_item ◌>>=◌
insert_item-ok env id item w h = ground arith

-- The loop over the items inserts all of them if it answers.
insert_items-ok :
    (env : Env) (id : String) (items : List Item) (w : World Db)
    → (insert_items env id items w).0 ≡ ok tt
    → (insert_items env id items w).1.db.items ≡ w.db.items ++ item_rows id items
unfolding insert_items pure
insert_items-ok env id [] w h = sym (append-nil w.db.items)
insert_items-ok env id (item ∷ items) w h =
    let (_, first, rest) = bind_ok (insert_item env id item) (λ _. insert_items env id items) w h in
    let w' = (insert_item env id item w).1 in
    ap (λ x. x.1.db.items) rest
    ∙ insert_items-ok env id items w' (ap (λ x. x.0) (sym rest) ∙ h)
    ∙ ap (λ rows. rows ++ item_rows id items) (insert_item-ok env id item w first)
    ∙ append_assoc w.db.items (record { order_id = id; item = item } ∷ []) (item_rows id items)

-- The statements of `Create` that have all been accepted: the items of the order are there.
create_rows-items :
    (env : Env) (o : Order) (w : World Db) {o' : Order}
    → (create_rows env o w).0 ≡ ok o'
    → (create_rows env o w).1.db.items ≡ w.db.items ++ item_rows o.id o.items
unfolding create_rows insert_status_history ◌>>=◌
create_rows-items env o w h = grind (arith, insert_items-ok)

-- What a `Create` of the repository leaves, whatever fails: all three tables as they were, or the
-- row of the order, the rows of all its items and the first row of its history, and no other row.
pub create_atomic :
    (env : Env) (o : Order) (w : World Db)
    → let d' = (Repository.create env o w).1.db in
      (d' ≡ w.db)
      ⊎ ((d'.orders ≡ w.db.orders ++ row_of o ∷ [])
          × (d'.items ≡ w.db.items ++ item_rows o.id o.items)
          × (d'.history
              ≡ w.db.history ++ entry o.id no_status o.status "order created" o.created_at ∷ []))
unfolding Repository.create
create_atomic env o w =
    let w' = (begin env "begin create order" w).1 in
    let same = begin-db env w "begin create order" in
    bind_cases
      (λ x.
        (x.1.db ≡ w.db)
        ⊎ ((x.1.db.orders ≡ w.db.orders ++ row_of o ∷ [])
            × (x.1.db.items ≡ w.db.items ++ item_rows o.id o.items)
            × (x.1.db.history
                ≡ w.db.history ++ entry o.id no_status o.status "order created" o.created_at ∷ [])))
      (begin env "begin create order") _ w (λ e h. inl same)
      (λ _ h. elim (transaction_cases env "commit create order" (create_rows env o) w') [
        | inl kept ↦ inl (kept ∙ same)
        | inr (o', ran, kept) ↦
            let (_, _, orders, history) = create_rows-ok env o w' ran in
            inr (
              ap (λ d. d.orders) kept ∙ orders ∙ ap (λ d. d.orders ++ row_of o ∷ []) same,
              ap (λ d. d.items) kept
                  ∙ create_rows-items env o w' ran
                  ∙ ap (λ d. d.items ++ item_rows o.id o.items) same,
              ap (λ d. d.history) kept
                  ∙ history
                  ∙ ap
                      (λ d.
                        d.history
                        ++ entry o.id no_status o.status "order created" o.created_at ∷ [])
                      same,
            )
      ])
