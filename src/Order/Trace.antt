-- ===== src/Order/Trace.antt =====
-- The audit trail (order-service/internal/order/repository.go): the history of an order as a trace
-- of statuses.
use kazakh_express.Base.{
  ℕ, String, ◌==◌, eq_iff, ◌≡◌, refl, sym, ◌∙◌, ap, subst, inl, inr, Bool, true, false, List, [],
  ◌∷◌, ◌++◌, none, some, arith, Bool-cases, is_some, if◌then◌else◌,
}
use kazakh_express.Base.Table.{find, find-append, find-update_where, update_where}
use kazakh_express.Effect.{ok, Env, World, ◌>>=◌}
use kazakh_express.Effect.Keeps.{Keeps, Keeps-bind, keeps_rules}
use kazakh_express.Order.Model.{Status, no_status, Item, Order, StatusHistory, Row, Db}
use kazakh_express.Order.Repository.{
  row_of, insertable, insert_item, insert_items, insert_status_history, create_rows, set_status,
  update_status_rows, begin, list_items,
}

-- The history rows of the order `id`, read from the oldest, lead from one status to another, each
-- from the status that the one before it has reached.
abbrev pub Follows : Bool → StatusHistory → Status → Type 0
Follows true e s = e.from_status ≡ s
Follows false e s = Unit

abbrev pub Leads : String → Status → List StatusHistory → Status → Type 0
Leads id s [] t = s ≡ t
Leads id s (e ∷ h) t =
    Follows (e.order_id == id) e s × Leads id (if e.order_id == id then e.to_status else s) h t

-- The status of a stored order; an order that is not stored has none.
abbrev pub status_of : String → List Row → Status
status_of id rows = elim (find (λ r. r.id) id rows) [ none ↦ no_status | some r ↦ r.status ]

-- The history of every identifier leads to the status in the table of orders.
pub record IsTraced (d : Db) : Type 0 where
  pub at : (id : String) → Leads id no_status d.history (status_of id d.orders)

-- One more row at the end: it has to follow, if it is of this order.
Leads-append :
    (id : String) (s : Status) (h : List StatusHistory) (t : Status) (e : StatusHistory)
    → Leads id s h t
    → Follows (e.order_id == id) e t
    → Leads id s (h ++ e ∷ []) (if e.order_id == id then e.to_status else t)
Leads-append id s [] t e h f = elim (Bool-cases (e.order_id == id)) [
  | inl this ↦ rw this ((rw this at f) ∙ sym h, refl)
  | inr other ↦ rw other (tt, h)
]
Leads-append id s (x ∷ xs) t e h f =
    (h.0, Leads-append id (if x.order_id == id then x.to_status else s) xs t e h.1 f)

-- The entries that the two transactions write.
abbrev pub entry : String → Status → Status → String → ℕ → StatusHistory
entry id from to reason now = record {
  order_id = id;
  from_status = from;
  to_status = to;
  reason = reason;
  created_at = now;
}

abbrev pub Tables : Type 0
Tables = List Row × List StatusHistory

abbrev pub tables : Db → Tables
tables d = (d.orders, d.history)

insert_items-Keeps :
    (env : Env) (ts : Tables) (id : String) (items : List Item)
    → Keeps (λ d. tables d ≡ ts) (insert_items env id items)
unfolding insert_items insert_item
insert_items-Keeps env ts id [] = search keeps_rules
insert_items-Keeps env ts id (item ∷ items) =
    Keeps-bind _ _ (search keeps_rules) (λ _. insert_items-Keeps env ts id items)

pub tables-insert_items :
    (env : Env) (id : String) (items : List Item) (w : World Db)
    → tables (insert_items env id items w).1.db ≡ tables w.db
tables-insert_items env id items w = (insert_items-Keeps env (tables w.db) id items).at w refl

-- The statements of a `Create` that have all been accepted.
pub create_rows-ok :
    (env : Env) (o : Order) (w : World Db) {o' : Order}
    → (create_rows env o w).0 ≡ ok o'
    → (o' ≡ o)
      × (insertable o w.db ≡ true)
      × ((create_rows env o w).1.db.orders ≡ w.db.orders ++ row_of o ∷ [])
      × ((create_rows env o w).1.db.history
          ≡ w.db.history ++ entry o.id no_status o.status "order created" o.created_at ∷ [])
unfolding create_rows insert_status_history ◌>>=◌
create_rows-ok env o w h = grind (arith, tables-insert_items)

-- The statements of an `UpdateStatus` that have all been accepted.
pub update_status_rows-ok :
    (env : Env) (id : String) (from to : Status) (reason : String) (w : World Db) {r : Row}
    → (update_status_rows env id from to reason w).0 ≡ ok r
    → (is_some (find (λ r. r.id) id w.db.orders) ≡ true)
      × (r.status ≡ to)
      × ((update_status_rows env id from to reason w).1.db.orders
          ≡ update_where (λ r. r.id) id (set_status to (env.now w.tick)) w.db.orders)
      × ((update_status_rows env id from to reason w).1.db.history
          ≡ w.db.history ++ entry id from to reason r.updated_at ∷ [])
unfolding update_status_rows insert_status_history ◌>>=◌
update_status_rows-ok env id from to reason w h = ground (
  arith,
  eq_iff id id,
  find-update_where (λ r. r.id) id id (set_status to (env.now w.tick)) w.db.orders (λ r. refl),
)

-- The status of each order after an insert and after an update.
status_of-insert :
    (j : String) (rows : List Row) (r : Row)
    → find (λ r. r.id) r.id rows ≡ none
    → (status_of j (rows ++ r ∷ []) ≡ (if r.id == j then r.status else status_of j rows))
      × (status_of r.id rows ≡ no_status)
status_of-insert j rows r fresh =
    ground (arith, eq_iff r.id j, find-append (λ r. r.id) j rows (r ∷ []))

status_of-update :
    (j id : String) (rows : List Row) (to : Status) (now : ℕ)
    → is_some (find (λ r. r.id) id rows) ≡ true
    → status_of j (update_where (λ r. r.id) id (set_status to now) rows)
      ≡ (if id == j then to else status_of j rows)
status_of-update j id rows to now found =
    ground
      (arith, eq_iff id j, find-update_where (λ r. r.id) id j (set_status to now) rows (λ r. refl))

-- Both kinds of entry extend the trail.
Leads-entry :
    (d : Db) (j id : String) (from to : Status) (reason : String) (now : ℕ)
    → IsTraced d
    → status_of id d.orders ≡ from
    → Leads j no_status
        (d.history ++ entry id from to reason now ∷ [])
        (if id == j then to else status_of j d.orders)
Leads-entry d j id from to reason now h same =
    Leads-append j no_status d.history (status_of j d.orders) (entry id from to reason now) (h.at j)
      (follows (id == j) refl)
  where
    follows :
        (b : Bool) → (id == j) ≡ b → Follows b (entry id from to reason now) (status_of j d.orders)
    follows true e = sym same ∙ ap (λ k. status_of k d.orders) ((eq_iff id j).0 e)
    follows false e = tt

pub create_rows-IsTraced :
    (env : Env) (o : Order) (w : World Db) {o' : Order}
    → (create_rows env o w).0 ≡ ok o'
    → IsTraced w.db
    → IsTraced (create_rows env o w).1.db
create_rows-IsTraced env o w h traced =
    let (same, good, orders, history) = create_rows-ok env o w h in
    let fresh : find (λ r. r.id) o.id w.db.orders ≡ none = ground arith in
    record {
      at = λ j.
          rw (history, orders, (status_of-insert j w.db.orders (row_of o) fresh).0)
            (Leads-entry w.db j o.id no_status o.status "order created" o.created_at traced
              (status_of-insert j w.db.orders (row_of o) fresh).1);
    }

pub update_status_rows-IsTraced :
    (env : Env) (id : String) (from to : Status) (reason : String) (w : World Db) {r : Row}
    → (update_status_rows env id from to reason w).0 ≡ ok r
    → status_of id w.db.orders ≡ from
    → IsTraced w.db
    → IsTraced (update_status_rows env id from to reason w).1.db
update_status_rows-IsTraced env id from to reason w {r} h read traced =
    let (found, now, orders, history) = update_status_rows-ok env id from to reason w h in
    record {
      at = λ j.
          rw (history, orders, status_of-update j id w.db.orders to (env.now w.tick) found)
            (Leads-entry w.db j id from to reason r.updated_at traced read);
    }

pub tables-IsTraced : {d d' : Db} → tables d' ≡ tables d → IsTraced d → IsTraced d'
tables-IsTraced same h = record {
  at = λ j. subst (λ (ts : Tables). Leads j no_status ts.1 (status_of j ts.0)) (sym same) (h.at j);
}

module _ (env : Env) (w : World Db) where
  pub begin-db : (what : String) → (begin env what w).1.db ≡ w.db
  unfolding begin ◌>>=◌
  begin-db what = ground arith

  pub list_items-db : (id : String) → (list_items env id w).1.db ≡ w.db
  unfolding list_items ◌>>=◌
  list_items-db id = ground arith
