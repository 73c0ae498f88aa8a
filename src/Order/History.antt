-- ===== src/Order/History.antt =====
-- The audit trail through every call of the order service.
use kazakh_express.Base.{String, ◌≡◌, refl, inl, inr, arith}
use kazakh_express.Effect.{ok, Env, World, Action, pure, transaction, ◌>>=◌}
use kazakh_express.Effect.Keeps.{Keeps, keeps_rules}
use kazakh_express.Effect.Cases.{bind_cases, transaction_cases}
use kazakh_express.Order.Model.{Status, Order, Topic, Row, Db}
use kazakh_express.Order.Repository
use kazakh_express.Order.Repository.{order_of, create_rows, update_status_rows, begin, list_items}
use kazakh_express.Order.Service.{Parts, cache_status, publish, event_from_order}
use kazakh_express.Order.Trace.{
  IsTraced, status_of, tables, Tables, tables-IsTraced, create_rows-IsTraced,
  update_status_rows-IsTraced, begin-db,
}

-- The query for the items, after the commit.
finish-db :
    (env : Env) (r : Row) (w : World Db)
    → ((list_items env r.id >>= λ items. pure (order_of items r)) w).1.db ≡ w.db
unfolding ◌>>=◌ list_items
finish-db env r w = ground arith

committed-IsTraced :
    (env : Env) (w : World Db)
    → IsTraced w.db
    → (id : String) (from to : Status) (reason : String) → status_of id w.db.orders ≡ from
    → IsTraced
        (transaction env "commit update order status"
          (update_status_rows env id from to reason)
          w).1.db
committed-IsTraced env w traced id from to reason read =
    elim (transaction_cases env "commit update order status"
      (update_status_rows env id from to reason) w) [
        | inl same ↦ rw same traced
        | inr (r, ran, same) ↦
            rw same (update_status_rows-IsTraced env id from to reason w ran read traced)
      ]

module _ (env : Env) (w : World Db) (traced : IsTraced w.db) where
  -- A stored order comes with its history or not at all.
  pub insert-IsTraced : (o : Order) → IsTraced (Repository.create env o w).1.db
  unfolding Repository.create
  insert-IsTraced o =
      let w' = (begin env "begin create order" w).1 in
      let traced' : IsTraced w'.db = rw begin-db traced in
      bind_cases (λ r. IsTraced r.1.db) (begin env "begin create order") _ w (λ e h. traced')
        (λ _ h. elim (transaction_cases env "commit create order" (create_rows env o) w') [
          | inl same ↦ rw same traced'
          | inr (o', ran, same) ↦ rw same (create_rows-IsTraced env o w' ran traced')
        ])

  -- So does a new status, from the status that was read.
  pub write_status-IsTraced :
      (id : String) (from to : Status) (reason : String)
      → status_of id w.db.orders ≡ from
      → IsTraced (Repository.update_status env id from to reason w).1.db
  unfolding Repository.update_status
  write_status-IsTraced id from to reason read =
      let w' = (begin env "begin update order status" w).1 in
      let traced' : IsTraced w'.db = rw begin-db traced in
      let read' : status_of id w'.db.orders ≡ from = rw begin-db read in
      bind_cases (λ r. IsTraced r.1.db) (begin env "begin update order status") _ w (λ e h. traced')
        (λ _ h.
          bind_cases (λ r. IsTraced r.1.db)
            (transaction env "commit update order status"
              (update_status_rows env id from to reason))
            _ w' (λ e k. committed-IsTraced env w' traced' id from to reason read')
            (λ r k. rw finish-db (committed-IsTraced env w' traced' id from to reason read')))

-- What the read of an order gives.
module _ (env : Env) (id : String) (w : World Db) where
  pub db-get_by_id : (Repository.get_by_id env id w).1.db ≡ w.db
  unfolding Repository.get_by_id list_items ◌>>=◌
  db-get_by_id = ground arith

  pub get_by_id-status :
      {o : Order} → (Repository.get_by_id env id w).0 ≡ ok o → status_of id w.db.orders ≡ o.status
  unfolding Repository.get_by_id list_items ◌>>=◌
  get_by_id-status h = ground arith

-- The ends of the methods leave the tables alone.
event-Keeps :
    (env : Env) (ts : Tables) (o : Order) (reason : String)
    → Keeps (λ d. tables d ≡ ts) (event_from_order env o reason)
unfolding event_from_order
event-Keeps env ts o reason = search keeps_rules

pub cache_status-Keeps :
    (env : Env) (parts : Parts) (ts : Tables) (o : Order)
    → Keeps (λ d. tables d ≡ ts) (cache_status env parts o)
unfolding cache_status Repository.set_cached
cache_status-Keeps env parts ts o = search keeps_rules depth 9

pub publish-Keeps :
    (env : Env) (parts : Parts) (ts : Tables) (t : Topic) (o : Order) (reason : String)
    → Keeps (λ d. tables d ≡ ts) (publish env parts t o reason)
unfolding publish
publish-Keeps env parts ts t o reason = search (keeps_rules, event-Keeps) depth 9

pub ruleset tail_rules = (keeps_rules, cache_status-Keeps, publish-Keeps)

-- A block that keeps the tables keeps the audit trail.
pub Keeps-IsTraced :
    {A : Type 0} (m : Action Db A) (w : World Db)
    → ((ts : Tables) → Keeps (λ d. tables d ≡ ts) m)
    → IsTraced w.db
    → IsTraced (m w).1.db
Keeps-IsTraced m w k h = tables-IsTraced ((k (tables w.db)).at w refl) h

-- A method that reads an order, writes a status from the one it has read, and goes on.
pub read_write-IsTraced :
    {A : Type 0} (env : Env) (w : World Db) (id : String) (to : Status) (reason : String)
    (rest : Order → Action Db A)
    → ((o : Order) (ts : Tables) → Keeps (λ d. tables d ≡ ts) (rest o))
    → (o : Order) → status_of id w.db.orders ≡ o.status
    → IsTraced w.db
    → IsTraced ((Repository.update_status env id o.status to reason >>= rest) w).1.db
read_write-IsTraced env w id to reason rest k o read h =
    bind_cases (λ r. IsTraced r.1.db) (Repository.update_status env id o.status to reason) rest w
      (λ e bad. write_status-IsTraced env w h id o.status to reason read)
      (λ o' good.
        Keeps-IsTraced (rest o') _ (k o')
          (write_status-IsTraced env w h id o.status to reason read))

pub read-IsTraced :
    {A : Type 0} (env : Env) (w : World Db) (id : String) (f : Order → Action Db A)
    → ((o : Order) (w' : World Db)
        → status_of id w'.db.orders ≡ o.status
        → IsTraced w'.db
        → IsTraced (f o w').1.db)
    → IsTraced w.db
    → IsTraced ((Repository.get_by_id env id >>= f) w).1.db
read-IsTraced env w id f rest h =
    bind_cases (λ r. IsTraced r.1.db) (Repository.get_by_id env id) f w
      (λ e bad. rw (db-get_by_id env id w) h)
      (λ o good.
        rest o _ (rw (db-get_by_id env id w) (get_by_id-status env id w good))
          (rw (db-get_by_id env id w) h))
