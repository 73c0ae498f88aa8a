-- ===== src/Order/Run.antt =====
-- Histories of the order service: requests, and the messages of the other services.
use kazakh_express.Base.{String, List, [], ◌∷◌, ◌+◌}
use kazakh_express.Effect.{Env, World, pure, lift, get_time, ◌>>◌}
use kazakh_express.Effect.Cases.{bind_cases, guard_cases}
use kazakh_express.Order.Model.{
  Status, paid, canceled, order_created, CreateInput, PaymentEvent, StockReservedEvent, Db,
}
use kazakh_express.Order.Repository
use kazakh_express.Order.Service
use kazakh_express.Order.Service.{Parts, new_order, cache_status, publish}
use kazakh_express.Order.Trace.{IsTraced}
use kazakh_express.Order.History.{
  read_write-IsTraced, read-IsTraced, insert-IsTraced, Keeps-IsTraced, tail_rules,
}

-- The calls that write, and the messages of the payment and the product service.
pub data Op : Type 0 where
  create : CreateInput → Op
  update_status : String → Status → Op
  cancel : String → String → Op
  payment_succeeded payment_failed : PaymentEvent → Op
  stock_reserved : StockReservedEvent → Op

module _ (env : Env) (parts : Parts) where
  unfoldable pub apply : Op → World Db → World Db
  apply (Op.create i) w = (Service.create env parts i w).1
  apply (Op.update_status id s) w = (Service.update_status env parts id s w).1
  apply (Op.cancel id reason) w = (Service.cancel env parts id reason w).1
  apply (Op.payment_succeeded e) w = (Service.handle_payment_succeeded env parts e w).1
  apply (Op.payment_failed e) w = (Service.handle_payment_failed env parts e w).1
  apply (Op.stock_reserved e) w = (Service.handle_stock_reserved env e w).1

  unfoldable pub run : List Op → World Db → World Db
  unfolding apply
  run [] w = w
  run (op ∷ ops) w = run ops (apply op w)

module _ (env : Env) (parts : Parts) (w : World Db) (h : IsTraced w.db) where
  create-IsTraced : (i : CreateInput) → IsTraced (Service.create env parts i w).1.db
  unfolding Service.create lift get_time
  create-IsTraced i =
      guard_cases (λ r. IsTraced r.1.db) _ _ _ w (λ bad. h)
        (λ good.
          bind_cases (λ r. IsTraced r.1.db) (lift _) _ w (λ e bad. h)
            (λ total fine.
              bind_cases (λ r. IsTraced r.1.db) (get_time env) _ w (λ e bad. h)
                (λ now told.
                  let w' : World Db = record w { tick = w.tick + 1 } in
                  bind_cases (λ r. IsTraced r.1.db) (Repository.create env (new_order i total now))
                    _ w' (λ e bad. insert-IsTraced env w' h (new_order i total now))
                    (λ o stored.
                      Keeps-IsTraced
                        (cache_status env parts o
                          >> (publish env parts order_created o "" >> pure o))
                        (Repository.create env (new_order i total now) w').1
                        (λ ts. search tail_rules depth 9)
                        (insert-IsTraced env w' h (new_order i total now))))))

  update_status-IsTraced :
      (id : String) (s : Status) → IsTraced (Service.update_status env parts id s w).1.db
  unfolding Service.update_status
  update_status-IsTraced id s =
      guard_cases (λ r. IsTraced r.1.db) _ _ _ w (λ bad. h)
        (λ good.
          read-IsTraced env w id _
            (λ o w' read h'.
              read_write-IsTraced env w' id s _ _ (λ o' ts. search tail_rules depth 9) o read h')
            h)

  cancel-IsTraced : (id reason : String) → IsTraced (Service.cancel env parts id reason w).1.db
  unfolding Service.cancel
  cancel-IsTraced id reason =
      guard_cases (λ r. IsTraced r.1.db) _ _ _ w (λ bad. h)
        (λ good.
          read-IsTraced env w id _
            (λ o w' read h'.
              guard_cases (λ r. IsTraced r.1.db) _ _ _ w' (λ bad. h')
                (λ open_yet.
                  read_write-IsTraced env w' id canceled reason _
                    (λ o' ts. search tail_rules depth 9) o read h'))
            h)

  succeeded-IsTraced :
      (e : PaymentEvent) → IsTraced (Service.handle_payment_succeeded env parts e w).1.db
  unfolding Service.handle_payment_succeeded
  succeeded-IsTraced e =
      guard_cases (λ r. IsTraced r.1.db) _ _ _ w (λ bad. h)
        (λ good.
          read-IsTraced env w e.order_id _
            (λ o w' read h'.
              read_write-IsTraced env w' e.order_id paid _ _ (λ o' ts. search tail_rules depth 9) o
                read h')
            h)

  failed-IsTraced : (e : PaymentEvent) → IsTraced (Service.handle_payment_failed env parts e w).1.db
  unfolding Service.handle_payment_failed
  failed-IsTraced e =
      guard_cases (λ r. IsTraced r.1.db) _ _ _ w (λ bad. h)
        (λ good.
          read-IsTraced env w e.order_id _
            (λ o w' read h'.
              read_write-IsTraced env w' e.order_id Status.payment_failed _ _
                (λ o' ts. search tail_rules depth 9) o read h')
            h)

  reserved-IsTraced :
      (e : StockReservedEvent) → IsTraced (Service.handle_stock_reserved env e w).1.db
  unfolding Service.handle_stock_reserved pure
  reserved-IsTraced e =
      guard_cases (λ r. IsTraced r.1.db) _ _ _ w (λ bad. h)
        (λ good. read-IsTraced env w e.order_id _ (λ o w' read h'. h') h)

module _ (env : Env) (parts : Parts) where
  apply-IsTraced : (op : Op) (w : World Db) → IsTraced w.db → IsTraced (apply env parts op w).db
  unfolding apply
  apply-IsTraced (Op.create i) w h = create-IsTraced env parts w h i
  apply-IsTraced (Op.update_status id s) w h = update_status-IsTraced env parts w h id s
  apply-IsTraced (Op.cancel id reason) w h = cancel-IsTraced env parts w h id reason
  apply-IsTraced (Op.payment_succeeded e) w h = succeeded-IsTraced env parts w h e
  apply-IsTraced (Op.payment_failed e) w h = failed-IsTraced env parts w h e
  apply-IsTraced (Op.stock_reserved e) w h = reserved-IsTraced env parts w h e

  -- From a state where this holds, after any requests and messages, and whatever fails: the history
  -- of every identifier leads from no status to the status of its order, each row from the status
  -- that the row before it has reached, and an identifier with no order stands at no status.
  pub run-IsTraced :
      (ops : List Op) (w : World Db) → IsTraced w.db → IsTraced (run env parts ops w).db
  unfolding run
  run-IsTraced [] w h = h
  run-IsTraced (op ∷ ops) w h = run-IsTraced ops (apply env parts op w) (apply-IsTraced op w h)
