-- ===== src/Checkout/Settled.antt =====
-- What becomes of an order when its payment is created.
use kazakh_express.Base.{
  ℕ, ◌+◌, ◌≡◌, refl, sym, ap, ◌∙◌, true, false, List, [], ◌∷◌, ◌++◌, none, some, is_empty, arith,
  inl, inr, Bool-cases, if◌then◌else◌,
}
use kazakh_express.Base.Table.{find}
use kazakh_express.Effect.{done, Env, World, ◌>>=◌}
use kazakh_express.Payment.Model
use kazakh_express.Payment.Model.{CreateInput, Topic, is_failed}
use kazakh_express.Payment.Repository.{insertable, live, redis_key}
use kazakh_express.Payment.Service
use kazakh_express.Payment.Service.{Provider, is_invalid, new_payment, charged_status}
use kazakh_express.Payment.Messages.{settled_topic, create-published}
use kazakh_express.Order.Model as OrderModel
use kazakh_express.Order.Model.{Row}
use kazakh_express.Order.Repository.{set_status}
use kazakh_express.Order.Service.{Parts}
use kazakh_express.Order.Outcomes.{payment_overrides, failure_overrides}
use kazakh_express.Order.Consumer.{consume, on_payment}
use kazakh_express.Checkout.{deliver, received}

-- The status of an order whose payment was charged.
abbrev pub order_status : Model.Status → OrderModel.Status
order_status st = if is_failed st then OrderModel.payment_failed else OrderModel.paid

valid_order : (i : CreateInput) → is_invalid i ≡ false → is_empty i.order_id ≡ false
valid_order i h = ground arith

module _ (env : Env) (parts : Parts) (up : (n : ℕ) → env.outcome n ≡ done) where
  delivered_order :
      (q : Model.Payment) (e0 e1 : Model.PaymentEvent) (v : World OrderModel.Db) (r : Row)
      → is_empty e1.order_id ≡ false
      → find (λ r. r.id) e1.order_id v.db.orders ≡ some r
      → let ms : List (Topic × Model.PaymentEvent) =
          (Model.payment_created, e0) ∷ (settled_topic q, e1) ∷ [] in
        (r' : Row) × (find (λ r. r.id) e1.order_id (deliver env parts ms v).db.orders ≡ some r')
        × (r'.status ≡ order_status q.status)
  unfolding deliver on_payment consume ◌>>=◌
  delivered_order q e0 e1 v r named there = elim (Bool-cases (is_failed q.status)) [
    | inl failed ↦ rw failed (
      set_status OrderModel.payment_failed (env.now (v.tick + 1 + 1 + 1)) r,
      failure_overrides env parts (received e1) v r up named there,
      refl,
    )
    | inr succeeded ↦
        let (_, paid, _) = payment_overrides env parts (received e1) v r up named there in
        rw succeeded (set_status OrderModel.paid (env.now (v.tick + 1 + 1 + 1)) r, paid, refl)
  ]

-- A valid creation of a payment under a key that is not recorded, whose row the table admits, where
-- no call of the payment service fails: it publishes messages that, once they are delivered to the
-- order service, with no fault there, have made the order of the payment paid if the provider
-- answered `succeeded`, and `payment_failed` if it answered `failed`.
pub order_settled :
    (env env' : Env) (ttl : ℕ) (provider : Provider) (input : CreateInput) (st : Model.Status)
    (w : World Model.Db) (parts : Parts) (v : World OrderModel.Db) (r : Row)
    → ((n : ℕ) → env.outcome n ≡ done)
    → ((n : ℕ) → env'.outcome n ≡ done)
    → is_invalid input ≡ false
    → live (env.now w.tick) (find (λ e. e.key) (redis_key input.idempotency_key) w.db.saved) ≡ none
    → insertable (new_payment input (env.uuid (w.tick + 1 + 1)) (env.now (w.tick + 1))) w.db ≡ true
    → charged_status
        (provider (new_payment input (env.uuid (w.tick + 1 + 1)) (env.now (w.tick + 1)))).status
      ≡ some st
    → find (λ r. r.id) input.order_id v.db.orders ≡ some r
    → (messages : List (Topic × Model.PaymentEvent)) × (r' : Row) × ((Service.create env ttl
          provider input w).1.db.published
        ≡ w.db.published ++ messages)
      × (find (λ r. r.id) input.order_id (deliver env' parts messages v).db.orders ≡ some r')
      × (r'.status ≡ order_status st)
order_settled env env' ttl provider input st w parts v r up up' valid unknown good settles there =
    let (q, e0, e1, charged, same, published) =
      create-published env up ttl provider input st w valid unknown good settles in
    let (r', found, status) =
      delivered_order env' parts up' q e0 e1 v r (ap is_empty same ∙ valid_order input valid)
        (ap (λ id. find (λ r. r.id) id v.db.orders) same ∙ there) in
    (
      (Model.payment_created, e0) ∷ (settled_topic q, e1) ∷ [],
      r',
      published,
      ap
            (λ id.
              find (λ r. r.id) id
                (deliver env' parts ((Model.payment_created, e0) ∷ (settled_topic q, e1) ∷ [])
                  v).db.orders)
            (sym same)
          ∙ found,
      status ∙ ap order_status charged,
    )
