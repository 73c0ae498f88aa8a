-- ===== src/Payment/Messages.antt =====
-- The messages that a creation publishes where nothing fails.
use kazakh_express.Base.{
  ℕ, ◌+◌, true, false, some, none, ◌≡◌, refl, ap, ◌∙◌, arith, [], ◌∷◌, ◌++◌, if◌then◌else◌,
}
use mathlib.Core.List.{append_assoc}
use kazakh_express.Base.Table.{find}
use kazakh_express.Effect.{done, Env, World, ◌>>=◌}
use kazakh_express.Payment.Model.{
  Payment, CreateInput, Status, Db, is_failed, payment_created, payment_succeeded, payment_failed,
  Topic, PaymentEvent,
}
use kazakh_express.Payment.Repository
use kazakh_express.Payment.Repository.{insertable, as_row, known_status, live, redis_key}
use kazakh_express.Payment.Service.{
  Provider, create, create_with, create_new, open_payment, new_payment, payment_event, event_of,
  publish, send, charge_payment, charge, settle_as, charged_status, as_charged, announce,
  announce_success, announce_failure, is_invalid,
}
use kazakh_express.Payment.Settlement.{
  bind_done, charged_known, find-append, open_payment-done, charge_payment-done,
}

-- The message about a payment that was charged.
abbrev pub settled_topic : Payment → Topic
settled_topic q = if is_failed q.status then payment_failed else payment_succeeded

module _ (env : Env) (up : (n : ℕ) → env.outcome n ≡ done) where
  open_payment-published :
      (ttl : ℕ) (input : CreateInput) (w : World Db)
      → let p = new_payment input (env.uuid (w.tick + 1)) (env.now w.tick) in
        insertable p w.db ≡ true
        → (open_payment env ttl input w).1.db.published
          ≡ w.db.published ++ (payment_created, event_of (env.now (w.tick + 1 + 1 + 1 + 1)) p) ∷ []
  unfolding open_payment Repository.create Repository.save_payment_id payment_event event_of
      Repository.append_event publish ◌>>=◌
  open_payment-published ttl input w h =
      let p = new_payment input (env.uuid (w.tick + 1)) (env.now w.tick) in
      ground (
        arith,
        up (w.tick + 1 + 1),
        up (w.tick + 1 + 1 + 1),
        up (w.tick + 1 + 1 + 1 + 1 + 1),
        up (w.tick + 1 + 1 + 1 + 1 + 1 + 1),
        find-append env up w.db.payments (Repository.as_row p),
      )

  charge_payment-published :
      (provider : Provider) (p : Payment) (w : World Db)
      → (charge_payment env provider p w).1.db.published ≡ w.db.published
  unfolding charge_payment charge settle_as Repository.update ◌>>=◌
  charge_payment-published provider p w = ground arith

  announce-published :
      (q r : Payment) (w : World Db)
      → find (λ r. r.id) q.id w.db.payments ≡ some r
      → known_status q.status ≡ true
      → (announce env q w).1.db.published
        ≡ w.db.published ++ (settled_topic q, event_of (env.now w.tick) q) ∷ []
  unfolding announce announce_success announce_failure payment_event event_of publish send
      Repository.append_event Repository.append_refund ◌>>=◌
  announce-published q r w there known = ground (
    arith,
    up (w.tick + 1),
    up (w.tick + 1 + 1),
    up (w.tick + 1 + 1 + 1),
    up (w.tick + 1 + 1 + 1 + 1),
  )

  create_new-published :
      (ttl : ℕ) (provider : Provider) (input : CreateInput) (st : Status) (w : World Db)
      → let p = new_payment input (env.uuid (w.tick + 1)) (env.now w.tick) in
        insertable p w.db ≡ true
        → charged_status (provider p).status ≡ some st
        → (q : Payment) × (e0 : PaymentEvent) × (e1 : PaymentEvent) × (q.status ≡ st)
          × (e1.order_id ≡ input.order_id)
          × ((create_new env ttl provider input w).1.db.published
              ≡ w.db.published ++ (payment_created, e0) ∷ (settled_topic q, e1) ∷ [])
  unfolding create_new event_of
  create_new-published ttl provider input st w good settles =
      let p = new_payment input (env.uuid (w.tick + 1)) (env.now w.tick) in
      let w1 = (open_payment env ttl input w).1 in
      let w2 = (charge_payment env provider p w1).1 in
      let q = as_charged (provider p) st (env.now (w1.tick + 1)) p in
      let (opened, there) = open_payment-done env up ttl input w good in
      let (charged, there') = charge_payment-done env up provider p st w1 there settles in
      let known = charged_known (provider p).status st settles in
      let run =
        bind_done (open_payment env ttl input) _ w opened
        ∙ bind_done (charge_payment env provider p) (announce env) w1 charged in
      let e0 = event_of (env.now (w.tick + 1 + 1 + 1 + 1)) p in
      let e1 = event_of (env.now w2.tick) q in
      (
        q,
        e0,
        e1,
        refl,
        refl,
        ap (λ x. x.1.db.published) run
            ∙ announce-published q (as_row q) w2 there' known
            ∙ ap (λ l. l ++ (settled_topic q, e1) ∷ []) (charge_payment-published provider p w1)
            ∙ ap (λ l. l ++ (settled_topic q, e1) ∷ []) (open_payment-published ttl input w good)
            ∙ append_assoc w.db.published ((payment_created, e0) ∷ []) ((settled_topic q, e1) ∷ []),
      )

  -- A creation under a new key publishes two messages: the second is about the charge of its order.
  pub create-published :
      (ttl : ℕ) (provider : Provider) (input : CreateInput) (st : Status) (w : World Db)
      → is_invalid input ≡ false
      → live (env.now w.tick) (find (λ e. e.key) (redis_key input.idempotency_key) w.db.saved)
        ≡ none
      → insertable (new_payment input (env.uuid (w.tick + 1 + 1)) (env.now (w.tick + 1))) w.db
        ≡ true
      → charged_status
          (provider (new_payment input (env.uuid (w.tick + 1 + 1)) (env.now (w.tick + 1)))).status
        ≡ some st
      → (q : Payment) × (e0 : PaymentEvent) × (e1 : PaymentEvent) × (q.status ≡ st)
        × (e1.order_id ≡ input.order_id)
        × ((create env ttl provider input w).1.db.published
            ≡ w.db.published ++ (payment_created, e0) ∷ (settled_topic q, e1) ∷ [])
  unfolding create create_with Repository.get_payment_id ◌>>=◌
  create-published ttl provider input st w valid unknown good settles =
      rw (valid, up w.tick, unknown)
        (create_new-published ttl provider input st (record { db = w.db; tick = w.tick + 1 }) good
          settles)
