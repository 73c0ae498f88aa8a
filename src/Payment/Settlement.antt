-- ===== src/Payment/Settlement.antt =====
-- A payment that is created where nothing fails is settled.
use kazakh_express.Base.{
  ℕ, ◌+◌, true, some, none, ◌≡◌, refl, ap, eq_iff, arith, List, [], ◌∷◌, ◌++◌,
}
use kazakh_express.Base.Table.{find, find-update_where}
use kazakh_express.Effect.{ok, done, Env, World, Action, continue, ◌>>=◌}
use kazakh_express.Payment.Model.{Payment, CreateInput, Status, Db}
use kazakh_express.Payment.Repository
use kazakh_express.Payment.Repository.{as_row, insertable, set_columns, known_status}
use kazakh_express.Payment.Service.{
  Provider, create, open_payment, new_payment, payment_event, event_of, publish, send,
  charge_payment, charge, settle_as, charged_status, as_charged, announce, announce_success,
  announce_failure,
}

pub bind_done :
    {A B : Type 0} (m : Action Db A) (f : A → Action Db B) (w : World Db) {a : A}
    → (m w).0 ≡ ok a
    → (m >>= f) w ≡ f a (m w).1
unfolding ◌>>=◌
bind_done m f w h = ap (λ r. continue r f (m w).1) h

pub charged_known : (s st : Status) → charged_status s ≡ some st → known_status st ≡ true
charged_known s st h = ground arith

module _ (env : Env) (up : (n : ℕ) → env.outcome n ≡ done) where
  pub find-append :
      (ps : List Payment) (p : Payment)
      → find (λ q. q.id) p.id ps ≡ none
      → find (λ q. q.id) p.id (ps ++ p ∷ []) ≡ some p
  find-append [] p h = ground (arith, eq_iff p.id p.id)
  find-append (q ∷ ps) p h = ground (arith, find-append ps p)

  pub open_payment-done :
      (ttl : ℕ) (input : CreateInput) (w : World Db)
      → let p = new_payment input (env.uuid (w.tick + 1)) (env.now w.tick) in
        insertable p w.db ≡ true
        → ((open_payment env ttl input w).0 ≡ ok p)
          × (find (λ q. q.id) p.id (open_payment env ttl input w).1.db.payments ≡ some (as_row p))
  unfolding open_payment Repository.create Repository.save_payment_id payment_event event_of
      Repository.append_event publish ◌>>=◌
  open_payment-done ttl input w h =
      let p = new_payment input (env.uuid (w.tick + 1)) (env.now w.tick) in
      ground (
        arith,
        up (w.tick + 1 + 1),
        up (w.tick + 1 + 1 + 1),
        up (w.tick + 1 + 1 + 1 + 1),
        up (w.tick + 1 + 1 + 1 + 1 + 1),
        up (w.tick + 1 + 1 + 1 + 1 + 1 + 1),
        find-append w.db.payments (as_row p),
      )

  pub charge_payment-done :
      (provider : Provider) (p : Payment) (st : Status) (w : World Db)
      → find (λ q. q.id) p.id w.db.payments ≡ some (as_row p)
      → charged_status (provider p).status ≡ some st
      → let q = as_charged (provider p) st (env.now (w.tick + 1)) p in
        ((charge_payment env provider p w).0 ≡ ok q)
        × (find (λ r. r.id) p.id (charge_payment env provider p w).1.db.payments ≡ some (as_row q))
  unfolding charge_payment charge settle_as Repository.update ◌>>=◌
  charge_payment-done provider p st w there settles =
      let q = as_charged (provider p) st (env.now (w.tick + 1)) p in
      ground (
        arith,
        up w.tick,
        up (w.tick + 1 + 1),
        eq_iff p.id p.id,
        find-update_where (λ r. r.id) p.id p.id (set_columns q) w.db.payments (λ r. refl),
      )

  pub announce-done :
      (q r : Payment) (w : World Db)
      → find (λ r. r.id) q.id w.db.payments ≡ some r
      → known_status q.status ≡ true
      → ((announce env q w).0 ≡ ok q) × ((announce env q w).1.db.payments ≡ w.db.payments)
  unfolding announce announce_success announce_failure payment_event event_of publish send
      Repository.append_event Repository.append_refund ◌>>=◌
  announce-done q r w there known = ground (
    arith,
    up (w.tick + 1),
    up (w.tick + 1 + 1),
    up (w.tick + 1 + 1 + 1),
    up (w.tick + 1 + 1 + 1 + 1),
  )
