-- ===== src/Payment/Idempotency.antt =====
-- Repeating a `Create` with the same idempotency key.
use kazakh_express.Base.{
  ℕ, String, eq_iff, ◌≡◌, refl, sym, ◌∙◌, ap, subst, false, List, [], ◌∷◌, ◌++◌, Option, none, some,
  arith, ◌+◌, ◌<◌,
}
use kazakh_express.Base.Table.{find, find-append, update_where}
use kazakh_express.Effect.{Result, ok, done, Env, World, ◌>>=◌}
use kazakh_express.Effect.Cases.{bind_ok, guard_ok}
use kazakh_express.Payment.Model.{Payment, CreateInput, Saved, Db}
use kazakh_express.Payment.Repository
use kazakh_express.Payment.Repository.{as_row, set_columns, insertable, redis_key}
use kazakh_express.Payment.Service.{
  Provider, open_payment, payment_event, charge, settle_as, charge_payment, announce,
  announce_success, announce_failure, create_new, create_with, create, is_invalid,
}
use kazakh_express.Payment.Tails.{core-append_event, core-publish, core-announce}
use kazakh_express.Payment.Creation.{
  open_payment-ok, fresh_row, insertable-IsFresh, update_where-fresh, IsFresh,
}

-- The entry that `SavePaymentID` writes.
open_payment-saved :
    (env : Env) (ttl : ℕ) (input : CreateInput) (w : World Db) {p : Payment}
    → (open_payment env ttl input w).0 ≡ ok p
    → (open_payment env ttl input w).1.db.saved
      ≡ record {
        key = redis_key input.idempotency_key;
        payment_id = p.id;
        expires = env.now (w.tick + 3) + ttl;
      }
        ∷ w.db.saved
unfolding open_payment ◌>>=◌ Repository.create Repository.save_payment_id payment_event
open_payment-saved env ttl input w h = grind (arith, core-append_event, core-publish)

module _ (env : Env) (provider : Provider) (p : Payment) (w : World Db) where
  -- A charge that settles returns the row that it has stored.
  charge_payment-ok :
      {q : Payment}
      → (charge_payment env provider p w).0 ≡ ok q
      → (set_columns q (as_row p) ≡ as_row q)
        × (q.id ≡ p.id)
        × ((charge_payment env provider p w).1.db.payments
            ≡ update_where (λ r. r.id) p.id (set_columns q) w.db.payments)
        × ((charge_payment env provider p w).1.db.saved ≡ w.db.saved)
  unfolding charge_payment ◌>>=◌ charge settle_as Repository.update
  charge_payment-ok h = ground arith

-- The end of `Create` returns the payment that it was given.
announce-ok :
    (env : Env) (q : Payment) (w : World Db) {r : Payment} → (announce env q w).0 ≡ ok r → r ≡ q
unfolding announce announce_failure announce_success ◌>>=◌ payment_event
announce-ok env q w h = ground arith

after_get_payment_id :
    (env : Env) (key : String) (w : World Db)
    → (Repository.get_payment_id env key w).1 ≡ record w { tick = w.tick + 1 }
unfolding Repository.get_payment_id ◌>>=◌
after_get_payment_id env key w = ground arith

saved_none :
    (saved : Option String) → ◌≡◌ {A = Result (Option String)} (ok saved) (ok none) → saved ≡ none
saved_none saved h = cc

-- What a `Create` has left that answered `p`: its row, and the entry of its key.
pub record IsRecorded (input : CreateInput) (expires : ℕ) (p : Payment) (d : Db) : Type 0 where
  pub row : find (λ r. r.id) p.id d.payments ≡ some (as_row p)
  pub entry :
      find (λ e. e.key) (redis_key input.idempotency_key) d.saved
      ≡ some
          (record { key = redis_key input.idempotency_key; payment_id = p.id; expires = expires })

-- A row that was added and then charged is found as it was charged.
find-charged :
    (ps : List Payment) (p q : Payment)
    → IsFresh p ps
    → set_columns q (as_row p) ≡ as_row q
    → q.id ≡ p.id
    → find (λ r. r.id) q.id (update_where (λ r. r.id) p.id (set_columns q) (ps ++ as_row p ∷ []))
      ≡ some (as_row q)
find-charged ps p q fresh same id =
    let new : find (λ r. r.id) q.id ps ≡ none =
      subst (λ k. find (λ r. r.id) k ps ≡ none) (sym id) fresh.new_id in
    rw (update_where-fresh p.id (set_columns q) ps (as_row p) fresh.new_id refl, same)
      (find-append (λ r. r.id) q.id ps (as_row q ∷ []) ∙ ground (arith, eq_iff q.id q.id))

-- The newest entry of a key is the one that is found.
find-saved :
    (key : String) (p q : Payment) (expires : ℕ) (old : List Saved)
    → q.id ≡ p.id
    → find (λ e. e.key) key (record { key = key; payment_id = p.id; expires = expires } ∷ old)
      ≡ some (record { key = key; payment_id = q.id; expires = expires })
find-saved key p q expires old id = ground (arith, eq_iff key key)

module _ (env : Env) (ttl : ℕ) (provider : Provider) (input : CreateInput) (w : World Db) where
  -- The state after the charge and the end of `Create`, from what the parts have answered.
  announced-IsRecorded :
      (p q : Payment)
      → (open_payment env ttl input w).0 ≡ ok p
      → (charge_payment env provider p (open_payment env ttl input w).1).0 ≡ ok q
      → IsRecorded input
          (env.now (w.tick + 3) + ttl)
          q
          (announce env q (charge_payment env provider p (open_payment env ttl input w).1).1).1.db
  announced-IsRecorded p q opened charged =
      let w' = (open_payment env ttl input w).1 in
      let (same, good, rows, still) = open_payment-ok env ttl input w opened in
      let (columns, id, wrote, saved) = charge_payment-ok env provider p w' charged in
      let kept = core-announce env q (charge_payment env provider p w').1 in
      let fresh : IsFresh p w.db.payments =
        subst (λ x. IsFresh x w.db.payments) (sym same)
          (insertable-IsFresh (fresh_row env ttl input w) w.db good) in
      record {
        row =
            ap (λ c. find (λ r. r.id) q.id c.payments) kept
            ∙ ap (find (λ r. r.id) q.id) (
                wrote
                ∙ ap (update_where (λ r. r.id) p.id (set_columns q))
                    (rows ∙ ap (λ x. w.db.payments ++ as_row x ∷ []) (sym same)))
            ∙ find-charged w.db.payments p q fresh columns id;
        entry =
            ap (find (λ e. e.key) (redis_key input.idempotency_key))
              (ap (λ c. c.saved) kept ∙ saved ∙ open_payment-saved env ttl input w opened)
            ∙ find-saved (redis_key input.idempotency_key) p q _ w.db.saved id;
      }

  create_new-IsRecorded :
      {r : Payment}
      → (create_new env ttl provider input w).0 ≡ ok r
      → IsRecorded input (env.now (w.tick + 3) + ttl) r (create_new env ttl provider input w).1.db
  unfolding create_new
  create_new-IsRecorded {r} h =
      let (p, opened, rest) = bind_ok (open_payment env ttl input) _ w h in
      let w' = (open_payment env ttl input w).1 in
      let h' : ((charge_payment env provider p >>= announce env) w').0 ≡ ok r =
        ap (λ x. x.0) (sym rest) ∙ h in
      let (q, charged, rest') = bind_ok (charge_payment env provider p) (announce env) w' h' in
      let last = announce-ok env q _ (ap (λ x. x.0) (sym rest') ∙ h') in
      subst (λ x. IsRecorded input (env.now (w.tick + 3) + ttl) r x.1.db) (sym (rest ∙ rest'))
        (subst
          (λ x.
            IsRecorded input (env.now (w.tick + 3) + ttl) x
              (announce env q (charge_payment env provider p w').1).1.db)
          (sym last) (announced-IsRecorded p q opened charged))

module _ (env : Env) (ttl : ℕ) (provider : Provider) (input : CreateInput) (w : World Db) where
  -- A `Create` that answered under a key that Redis did not know.
  create-IsRecorded :
      {r : Payment}
      → (Repository.get_payment_id env input.idempotency_key w).0 ≡ ok none
      → (create env ttl provider input w).0 ≡ ok r
      → (is_invalid input ≡ false)
        × IsRecorded input (env.now (w.tick + 4) + ttl) r (create env ttl provider input w).1.db
  unfolding create create_with
  create-IsRecorded {r} unknown h =
      let (valid, eq) = guard_ok (is_invalid input) _ _ w h in
      let h' = ap (λ x. x.0) (sym eq) ∙ h in
      let (saved, answer, eq') =
        bind_ok (Repository.get_payment_id env input.idempotency_key) _ w h' in
      let eq'' =
        eq
        ∙ eq'
        ∙ ap
            (λ s.
              create_with env ttl provider input s
                (Repository.get_payment_id env input.idempotency_key w).1)
            (saved_none saved (sym answer ∙ unknown))
        ∙ ap (create_new env ttl provider input)
            (after_get_payment_id env input.idempotency_key w) in
      (
        valid,
        subst (λ x. IsRecorded input (env.now (w.tick + 4) + ttl) r x.1.db) (sym eq'')
            (subst
              (λ n.
                IsRecorded input (env.now n + ttl) r
                  (create_new env ttl provider input (record w { tick = w.tick + 1 })).1.db)
              (omega arith)
              (create_new-IsRecorded env ttl provider input (record w { tick = w.tick + 1 })
                (ap (λ x. x.0) (sym eq'') ∙ h))),
      )

-- A key that is recorded and has not expired answers the payment of its entry, and the call
-- changes nothing.
create_recorded :
    (env : Env) (ttl : ℕ) (provider : Provider) (input : CreateInput) (w : World Db) (expires : ℕ)
    (p : Payment)
    → IsRecorded input expires p w.db
    → is_invalid input ≡ false
    → env.outcome w.tick ≡ done
    → env.outcome (w.tick + 1) ≡ done
    → env.now w.tick < expires
    → create env ttl provider input w ≡ (ok (as_row p), record { db = w.db; tick = w.tick + 1 + 1 })
unfolding create create_with Repository.get_payment_id Repository.get_by_id ◌>>=◌
create_recorded env ttl provider input w expires p h valid up up' early = ground arith

-- After a `Create` that answered `p` under a key that was new, the same call answers `p` again, with
-- its times in microseconds, as long as the key has not expired and the two stores answer, whatever the provider would now say,
-- and it changes no table, log or charge.
pub create_again :
    (env env' : Env) (ttl : ℕ) (provider provider' : Provider) (input : CreateInput) (w : World Db)
    {p : Payment}
    → (Repository.get_payment_id env input.idempotency_key w).0 ≡ ok none
    → (create env ttl provider input w).0 ≡ ok p
    → env'.outcome (create env ttl provider input w).1.tick ≡ done
    → env'.outcome ((create env ttl provider input w).1.tick + 1) ≡ done
    → env'.now (create env ttl provider input w).1.tick < env.now (w.tick + 4) + ttl
    → let w' = (create env ttl provider input w).1 in
      create env' ttl provider' input w'
      ≡ (ok (as_row p), record { db = w'.db; tick = w'.tick + 1 + 1 })
create_again env env' ttl provider provider' input w unknown h up up' early =
    let (valid, recorded) = create-IsRecorded env ttl provider input w unknown h in
    create_recorded env' ttl provider' input (create env ttl provider input w).1 _ _ recorded valid
      up up' early
