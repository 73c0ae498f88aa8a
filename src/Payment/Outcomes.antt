-- ===== src/Payment/Outcomes.antt =====
-- The answers of the payment service: what it refuses, and what a call does that meets no fault.
use kazakh_express.Base.{
  ℕ, String, eq_iff, ◌≡◌, refl, Bool, true, false, ◌||◌, [], ◌∷◌, ◌++◌, some, arith, ◌+◌,
  if◌then◌else◌, is_empty,
}
use kazakh_express.Base.Table.{find, find-update_where, key-find, update_where}
use kazakh_express.Effect.{Result, ok, err, done, invalid_input, invalid_state, Env, World, ◌>>=◌}
use kazakh_express.Payment.Model.{
  Payment, RefundInput, Db, succeeded, is_succeeded, is_pending, is_refunded, is_cancelled, refund,
  payment_refunded,
}
use kazakh_express.Payment.Run.{Op}
use kazakh_express.Payment.Repository
use kazakh_express.Payment.Repository.{micros, event_row, set_columns, insertable, redis_key, live}
use kazakh_express.Payment.Service.{
  Provider, as_refunded, event_of, refund_row, refund_payment, confirm_pending, confirm, cancel_row,
  cancel, create, is_invalid, announce_refund, payment_event, publish, send,
}

-- The answer of a call that writes, and the world after it.
abbrev pub answer : Env → ℕ → Provider → Op → World Db → Result Payment × World Db
answer env ttl provider (Op.create i) = create env ttl provider i
answer env ttl provider (Op.refund i) = refund_payment env i
answer env ttl provider (Op.confirm i) = confirm env i
answer env ttl provider (Op.cancel i) = cancel env i

-- An input that misses a field, or asks for an amount that is not positive or an unknown method.
abbrev pub is_invalid_call : Op → Bool
is_invalid_call (Op.create i) = is_invalid i
is_invalid_call (Op.refund i) = is_empty i.payment_id || is_empty i.reason
is_invalid_call (Op.confirm i) = is_empty i.payment_id || is_empty i.provider_transaction_id
is_invalid_call (Op.cancel i) = is_empty i.payment_id || is_empty i.reason

-- A call whose input misses a field, or asks for an amount that is not positive or for an unknown
-- method, is refused before any outside call, by every method.
pub invalid_call_refused :
    (env : Env) (ttl : ℕ) (provider : Provider) (op : Op) (w : World Db)
    → is_invalid_call op ≡ true
    → answer env ttl provider op w ≡ (err invalid_input, w)
unfolding create refund_payment confirm cancel ◌>>=◌
invalid_call_refused env ttl provider (Op.create i) w h = rw h
invalid_call_refused env ttl provider (Op.refund i) w h = rw h
invalid_call_refused env ttl provider (Op.confirm i) w h = rw h
invalid_call_refused env ttl provider (Op.cancel i) w h = rw h

module _ (env : Env) (id text : String) (w : World Db) (p : Payment)
    (stored : find (λ q. q.id) id w.db.payments ≡ some p) (up : env.outcome w.tick ≡ done)
    (named : is_empty id ≡ false) (told : is_empty text ≡ false) where
  abbrev pub after_read : World Db
  after_read = record { db = w.db; tick = w.tick + 1 }

  -- A refund of a stored payment that has not succeeded is refused after the read of its row, and
  -- changes nothing.
  pub refund_refused :
      is_succeeded p.status ≡ false
      → refund_payment env (record { payment_id = id; reason = text }) w
        ≡ (err invalid_state, after_read)
  unfolding refund_payment refund_row Repository.get_by_id ◌>>=◌
  refund_refused h = ground arith

  -- A cancellation of a stored payment that is refunded or cancelled is refused after the read of
  -- its row, and changes nothing.
  pub cancellation_refused :
      (is_refunded p.status || is_cancelled p.status) ≡ true
      → cancel env (record { payment_id = id; reason = text }) w ≡ (err invalid_state, after_read)
  unfolding cancel cancel_row Repository.get_by_id ◌>>=◌
  cancellation_refused h = ground arith

  -- A confirmation of a stored payment that is not pending reads its row and changes nothing: it
  -- answers the payment as it is if that has succeeded, and is refused in any other state.
  pub confirm_settled :
      is_pending p.status ≡ false
      → confirm env (record { payment_id = id; provider_transaction_id = text }) w
        ≡ (if is_succeeded p.status then ok p else err invalid_state, after_read)
  unfolding confirm confirm_pending Repository.get_by_id ◌>>=◌
  confirm_settled h = ground arith

-- A refund of a payment that has succeeded, in an environment with no fault: the stored row is
-- refunded, and one event, one refund over the whole amount, one message and one mail are added. Rows keep
-- their times in microseconds.
pub refund_payment-done :
    (env : Env) (i : RefundInput) (w : World Db) (p : Payment)
    → ((n : ℕ) → env.outcome n ≡ done)
    → (is_empty i.payment_id || is_empty i.reason) ≡ false
    → find (λ q. q.id) i.payment_id w.db.payments ≡ some p
    → p.status ≡ succeeded
    → let q = as_refunded i (env.now (w.tick + 1)) p in
      let event = record (event_of (env.now (w.tick + 1 + 1 + 1)) q) { reason = i.reason } in
      let d' = (refund_payment env i w).1.db in
      ((refund_payment env i w).0 ≡ ok q)
      × (d'.payments ≡ update_where (λ r. r.id) p.id (set_columns q) w.db.payments)
      × (d'.events ≡ w.db.events ++ event_row event ∷ [])
      × (d'.refunds
          ≡ w.db.refunds
            ++ record {
              payment_id = p.id;
              reason = i.reason;
              amount_kzt = p.amount_kzt;
              created_at = micros event.occurred_at;
            }
              ∷ [])
      × (d'.published ≡ w.db.published ++ (payment_refunded, event) ∷ [])
      × (d'.mailed
          ≡ w.db.mailed ++ refund p.customer_email p.id p.order_id p.amount_kzt i.reason ∷ [])
unfolding refund_payment refund_row announce_refund payment_event publish send event_of
    Repository.get_by_id Repository.update Repository.append_event Repository.append_refund ◌>>=◌
refund_payment-done env i w p up valid stored was =
    let q = as_refunded i (env.now (w.tick + 1)) p in
    ground (
      arith,
      up w.tick,
      up (w.tick + 1 + 1),
      up (w.tick + 1 + 1 + 1 + 1),
      up (w.tick + 1 + 1 + 1 + 1 + 1),
      up (w.tick + 1 + 1 + 1 + 1 + 1 + 1),
      up (w.tick + 1 + 1 + 1 + 1 + 1 + 1 + 1),
      eq_iff p.id p.id,
      key-find (λ r. r.id) i.payment_id w.db.payments {r = p},
      find-update_where (λ r. r.id) p.id p.id (set_columns q) w.db.payments (λ r. refl),
    )
