-- ===== src/Payment/Run.antt =====
-- Histories of the payment service: any sequence of calls, each with its input.
use kazakh_express.Base.{
  ℕ, String, ◌≡◌, refl, ◌∙◌, ap, ◌⊎◌, inl, inr, true, false, ◌||◌, List, [], ◌∷◌, ◌++◌, some, arith,
}
use kazakh_express.Base.Table.{
  find, find-append, keys, keys-append, has, has-append, IsDistinct, IsDistinct-append,
  has-keys-none,
}
use kazakh_express.Effect.{Env, World}
use kazakh_express.Payment.Model.{
  Payment, CreateInput, RefundInput, ConfirmInput, CancelInput, Db, is_refunded, is_cancelled,
}
use kazakh_express.Payment.Service
use kazakh_express.Payment.Service.{Provider}
use kazakh_express.Payment.Machine.{
  Evolves, Evolves-refl, Moves, Rewrites, refund_payment-Rewrites, confirm-Rewrites,
  cancel-Rewrites,
}
use kazakh_express.Payment.Creation.{Created, untouched, stored, create-Created}

-- The calls that write.
pub data Op : Type 0 where
  create : CreateInput → Op
  refund : RefundInput → Op
  confirm : ConfirmInput → Op
  cancel : CancelInput → Op

module _ (env : Env) (ttl : ℕ) (provider : Provider) where
  unfoldable pub apply : Op → World Db → World Db
  apply (Op.create i) w = (Service.create env ttl provider i w).1
  apply (Op.refund i) w = (Service.refund_payment env i w).1
  apply (Op.confirm i) w = (Service.confirm env i w).1
  apply (Op.cancel i) w = (Service.cancel env i w).1

  unfoldable pub run : List Op → World Db → World Db
  unfolding apply
  run [] w = w
  run (op ∷ ops) w = run ops (apply op w)

pub Created-Moves : {d d' : Db} → Created d d' → Moves d.payments d'.payments
Created-Moves {d} (untouched rows charges) k r found = (r, rw rows found, Evolves-refl r)
Created-Moves {d} (stored p q fresh id key rows charges) k r found =
    (r, rw rows (ground (arith, find-append (λ s. s.id) k d.payments (q ∷ []))), Evolves-refl r)

-- The identifiers and the idempotency keys of the rows are distinct, and so are the keys of the
-- charges, each of which belongs to a row.
pub record IsSound (d : Db) : Type 0 where
  pub ids : IsDistinct (keys (λ r. r.id) d.payments)
  pub idempotency_keys : IsDistinct (keys (λ r. r.idempotency_key) d.payments)
  pub charges : IsDistinct (keys (λ r. r.idempotency_key) d.charged)
  pub charged_rows :
      (k : String)
      → has k (keys (λ r. r.idempotency_key) d.charged) ≡ true
      → has k (keys (λ r. r.idempotency_key) d.payments) ≡ true

Rewrites-IsSound : {d d' : Db} → Rewrites d d' → IsSound d → IsSound d'
Rewrites-IsSound {d} {d'} r h = record {
  ids = rw r.ids h.ids;
  idempotency_keys = rw r.idempotency_keys h.idempotency_keys;
  charges = rw r.charged h.charges;
  charged_rows = λ k c. rw r.idempotency_keys (h.charged_rows k (rw r.charged at c));
}

-- One more key, at the end.
grown :
    (ps : List Payment) (q : Payment) (k : String)
    → q.idempotency_key ≡ k
    → keys (λ r. r.idempotency_key) (ps ++ q ∷ []) ≡ keys (λ r. r.idempotency_key) ps ++ k ∷ []
grown ps q k same =
    keys-append (λ r. r.idempotency_key) ps (q ∷ [])
    ∙ ap (λ j. keys (λ r. r.idempotency_key) ps ++ j ∷ []) same

-- A key that no row has has not been charged.
not_charged :
    (k : String) (d : Db)
    → IsSound d
    → has k (keys (λ r. r.idempotency_key) d.payments) ≡ false
    → has k (keys (λ r. r.idempotency_key) d.charged) ≡ false
not_charged k d h new = ground (arith, h.charged_rows k)

still_rows :
    (k : String) (d : Db) (p : Payment)
    → IsSound d
    → (has k (keys (λ r. r.idempotency_key) d.charged) ≡ true)
      ⊎ (has k (keys (λ r. r.idempotency_key) d.charged ++ p.idempotency_key ∷ []) ≡ true)
    → has k (keys (λ r. r.idempotency_key) d.payments ++ p.idempotency_key ∷ []) ≡ true
still_rows k d p h c = ground (
  arith,
  h.charged_rows k,
  has-append k p.idempotency_key (keys (λ r. r.idempotency_key) d.charged),
  has-append k p.idempotency_key (keys (λ r. r.idempotency_key) d.payments),
)

Created-IsSound : {d d' : Db} → Created d d' → IsSound d → IsSound d'
Created-IsSound {d} {d'} (untouched rows charges) h = record {
  ids = rw rows h.ids;
  idempotency_keys = rw rows h.idempotency_keys;
  charges = rw charges h.charges;
  charged_rows = λ k c. rw rows (h.charged_rows k (rw charges at c));
}
Created-IsSound {d} {d'} (stored p q fresh id key rows charges) h =
    let new_id = has-keys-none (λ r. r.id) p.id d.payments fresh.new_id in
    let new_key =
      has-keys-none (λ r. r.idempotency_key) p.idempotency_key d.payments fresh.new_key in
    record {
      ids =
          rw (rows, keys-append (λ r. r.id) d.payments (q ∷ []), id)
            (IsDistinct-append p.id (keys (λ r. r.id) d.payments) new_id h.ids);
      idempotency_keys =
          rw (rows, grown d.payments q p.idempotency_key key)
            (IsDistinct-append p.idempotency_key _ new_key h.idempotency_keys);
      charges = elim charges [
        | inl same ↦ rw same h.charges
        | inr more ↦
            rw (more, grown d.charged p p.idempotency_key refl)
              (IsDistinct-append p.idempotency_key _ (not_charged p.idempotency_key d h new_key)
                h.charges)
      ];
      charged_rows = λ k c.
          rw (rows, grown d.payments q p.idempotency_key key)
            (still_rows k d p h (elim charges [
              | inl same ↦ inl (rw same at c)
              | inr more ↦ inr (rw (more, grown d.charged p p.idempotency_key refl) at c)
            ]));
    }

final_kept :
    (p q : Payment)
    → Evolves p q
    → (is_refunded p.status || is_cancelled p.status) ≡ true
    → q.status ≡ p.status
final_kept p q later final = ground arith

module _ (env : Env) (ttl : ℕ) (provider : Provider) where
  pub apply-Moves :
      (op : Op) (w : World Db) → Moves w.db.payments (apply env ttl provider op w).db.payments
  unfolding apply
  apply-Moves (Op.create i) w = Created-Moves (create-Created env ttl provider i w)
  apply-Moves (Op.refund i) w = (refund_payment-Rewrites env w i).moves
  apply-Moves (Op.confirm i) w = (confirm-Rewrites env w i).moves
  apply-Moves (Op.cancel i) w = (cancel-Rewrites env w i).moves

  -- Whatever the environment does, a stored payment is stored after any call, as a later version of
  -- itself: the same purchase, and the same state or one that the state machine of the service
  -- reaches from it in one step.
  pub apply_moves :
      (op : Op) (w : World Db) (id : String) (p : Payment)
      → find (λ r. r.id) id w.db.payments ≡ some p
      → (q : Payment) × (find (λ r. r.id) id (apply env ttl provider op w).db.payments ≡ some q)
        × Evolves p q
  apply_moves op w = apply-Moves op w

  apply-IsSound : (op : Op) (w : World Db) → IsSound w.db → IsSound (apply env ttl provider op w).db
  unfolding apply
  apply-IsSound (Op.create i) w h = Created-IsSound (create-Created env ttl provider i w) h
  apply-IsSound (Op.refund i) w h = Rewrites-IsSound (refund_payment-Rewrites env w i) h
  apply-IsSound (Op.confirm i) w h = Rewrites-IsSound (confirm-Rewrites env w i) h
  apply-IsSound (Op.cancel i) w h = Rewrites-IsSound (cancel-Rewrites env w i) h

  -- From a state where this holds, after any calls, under any environment: the identifiers and the
  -- idempotency keys of the rows are distinct, and the provider has been charged at most once for
  -- each idempotency key, each time for one that is stored.
  pub run-IsSound :
      (ops : List Op) (w : World Db) → IsSound w.db → IsSound (run env ttl provider ops w).db
  unfolding run
  run-IsSound [] w h = h
  run-IsSound (op ∷ ops) w h = run-IsSound ops (apply env ttl provider op w) (apply-IsSound op w h)

  -- A payment that is refunded or cancelled keeps its state, its amount and its purchase through
  -- any calls, under any environment.
  pub run-final :
      (ops : List Op) (w : World Db) (id : String) (p : Payment)
      → find (λ r. r.id) id w.db.payments ≡ some p
      → (is_refunded p.status || is_cancelled p.status) ≡ true
      → (q : Payment) × (find (λ r. r.id) id (run env ttl provider ops w).db.payments ≡ some q)
        × (q.status ≡ p.status)
        × (q.amount_kzt ≡ p.amount_kzt)
        × (q.order_id ≡ p.order_id)
  unfolding run
  run-final [] w id p found final = (p, found, refl, refl, refl)
  run-final (op ∷ ops) w id p found final =
      let (q, found', later) = apply-Moves op w id p found in
      let kept : q.status ≡ p.status = final_kept p q later final in
      let (r, last, same, amount, order) =
        run-final ops (apply env ttl provider op w) id q found' (rw kept final) in
      (r, last, same ∙ kept, amount ∙ later.amount_kzt, order ∙ later.order_id)
