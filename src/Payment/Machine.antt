-- ===== src/Payment/Machine.antt =====
-- What one method of the service may do to the stored rows.
mod Edges
unfoldable pub use kazakh_express.Payment.Machine.Edges.*
use kazakh_express.Base.{
  String, ◌==◌, eq_iff, ◌≡◌, refl, sym, ◌⊎◌, inl, inr, Bool, true, false, List, some, arith,
  if◌then◌else◌, Bool-cases, some_inj, ◌∙◌, ap, subst,
}
use kazakh_express.Base.Table.{
  find, update_where, find-update_where, key-find, keys, keys-update_where,
}
use kazakh_express.Effect.Cases.{bind_cases, guard_cases}
use kazakh_express.Effect.{ok, pure, Action, Env, World, ◌>>=◌}
use kazakh_express.Payment.Model.{
  Payment, Status, pending, succeeded, refunded, cancelled, RefundInput, CancelInput, ConfirmInput,
  is_succeeded, Db,
}
use kazakh_express.Payment.Repository
use kazakh_express.Payment.Repository.{set_columns}
use kazakh_express.Payment.Service.{
  as_refunded, as_confirmed, as_cancelled, refund_row, refund_payment, confirm_pending, confirm,
  cancel_row, cancel,
}
use kazakh_express.Payment.Tails.{
  core-announce_refund, core-announce_confirmed, core-announce_cancelled,
}

-- What the read of a row gives to the rest of a method.
module _ (env : Env) (id : String) (w : World Db) where
  pub db-get_by_id : (Repository.get_by_id env id w).1.db ≡ w.db
  unfolding Repository.get_by_id ◌>>=◌
  db-get_by_id = ground arith

  pub get_by_id-find :
      {p : Payment}
      → (Repository.get_by_id env id w).0 ≡ ok p
      → find (λ q. q.id) id w.db.payments ≡ some p
  unfolding Repository.get_by_id ◌>>=◌
  get_by_id-find h = ground arith

  pub get_by_id-stored :
      {p : Payment}
      → (Repository.get_by_id env id w).0 ≡ ok p
      → find (λ q. q.id) p.id (Repository.get_by_id env id w).1.db.payments ≡ some p
  get_by_id-stored {p} h = rw db-get_by_id (
      subst (λ k. find (λ q. q.id) k w.db.payments ≡ some p)
        (sym (key-find (λ q. q.id) id w.db.payments (get_by_id-find h))) (get_by_id-find h))

module _ (env : Env) (p : Payment) (w : World Db) where
  refund_row-rows :
      (i : RefundInput)
      → ((refund_row env i p w).1.db.payments ≡ w.db.payments)
        ⊎ ((p.status ≡ succeeded)
            × ((refund_row env i p w).1.db.payments
                ≡ update_where
                    (λ q. q.id)
                    p.id
                    (set_columns (as_refunded i (env.now w.tick) p))
                    w.db.payments))
  unfolding refund_row ◌>>=◌ Repository.update
  refund_row-rows i = grind (arith, core-announce_refund)

  confirm_pending-rows :
      (i : ConfirmInput)
      → ((confirm_pending env i p w).1.db.payments ≡ w.db.payments)
        ⊎ ((p.status ≡ pending)
            × ((confirm_pending env i p w).1.db.payments
                ≡ update_where
                    (λ q. q.id)
                    p.id
                    (set_columns (as_confirmed i (env.now w.tick) p))
                    w.db.payments))
  unfolding confirm_pending ◌>>=◌ Repository.update
  confirm_pending-rows i = grind (arith, core-announce_confirmed)

  cancel_row-rows :
      (i : CancelInput)
      → ((cancel_row env i p w).1.db.payments ≡ w.db.payments)
        ⊎ ((edge p.status cancelled ≡ true)
            × ((cancel_row env i p w).1.db.payments
                ≡ update_where
                    (λ q. q.id)
                    p.id
                    (set_columns (as_cancelled i (env.now w.tick) p))
                    w.db.payments))
  unfolding cancel_row ◌>>=◌ Repository.update
  cancel_row-rows i = grind (arith, core-announce_cancelled)

  charged-refund_row : (i : RefundInput) → (refund_row env i p w).1.db.charged ≡ w.db.charged
  unfolding refund_row ◌>>=◌ Repository.update
  charged-refund_row i = grind (arith, core-announce_refund)

  charged-confirm_pending :
      (i : ConfirmInput) → (confirm_pending env i p w).1.db.charged ≡ w.db.charged
  unfolding confirm_pending ◌>>=◌ Repository.update
  charged-confirm_pending i = grind (arith, core-announce_confirmed)

  charged-cancel_row : (i : CancelInput) → (cancel_row env i p w).1.db.charged ≡ w.db.charged
  unfolding cancel_row ◌>>=◌ Repository.update
  charged-cancel_row i = grind (arith, core-announce_cancelled)

module _ (env : Env) (w : World Db) (p : Payment)
    (h : find (λ q. q.id) p.id w.db.payments ≡ some p) where
  pub refund_row-Rewrites : (i : RefundInput) → Rewrites w.db (refund_row env i p w).1.db
  refund_row-Rewrites i = elim (refund_row-rows env p w i) [
    | inl same ↦ Rewrites-same w.db _ same (charged-refund_row env p w i)
    | inr (was, wrote) ↦
        Rewrites-update w.db _ p (as_refunded i (env.now w.tick) p) h (ground arith) wrote
          (charged-refund_row env p w i)
  ]

  pub confirm_pending-Rewrites : (i : ConfirmInput) → Rewrites w.db (confirm_pending env i p w).1.db
  confirm_pending-Rewrites i = elim (confirm_pending-rows env p w i) [
    | inl same ↦ Rewrites-same w.db _ same (charged-confirm_pending env p w i)
    | inr (was, wrote) ↦
        Rewrites-update w.db _ p (as_confirmed i (env.now w.tick) p) h (ground arith) wrote
          (charged-confirm_pending env p w i)
  ]

  pub cancel_row-Rewrites : (i : CancelInput) → Rewrites w.db (cancel_row env i p w).1.db
  cancel_row-Rewrites i = elim (cancel_row-rows env p w i) [
    | inl same ↦ Rewrites-same w.db _ same (charged-cancel_row env p w i)
    | inr (was, wrote) ↦
        Rewrites-update w.db _ p (as_cancelled i (env.now w.tick) p) h (ground arith) wrote
          (charged-cancel_row env p w i)
  ]

  pub confirm_read-Rewrites :
      (i : ConfirmInput)
      → Rewrites w.db ((if is_succeeded p.status then pure p else confirm_pending env i p) w).1.db
  unfolding pure
  confirm_read-Rewrites i = elim (Bool-cases (is_succeeded p.status)) [
    | inl e ↦ rw e (Rewrites-refl w.db)
    | inr e ↦ rw e (confirm_pending-Rewrites i)
  ]

-- A method that reads a row and goes on from it, by what the read gives.
pub read_then :
    (env : Env) (w : World Db) {A : Type 0} (id : String) (f : Payment → Action Db A)
    → ((w' : World Db) (p : Payment)
        → find (λ q. q.id) p.id w'.db.payments ≡ some p
        → Rewrites w'.db (f p w').1.db)
    → Rewrites w.db ((Repository.get_by_id env id >>= f) w).1.db
read_then env w id f rest =
    let (r, w') = Repository.get_by_id env id w in
    bind_cases (λ r. Rewrites w.db r.1.db) (Repository.get_by_id env id) f w
      (λ e h. rw (db-get_by_id env id w) (Rewrites-refl w.db))
      (λ p h.
        subst (λ d. Rewrites d (f p w').1.db) (db-get_by_id env id w)
          (rest w' p (get_by_id-stored env id w h)))

module _ (env : Env) (w : World Db) where
  pub refund_payment-Rewrites : (i : RefundInput) → Rewrites w.db (refund_payment env i w).1.db
  unfolding refund_payment
  refund_payment-Rewrites i =
      guard_cases (λ r. Rewrites w.db r.1.db) _ _ _ w (λ bad. Rewrites-refl w.db)
        (λ good. read_then env w i.payment_id _ (λ w' p h. refund_row-Rewrites env w' p h i))

  pub confirm-Rewrites : (i : ConfirmInput) → Rewrites w.db (confirm env i w).1.db
  unfolding confirm
  confirm-Rewrites i =
      guard_cases (λ r. Rewrites w.db r.1.db) _ _ _ w (λ bad. Rewrites-refl w.db)
        (λ good. read_then env w i.payment_id _ (λ w' p h. confirm_read-Rewrites env w' p h i))

  pub cancel-Rewrites : (i : CancelInput) → Rewrites w.db (cancel env i w).1.db
  unfolding cancel
  cancel-Rewrites i =
      guard_cases (λ r. Rewrites w.db r.1.db) _ _ _ w (λ bad. Rewrites-refl w.db)
        (λ good. read_then env w i.payment_id _ (λ w' p h. cancel_row-Rewrites env w' p h i))
