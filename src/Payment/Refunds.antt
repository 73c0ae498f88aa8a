-- ===== src/Payment/Refunds.antt =====
-- The table of refunds through every call of the service.
use kazakh_express.Base.{
  ℕ, String, eq_iff, ◌≡◌, refl, ◌∙◌, ap, inl, inr, List, [], ◌∷◌, Option, none, some, arith,
  Bool-cases, ◌+◌,
}
use kazakh_express.Base.Table.{find, find-update_where}
use kazakh_express.Effect.{Env, World, Action, pure, ◌>>=◌}
use kazakh_express.Effect.Cases.{bind_cases, guard_cases}
use kazakh_express.Payment.Model.{
  Payment, RefundInput, ConfirmInput, CancelInput, CreateInput, Db, is_succeeded,
}
use kazakh_express.Payment.Repository
use kazakh_express.Payment.Repository.{set_columns}
use kazakh_express.Payment.Service.{
  Provider, as_refunded, refund_row, refund_payment, confirm, cancel, create_with, create,
}
use kazakh_express.Payment.Machine.{
  refund_row-Rewrites, db-get_by_id, get_by_id-stored, confirm-Rewrites, cancel-Rewrites,
}
use kazakh_express.Payment.Creation.{create-Created, db-get_payment_id}
use kazakh_express.Payment.Ledger.{
  IsLedger, Moves-IsLedger, grown-IsLedger, refund_of, refunds-refund_row, refunds-confirm_pending,
  refunds-cancel_row, refunds-create_new,
}
use kazakh_express.Payment.Run.{Op, apply, run, Created-Moves}

refund_row-IsLedger :
    (env : Env) (p : Payment) (w : World Db) (i : RefundInput)
    → find (λ q. q.id) p.id w.db.payments ≡ some p
    → IsLedger w.db
    → IsLedger (refund_row env i p w).1.db
refund_row-IsLedger env p w i stored h =
    let moves = (refund_row-Rewrites env w p stored i).moves in
    elim (refunds-refund_row env p w i) [
      | inl same ↦ Moves-IsLedger moves same h
      | inr (was, found, wrote, added) ↦
          grown-IsLedger w.db _ p (set_columns (as_refunded i (env.now w.tick) p) p)
            (refund_of env (record w { tick = w.tick + 1 + 1 }) i p) moves stored was
            (rw wrote (
              find-update_where (λ q. q.id) p.id p.id
                (set_columns (as_refunded i (env.now w.tick) p)) w.db.payments (λ r. refl)
              ∙ ground (arith, eq_iff p.id p.id)))
            refl refl refl added h
    ]

-- A block that reads a row first, for a predicate of the state.
read_cases :
    {A : Type 0} (P : Db → Type 0) (env : Env) (id : String) (f : Payment → Action Db A)
    (w : World Db)
    → P w.db
    → ((p : Payment) (w' : World Db)
        → w'.db ≡ w.db
        → find (λ q. q.id) p.id w'.db.payments ≡ some p
        → P (f p w').1.db)
    → P ((Repository.get_by_id env id >>= f) w).1.db
read_cases P env id f w h rest =
    bind_cases (λ r. P r.1.db) (Repository.get_by_id env id) f w
      (λ e k. rw (db-get_by_id env id w) h)
      (λ p k.
        rest p (Repository.get_by_id env id w).1 (db-get_by_id env id w)
          (get_by_id-stored env id w k))

module _ (env : Env) (w : World Db) where
  refund_payment-IsLedger :
      (i : RefundInput) → IsLedger w.db → IsLedger (refund_payment env i w).1.db
  unfolding refund_payment
  refund_payment-IsLedger i h =
      guard_cases (λ r. IsLedger r.1.db) _ _ _ w (λ bad. h)
        (λ good.
          read_cases IsLedger env i.payment_id _ w h
            (λ p w' same found. refund_row-IsLedger env p w' i found (rw same h)))

  refunds-confirm : (i : ConfirmInput) → (confirm env i w).1.db.refunds ≡ w.db.refunds
  unfolding confirm pure
  refunds-confirm i =
      guard_cases (λ r. r.1.db.refunds ≡ w.db.refunds) _ _ _ w (λ bad. refl)
        (λ good.
          read_cases (λ d. d.refunds ≡ w.db.refunds) env i.payment_id _ w refl
            (λ p w' same found. elim (Bool-cases (is_succeeded p.status)) [
              | inl e ↦ rw e (ap (λ d. d.refunds) same)
              | inr e ↦ rw e (refunds-confirm_pending env p w' i ∙ ap (λ d. d.refunds) same)
            ]))

  refunds-cancel : (i : CancelInput) → (cancel env i w).1.db.refunds ≡ w.db.refunds
  unfolding cancel
  refunds-cancel i =
      guard_cases (λ r. r.1.db.refunds ≡ w.db.refunds) _ _ _ w (λ bad. refl)
        (λ good.
          read_cases (λ d. d.refunds ≡ w.db.refunds) env i.payment_id _ w refl
            (λ p w' same found. refunds-cancel_row env p w' i ∙ ap (λ d. d.refunds) same))

module _ (env : Env) (ttl : ℕ) (provider : Provider) (w : World Db) where
  refunds-create_with :
      (input : CreateInput) (saved : Option String)
      → (create_with env ttl provider input saved w).1.db.refunds ≡ w.db.refunds
  unfolding create_with
  refunds-create_with input none = refunds-create_new env ttl provider input w
  refunds-create_with input (some id) = ap (λ d. d.refunds) (db-get_by_id env id w)

refunds-create :
    (env : Env) (ttl : ℕ) (provider : Provider) (input : CreateInput) (w : World Db)
    → (create env ttl provider input w).1.db.refunds ≡ w.db.refunds
unfolding create
refunds-create env ttl provider input w =
    let same = ap (λ d. d.refunds) (db-get_payment_id env input.idempotency_key w) in
    guard_cases (λ r. r.1.db.refunds ≡ w.db.refunds) _ _ _ w (λ bad. refl)
      (λ good.
        bind_cases (λ r. r.1.db.refunds ≡ w.db.refunds)
          (Repository.get_payment_id env input.idempotency_key) _ w (λ e h. same)
          (λ saved h. refunds-create_with env ttl provider _ input saved ∙ same))

module _ (env : Env) (ttl : ℕ) (provider : Provider) where
  apply-IsLedger :
      (op : Op) (w : World Db) → IsLedger w.db → IsLedger (apply env ttl provider op w).db
  unfolding apply
  apply-IsLedger (Op.create i) w h =
      Moves-IsLedger (Created-Moves (create-Created env ttl provider i w))
        (refunds-create env ttl provider i w) h
  apply-IsLedger (Op.refund i) w h = refund_payment-IsLedger env w i h
  apply-IsLedger (Op.confirm i) w h =
      Moves-IsLedger (confirm-Rewrites env w i).moves (refunds-confirm env w i) h
  apply-IsLedger (Op.cancel i) w h =
      Moves-IsLedger (cancel-Rewrites env w i).moves (refunds-cancel env w i) h

  -- From a state where this holds, after any calls, under any environment: a payment has at most one
  -- row in the table of refunds, and a row that is there is for a stored payment that is refunded,
  -- over its whole amount.
  pub run-IsLedger :
      (ops : List Op) (w : World Db) → IsLedger w.db → IsLedger (run env ttl provider ops w).db
  unfolding run
  run-IsLedger [] w h = h
  run-IsLedger (op ∷ ops) w h =
      run-IsLedger ops (apply env ttl provider op w) (apply-IsLedger op w h)
