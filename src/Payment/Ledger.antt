-- ===== src/Payment/Ledger.antt =====
-- The table of refunds (payment-service/internal/payment/repository.go, `AppendEvent`), and what
-- each block of the service does to it.
use kazakh_express.Base.{
  ℕ, String, eq_iff, ◌≡◌, sym, ◌∙◌, ap, subst, ◌⊎◌, inl, inr, true, false, List, [], ◌∷◌, ◌++◌,
  none, some, arith, Option-cases, ◌+◌, some_inj, is_some,
}
use kazakh_express.Base.Table.{
  find, find-append, keys, keys-append, IsDistinct, IsDistinct-append, update_where, has-keys-none,
}
use kazakh_express.Effect.{ok, Env, World, ◌>>=◌}
use kazakh_express.Effect.Cases.{bind_cases}
use kazakh_express.Payment.Model.{
  Payment, PaymentEvent, CreateInput, RefundInput, ConfirmInput, CancelInput, Refund, Db, succeeded,
  refunded, is_refunded,
}
use kazakh_express.Payment.Repository
use kazakh_express.Payment.Repository.{set_columns}
use kazakh_express.Payment.Tails.{core-announce_refund}
use kazakh_express.Payment.Machine.{Moves}
use kazakh_express.Payment.Service.{
  Provider, publish, send, payment_event, event_of, announce, announce_failure, announce_success,
  announce_refund, announce_confirmed, announce_cancelled, as_refunded, refund_row, confirm_pending,
  cancel_row, open_payment, charge_payment, charge, settle_as, create_new,
}

pub refunds-append_event :
    (env : Env) (e : PaymentEvent) (w : World Db)
    → is_refunded e.status ≡ false
    → (Repository.append_event env e w).1.db.refunds ≡ w.db.refunds
unfolding Repository.append_event Repository.append_refund ◌>>=◌
refunds-append_event env e w h = ground arith

module _ (env : Env) (w : World Db) where
  pub refunds-announce :
      (p : Payment) → is_refunded p.status ≡ false → (announce env p w).1.db.refunds ≡ w.db.refunds
  unfolding announce announce_failure announce_success ◌>>=◌ payment_event publish send event_of
  refunds-announce p h = grind (arith, refunds-append_event)

  pub refunds-announce_confirmed :
      (p : Payment)
      → is_refunded p.status ≡ false
      → (announce_confirmed env p w).1.db.refunds ≡ w.db.refunds
  unfolding announce_confirmed ◌>>=◌ payment_event publish send event_of
  refunds-announce_confirmed p h = grind (arith, refunds-append_event)

  pub refunds-announce_cancelled :
      (i : CancelInput) (p : Payment)
      → is_refunded p.status ≡ false
      → (announce_cancelled env i p w).1.db.refunds ≡ w.db.refunds
  unfolding announce_cancelled ◌>>=◌ payment_event publish send event_of
  refunds-announce_cancelled i p h = grind (arith, refunds-append_event)

  -- The row that the refund of `p` adds, if its statement is reached and is not refused.
  abbrev pub refund_of : RefundInput → Payment → Refund
  refund_of i p = record {
    payment_id = p.id;
    reason = i.reason;
    amount_kzt = p.amount_kzt;
    created_at = Repository.micros (env.now w.tick);
  }

  pub refunds-announce_refund :
      (i : RefundInput) (p : Payment)
      → ((announce_refund env i p w).1.db.refunds ≡ w.db.refunds)
        ⊎ ((announce_refund env i p w).1.db.refunds ≡ w.db.refunds ++ refund_of i p ∷ [])
  unfolding announce_refund ◌>>=◌ payment_event publish send event_of Repository.append_event
      Repository.append_refund
  refunds-announce_refund i p = ground arith

-- A payment that stays refunded keeps its refund.
pub record IsLedger (d : Db) : Type 0 where
  pub once : IsDistinct (keys (λ r. r.payment_id) d.refunds)
  pub rows :
      (k : String) (r : Refund)
      → find (λ r. r.payment_id) k d.refunds ≡ some r
      → (p : Payment) × (find (λ p. p.id) k d.payments ≡ some p)
        × (p.status ≡ refunded)
        × (r.amount_kzt ≡ p.amount_kzt)

pub Moves-IsLedger :
    {d d' : Db} → Moves d.payments d'.payments → d'.refunds ≡ d.refunds → IsLedger d → IsLedger d'
Moves-IsLedger {d} {d'} moves same h = record {
  once = rw same h.once;
  rows = λ k r found.
      let (p, stored, status, amount) = h.rows k r (rw same at found) in
      let (q, stored', later) = moves k p stored in (q, stored', ground arith, ground arith);
}

-- A payment that has succeeded has no refund yet.
not_refunded :
    (d : Db) (p : Payment)
    → find (λ p. p.id) p.id d.payments ≡ some p
    → p.status ≡ succeeded
    → IsLedger d
    → find (λ r. r.payment_id) p.id d.refunds ≡ none
not_refunded d p stored was h = elim (Option-cases (find (λ r. r.payment_id) p.id d.refunds)) [
  | inl absent ↦ absent
  | inr (r, found) ↦
      let (p', stored', status, amount) = h.rows p.id r found in
      absurd (cc (some_inj (sym stored ∙ stored')))
]

-- What is found in a longer list of refunds.
find-grown :
    (k : String) (rs : List Refund) (r s : Refund)
    → find (λ r. r.payment_id) k (rs ++ r ∷ []) ≡ some s
    → (find (λ r. r.payment_id) k rs ≡ some s) ⊎ ((r.payment_id ≡ k) × (r ≡ s))
find-grown k rs r s found =
    ground (arith, find-append (λ r. r.payment_id) k rs (r ∷ []), eq_iff r.payment_id k)

-- One more refund, of a payment that had none and is refunded now.
pub grown-IsLedger :
    (d d' : Db) (p q : Payment) (r : Refund)
    → Moves d.payments d'.payments
    → find (λ p. p.id) p.id d.payments ≡ some p
    → p.status ≡ succeeded
    → find (λ p. p.id) p.id d'.payments ≡ some q
    → q.status ≡ refunded
    → r.payment_id ≡ p.id
    → r.amount_kzt ≡ q.amount_kzt
    → d'.refunds ≡ d.refunds ++ r ∷ []
    → IsLedger d
    → IsLedger d'
grown-IsLedger d d' p q r moves stored was stored' now id amount added h = record {
  once =
      rw (added, keys-append (λ r. r.payment_id) d.refunds (r ∷ []), id)
        (IsDistinct-append p.id _
          (has-keys-none (λ r. r.payment_id) p.id d.refunds (not_refunded d p stored was h))
          h.once);
  rows = λ k s found. elim (find-grown k d.refunds r s (rw added at found)) [
    | inl old ↦
        let (p', stored', status, amount') = h.rows k s old in
        let (q', stored'', later) = moves k p' stored' in (q', stored'', ground arith, ground arith)
    | inr (this, same) ↦ (
      q,
      subst (λ j. find (λ p. p.id) j d'.payments ≡ some q) (sym id ∙ this) stored',
      now,
      ap (λ x. x.amount_kzt) (sym same) ∙ amount,
    )
  ];
}

module _ (env : Env) (p : Payment) (w : World Db) where
  pub refunds-refund_row :
      (i : RefundInput)
      → let d' = (refund_row env i p w).1.db in
        ((d'.refunds ≡ w.db.refunds)
          ⊎ ((p.status ≡ succeeded)
              × (is_some (find (λ q. q.id) p.id w.db.payments) ≡ true)
              × (d'.payments
                  ≡ update_where
                      (λ q. q.id)
                      p.id
                      (set_columns (as_refunded i (env.now w.tick) p))
                      w.db.payments)
              × (d'.refunds
                  ≡ w.db.refunds ++ refund_of env (record w { tick = w.tick + 1 + 1 }) i p ∷ [])))
  unfolding refund_row ◌>>=◌ Repository.update
  refunds-refund_row i = grind (arith, core-announce_refund, refunds-announce_refund)

  pub refunds-confirm_pending :
      (i : ConfirmInput) → (confirm_pending env i p w).1.db.refunds ≡ w.db.refunds
  unfolding confirm_pending ◌>>=◌ Repository.update
  refunds-confirm_pending i = grind (arith, refunds-announce_confirmed)

  pub refunds-cancel_row : (i : CancelInput) → (cancel_row env i p w).1.db.refunds ≡ w.db.refunds
  unfolding cancel_row ◌>>=◌ Repository.update
  refunds-cancel_row i = grind (arith, refunds-announce_cancelled)

  pub refunds-charge_payment :
      (provider : Provider)
      → ((charge_payment env provider p w).1.db.refunds ≡ w.db.refunds)
        × ((q : Payment)
            → (charge_payment env provider p w).0 ≡ ok q
            → is_refunded q.status ≡ false)
  unfolding charge_payment ◌>>=◌ charge settle_as Repository.update
  refunds-charge_payment provider = (ground arith, λ q h. ground arith)

pub refunds-open_payment :
    (env : Env) (ttl : ℕ) (input : CreateInput) (w : World Db)
    → (open_payment env ttl input w).1.db.refunds ≡ w.db.refunds
unfolding open_payment ◌>>=◌ Repository.create Repository.save_payment_id payment_event publish
    event_of
refunds-open_payment env ttl input w = grind (arith, refunds-append_event)

pub refunds-create_new :
    (env : Env) (ttl : ℕ) (provider : Provider) (input : CreateInput) (w : World Db)
    → (create_new env ttl provider input w).1.db.refunds ≡ w.db.refunds
unfolding create_new
refunds-create_new env ttl provider input w =
    let w' = (open_payment env ttl input w).1 in
    let opened = refunds-open_payment env ttl input w in
    bind_cases (λ r. r.1.db.refunds ≡ w.db.refunds) (open_payment env ttl input) _ w (λ e h. opened)
      (λ p h.
        let (kept, settled) = refunds-charge_payment env p w' provider in
        bind_cases (λ r. r.1.db.refunds ≡ w.db.refunds) (charge_payment env provider p) _ w'
          (λ e k. kept ∙ opened)
          (λ q k.
            refunds-announce env (charge_payment env provider p w').1 q (settled q k)
            ∙ kept
            ∙ opened))
