-- ===== src/Payment/Creation.antt =====
-- What `Create` may do to the rows and to the charges, on every path.
use kazakh_express.Base.{
  ℕ, String, eq_iff, ◌≡◌, refl, ◌⊎◌, inl, inr, true, List, [], ◌∷◌, ◌++◌, Option, none, some, arith,
  Option-cases, ◌+◌, ◌∙◌, ap, subst,
}
use kazakh_express.Base.Table.{find, update_where}
use kazakh_express.Effect.{ok, Env, World, ◌>>=◌}
use kazakh_express.Effect.Cases.{bind_cases, guard_cases}
use kazakh_express.Payment.Model.{Payment, Status, CreateInput, Db}
use kazakh_express.Payment.Repository
use kazakh_express.Payment.Repository.{as_row, set_columns, insertable}
use kazakh_express.Payment.Service.{
  Provider, new_payment, open_payment, payment_event, charge, charged_status, settle_as, as_charged,
  charge_payment, create_new, create_with, create,
}
use kazakh_express.Payment.Tails.{core, core-append_event, core-publish, core-announce}
use kazakh_express.Payment.Machine.{db-get_by_id}

-- The key of no row is written by an update of a fresh row.
pub update_where-fresh :
    (k : String) (f : Payment → Payment) (ps : List Payment) (p : Payment)
    → find (λ r. r.id) k ps ≡ none
    → p.id ≡ k
    → update_where (λ r. r.id) k f (ps ++ p ∷ []) ≡ ps ++ f p ∷ []
update_where-fresh k f [] p fresh same = ground (arith, eq_iff p.id k)
update_where-fresh k f (q ∷ ps) p fresh same =
    ground (arith, eq_iff q.id k, update_where-fresh k f ps p)

-- A new row that the constraints of the table accept.
pub record IsFresh (p : Payment) (ps : List Payment) : Type 0 where
  pub new_id : find (λ r. r.id) p.id ps ≡ none
  pub new_key : find (λ r. r.idempotency_key) p.idempotency_key ps ≡ none

pub insertable-IsFresh : (p : Payment) (d : Db) → insertable p d ≡ true → IsFresh p d.payments
insertable-IsFresh p d h = ground arith

-- The rows and the charges after a `Create` that began at `d`: nothing has changed, or one fresh
-- row has been added, in its first or in its charged form, and charged at most once.
pub data Created (d d' : Db) : Type 0 where
  untouched : d'.payments ≡ d.payments → d'.charged ≡ d.charged → Created d d'
  stored :
      (p q : Payment)
      → IsFresh p d.payments
      → q.id ≡ p.id
      → q.idempotency_key ≡ p.idempotency_key
      → d'.payments ≡ d.payments ++ q ∷ []
      → (d'.charged ≡ d.charged) ⊎ (d'.charged ≡ d.charged ++ p ∷ [])
      → Created d d'

module _ (env : Env) (ttl : ℕ) (input : CreateInput) (w : World Db) where
  abbrev pub fresh_row : Payment
  fresh_row = new_payment input (env.uuid (w.tick + 1)) (env.now w.tick)

  abbrev pub opened : World Db
  opened = (open_payment env ttl input w).1

  open_payment-rows :
      ((opened.db.payments ≡ w.db.payments)
        ⊎ ((insertable fresh_row w.db ≡ true)
            × (opened.db.payments ≡ w.db.payments ++ as_row fresh_row ∷ [])))
      × (opened.db.charged ≡ w.db.charged)
  unfolding open_payment ◌>>=◌ Repository.create Repository.save_payment_id payment_event
  open_payment-rows = grind (arith, core-append_event, core-publish)

  pub open_payment-ok :
      {p : Payment}
      → (open_payment env ttl input w).0 ≡ ok p
      → (p ≡ fresh_row)
        × (insertable fresh_row w.db ≡ true)
        × (opened.db.payments ≡ w.db.payments ++ as_row fresh_row ∷ [])
        × (opened.db.charged ≡ w.db.charged)
  unfolding open_payment ◌>>=◌ Repository.create Repository.save_payment_id payment_event
  open_payment-ok h = grind (arith, core-append_event, core-publish)

-- Charges counted from an equal list.
rebase :
    {ps qs rs : List Payment} (p : Payment)
    → qs ≡ ps
    → (rs ≡ qs) ⊎ (rs ≡ qs ++ p ∷ [])
    → (rs ≡ ps) ⊎ (rs ≡ ps ++ p ∷ [])
rebase p same charges = ground arith

-- The part around the provider, from a row that is stored, for each answer of the provider.
module _ (env : Env) (provider : Provider) (p : Payment) (w : World Db) where
  abbrev Charges : Type 0
  Charges =
      let w' = (charge_payment env provider p w).1 in
      (w'.db.charged ≡ w.db.charged) ⊎ (w'.db.charged ≡ w.db.charged ++ p ∷ [])

  charge_payment-unsettled :
      charged_status (provider p).status ≡ none
      → ((charge_payment env provider p w).1.db.payments ≡ w.db.payments) × Charges
  unfolding charge_payment ◌>>=◌ charge settle_as Repository.update
  charge_payment-unsettled e = ground arith

  charge_payment-settled :
      (s : Status)
      → charged_status (provider p).status ≡ some s
      → (((charge_payment env provider p w).1.db.payments ≡ w.db.payments)
          ⊎ ((charge_payment env provider p w).1.db.payments
              ≡ update_where
                  (λ q. q.id)
                  p.id
                  (set_columns (as_charged (provider p) s (env.now (w.tick + 1)) p))
                  w.db.payments))
        × Charges
  unfolding charge_payment ◌>>=◌ charge settle_as Repository.update
  charge_payment-settled s e = ground arith

module _ (env : Env) (ttl : ℕ) (provider : Provider) (input : CreateInput) (w : World Db) where
  open_payment-Created : Created w.db (open_payment env ttl input w).1.db
  open_payment-Created =
      let (rows, still) = open_payment-rows env ttl input w in
      elim rows [
        | inl same ↦ untouched same still
        | inr (good, added) ↦
            let p = fresh_row env ttl input w in
            stored p (as_row p) (insertable-IsFresh p w.db good) refl refl added (inl still)
      ]

  -- The charged row is the one that was opened, in its first or in its last form.
  module _ (p : Payment) (w' : World Db) (fresh : IsFresh p w.db.payments)
      (added : w'.db.payments ≡ w.db.payments ++ as_row p ∷ [])
      (still : w'.db.charged ≡ w.db.charged) where
    settled-Created :
        (s : Status)
        → charged_status (provider p).status ≡ some s
        → Created w.db (charge_payment env provider p w').1.db
    settled-Created s e =
        let (rows, charges) = charge_payment-settled env provider p w' s e in
        elim rows [
          | inl same ↦ stored p (as_row p) fresh refl refl (same ∙ added) (rebase p still charges)
          | inr wrote ↦
              stored p
                (set_columns (as_charged (provider p) s (env.now (w'.tick + 1)) p) (as_row p)) fresh
                refl refl
                (wrote
                  ∙ rw added (
                      update_where-fresh p.id
                        (set_columns (as_charged (provider p) s (env.now (w'.tick + 1)) p))
                        w.db.payments (as_row p) fresh.new_id refl))
                (rebase p still charges)
        ]

    charged-Created : Created w.db (charge_payment env provider p w').1.db
    charged-Created = elim (Option-cases (charged_status (provider p).status)) [
      | inl e ↦
          let (same, charges) = charge_payment-unsettled env provider p w' e in
          stored p (as_row p) fresh refl refl (same ∙ added) (rebase p still charges)
      | inr (s, e) ↦ settled-Created s e
    ]

-- An end that keeps the core keeps what has been created.
Created-core : {d d' d'' : Db} → Created d d' → core d'' ≡ core d' → Created d d''
Created-core (untouched rows charges) same =
    untouched (ap (λ c. c.payments) same ∙ rows) (ap (λ c. c.charged) same ∙ charges)
Created-core (stored p q fresh id key rows charges) same =
    stored p q fresh id key (ap (λ c. c.payments) same ∙ rows) (elim charges [
      | inl none_new ↦ inl (ap (λ c. c.charged) same ∙ none_new)
      | inr one_new ↦ inr (ap (λ c. c.charged) same ∙ one_new)
    ])

charge_new-Created :
    (env : Env) (ttl : ℕ) (provider : Provider) (input : CreateInput) (w : World Db) (p : Payment)
    → (open_payment env ttl input w).0 ≡ ok p
    → Created w.db (charge_payment env provider p (open_payment env ttl input w).1).1.db
charge_new-Created env ttl provider input w p h =
    let (same, good, added, still) = open_payment-ok env ttl input w h in
    charged-Created env ttl provider input w p (open_payment env ttl input w).1
      (rw same (insertable-IsFresh (fresh_row env ttl input w) w.db good)) (rw same added) still

module _ (env : Env) (ttl : ℕ) (provider : Provider) (input : CreateInput) (w : World Db) where
  create_new-Created : Created w.db (create_new env ttl provider input w).1.db
  unfolding create_new
  create_new-Created =
      bind_cases (λ r. Created w.db r.1.db) (open_payment env ttl input) _ w
        (λ e h. open_payment-Created env ttl provider input w)
        (λ p h.
          bind_cases (λ r. Created w.db r.1.db) (charge_payment env provider p) _
            (open_payment env ttl input w).1
            (λ e k. charge_new-Created env ttl provider input w p h)
            (λ q k.
              Created-core (charge_new-Created env ttl provider input w p h)
                (core-announce env q _)))

  create_with-Created :
      (saved : Option String) → Created w.db (create_with env ttl provider input saved w).1.db
  unfolding create_with
  create_with-Created none = create_new-Created
  create_with-Created (some id) =
      untouched (ap (λ d. d.payments) (db-get_by_id env id w))
        (ap (λ d. d.charged) (db-get_by_id env id w))

pub db-get_payment_id :
    (env : Env) (key : String) (w : World Db) → (Repository.get_payment_id env key w).1.db ≡ w.db
unfolding Repository.get_payment_id ◌>>=◌
db-get_payment_id env key w = ground arith

-- Whatever the environment does, `Create` adds at most one row, which the constraints accept, and
-- charges at most that payment, once.
pub create-Created :
    (env : Env) (ttl : ℕ) (provider : Provider) (input : CreateInput) (w : World Db)
    → Created w.db (create env ttl provider input w).1.db
unfolding create
create-Created env ttl provider input w =
    guard_cases (λ r. Created w.db r.1.db) _ _ _ w (λ bad. untouched refl refl)
      (λ good.
        bind_cases (λ r. Created w.db r.1.db) (Repository.get_payment_id env input.idempotency_key)
          _ w (λ e h. rw db-get_payment_id (untouched refl refl))
          (λ saved h.
            subst
              (λ d.
                Created d
                  (create_with env ttl provider input saved
                    (Repository.get_payment_id env input.idempotency_key w).1).1.db)
              (db-get_payment_id env input.idempotency_key w)
              (create_with-Created env ttl provider input
                (Repository.get_payment_id env input.idempotency_key w).1 saved)))
