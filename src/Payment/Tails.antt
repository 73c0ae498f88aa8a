-- ===== src/Payment/Tails.antt =====
-- The ends of the payment service's methods (events, broker, mail) leave the rows, the charges
-- and the idempotency keys alone.
use kazakh_express.Base.{◌≡◌, refl, List}
use kazakh_express.Effect.{Env, World}
use kazakh_express.Effect.Keeps.{Keeps, keeps_rules}
use kazakh_express.Payment.Model.{
  Payment, PaymentEvent, RefundInput, CancelInput, Email, Topic, Saved, Db,
}
use kazakh_express.Payment.Repository
use kazakh_express.Payment.Service.{
  publish, send, payment_event, announce, announce_failure, announce_success, announce_refund,
  announce_confirmed, announce_cancelled,
}

-- What the rest of a method must not touch.
pub record Core : Type 0 where
  pub payments : List Payment
  pub charged : List Payment
  pub saved : List Saved

abbrev pub core : Db → Core
core d = record { payments = d.payments; charged = d.charged; saved = d.saved }

module _ (c : Core) where
  abbrev HasCore : Db → Type 0
  HasCore d = core d ≡ c

  append_event-Keeps :
      (env : Env) (e : PaymentEvent) → Keeps HasCore (Repository.append_event env e)
  unfolding Repository.append_event Repository.append_refund
  append_event-Keeps env e = search keeps_rules

  publish-Keeps : (env : Env) (t : Topic) (e : PaymentEvent) → Keeps HasCore (publish env t e)
  unfolding publish
  publish-Keeps env t e = search keeps_rules

  send-Keeps : (env : Env) (m : Email) → Keeps HasCore (send env m)
  unfolding send
  send-Keeps env m = search keeps_rules

  payment_event-Keeps : (env : Env) (p : Payment) → Keeps HasCore (payment_event env p)
  unfolding payment_event
  payment_event-Keeps env p = search keeps_rules

  ruleset tail_rules =
      (keeps_rules, append_event-Keeps, publish-Keeps, send-Keeps, payment_event-Keeps)

  failure-Keeps :
      (env : Env) (e : PaymentEvent) (p : Payment) → Keeps HasCore (announce_failure env e p)
  unfolding announce_failure
  failure-Keeps env e p = search tail_rules depth 9

  success-Keeps :
      (env : Env) (e : PaymentEvent) (p : Payment) → Keeps HasCore (announce_success env e p)
  unfolding announce_success
  success-Keeps env e p = search tail_rules depth 9

  announce-Keeps : (env : Env) (p : Payment) → Keeps HasCore (announce env p)
  unfolding announce
  announce-Keeps env p = search (tail_rules, failure-Keeps, success-Keeps) depth 9

  refund-Keeps :
      (env : Env) (i : RefundInput) (p : Payment) → Keeps HasCore (announce_refund env i p)
  unfolding announce_refund
  refund-Keeps env i p = search tail_rules depth 9

  confirmed-Keeps : (env : Env) (p : Payment) → Keeps HasCore (announce_confirmed env p)
  unfolding announce_confirmed
  confirmed-Keeps env p = search tail_rules depth 9

  cancelled-Keeps :
      (env : Env) (i : CancelInput) (p : Payment) → Keeps HasCore (announce_cancelled env i p)
  unfolding announce_cancelled
  cancelled-Keeps env i p = search tail_rules depth 9

module _ (env : Env) (p : Payment) (w : World Db) where
  pub core-announce : core (announce env p w).1.db ≡ core w.db
  core-announce = (announce-Keeps (core w.db) env p).at w refl

  pub core-announce_confirmed : core (announce_confirmed env p w).1.db ≡ core w.db
  core-announce_confirmed = (confirmed-Keeps (core w.db) env p).at w refl

  pub core-announce_refund : (i : RefundInput) → core (announce_refund env i p w).1.db ≡ core w.db
  core-announce_refund i = (refund-Keeps (core w.db) env i p).at w refl

  pub core-announce_cancelled :
      (i : CancelInput) → core (announce_cancelled env i p w).1.db ≡ core w.db
  core-announce_cancelled i = (cancelled-Keeps (core w.db) env i p).at w refl

pub core-append_event :
    (env : Env) (e : PaymentEvent) (w : World Db)
    → core (Repository.append_event env e w).1.db ≡ core w.db
core-append_event env e w = (append_event-Keeps (core w.db) env e).at w refl

pub core-publish :
    (env : Env) (t : Topic) (e : PaymentEvent) (w : World Db)
    → core (publish env t e w).1.db ≡ core w.db
core-publish env t e w = (publish-Keeps (core w.db) env t e).at w refl

pub ruleset core_laws = (
  core-announce, core-announce_confirmed, core-announce_refund, core-announce_cancelled,
  core-append_event, core-publish,
)
