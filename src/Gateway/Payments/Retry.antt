-- ===== src/Gateway/Payments/Retry.antt =====
-- What a client of the gateway sees of a payment, and a payment whose answer was lost on the way.
use kazakh_express.Base.{ℕ, String, some, none, ◌≡◌, refl, ap, ◌∙◌, true, ◌+◌, ◌<◌}
use kazakh_express.Effect.{ok, done, lost, Env, World, ◌>>=◌, fault}
use kazakh_express.Http.{one, remote, respond, bad_gateway}
use kazakh_express.Payment.Model
use kazakh_express.Payment.Model.{Db}
use kazakh_express.Payment.Text.{
  method_of, status_of, method_of-method_text, status_of-status_text, method_text, status_text,
}
use kazakh_express.Payment.Service
use kazakh_express.Payment.Service.{Provider}
use kazakh_express.Payment.Repository
use kazakh_express.Payment.Repository.{as_row, known_method, known_status}
use kazakh_express.Payment.Idempotency.{create_again}
use kazakh_express.Payment.Grpc
use kazakh_express.Payment.Grpc.{payment_to_proto, input_of}
use kazakh_express.Gateway.Payments.{
  CreatePaymentRequest, payment_from_proto, method_from_proto, status_from_proto, create_payment,
  client_create,
}
use kazakh_express.Gateway.Payments.Relay.{view, direct_input, create_passes}

method_shown :
    (m : Model.Method)
    → known_method m ≡ true
    → method_from_proto (Grpc.method_to_proto m) ≡ method_text m
unfolding method_from_proto Grpc.method_to_proto
method_shown Model.card h = refl
method_shown Model.kaspi h = refl
method_shown Model.wallet h = refl
method_shown (Model.other_method s) h = cc

status_shown :
    (s : Model.Status)
    → known_status s ≡ true
    → status_from_proto (Grpc.status_to_proto s) ≡ status_text s
unfolding status_from_proto Grpc.status_to_proto
status_shown Model.pending h = refl
status_shown Model.succeeded h = refl
status_shown Model.failed h = refl
status_shown Model.refunded h = refl
status_shown Model.cancelled h = refl
status_shown (Model.other_status s) h = cc

-- A payment with a known method and status, which is what the table admits, comes through the
-- messages to the client of the gateway with every field: its method and status are the texts
-- that the service reads back, and its times the texts of `format`.
pub view_round_trip :
    (format : ℕ → String) (p : Model.Payment)
    → known_method p.method ≡ true
    → known_status p.status ≡ true
    → let v = view format p in
      (v ≡ record {
        id = p.id;
        order_id = p.order_id;
        customer_id = p.customer_id;
        customer_email = p.customer_email;
        amount_kzt = p.amount_kzt;
        method = method_text p.method;
        status = status_text p.status;
        provider_transaction_id = p.provider_transaction_id;
        idempotency_key = p.idempotency_key;
        refund_reason = p.refund_reason;
        failure_reason = p.failure_reason;
        created_at = format p.created_at;
        updated_at = format p.updated_at;
      })
      × (method_of v.method ≡ p.method)
      × (status_of v.status ≡ p.status)
unfolding payment_to_proto payment_from_proto
view_round_trip format p m s =
    let hm = method_shown p.method m in
    let hs = status_shown p.status s in
    (
      rw (hm, hs),
      ap method_of hm ∙ method_of-method_text p.method m,
      ap status_of hs ∙ status_of-status_text p.status s,
    )

module _ (env : Env) (format : ℕ → String) (ttl : ℕ) (provider : Provider)
    (i : CreatePaymentRequest) (w : World Db) where
  delivered :
      {p : Model.Payment} {w' : World Db}
      → Service.create env ttl provider (direct_input i) w ≡ (ok p, w')
      → create_payment done env format ttl provider (some i) w
        ≡ (record { status = 201; body = one (view format p) }, w')
  unfolding create_payment client_create Grpc.create_payment respond remote ◌>>=◌
  delivered h = rw (create_passes env format ttl provider i w ∙ h)

  unanswered :
      {p : Model.Payment} {w' : World Db}
      → Service.create env ttl provider (direct_input i) w ≡ (ok p, w')
      → create_payment lost env format ttl provider (some i) w
        ≡ (bad_gateway (fault "unavailable"), w')
  unfolding create_payment client_create Grpc.create_payment respond remote ◌>>=◌
  unanswered h = rw (create_passes env format ttl provider i w ∙ h)

-- A creation under a new key that the payment service has answered, but whose answer is lost on the
-- way to the gateway, is 502 for the client. Sent again before the key expires, and with the two
-- stores up, it is answered 201 with the payment of the first time, its times in microseconds, whatever
-- the provider would now say, and no table, log or charge changes.
pub lost_create_repeated :
    (env env' : Env) (format : ℕ → String) (ttl : ℕ) (provider provider' : Provider)
    (i : CreatePaymentRequest) (w : World Db) {p : Model.Payment}
    → (Repository.get_payment_id env i.idempotency_key w).0 ≡ ok none
    → (Service.create env ttl provider (direct_input i) w).0 ≡ ok p
    → env'.outcome (Service.create env ttl provider (direct_input i) w).1.tick ≡ done
    → env'.outcome ((Service.create env ttl provider (direct_input i) w).1.tick + 1) ≡ done
    → env'.now (Service.create env ttl provider (direct_input i) w).1.tick
      < env.now (w.tick + 4) + ttl
    → let first = create_payment lost env format ttl provider (some i) w in
      let again = create_payment done env' format ttl provider' (some i) first.1 in
      (first.0.status ≡ 502)
      × (again.0 ≡ record { status = 201; body = one (view format (as_row p)) })
      × (again.1.db ≡ first.1.db)
lost_create_repeated env env' format ttl provider provider' i w {p} unknown h up up' early =
    let w' = (Service.create env ttl provider (direct_input i) w).1 in
    let lost_once =
      unanswered env format ttl provider i w {p = p} {w' = w'} (ap (λ r. (r, w')) h) in
    let again =
      delivered env' format ttl provider' i w'
        (create_again env env' ttl provider provider' (direct_input i) w unknown h up up' early) in
    (ap (λ x. x.0.status) lost_once, rw (lost_once, again), rw (lost_once, again))
