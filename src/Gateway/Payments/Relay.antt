-- ===== src/Gateway/Payments/Relay.antt =====
-- The routes of the gateway beside those of the payment service itself.
use kazakh_express.Base.{
  ℕ, String, Option, none, some, ◌≡◌, refl, sym, ap, ◌∙◌, subst, ◌⊎◌, inl, inr, true, false,
  Bool-cases, is_empty, ◌==◌, arith,
}
use kazakh_express.Effect.{
  Error, done, Env, World, ◌>>=◌, invalid_input, err, invalid_state, not_found, rejected, fault,
}
use kazakh_express.Http.{respond, answer, remote, one, bad_gateway}
use kazakh_express.Http.Relayed.{IsRelayed, relay_one, relay_many}
use kazakh_express.Payment.Model
use kazakh_express.Payment.Model.{CreateInput, Db}
use kazakh_express.Payment.Text.{method_of}
use kazakh_express.Payment.Service
use kazakh_express.Payment.Service.{Provider, is_invalid}
use kazakh_express.Payment.Repository.{known_method}
use kazakh_express.Payment.Run.{Op}
use kazakh_express.Payment.Outcomes.{invalid_call_refused}
use kazakh_express.Payment.Http
use kazakh_express.Payment.Http.{service_error}
use kazakh_express.Payment.Grpc
use kazakh_express.Payment.Grpc.{input_of, payment_to_proto}
use kazakh_express.Gateway.Payments.{
  Payment, CreatePaymentRequest, Request, create_message, payment_from_proto, method_to_proto,
  serve, create_payment, client_create, client_health, client_list, client_get,
  client_get_by_order_id, client_refund, client_confirm, client_cancel, refund_payment,
  confirm_payment, cancel_payment,
}

-- The payment that the client of the gateway sees.
abbrev pub view : (ℕ → String) → Model.Payment → Payment
view format p = payment_from_proto (payment_to_proto format p)

-- The input that the service reads from the same JSON.
abbrev pub direct_input : CreatePaymentRequest → CreateInput
direct_input i = record {
  order_id = i.order_id;
  customer_id = i.customer_id;
  customer_email = i.customer_email;
  amount_kzt = i.amount_kzt;
  method = method_of i.method;
  idempotency_key = i.idempotency_key;
}

abbrev pub direct_body : Option CreatePaymentRequest → Option CreateInput
direct_body none = none
direct_body (some i) = some (direct_input i)

-- The same request on the routes of the service.
abbrev pub direct : Request → Http.Request
direct Request.health = Http.Request.health
direct (Request.create i) = Http.Request.create (direct_body i)
direct (Request.list id) = Http.Request.list id
direct (Request.by_order id) = Http.Request.by_order id
direct (Request.by_id id) = Http.Request.by_id id
direct (Request.refund id i) = Http.Request.refund id i
direct (Request.confirm id i) = Http.Request.confirm id i
direct (Request.cancel id i) = Http.Request.cancel id i

errors-IsRelayed :
    (format : ℕ → String) (e : Error) → IsRelayed (view format) (service_error e) (bad_gateway e)
unfolding service_error
errors-IsRelayed format invalid_input = refl
errors-IsRelayed format invalid_state = refl
errors-IsRelayed format not_found = refl
errors-IsRelayed format (rejected t) = refl
errors-IsRelayed format (fault t) = refl

-- The method of the message is the one of the text, or none that the service knows.
method_passes :
    (i : CreatePaymentRequest)
    → (Grpc.method_from_proto (method_to_proto i.method) ≡ method_of i.method)
      ⊎ ((Grpc.method_from_proto (method_to_proto i.method) ≡ Model.other_method "")
          × (method_of i.method ≡ Model.other_method i.method))
unfolding Grpc.method_from_proto method_to_proto method_of
method_passes i = elim (Bool-cases (i.method == "card")) [
  | inl h ↦ inl (rw h)
  | inr h ↦ elim (Bool-cases (i.method == "kaspi")) [
    | inl h' ↦ inl (rw (h, h'))
    | inr h' ↦ elim (Bool-cases (i.method == "wallet")) [
      | inl h'' ↦ inl (rw (h, h', h''))
      | inr h'' ↦ inr (rw (h, h', h''), rw (h, h', h''))
    ]
  ]
]

unknown_method_invalid : (i : CreateInput) → known_method i.method ≡ false → is_invalid i ≡ true
unknown_method_invalid i h = ground arith

module _ (env : Env) (format : ℕ → String) (ttl : ℕ) (provider : Provider) where
  refused_method :
      (i : CreateInput) (w : World Db)
      → known_method i.method ≡ false
      → Service.create env ttl provider i w ≡ (err invalid_input, w)
  refused_method i w h =
      invalid_call_refused env ttl provider (Op.create i) w (unknown_method_invalid i h)

  -- Both inputs of a creation have the same effect and the same answer.
  pub create_passes :
      (i : CreatePaymentRequest) (w : World Db)
      → Service.create env ttl provider (input_of (create_message i)) w
        ≡ Service.create env ttl provider (direct_input i) w
  unfolding input_of create_message
  create_passes i w =
      let paid_by : Model.Method → CreateInput = λ m. record (direct_input i) { method = m } in
      elim (method_passes i) [
        | inl h ↦ ap (λ m. Service.create env ttl provider (paid_by m) w) h
        | inr (h, h') ↦
            ap (λ m. Service.create env ttl provider (paid_by m) w) h
            ∙ refused_method (paid_by (Model.other_method "")) w refl
            ∙ sym (refused_method (direct_input i) w (ap known_method h'))
      ]

  create-IsRelayed :
      (i : Option CreatePaymentRequest) (w : World Db)
      → let s = Http.create_payment env ttl provider (direct_body i) w in
        let g = create_payment done env format ttl provider i w in
        IsRelayed (view format) s.0 g.0 × (g.1 ≡ s.1)
  unfolding Http.create_payment create_payment client_create Grpc.create_payment answer respond
  create-IsRelayed none w = (refl, refl)
  create-IsRelayed (some i) w =
      subst
        (λ r.
          let g = create_payment done env format ttl provider (some i) w in
          let s = respond service_error 201 one (λ _. r) w in
          IsRelayed (view format) s.0 g.0 × (g.1 ≡ s.1))
        (create_passes i w)
        (relay_one (payment_to_proto format) payment_from_proto service_error
          (errors-IsRelayed format) 201
          (Service.create env ttl provider (input_of (create_message i))) w)

  -- A request on a route of the gateway whose call is delivered leaves the payment service in the
  -- state in which the same request on the service's own route leaves it. The answer has the same
  -- status and shows the same payments; an error of the service is 502 here.
  pub gateway_payment :
      (r : Request) (w : World Db)
      → let s = Http.serve env ttl provider (direct r) w in
        let g = serve done env format ttl provider r w in
        IsRelayed (view format) s.0 g.0 × (g.1 ≡ s.1)
  unfolding Http.serve Http.list_payments Http.refund_payment Http.confirm_payment
      Http.cancel_payment serve client_health client_list client_get client_get_by_order_id
      refund_payment client_refund confirm_payment client_confirm cancel_payment client_cancel
      Grpc.get_payment Grpc.get_payment_by_order_id Grpc.list_payments Grpc.listed
      Grpc.refund_payment Grpc.confirm_payment Grpc.cancel_payment answer respond remote ◌>>=◌
  gateway_payment Request.health w = (refl, refl)
  gateway_payment (Request.create i) w = create-IsRelayed i w
  gateway_payment (Request.list id) w = elim (Bool-cases (is_empty id)) [
    | inl h ↦ rw h (
        relay_many (payment_to_proto format) payment_from_proto service_error
          (errors-IsRelayed format) 200 (Service.list env) w)
    | inr h ↦ rw h (
        relay_many (payment_to_proto format) payment_from_proto service_error
          (errors-IsRelayed format) 200 (Service.list_by_customer_id env id) w)
  ]
  gateway_payment (Request.by_order id) w =
      relay_one (payment_to_proto format) payment_from_proto service_error (errors-IsRelayed format)
        200 (Service.get_by_order_id env id) w
  gateway_payment (Request.by_id id) w =
      relay_one (payment_to_proto format) payment_from_proto service_error (errors-IsRelayed format)
        200 (Service.get_by_id env id) w
  gateway_payment (Request.refund id none) w = (refl, refl)
  gateway_payment (Request.refund id (some i)) w =
      relay_one (payment_to_proto format) payment_from_proto service_error (errors-IsRelayed format)
        200 (Service.refund_payment env (record i { payment_id = id })) w
  gateway_payment (Request.confirm id none) w = (refl, refl)
  gateway_payment (Request.confirm id (some i)) w =
      relay_one (payment_to_proto format) payment_from_proto service_error (errors-IsRelayed format)
        200 (Service.confirm env (record i { payment_id = id })) w
  gateway_payment (Request.cancel id none) w = (refl, refl)
  gateway_payment (Request.cancel id (some i)) w =
      relay_one (payment_to_proto format) payment_from_proto service_error (errors-IsRelayed format)
        200 (Service.cancel env (record i { payment_id = id })) w
