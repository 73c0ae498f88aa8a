-- ===== src/Gateway/Payments/Tests.antt =====
-- Payments through the gateway on concrete inputs.
use kazakh_express.Base.{◌≡◌, refl, [], some, arith}
use kazakh_express.Base.Int.{pos}
use kazakh_express.Base.Decimal.{decimal}
use kazakh_express.Effect.{done, lost, Env, World, ◌>>=◌}
use kazakh_express.Http.{one}
use kazakh_express.Http.Relayed.{IsRelayed}
use kazakh_express.Payment.Model
use kazakh_express.Payment.Model.{Db}
use kazakh_express.Payment.Text.{method_of, status_of}
use kazakh_express.Payment.Repository
use kazakh_express.Payment.Repository.{as_row}
use kazakh_express.Payment.Service
use kazakh_express.Payment.Service.{
  create_with, create_new, open_payment, payment_event, publish, charge_payment, charge, settle_as,
  announce, announce_success, send, first_non_empty, mock_charge, event_of,
}
use kazakh_express.Payment.Http
use kazakh_express.Gateway.Payments.{CreatePaymentRequest, Request, serve, create_payment}
use kazakh_express.Gateway.Payments.Relay.{view, direct, gateway_payment}
use kazakh_express.Gateway.Payments.Retry.{view_round_trip, lost_create_repeated}

-- No fault, and a clock that is the tick.
abbrev calm : Env
calm = record { outcome = λ n. done; now = λ n. n; uuid = decimal }

abbrev purchase : CreatePaymentRequest
purchase = record {
  order_id = "o2";
  customer_id = "c1";
  customer_email = "c1@mail.kz";
  amount_kzt = pos 700;
  method = "kaspi";
  idempotency_key = "k2";
}

abbrev no_payment : World Db
no_payment = record {
  db = record {
    payments = [];
    events = [];
    refunds = [];
    saved = [];
    published = [];
    charged = [];
    mailed = [];
  };
  tick = 0;
}

abbrev bought : Model.Payment
bought = record {
  id = "pay-2";
  order_id = "o2";
  customer_id = "c1";
  customer_email = "c1@mail.kz";
  amount_kzt = pos 700;
  method = Model.kaspi;
  status = Model.succeeded;
  provider_transaction_id = "mock-pay-2";
  idempotency_key = "k2";
  refund_reason = "";
  failure_reason = "";
  created_at = 1;
  updated_at = 9;
}

gateway_payment_example :
    let r = Request.create (some purchase) in
    let s = Http.serve calm 100 mock_charge (direct r) no_payment in
    let g = serve done calm decimal 100 mock_charge r no_payment in
    IsRelayed (view decimal) s.0 g.0 × (g.1 ≡ s.1)
gateway_payment_example =
    gateway_payment calm decimal 100 mock_charge (Request.create (some purchase)) no_payment

view_round_trip_example :
    let v = view decimal bought in
    (v ≡ record {
      id = "pay-2";
      order_id = "o2";
      customer_id = "c1";
      customer_email = "c1@mail.kz";
      amount_kzt = pos 700;
      method = "kaspi";
      status = "succeeded";
      provider_transaction_id = "mock-pay-2";
      idempotency_key = "k2";
      refund_reason = "";
      failure_reason = "";
      created_at = decimal 1;
      updated_at = decimal 9;
    })
    × (method_of v.method ≡ Model.kaspi)
    × (status_of v.status ≡ Model.succeeded)
view_round_trip_example = view_round_trip decimal bought refl refl

lost_create_repeated_example :
    let first = create_payment lost calm decimal 100 mock_charge (some purchase) no_payment in
    let again = create_payment done calm decimal 100 mock_charge (some purchase) first.1 in
    (first.0.status ≡ 502)
    × (again.0 ≡ record { status = 201; body = one (view decimal (as_row bought)) })
    × (again.1.db ≡ first.1.db)
unfolding Service.create create_with create_new open_payment payment_event publish charge_payment
    charge settle_as announce announce_success send event_of first_non_empty mock_charge decimal
    ◌>>=◌ Repository.get_payment_id Repository.create Repository.save_payment_id
    Repository.append_event Repository.update method_of
lost_create_repeated_example =
    lost_create_repeated calm calm decimal 100 mock_charge mock_charge purchase no_payment refl refl
      refl refl (omega arith)
