-- ===== src/Payment/Tests.antt =====
-- The payment service on concrete inputs.
use kazakh_express.Base.{◌+◌, ◌≡◌, refl, List, [], ◌∷◌, some, arith}
use kazakh_express.Base.Int.{pos}
use kazakh_express.Base.Decimal.{decimal}
use kazakh_express.Base.Table.{find, update_where}
use kazakh_express.Effect.{Result, ok, done, Env, World, ◌>>=◌}
use kazakh_express.Payment.Model.{
  Payment, CreateInput, RefundInput, Db, Status, card, pending, succeeded, refunded, refund,
  payment_refunded,
}
use kazakh_express.Payment.Repository
use kazakh_express.Payment.Repository.{as_row, event_row, micros, set_columns}
use kazakh_express.Payment.Service.{
  create_with, create_new, open_payment, payment_event, publish, charge_payment, charge, settle_as,
  announce, announce_success, send, first_non_empty, mock_charge, create, refund_payment,
  as_refunded, event_of,
}
use kazakh_express.Payment.Machine.{Evolves}
use kazakh_express.Payment.Run.{Op, apply, run, IsSound, apply_moves, run-IsSound, run-final}
use kazakh_express.Payment.Ledger.{IsLedger}
use kazakh_express.Payment.Refunds.{run-IsLedger}
use kazakh_express.Payment.Outcomes.{refund_payment-done}
use kazakh_express.Payment.Idempotency.{create_again}

-- No fault, and a clock that is the tick.
abbrev calm : Env
calm = record { outcome = λ n. done; now = λ n. n; uuid = decimal }

abbrev stored_payment : Status → Payment
stored_payment status = record {
  id = "p1";
  order_id = "o1";
  customer_id = "c1";
  customer_email = "c1@mail.kz";
  amount_kzt = pos 25000;
  method = card;
  status = status;
  provider_transaction_id = "";
  idempotency_key = "k1";
  refund_reason = "";
  failure_reason = "";
  created_at = 0;
  updated_at = 0;
}

abbrev holding : List Payment → World Db
holding ps = record {
  db = record {
    payments = ps;
    events = [];
    refunds = [];
    saved = [];
    published = [];
    charged = [];
    mailed = [];
  };
  tick = 0;
}

abbrev with_payment : Status → World Db
with_payment status = holding (stored_payment status ∷ [])

abbrev purchase : CreateInput
purchase = record {
  order_id = "o2";
  customer_id = "c1";
  customer_email = "c1@mail.kz";
  amount_kzt = pos 700;
  method = card;
  idempotency_key = "k2";
}

abbrev refund_p1 : RefundInput
refund_p1 = record { payment_id = "p1"; reason = "broken" }

abbrev calls : List Op
calls = Op.create purchase ∷ Op.refund refund_p1 ∷ Op.refund refund_p1 ∷ Op.create purchase ∷ []

with_payment-IsSound : (status : Status) → IsSound (with_payment status).db
with_payment-IsSound status = record {
  ids = (refl, tt);
  idempotency_keys = (refl, tt);
  charges = tt;
  charged_rows = λ k c. cc c;
}

with_payment-IsLedger : (status : Status) → IsLedger (with_payment status).db
with_payment-IsLedger status = record { once = tt; rows = λ k r found. cc }

apply_moves_example :
    (q : Payment) × (find
        (λ r. r.id)
        "p1"
        (apply calm 100 mock_charge (Op.refund refund_p1) (with_payment succeeded)).db.payments
      ≡ some q)
    × Evolves (stored_payment succeeded) q
apply_moves_example =
    apply_moves calm 100 mock_charge (Op.refund refund_p1) (with_payment succeeded) "p1"
      (stored_payment succeeded) refl

run-IsSound_example : IsSound (run calm 100 mock_charge calls (with_payment succeeded)).db
run-IsSound_example =
    run-IsSound calm 100 mock_charge calls (with_payment succeeded) (with_payment-IsSound succeeded)

run-IsLedger_example : IsLedger (run calm 100 mock_charge calls (with_payment succeeded)).db
run-IsLedger_example =
    run-IsLedger calm 100 mock_charge calls (with_payment succeeded)
      (with_payment-IsLedger succeeded)

run-final_example :
    (q : Payment) × (find
        (λ r. r.id)
        "p1"
        (run calm 100 mock_charge calls (with_payment refunded)).db.payments
      ≡ some q)
    × (q.status ≡ refunded)
    × (q.amount_kzt ≡ pos 25000)
    × (q.order_id ≡ "o1")
run-final_example =
    run-final calm 100 mock_charge calls (with_payment refunded) "p1" (stored_payment refunded) refl
      refl

abbrev bought : Result Payment × World Db
bought = create calm 100 mock_charge purchase (with_payment pending)

abbrev new_row : Payment
new_row = record {
  id = "pay-2";
  order_id = "o2";
  customer_id = "c1";
  customer_email = "c1@mail.kz";
  amount_kzt = pos 700;
  method = card;
  status = succeeded;
  provider_transaction_id = "mock-pay-2";
  idempotency_key = "k2";
  refund_reason = "";
  failure_reason = "";
  created_at = 1;
  updated_at = 9;
}

-- What the first purchase answers.
bought_row : bought.0 ≡ ok new_row
unfolding create create_with create_new open_payment payment_event publish charge_payment charge
    settle_as announce announce_success send event_of first_non_empty mock_charge decimal ◌>>=◌
    Repository.get_payment_id Repository.create Repository.save_payment_id Repository.append_event
    Repository.update
bought_row = refl

create_again_example :
    create calm 100 mock_charge purchase bought.1
    ≡ (ok (as_row new_row), record { db = bought.1.db; tick = bought.1.tick + 1 + 1 })
unfolding create create_with create_new open_payment payment_event publish charge_payment charge
    settle_as announce announce_success send event_of first_non_empty mock_charge decimal ◌>>=◌
    Repository.get_payment_id Repository.create Repository.save_payment_id Repository.append_event
    Repository.update
create_again_example =
    create_again calm calm 100 mock_charge mock_charge purchase (with_payment pending) refl refl
      refl refl (omega arith)

refund_payment-done_example :
    let w = with_payment succeeded in
    let q = as_refunded refund_p1 1 (stored_payment succeeded) in
    let event = record (event_of 3 q) { reason = "broken" } in
    let d' = (refund_payment calm refund_p1 w).1.db in
    ((refund_payment calm refund_p1 w).0 ≡ ok q)
    × (d'.payments ≡ update_where (λ r. r.id) "p1" (set_columns q) w.db.payments)
    × (d'.events ≡ event_row event ∷ [])
    × (d'.refunds
        ≡ record {
          payment_id = "p1";
          reason = "broken";
          amount_kzt = pos 25000;
          created_at = micros event.occurred_at;
        }
          ∷ [])
    × (d'.published ≡ (payment_refunded, event) ∷ [])
    × (d'.mailed ≡ refund "c1@mail.kz" "p1" "o1" (pos 25000) "broken" ∷ [])
refund_payment-done_example =
    refund_payment-done calm refund_p1 (with_payment succeeded) (stored_payment succeeded)
      (λ n. refl) refl refl refl
