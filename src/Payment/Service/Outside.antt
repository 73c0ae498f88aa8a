-- ===== src/Payment/Service/Outside.antt =====
-- The calls of payment-service/internal/payment/service.go: messaging/nats.go, email/grpc.go and
-- provider/mock.go.
use kazakh_express.Base.{ℕ, String, not, ◌&&◌, List, [], ◌∷◌, ◌++◌, is_empty, if◌then◌else◌}
use kazakh_express.Base.Int.{pos, ltb_ℤ}
use kazakh_express.Base.Decimal.{concat}
use kazakh_express.Effect.{ok, Env, Action, pure, call, get_time, ◌>>=◌, writes}
use kazakh_express.Payment.Model.{
  succeeded, failed, Payment, ProviderResult, PaymentEvent, Email, Topic, Db, is_wallet, subject,
}

-- `PaymentProvider`: what a charge answers. A call that fails is an outcome of the environment.
abbrev pub Provider : Type 0
Provider = Payment → ProviderResult

-- `MockProvider.Charge`
unfoldable pub mock_charge : Provider
mock_charge p =
    let id = concat "mock-" p.id in
    if is_wallet p.method && ltb_ℤ (pos 500000) p.amount_kzt
    then record {
      status = failed;
      provider_transaction_id = id;
      failure_reason = "wallet limit exceeded";
    }
    else record { status = succeeded; provider_transaction_id = id; failure_reason = "" }

-- The broker, the mail service and the provider log what reaches them.
unfoldable pub publish : Env → Topic → PaymentEvent → Action Db (Unit {0})
publish env topic event =
    call env (concat "publish " (subject topic))
      (writes (λ d. record d { published = d.published ++ (topic, event) ∷ [] }))

unfoldable pub send : Env → Email → Action Db (Unit {0})
send env email = call env "send email" (writes (λ d. record d { mailed = d.mailed ++ email ∷ [] }))

unfoldable pub charge : Env → Provider → Payment → Action Db ProviderResult
charge env provider p =
    call env "charge" (λ t d. (ok (provider p), record d { charged = d.charged ++ p ∷ [] }))

unfoldable pub first_non_empty : List String → String
first_non_empty [] = ""
first_non_empty (v ∷ vs) = if not (is_empty v) then v else first_non_empty vs

-- `paymentEvent`, at the time that it reads.
unfoldable pub event_of : ℕ → Payment → PaymentEvent
unfolding first_non_empty
event_of now p = record {
  payment_id = p.id;
  order_id = p.order_id;
  customer_id = p.customer_id;
  amount_kzt = p.amount_kzt;
  status = p.status;
  reason = first_non_empty (p.refund_reason ∷ p.failure_reason ∷ []);
  provider_transaction_id = p.provider_transaction_id;
  occurred_at = now;
}

unfoldable pub payment_event : Env → Payment → Action Db PaymentEvent
payment_event env p = do now ← get_time env; pure (event_of now p)
