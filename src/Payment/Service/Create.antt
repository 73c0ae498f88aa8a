-- ===== src/Payment/Service/Create.antt =====
-- `Create` of payment-service/internal/payment/service.go.
use kazakh_express.Base.{ℕ, String, Bool, not, ◌||◌, Option, none, some, is_empty, if◌then◌else◌}
use kazakh_express.Base.Int.{pos, leb_ℤ}
use kazakh_express.Base.Decimal.{concat}
use kazakh_express.Effect.{
  invalid_input, invalid_state, Env, Action, pure, raise, raise_if, get_time, new_uuid, ◌>>=◌, ◌>>◌,
}
use kazakh_express.Payment.Model.{
  Status, pending, succeeded, failed, Payment, CreateInput, ProviderResult, PaymentEvent, receipt,
  failure, payment_created, payment_succeeded, payment_failed, Db, is_failed,
}
use kazakh_express.Payment.Repository
use kazakh_express.Payment.Repository.{known_method}
use kazakh_express.Payment.Service.Outside.{Provider, publish, send, charge, payment_event}

-- The guard of `Create`.
abbrev pub is_invalid : CreateInput → Bool
is_invalid input =
    is_empty input.order_id
    || is_empty input.customer_id
    || is_empty input.customer_email
    || leb_ℤ input.amount_kzt (pos 0)
    || not (known_method input.method)
    || is_empty input.idempotency_key

abbrev pub new_payment : CreateInput → String → ℕ → Payment
new_payment input uuid now = record {
  id = concat "pay-" uuid;
  order_id = input.order_id;
  customer_id = input.customer_id;
  customer_email = input.customer_email;
  amount_kzt = input.amount_kzt;
  method = input.method;
  status = pending;
  provider_transaction_id = "";
  idempotency_key = input.idempotency_key;
  refund_reason = "";
  failure_reason = "";
  created_at = now;
  updated_at = now;
}

-- `Create` up to the call of the provider: the row, the idempotency key, the event.
unfoldable pub open_payment : Env → ℕ → CreateInput → Action Db Payment
open_payment env ttl input = do
  now ← get_time env
  uuid ← new_uuid env
  created ← Repository.create env (new_payment input uuid now)
  Repository.save_payment_id env ttl input.idempotency_key created.id
  event ← payment_event env created
  Repository.append_event env event
  publish env payment_created event
  pure created

-- The `switch` on the provider's status.
abbrev pub charged_status : Status → Option Status
charged_status succeeded = some succeeded
charged_status failed = some failed
charged_status _ = none

-- The fields that `Create` assigns before `s.repo.Update`.
abbrev pub as_charged : ProviderResult → Status → ℕ → Payment → Payment
as_charged result status now p = record p {
  provider_transaction_id = result.provider_transaction_id;
  failure_reason = result.failure_reason;
  status = status;
  updated_at = now;
}

unfoldable pub settle_as : Env → Payment → ProviderResult → Option Status → Action Db Payment
settle_as env created result none = raise invalid_state
settle_as env created result (some status) = do
  now ← get_time env
  Repository.update env (as_charged result status now created)

-- The part from `s.provider.Charge` to `s.repo.Update`.
unfoldable pub charge_payment : Env → Provider → Payment → Action Db Payment
charge_payment env provider created = do
  result ← charge env provider created
  settle_as env created result (charged_status result.status)

unfoldable pub announce_failure : Env → PaymentEvent → Payment → Action Db Payment
announce_failure env event p = do
  publish env payment_failed event
  send env (failure p.customer_email p.id p.order_id p.amount_kzt p.failure_reason)
  pure p

unfoldable pub announce_success : Env → PaymentEvent → Payment → Action Db Payment
announce_success env event p = do
  publish env payment_succeeded event
  send env (receipt p.customer_email p.id p.order_id p.amount_kzt)
  pure p

-- The rest of `Create`: the event, the broker and the mail.
unfoldable pub announce : Env → Payment → Action Db Payment
announce env updated = do
  event ← payment_event env updated
  Repository.append_event env event
  if is_failed updated.status
      then announce_failure env event updated
      else announce_success env event updated

unfoldable pub create_new : Env → ℕ → Provider → CreateInput → Action Db Payment
create_new env ttl provider input = do
  created ← open_payment env ttl input
  updated ← charge_payment env provider created
  announce env updated

-- A key that is known answers the stored payment.
unfoldable pub create_with : Env → ℕ → Provider → CreateInput → Option String → Action Db Payment
create_with env ttl provider input none = create_new env ttl provider input
create_with env ttl provider input (some id) = Repository.get_by_id env id

-- `Create`
unfoldable pub create : Env → ℕ → Provider → CreateInput → Action Db Payment
create env ttl provider input = do
  raise_if (is_invalid input) invalid_input
  saved ← Repository.get_payment_id env input.idempotency_key
  create_with env ttl provider input saved
