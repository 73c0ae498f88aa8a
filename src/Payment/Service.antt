-- ===== src/Payment/Service.antt =====
-- payment-service/internal/payment/service.go: the reads, `Refund`, `Confirm` and `Cancel`, with
-- `Create` and the outside calls of the children.
mod Outside
mod Create
use kazakh_express.Base.{
  ℕ, String, Bool, not, ◌&&◌, ◌||◌, Option, none, some, List, [], ◌∷◌, ◌++◌, is_empty,
  if◌then◌else◌,
}
use kazakh_express.Base.Int.{pos, ltb_ℤ, leb_ℤ}
use kazakh_express.Base.Decimal.{concat}
use kazakh_express.Effect.{
  ok, invalid_input, invalid_state, Env, Action, pure, raise, raise_if, call, get_time, new_uuid,
  ◌>>=◌, ◌>>◌, writes,
}
use kazakh_express.Payment.Model.{
  Status, pending, succeeded, failed, refunded, cancelled, Payment, CreateInput, RefundInput,
  CancelInput, ConfirmInput, ProviderResult, PaymentEvent, Email, receipt, refund, failure, Topic,
  payment_created, payment_succeeded, payment_failed, payment_refunded, payment_cancelled, Db,
  is_succeeded, is_pending, is_failed, is_refunded, is_cancelled, is_wallet, subject,
}
use kazakh_express.Payment.Repository
use kazakh_express.Payment.Repository.{known_method}
unfoldable pub use kazakh_express.Payment.Service.Outside.*
unfoldable pub use kazakh_express.Payment.Service.Create.*

-- The fields that `Refund`, `Confirm` and `Cancel` assign before `s.repo.Update`.
abbrev pub as_refunded : RefundInput → ℕ → Payment → Payment
as_refunded input now p = record p {
  status = refunded;
  refund_reason = input.reason;
  updated_at = now;
}

abbrev pub as_confirmed : ConfirmInput → ℕ → Payment → Payment
as_confirmed input now p = record p {
  status = succeeded;
  provider_transaction_id = input.provider_transaction_id;
  updated_at = now;
}

abbrev pub as_cancelled : CancelInput → ℕ → Payment → Payment
as_cancelled input now p = record p {
  status = cancelled;
  failure_reason = input.reason;
  updated_at = now;
}

-- `GetByID`
unfoldable pub get_by_id : Env → String → Action Db Payment
get_by_id env id = do raise_if (is_empty id) invalid_input; Repository.get_by_id env id

unfoldable pub list : Env → Action Db (List Payment)
list env = Repository.list env (record { customer_id = "" })

-- `ListByCustomerID`
unfoldable pub list_by_customer_id : Env → String → Action Db (List Payment)
list_by_customer_id env customer_id = do
  raise_if (is_empty customer_id) invalid_input
  Repository.list env (record { customer_id = customer_id })

-- `GetByOrderID`
unfoldable pub get_by_order_id : Env → String → Action Db Payment
get_by_order_id env order_id = do
  raise_if (is_empty order_id) invalid_input
  Repository.get_by_order_id env order_id

-- The end of `Refund`: the event, the broker and the mail.
unfoldable pub announce_refund : Env → RefundInput → Payment → Action Db Payment
announce_refund env input updated = do
  e ← payment_event env updated
  let event = record e { reason = input.reason }
  Repository.append_event env event
  publish env payment_refunded event
  send env (
      refund updated.customer_email updated.id updated.order_id updated.amount_kzt
        updated.refund_reason)
  pure updated

-- `Refund`, after its guard, from the row that was read.
unfoldable pub refund_row : Env → RefundInput → Payment → Action Db Payment
refund_row env input p = do
  raise_if (is_refunded p.status) invalid_state
  raise_if (not (is_succeeded p.status)) invalid_state
  now ← get_time env
  updated ← Repository.update env (as_refunded input now p)
  announce_refund env input updated

unfoldable pub refund_payment : Env → RefundInput → Action Db Payment
refund_payment env input = do
  raise_if (is_empty input.payment_id || is_empty input.reason) invalid_input
  p ← Repository.get_by_id env input.payment_id
  refund_row env input p

-- The end of `Confirm`. The source returns the payment beside an error of the mail service.
unfoldable pub announce_confirmed : Env → Payment → Action Db Payment
announce_confirmed env updated = do
  event ← payment_event env updated
  Repository.append_event env event
  publish env payment_succeeded event
  send env (receipt updated.customer_email updated.id updated.order_id updated.amount_kzt)
  pure updated

-- `Confirm`, from the row that was read.
unfoldable pub confirm_pending : Env → ConfirmInput → Payment → Action Db Payment
confirm_pending env input p = do
  raise_if (not (is_pending p.status)) invalid_state
  now ← get_time env
  updated ← Repository.update env (as_confirmed input now p)
  announce_confirmed env updated

unfoldable pub confirm : Env → ConfirmInput → Action Db Payment
confirm env input = do
  raise_if (is_empty input.payment_id || is_empty input.provider_transaction_id) invalid_input
  p ← Repository.get_by_id env input.payment_id
  if is_succeeded p.status then pure p else confirm_pending env input p

-- The end of `Cancel`: the event and the broker.
unfoldable pub announce_cancelled : Env → CancelInput → Payment → Action Db Payment
announce_cancelled env input updated = do
  e ← payment_event env updated
  let event = record e { reason = input.reason }
  Repository.append_event env event
  publish env payment_cancelled event
  pure updated

-- `Cancel`, from the row that was read.
unfoldable pub cancel_row : Env → CancelInput → Payment → Action Db Payment
cancel_row env input p = do
  raise_if (is_refunded p.status || is_cancelled p.status) invalid_state
  now ← get_time env
  updated ← Repository.update env (as_cancelled input now p)
  announce_cancelled env input updated

unfoldable pub cancel : Env → CancelInput → Action Db Payment
cancel env input = do
  raise_if (is_empty input.payment_id || is_empty input.reason) invalid_input
  p ← Repository.get_by_id env input.payment_id
  cancel_row env input p
