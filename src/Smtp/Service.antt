-- ===== src/Smtp/Service.antt =====
-- smtp-service/internal/smtp/service.go.
use kazakh_express.Base.{
  ℕ, String, ◌||◌, not, Option, none, some, List, [], ◌∷◌, ◌++◌, is_empty, ltb, leb, if◌then◌else◌,
}
use kazakh_express.Base.Int.{ℤ}
use kazakh_express.Base.Decimal.{concat, decimal, texts, number_text}
use kazakh_express.Effect.{
  Error, rejected, ok, err, Result, Env, Action, raise_if, raise, call, lift, ◌>>=◌, ◌>>◌, writes,
}

pub record Config : Type 0 where
  pub host : String
  pub port : String
  pub username : String
  pub password : String
  pub from : String
  pub resend_api_key : String
  pub resend_from : String

pub record Mail : Type 0 where
  pub from : String
  pub to : String
  pub subject : String
  pub body : String

-- What Resend and the SMTP server at an address have been sent (to the server, the whole message),
-- and the dry runs that were logged; oldest first.
pub record Db : Type 0 where
  pub resend : List Mail
  pub smtp : List (String × String)
  pub dry_runs : List (String × String)

-- The status and the first 4096 bytes of the body with which Resend answers.
abbrev pub Resend : Type 0
Resend = Mail → ℕ × String

-- The first lines of `sendResend`.
unfoldable pub resend_mail : Config → String → String → String → Mail
resend_mail cfg to subject body = record {
  from = if is_empty cfg.resend_from then cfg.from else cfg.resend_from;
  to = to;
  subject = subject;
  body = body;
}

unfoldable pub smtp_message : Config → String → String → String → String
smtp_message cfg to subject body =
    texts
      ("From: " ∷ cfg.from ∷ "\r\nTo: " ∷ to ∷ "\r\nSubject: " ∷ subject ∷ "\r\n\r\n" ∷ body ∷ [])

-- The test of the status that Resend has answered.
unfoldable pub check_status : ℕ × String → Result (Unit {0})
check_status (status, body) =
    if ltb status 200 || leb 300 status
    then err (
        rejected (texts ("resend email rejected: status=" ∷ decimal status ∷ " body=" ∷ body ∷ [])))
    else ok tt

-- `sendResend`
unfoldable pub send_resend : Config → Env → Resend → String → String → String → Action Db (Unit {0})
send_resend cfg env resend to subject body = do
  let mail = resend_mail cfg to subject body
  answered ←
      call env "send resend email"
        (λ t d. (ok (resend mail), record d { resend = d.resend ++ mail ∷ [] }))
  lift (check_status answered)

-- The end of `SendEmail`; `done` is the error of a context that has ended.
unfoldable pub send_smtp :
    Config → Env → Option Error → String → String → String → Action Db (Unit {0})
send_smtp cfg env (some e) to subject body = raise e
send_smtp cfg env none to subject body = call env "send smtp email" (
    writes (λ d. record d {
      smtp =
          d.smtp ++ (texts (cfg.host ∷ ":" ∷ cfg.port ∷ []), smtp_message cfg to subject body) ∷ [];
    }))

-- A dry run is only logged.
unfoldable pub dry_run : String → String → Action Db (Unit {0})
dry_run to subject w =
    (ok tt, record w { db = record w.db { dry_runs = w.db.dry_runs ++ (to, subject) ∷ [] } })

-- The choice of `SendEmail`.
unfoldable pub carry :
    Config → Env → Resend → Option Error → String → String → String → Action Db (Unit {0})
carry cfg env resend done to subject body =
    if not (is_empty cfg.resend_api_key)
    then send_resend cfg env resend to subject body
    else if is_empty cfg.username || is_empty cfg.password
    then dry_run to subject
    else send_smtp cfg env done to subject body

unfoldable pub send_email :
    Config → Env → Resend → Option Error → String → String → String → Action Db (Unit {0})
send_email cfg env resend done to subject body = do
  raise_if (is_empty to || is_empty subject || is_empty body)
      (rejected "email to, subject and body are required")
  carry cfg env resend done to subject body

abbrev pub welcome_subject : String
welcome_subject = "Welcome to KazakhExpress"

unfoldable pub welcome_body : String → String
welcome_body first_name =
    let name = if is_empty first_name then "there" else first_name in
    concat "Hi " (
      concat name
        ",\n\nWelcome to KazakhExpress. Your account is ready, and you can now place orders, pay safely, and review products after checkout.\n\nThanks for joining us.")

abbrev pub payment_receipt_subject : String
payment_receipt_subject = "KazakhExpress payment receipt"

unfoldable pub payment_receipt_body : String → String → ℤ → String
payment_receipt_body payment_id order_id amount_kzt = concat "Payment " (
    texts (
      payment_id
      ∷ " for order "
      ∷ order_id
      ∷ " was paid successfully. Amount: "
      ∷ number_text amount_kzt
      ∷ " KZT."
      ∷ []))

abbrev pub payment_refund_subject : String
payment_refund_subject = "KazakhExpress payment refund"

unfoldable pub payment_refund_body : String → String → ℤ → String → String
payment_refund_body payment_id order_id amount_kzt reason = concat "Payment " (
    texts (
      payment_id
      ∷ " for order "
      ∷ order_id
      ∷ " was refunded. Amount: "
      ∷ number_text amount_kzt
      ∷ " KZT. Reason: "
      ∷ reason
      ∷ "."
      ∷ []))

abbrev pub payment_failure_subject : String
payment_failure_subject = "KazakhExpress payment failed"

unfoldable pub payment_failure_body : String → String → ℤ → String → String
payment_failure_body payment_id order_id amount_kzt reason = concat "Payment " (
    texts (
      payment_id
      ∷ " for order "
      ∷ order_id
      ∷ " failed. Amount: "
      ∷ number_text amount_kzt
      ∷ " KZT. Reason: "
      ∷ reason
      ∷ "."
      ∷ []))
