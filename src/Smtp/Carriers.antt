-- ===== src/Smtp/Carriers.antt =====
-- Who carries a mail.
use kazakh_express.Base.{
  ℕ, ◌≤◌, ◌<◌, String, false, ◌||◌, Option, none, [], ◌∷◌, ◌++◌, is_empty, ◌≡◌, refl, sym, ap, ◌∙◌,
  arith, if◌then◌else◌,
}
use kazakh_express.Base.Decimal.{texts}
use kazakh_express.Http.Paths.{concat-is_empty}
use kazakh_express.Effect.{Error, ok, done, Env, World, ◌>>=◌}
use kazakh_express.Payment.Model.{Email, receipt, refund, failure}
use kazakh_express.Smtp.Service
use kazakh_express.Smtp.Service.{
  Config, Db, Resend, resend_mail, smtp_message, send_resend, send_smtp, dry_run, carry,
  check_status, payment_receipt_subject, payment_receipt_body, payment_refund_subject,
  payment_refund_body, payment_failure_subject, payment_failure_body,
}
use kazakh_express.Smtp.Grpc

-- The mail at the one carrier that the configuration chooses: Resend with a key, otherwise the SMTP
-- server, and without its user or password the log.
abbrev pub carried : Config → String → String → String → Db → Db
carried cfg to subject body d =
    if is_empty cfg.resend_api_key
    then if is_empty cfg.username || is_empty cfg.password
      then record d { dry_runs = d.dry_runs ++ (to, subject) ∷ [] }
      else record d {
        smtp =
            d.smtp
            ++ (texts (cfg.host ∷ ":" ∷ cfg.port ∷ []), smtp_message cfg to subject body) ∷ [];
      }
    else record d { resend = d.resend ++ resend_mail cfg to subject body ∷ [] }

module _ (cfg : Config) (env : Env) (resend : Resend) (over : Option Error) where
  sent_carried :
      (to subject body : String) (w : World Db)
      → (Service.send_email cfg env resend over to subject body w).0 ≡ ok tt
      → (Service.send_email cfg env resend over to subject body w).1.db
        ≡ carried cfg to subject body w.db
  unfolding Service.send_email carry send_resend send_smtp dry_run check_status ◌>>=◌
  sent_carried to subject body w h = ground arith

  -- In an environment whose call has its effect, and where Resend would accept.
  accepted :
      (to subject body : String) (w : World Db)
      → (is_empty to || is_empty subject || is_empty body) ≡ false
      → env.outcome w.tick ≡ done
      → over ≡ none
      → check_status (resend (resend_mail cfg to subject body)) ≡ ok tt
      → (Service.send_email cfg env resend over to subject body w).0 ≡ ok tt
  unfolding Service.send_email carry send_resend send_smtp dry_run ◌>>=◌
  accepted to subject body w h up open_yet fine = ground arith

check_status-ok : (r : ℕ × String) → 200 ≤ r.0 → r.0 < 300 → check_status r ≡ ok tt
unfolding check_status
check_status-ok r least most = ground arith

-- The subject and the text of a mail about a payment.
abbrev pub subject_of : Email → String
subject_of (receipt to p o a) = payment_receipt_subject
subject_of (refund to p o a r) = payment_refund_subject
subject_of (failure to p o a r) = payment_failure_subject

abbrev pub body_of : Email → String
body_of (receipt to p o a) = payment_receipt_body p o a
body_of (refund to p o a r) = payment_refund_body p o a r
body_of (failure to p o a r) = payment_failure_body p o a r

abbrev pub recipient : Email → String
recipient (receipt to p o a) = to
recipient (refund to p o a r) = to
recipient (failure to p o a r) = to

body_full : (e : Email) → is_empty (body_of e) ≡ false
unfolding payment_receipt_body payment_refund_body payment_failure_body
body_full (receipt to p o a) = concat-is_empty "Payment " _ refl
body_full (refund to p o a r) = concat-is_empty "Payment " _ refl
body_full (failure to p o a r) = concat-is_empty "Payment " _ refl

subject_full : (e : Email) → is_empty (subject_of e) ≡ false
subject_full (receipt to p o a) = refl
subject_full (refund to p o a r) = refl
subject_full (failure to p o a r) = refl

module _ (cfg : Config) (env : Env) (resend : Resend) (over : Option Error) where
  as_email :
      (e : Email)
      → Grpc.send_payment cfg env resend over e
        ≡ Service.send_email cfg env resend over (recipient e) (subject_of e) (body_of e)
  unfolding Grpc.send_payment Grpc.send_payment_receipt Grpc.send_payment_refund
      Grpc.send_payment_failure Grpc.send_email
  as_email (receipt to p o a) = refl
  as_email (refund to p o a r) = refl
  as_email (failure to p o a r) = refl

  -- A mail about a payment that the mail service answers without an error has gone, once, to the one
  -- carrier that the configuration chooses: Resend, the SMTP server, or the log.
  pub payment_mail_carried :
      (e : Email) (w : World Db)
      → (Grpc.send_payment cfg env resend over e w).0 ≡ ok tt
      → (Grpc.send_payment cfg env resend over e w).1.db
        ≡ carried cfg (recipient e) (subject_of e) (body_of e) w.db
  payment_mail_carried e w h =
      let as_sent = ap (λ m. m w) (as_email e) in
      ap (λ r. r.1.db) as_sent
      ∙ sent_carried cfg env resend over (recipient e) (subject_of e) (body_of e) w
          (sym (ap (λ r. r.0) as_sent) ∙ h)

  -- A mail about a payment is answered without an error if its recipient is not empty, the outside
  -- call has its effect, the context has not ended, and Resend would answer it with a status from 200
  -- to 299.
  pub payment_mail_accepted :
      (e : Email) (w : World Db)
      → is_empty (recipient e) ≡ false
      → env.outcome w.tick ≡ done
      → over ≡ none
      → 200 ≤ (resend (resend_mail cfg (recipient e) (subject_of e) (body_of e))).0
      → (resend (resend_mail cfg (recipient e) (subject_of e) (body_of e))).0 < 300
      → (Grpc.send_payment cfg env resend over e w).0 ≡ ok tt
  payment_mail_accepted e w named up open_yet least most =
      let full : (is_empty (recipient e) || is_empty (subject_of e) || is_empty (body_of e))
          ≡ false =
        rw (named, subject_full e, body_full e) refl in
      ap (λ m. (m w).0) (as_email e)
      ∙ accepted cfg env resend over (recipient e) (subject_of e) (body_of e) w full up open_yet
          (check_status-ok _ least most)
