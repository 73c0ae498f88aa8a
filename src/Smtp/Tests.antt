-- ===== src/Smtp/Tests.antt =====
-- The mail service on concrete inputs.
use kazakh_express.Base.{arith, none, [], ◌≡◌, refl}
use kazakh_express.Base.Int.{pos}
use kazakh_express.Base.Decimal.{decimal}
use kazakh_express.Effect.{ok, done, Env, World, ◌>>=◌}
use kazakh_express.Payment.Model.{Email, refund}
use kazakh_express.Smtp.Service
use kazakh_express.Smtp.Service.{
  Config, Db, Resend, carry, send_resend, check_status, resend_mail, payment_refund_body,
}
use kazakh_express.Smtp.Grpc
use kazakh_express.Smtp.Carriers.{
  carried, recipient, subject_of, body_of, payment_mail_carried, payment_mail_accepted,
}

abbrev calm : Env
calm = record { outcome = λ n. done; now = λ n. n; uuid = decimal }

abbrev with_key : Config
with_key = record {
  host = "smtp.gmail.com";
  port = "587";
  username = "";
  password = "";
  from = "noreply@kazakhexpress.kz";
  resend_api_key = "re_1";
  resend_from = "";
}

abbrev accepting : Resend
accepting = λ mail. (202, "")

abbrev nothing_sent : World Db
nothing_sent = record { db = record { resend = []; smtp = []; dry_runs = [] }; tick = 0 }

abbrev refund_mail : Email
refund_mail = refund "c1@mail.kz" "p1" "o1" (pos 700) "broken"

abbrev refund_carried : Db
refund_carried =
    carried with_key (recipient refund_mail) (subject_of refund_mail) (body_of refund_mail)
      nothing_sent.db

payment_mail_carried_example :
    (Grpc.send_payment with_key calm accepting none refund_mail nothing_sent).1.db ≡ refund_carried
unfolding Grpc.send_payment Grpc.send_payment_refund Grpc.send_email Service.send_email carry
    send_resend check_status resend_mail payment_refund_body decimal ◌>>=◌
payment_mail_carried_example =
    payment_mail_carried with_key calm accepting none refund_mail nothing_sent refl

payment_mail_accepted_example :
    (Grpc.send_payment with_key calm accepting none refund_mail nothing_sent).0 ≡ ok tt
payment_mail_accepted_example =
    payment_mail_accepted with_key calm accepting none refund_mail nothing_sent refl refl refl
      (omega arith) (omega arith)
