-- ===== src/Payment/Text.antt =====
-- The texts of the constants of payment-service/internal/payment/model.go, which JSON carries.
use kazakh_express.Base.{String, ◌==◌, ◌≡◌, refl, if◌then◌else◌, true}
use kazakh_express.Payment.Model.{
  Status, pending, succeeded, failed, refunded, cancelled, other_status, Method, card, kaspi,
  wallet, other_method,
}
use kazakh_express.Payment.Repository.{known_method, known_status}

abbrev pub method_text : Method → String
method_text card = "card"
method_text kaspi = "kaspi"
method_text wallet = "wallet"
method_text (other_method s) = s

-- The conversion `Method(s)`.
unfoldable pub method_of : String → Method
method_of s =
    if s == "card"
    then card
    else if s == "kaspi"
    then kaspi
    else if s == "wallet"
    then wallet
    else other_method s

abbrev pub status_text : Status → String
status_text pending = "pending"
status_text succeeded = "succeeded"
status_text failed = "failed"
status_text refunded = "refunded"
status_text cancelled = "cancelled"
status_text (other_status s) = s

-- The conversion `Status(s)`.
unfoldable pub status_of : String → Status
status_of s =
    if s == "pending"
    then pending
    else if s == "succeeded"
    then succeeded
    else if s == "failed"
    then failed
    else if s == "refunded"
    then refunded
    else if s == "cancelled"
    then cancelled
    else other_status s

pub method_of-method_text : (m : Method) → known_method m ≡ true → method_of (method_text m) ≡ m
unfolding method_of
method_of-method_text card h = refl
method_of-method_text kaspi h = refl
method_of-method_text wallet h = refl
method_of-method_text (other_method s) h = cc

pub status_of-status_text : (s : Status) → known_status s ≡ true → status_of (status_text s) ≡ s
unfolding status_of
status_of-status_text pending h = refl
status_of-status_text succeeded h = refl
status_of-status_text failed h = refl
status_of-status_text refunded h = refl
status_of-status_text cancelled h = refl
status_of-status_text (other_status s) h = cc
