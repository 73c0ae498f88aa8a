-- ===== src/Order/Text.antt =====
-- The texts of the constants of order-service/internal/order/model.go, which JSON carries.
use kazakh_express.Base.{
  String, ◌==◌, ◌≡◌, refl, if◌then◌else◌, true, false, Bool, eq_iff, Bool-cases, inl, inr, ap, sym,
  ◌∙◌,
}
use kazakh_express.Order.Model.{
  Status, created, paid, payment_failed, shipped, completed, canceled, no_status, other_status,
  is_allowed_status,
}

abbrev pub status_text : Status → String
status_text created = "created"
status_text paid = "paid"
status_text payment_failed = "payment_failed"
status_text shipped = "shipped"
status_text completed = "completed"
status_text canceled = "canceled"
status_text no_status = ""
status_text (other_status s) = s

-- The conversion `Status(s)`.
unfoldable pub status_of : String → Status
status_of s =
    if s == "created"
    then created
    else if s == "paid"
    then paid
    else if s == "payment_failed"
    then payment_failed
    else if s == "shipped"
    then shipped
    else if s == "completed"
    then completed
    else if s == "canceled"
    then canceled
    else if s == ""
    then no_status
    else other_status s

pub status_of-status_text :
    (s : Status) → is_allowed_status s ≡ true → status_of (status_text s) ≡ s
unfolding status_of
status_of-status_text created h = refl
status_of-status_text paid h = refl
status_of-status_text payment_failed h = refl
status_of-status_text shipped h = refl
status_of-status_text completed h = refl
status_of-status_text canceled h = refl
status_of-status_text no_status h = cc
status_of-status_text (other_status s) h = cc

text_if :
    (s : String) (c : Bool) (a b : Status)
    → (c ≡ true → s ≡ status_text a)
    → s ≡ status_text b
    → s ≡ status_text (if c then a else b)
text_if s true a b h k = h refl
text_if s false a b h k = k

pub status_text-status_of : (s : String) → s ≡ status_text (status_of s)
unfolding status_of
status_text-status_of s = text_if s _ _ _ (eq_iff s "created").0 (
    text_if s _ _ _ (eq_iff s "paid").0 (
      text_if s _ _ _ (eq_iff s "payment_failed").0 (
        text_if s _ _ _ (eq_iff s "shipped").0 (
          text_if s _ _ _ (eq_iff s "completed").0
            (text_if s _ _ _ (eq_iff s "canceled").0 (text_if s _ _ _ (eq_iff s "").0 refl))))))

-- A text that the service does not know is not the text of a status that it knows.
pub unknown_text :
    (s t : String)
    → is_allowed_status (status_of s) ≡ false
    → is_allowed_status (status_of t) ≡ true
    → (s == t) ≡ false
unknown_text s t h k = elim (Bool-cases (s == t)) [
  | inl e ↦ absurd (cc (sym h ∙ ap (λ x. is_allowed_status (status_of x)) ((eq_iff s t).0 e) ∙ k))
  | inr e ↦ e
]
