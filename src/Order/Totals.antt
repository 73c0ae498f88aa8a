-- ===== src/Order/Totals.antt =====
-- The total of an order, an `int64` in the source.
use kazakh_express.Base.{
  ℕ, ◌+◌, ◌*◌, ◌<◌, ◌≡◌, ◌∙◌, ap, inl, inr, Bool, true, false, ◌||◌, List, [], ◌∷◌, arith,
  Bool-cases, if◌then◌else◌,
}
use mathlib.Core.Path.{ap₂}
use kazakh_express.Base.Int.{
  ℤ, pos, ◌+ℤ◌, ◌*ℤ◌, wrap64, wrap64-pos, +ℤ-pos, *ℤ-pos, pos_part, sign_bit,
}
use kazakh_express.Effect.{ok, err, invalid_input}
use kazakh_express.Order.Model.{Item}
use kazakh_express.Order.Service.{total_from, is_bad_item}

-- The exact total, in unbounded numbers. (No good item has a negative quantity or price.)
abbrev pub exact_total : List Item → ℕ
exact_total [] = 0
exact_total (item ∷ items) = pos_part item.quantity * pos_part item.price_kzt + exact_total items

abbrev pub has_bad_item : List Item → Bool
has_bad_item [] = false
has_bad_item (item ∷ items) = is_bad_item item || has_bad_item items

-- The parts of a good item are not negative.
good_item :
    (item : Item)
    → is_bad_item item ≡ false
    → (item.quantity ≡ pos (pos_part item.quantity))
      × (item.price_kzt ≡ pos (pos_part item.price_kzt))
good_item item good = ground arith

wrapped_round :
    (n a b : ℕ) → n + a * b < sign_bit → wrap64 (pos n +ℤ wrap64 (pos a *ℤ pos b)) ≡ pos (n + a * b)
wrapped_round n a b fits =
    rw (*ℤ-pos, wrap64-pos (a * b) (omega arith), +ℤ-pos) (wrap64-pos (n + a * b) fits)

-- One round of the loop, on a good item whose sum fits.
round_exact :
    (n : ℕ) (item : Item)
    → is_bad_item item ≡ false
    → n + pos_part item.quantity * pos_part item.price_kzt < sign_bit
    → wrap64 (pos n +ℤ wrap64 (item.quantity *ℤ item.price_kzt))
      ≡ pos (n + pos_part item.quantity * pos_part item.price_kzt)
round_exact n item good fits =
    let (q, p) = good_item item good in
    ap₂ (λ x y. wrap64 (pos n +ℤ wrap64 (x *ℤ y))) q p ∙ wrapped_round n _ _ fits

total_from-exact :
    (n : ℕ) (items : List Item)
    → has_bad_item items ≡ false
    → n + exact_total items < sign_bit
    → total_from (pos n) items ≡ ok (pos (n + exact_total items))
unfolding total_from
total_from-exact n [] good fits = ground arith
total_from-exact n (item ∷ items) good fits =
    let m = n + pos_part item.quantity * pos_part item.price_kzt in
    ground (arith, round_exact n item, total_from-exact m items)

total_from-bad :
    (t : ℤ) (items : List Item) → has_bad_item items ≡ true → total_from t items ≡ err invalid_input
unfolding total_from
total_from-bad t [] bad = cc
total_from-bad t (item ∷ items) bad =
    ground (arith, total_from-bad (wrap64 (t +ℤ wrap64 (item.quantity *ℤ item.price_kzt))) items)

-- The total of items whose exact total is below 2 ^ 63: exact if no item is bad, and refused if any
-- is, that is, has no product, no quantity or a negative price.
pub checked_total :
    (items : List Item)
    → exact_total items < sign_bit
    → total_from (pos 0) items
      ≡ (if has_bad_item items then err invalid_input else ok (pos (exact_total items)))
checked_total items fits = elim (Bool-cases (has_bad_item items)) [
  | inl bad ↦ rw bad (total_from-bad (pos 0) items bad)
  | inr good ↦
      rw good (total_from-exact 0 items good (omega arith) ∙ ap (λ n. ok (pos n)) (omega arith))
]
