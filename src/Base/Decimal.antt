-- ===== src/Base/Decimal.antt =====
-- Decimal text of a number, as `fmt.Sprintf` prints it for `%d`, and concatenation of texts.
use Prim.Native.Nat.{ℕ, zero, suc, ◌/◌, ◌%◌, ◌≤◌}
use Prim.Native.String.{String}
use Prim.Native.String.{◌++◌ as append}
use mathlib.Core.Path.{◌≡◌, refl, ap}
use native.Mathlib.Omega.{arith}
use mathlib.Core.Logic.{inl, inr}
use mathlib.Core.Bool.{true}
use mathlib.Core.List.{List, [], ◌∷◌}
use Prim.Native.Nat.{◌+◌}
use kazakh_express.Base.Int.{ℤ, pos, negsuc}
use kazakh_express.Base.Tests.{ltb, eqb, Bool-cases, if◌then◌else◌}

abbrev pub concat : String → String → String
concat = append

digit : ℕ → String
digit n =
    if eqb n 0
    then "0"
    else if eqb n 1
    then "1"
    else if eqb n 2
    then "2"
    else if eqb n 3
    then "3"
    else if eqb n 4
    then "4"
    else if eqb n 5
    then "5"
    else if eqb n 6
    then "6"
    else if eqb n 7
    then "7"
    else if eqb n 8
    then "8"
    else "9"

-- The digits of `n`, on fuel: each round divides by ten, so `n + 1` rounds are enough.
digits_from : ℕ → ℕ → String
unfolding digit
digits_from zero n = ""
digits_from (suc f) n =
    let rest = concat (digits_from f (n / 10)) (digit (n % 10)) in
    if ltb n 10 then digit n else rest

unfoldable pub decimal : ℕ → String
unfolding digits_from
decimal n = digits_from (suc n) n

decimal_test : decimal 1700000123 ≡ "1700000123"
unfolding decimal
decimal_test = refl

-- More rounds print the same text.
digits_from-enough : (f g n : ℕ) → n ≤ f → n ≤ g → digits_from (suc f) n ≡ digits_from (suc g) n
unfolding digits_from
digits_from-enough zero g n le le' = let small : ltb n 10 ≡ true = ground arith in rw small
digits_from-enough (suc f) zero n le le' = let small : ltb n 10 ≡ true = ground arith in rw small
digits_from-enough (suc f) (suc g) n le le' = elim (Bool-cases (ltb n 10)) [
  | inl small ↦ rw small
  | inr large ↦ rw large (
      ap (λ s. concat s (digit (n % 10)))
        (digits_from-enough f g (n / 10) (ground arith) (ground arith)))
]

-- So `n + 1` rounds are enough for `n`.
decimal-enough : (f n : ℕ) → n ≤ f → digits_from (suc f) n ≡ decimal n
unfolding decimal
decimal-enough f n le = digits_from-enough f n n le (omega arith)

abbrev pub texts : List String → String
texts [] = ""
texts (t ∷ ts) = concat t (texts ts)

-- `%d` of an int64.
abbrev pub number_text : ℤ → String
number_text (pos n) = decimal n
number_text (negsuc n) = concat "-" (decimal (n + 1))
