-- ===== src/Startup.antt =====
-- Waiting for a system at the start of a service: `retry` of
-- payment-service/internal/paymentapp/app.go, product-service/cmd/product-service/main.go and
-- review-service/cmd/review-service/main.go.
mod Tests
use kazakh_express.Base.{
  ℕ, zero, suc, ◌+◌, ◌≤◌, ◌<◌, Bool, true, false, Option, none, some, ◌≡◌, refl, ◌⊎◌, inl, inr,
  arith, Bool-cases, ◌∙◌, ap, subst, ltb,
}
use kazakh_express.Effect.{Error, Result, ok, err}

-- `return lastErr`, which is nil before the first attempt.
abbrev pub last_error : Option Error → Result (Unit {0})
last_error none = ok tt
last_error (some e) = err e

-- The answer of the operation at each attempt, from the first, whether the context ends in the pause
-- after it, and the error of a context that has ended.
module _ (operation : ℕ → Result (Unit {0})) (ends : ℕ → Bool) (ended : Error) where
  -- The body of the loop at an attempt: the answer of `retry` and the number of attempts, or the next
  -- round.
  abbrev round :
      Result (Unit {0}) → Bool → ℕ → (Error → Result (Unit {0}) × ℕ) → Result (Unit {0}) × ℕ
  round (ok a) b n next = (ok tt, n)
  round (err e) true n next = (err ended, n)
  round (err e) false n next = next e

  -- The loop with so many rounds left, after so many attempts.
  unfoldable pub rounds : ℕ → ℕ → Option Error → Result (Unit {0}) × ℕ
  rounds zero n last = (last_error last, n)
  rounds (suc k) n last =
      round (operation (n + 1)) (ends (n + 1)) (n + 1) (λ e. rounds k (n + 1) (some e))

  unfoldable pub retry : Result (Unit {0}) × ℕ
  unfolding rounds
  retry = rounds 30 0 none

  -- What may be the end of a loop whose last attempt is `n`, of at most `m`.
  abbrev IsEnd : ℕ → Result (Unit {0}) → ℕ → Type 0
  IsEnd m r n =
      ((operation n ≡ ok tt) × (r ≡ ok tt))
      ⊎ ((e : Error) × (operation n ≡ err e)
          × (((ends n ≡ true) × (r ≡ err ended)) ⊎ ((ends n ≡ false) × (n ≡ m) × (r ≡ err e))))

  -- The attempts after the first `n` that came before the last one have failed.
  abbrev HaveFailed : ℕ → ℕ → Type 0
  HaveFailed n last =
      (i : ℕ) → n < i → i < last → (e : Error) × (operation i ≡ err e) × (ends i ≡ false)

  abbrev Ends : ℕ → ℕ → Result (Unit {0}) × ℕ → Type 0
  Ends n m (r, calls) = (n < calls) × (calls ≤ m) × HaveFailed n calls × IsEnd m r calls

  round-Ends :
      (n m : ℕ) (o : Result (Unit {0})) (b : Bool) (next : Error → Result (Unit {0}) × ℕ)
      → n + 1 ≤ m
      → operation (n + 1) ≡ o
      → ends (n + 1) ≡ b
      → ((e : Error) → o ≡ err e → b ≡ false → Ends n m (next e))
      → Ends n m (round o b (n + 1) next)
  round-Ends n m (ok a) b next le answered after rest =
      (omega arith, le, λ i above below. absurd (omega arith), inl (answered, refl))
  round-Ends n m (err e) true next le answered after rest =
      (omega arith, le, λ i above below. absurd (omega arith), inr (e, answered, inl (after, refl)))
  round-Ends n m (err e) false next le answered after rest = rest e refl refl

  later-HaveFailed :
      (n last : ℕ) (e : Error)
      → operation (n + 1) ≡ err e
      → ends (n + 1) ≡ false
      → HaveFailed (n + 1) last
      → HaveFailed n last
  later-HaveFailed n last e failed on rest i above below = elim (Bool-cases (ltb (n + 1) i)) [
    | inl more ↦ rest i (ground arith) below
    | inr same ↦
        let here : i ≡ n + 1 = ground arith in (e, ap operation here ∙ failed, ap ends here ∙ on)
  ]

  rounds-Ends : (k n : ℕ) (last : Option Error) → Ends n (n + suc k) (rounds (suc k) n last)
  unfolding rounds
  rounds-Ends zero n last =
      round-Ends n (n + 1) (operation (n + 1)) (ends (n + 1)) _ (omega arith) refl refl
        (λ e failed on. (
          omega arith,
          omega arith,
          λ i above below. absurd (omega arith),
          inr (e, failed, inr (on, refl, refl)),
        ))
  rounds-Ends (suc k) n last =
      round-Ends n (n + suc (suc k)) (operation (n + 1)) (ends (n + 1)) _ (omega arith) refl refl
        (λ e failed on.
          let later : Ends (n + 1) (n + suc (suc k)) (rounds (suc k) (n + 1) (some e)) =
            subst (λ m. Ends (n + 1) m (rounds (suc k) (n + 1) (some e))) (omega arith)
              (rounds-Ends k (n + 1) (some e)) in
          let (after, within, before, end) = later in
          (omega arith, within, later-HaveFailed n _ e failed on before, end))

  -- `retry` ends after 1 to 30 attempts. All before the last one have failed, with the context still
  -- there, and the last one succeeds, which is the answer, or fails as the context ends, whose error
  -- is the answer, or is the thirtieth, whose error is the answer.
  pub retry-Ends : Ends 0 30 retry
  unfolding retry rounds
  retry-Ends = rounds-Ends 29 0 none
