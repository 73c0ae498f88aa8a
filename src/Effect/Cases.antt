-- ===== src/Effect/Cases.antt =====
-- Case rules: what holds of a block, from its first step and from the rest.
use kazakh_express.Base.{String, Bool, true, false, ◌≡◌, refl, ◌⊎◌, inl, inr}
use kazakh_express.Effect.{
  Error, Result, ok, err, Outcome, done, refused, lost, Env, World, Action, continue, raise_if, end,
  transaction, ◌>>=◌,
}

module _ {D A B : Type 0} (P : Result B × World D → Type 0) where
  continue_cases :
      (r : Result A) (w' : World D) (f : A → Action D B)
      → ((e : Error) → r ≡ err e → P (err e, w'))
      → ((a : A) → r ≡ ok a → P (f a w'))
      → P (continue r f w')
  continue_cases (ok a) w' f bad good = good a refl
  continue_cases (err e) w' f bad good = bad e refl

  -- A first step that fails ends the block; one that answers hands on its answer.
  pub bind_cases :
      (m : Action D A) (f : A → Action D B) (w : World D)
      → ((e : Error) → (m w).0 ≡ err e → P (err e, (m w).1))
      → ((a : A) → (m w).0 ≡ ok a → P (f a (m w).1))
      → P ((m >>= f) w)
  unfolding ◌>>=◌
  bind_cases m f w bad good = let (r, w') = m w in continue_cases r w' f bad good

module _ {D B : Type 0} (P : Result B × World D → Type 0) where
  pub guard_cases :
      (c : Bool) (e : Error) (f : Unit {0} → Action D B) (w : World D)
      → (c ≡ true → P (err e, w))
      → (c ≡ false → P (f tt w))
      → P ((raise_if c e >>= f) w)
  unfolding ◌>>=◌ raise_if
  guard_cases true e f w bad good = bad refl
  guard_cases false e f w bad good = good refl

module _ {D A B : Type 0} where
  continue_ok :
      (r : Result A) (w' : World D) (f : A → Action D B) {b : B}
      → (continue r f w').0 ≡ ok b
      → (a : A) × (r ≡ ok a) × (continue r f w' ≡ f a w')
  continue_ok (ok a) w' f h = (a, refl, refl)
  continue_ok (err e) w' f h = cc

  -- A block that answers has run its first step, which answered, and then the rest.
  pub bind_ok :
      (m : Action D A) (f : A → Action D B) (w : World D) {b : B}
      → ((m >>= f) w).0 ≡ ok b
      → (a : A) × ((m w).0 ≡ ok a) × ((m >>= f) w ≡ f a (m w).1)
  unfolding ◌>>=◌
  bind_ok m f w h = let (r, w') = m w in continue_ok r w' f h

module _ {D B : Type 0} where
  pub guard_ok :
      (c : Bool) (e : Error) (f : Unit {0} → Action D B) (w : World D) {b : B}
      → ((raise_if c e >>= f) w).0 ≡ ok b
      → (c ≡ false) × ((raise_if c e >>= f) w ≡ f tt w)
  unfolding ◌>>=◌ raise_if
  guard_ok true e f w h = cc
  guard_ok false e f w h = (refl, refl)

module _ {D A : Type 0} (env : Env) (what : String) (body : Action D A) (w : World D) where
  end_cases :
      (o : Outcome) (r : Result A) (d d' : D)
      → ((end o what d r d').1 ≡ d) ⊎ ((a : A) × (r ≡ ok a) × ((end o what d r d').1 ≡ d'))
  end_cases done (ok a) d d' = inr (a, refl, refl)
  end_cases refused (ok a) d d' = inl refl
  end_cases lost (ok a) d d' = inr (a, refl, refl)
  end_cases o (err e) d d' = inl refl

  -- A transaction changes nothing, or all that its statements have changed, which have answered.
  pub transaction_cases :
      ((transaction env what body w).1.db ≡ w.db)
      ⊎ ((a : A) × ((body w).0 ≡ ok a) × ((transaction env what body w).1.db ≡ (body w).1.db))
  unfolding transaction
  transaction_cases = let (r, w') = body w in end_cases (env.outcome w'.tick) r w.db w'.db

  end_ok :
      (o : Outcome) (r : Result A) (d d' : D) {a : A}
      → (end o what d r d').0 ≡ ok a
      → (r ≡ ok a) × ((end o what d r d').1 ≡ d')
  end_ok done (ok b) d d' h = (h, refl)
  end_ok refused (ok b) d d' h = cc
  end_ok lost (ok b) d d' h = cc
  end_ok o (err e) d d' h = cc

  -- A transaction that answers has run its statements, and they stand.
  pub transaction_ok :
      {a : A}
      → (transaction env what body w).0 ≡ ok a
      → ((body w).0 ≡ ok a) × ((transaction env what body w).1.db ≡ (body w).1.db)
  unfolding transaction
  transaction_ok {a} h = let (r, w') = body w in end_ok (env.outcome w'.tick) r w.db w'.db {a = a} h
