-- ===== src/Effect/Keeps.antt =====
-- Invariants of actions: one rule for each building block, for `search` to walk a method with.
use kazakh_express.Base.{String, Bool, true, false, if◌then◌else◌, ◌≡◌, inl, inr, Bool-cases}
use kazakh_express.Effect.{
  Error, Result, ok, err, reads, queries, writes, checked, Outcome, done, refused, lost, Env, World,
  Action, Statement, pure, raise, lift, settle, end, call, transaction, ignore, raise_if, get_time,
  new_uuid, when, attempt, instead, continue, ◌>>=◌,
}

-- `m` keeps `P` of the state, whether it returns or fails, and whatever the environment does.
pub record Keeps {D A : Type 0} (P : D → Type 0) (m : Action D A) : Type 0 where
  pub at : (w : World D) → P w.db → P (m w).1.db

-- A statement keeps `P`.
pub record Respects {D A : Type 0} (P : D → Type 0) (op : Statement D A) : Type 0 where
  pub of : (t : _) (d : D) → P d → P (op t d).1

module _ {D : Type 0} {P : D → Type 0} where
  pub Respects-reads : {A : Type 0} (f : D → A) → Respects P (reads f)
  unfolding reads
  Respects-reads f = record { of = λ t d h. h }

  pub Respects-queries : {A : Type 0} (f : D → Result A) → Respects P (queries f)
  unfolding queries
  Respects-queries f = record { of = λ t d h. h }

  pub Respects-writes : (f : D → D) → ((d : D) → P d → P (f d)) → Respects P (writes f)
  unfolding writes
  Respects-writes f k = record { of = λ t d h. k d h }

  -- The statement runs only where its condition holds.
  pub Respects-checked :
      (what : String) (good : D → Bool) (f : D → D)
      → ((d : D) → good d ≡ true → P d → P (f d))
      → Respects P (checked what good f)
  unfolding checked
  Respects-checked what good f k = record {
    of = λ t d h. elim (Bool-cases (good d)) [ inl e ↦ rw e (k d e h) | inr e ↦ rw e h ];
  }

end_keeps :
    {D A : Type 0} (P : D → Type 0) (o : Outcome) (what : String) (r : Result A) (d d' : D)
    → P d
    → P d'
    → P (end o what d r d').1
end_keeps P done what (ok a) d d' h h' = h'
end_keeps P refused what (ok a) d d' h h' = h
end_keeps P lost what (ok a) d d' h h' = h'
end_keeps P o what (err e) d d' h h' = h

module _ {D A : Type 0} {P : D → Type 0} where
  pub Keeps-pure : (a : A) → Keeps P (pure a)
  unfolding pure
  Keeps-pure a = record { at = λ w h. h }

  pub Keeps-raise : (e : Error) → Keeps P (raise {A = A} e)
  unfolding raise
  Keeps-raise e = record { at = λ w h. h }

  pub Keeps-lift : (r : Result A) → Keeps P (lift r)
  unfolding lift
  Keeps-lift r = record { at = λ w h. h }

  pub Keeps-if :
      (b : Bool) (m n : Action D A) → Keeps P m → Keeps P n → Keeps P (if b then m else n)
  Keeps-if true m n km kn = km
  Keeps-if false m n km kn = kn

  settle_keeps :
      (o : Outcome) (what : String) (op : Statement D A) (t : _) (d : D)
      → Respects P op
      → P d
      → P (settle o what op t d).1
  settle_keeps done what op t d k h = k.of t d h
  settle_keeps refused what op t d k h = h
  settle_keeps lost what op t d k h = k.of t d h

  pub Keeps-call :
      (env : Env) (what : String) (op : Statement D A) → Respects P op → Keeps P (call env what op)
  unfolding call
  Keeps-call env what op k = record {
    at = λ w h. settle_keeps (env.outcome w.tick) what op (env.now w.tick) w.db k h;
  }

  pub Keeps-transaction :
      (env : Env) (what : String) (body : Action D A)
      → Keeps P body
      → Keeps P (transaction env what body)
  unfolding transaction
  Keeps-transaction env what body k = record {
    at = λ w h.
        let (r, w') = body w in end_keeps P (env.outcome w'.tick) what r w.db w'.db h (k.at w h);
  }

  pub Keeps-ignore : (m : Action D A) → Keeps P m → Keeps P (ignore m)
  unfolding ignore
  Keeps-ignore m k = record { at = k.at }

  pub Keeps-attempt : (m : Action D A) → Keeps P m → Keeps P (attempt m)
  unfolding attempt
  Keeps-attempt m k = record { at = k.at }

  pub Keeps-instead : (e : Error) (m : Action D A) → Keeps P m → Keeps P (instead e m)
  unfolding instead
  Keeps-instead e m k = record { at = k.at }

module _ {D : Type 0} {P : D → Type 0} where
  pub Keeps-raise_if : (c : Bool) (e : Error) → Keeps P (raise_if c e)
  unfolding raise_if
  Keeps-raise_if c e = record { at = λ w h. h }

  pub Keeps-get_time : (env : Env) → Keeps P (get_time env)
  unfolding get_time
  Keeps-get_time env = record { at = λ w h. h }

  pub Keeps-new_uuid : (env : Env) → Keeps P (new_uuid env)
  unfolding new_uuid
  Keeps-new_uuid env = record { at = λ w h. h }

  pub Keeps-when : (b : Bool) (m : Action D (Unit {0})) → Keeps P m → Keeps P (when b m)
  unfolding when pure
  Keeps-when true m k = k
  Keeps-when false m k = record { at = λ w h. h }

module _ {D A B : Type 0} {P : D → Type 0} where
  continue_keeps :
      (r : Result A) (f : A → Action D B) (w : World D)
      → ((a : A) → Keeps P (f a))
      → P w.db
      → P (continue r f w).1.db
  continue_keeps (ok a) f w k h = (k a).at w h
  continue_keeps (err e) f w k h = h

  pub Keeps-bind :
      (m : Action D A) (f : A → Action D B)
      → Keeps P m
      → ((a : A) → Keeps P (f a))
      → Keeps P (m >>= f)
  unfolding ◌>>=◌
  Keeps-bind m f km kf = record {
    at = λ w h. let (r, w') = m w in continue_keeps r f w' kf (km.at w h);
  }

pub ruleset keeps_rules = (
  Respects-reads, Respects-queries, Respects-writes, Respects-checked, Keeps-pure, Keeps-raise,
  Keeps-lift, Keeps-if, Keeps-call, Keeps-transaction, Keeps-ignore, Keeps-attempt, Keeps-instead,
  Keeps-raise_if, Keeps-get_time, Keeps-new_uuid, Keeps-when, Keeps-bind,
)
