-- ===== src/Effect.antt =====
-- The calls of a service: a state, errors as values, and systems outside that may fail.
--
-- A method of the source that takes a context and returns `(T, error)` is an `Action D T`: the
-- state comes back after an error too, since what was written stays written. The environment
-- decides every call of an outside system (database, cache, broker, provider, mail, clock).
pub mod Keeps
pub mod Cases
use kazakh_express.Base.{ℕ, ◌+◌, String, Bool, true, false, Option, none, some, if◌then◌else◌}

-- The sentinel errors of the services; `fault` is an error of an outside system under the text
-- with which the source wraps it, and `rejected` an error that the code itself makes.
pub data Error : Type 0 where
  invalid_input invalid_state not_found : Error
  rejected fault : String → Error

pub data Result (A : Type 0) : Type 0 where
  ok : A → Result A
  err : Error → Result A

abbrev pub is_ok : {A : Type 0} → Result A → Bool
is_ok (ok a) = true
is_ok (err e) = false

-- A call of an outside system has its effect and answers, is refused with no effect, or has its
-- effect while the caller sees an error (a lost answer).
pub data Outcome : Type 0 where
  done refused lost : Outcome

-- What the environment decides at each tick.
pub record Env : Type 0 where
  pub outcome : ℕ → Outcome
  pub now : ℕ → ℕ
  pub uuid : ℕ → String

pub record World (D : Type 0) : Type 0 where
  pub db : D
  pub tick : ℕ

abbrev pub Action : Type 0 → Type 0 → Type 0
Action D A = World D → Result A × World D

-- A statement of an outside system, given the time of its own clock.
abbrev pub Statement : Type 0 → Type 0 → Type 0
Statement D A = ℕ → D → Result A × D

module _ {D A : Type 0} where
  -- A query, and a query whose answer may be an error of the repository.
  unfoldable pub reads : (D → A) → Statement D A
  reads f t d = (ok (f d), d)

  unfoldable pub queries : (D → Result A) → Statement D A
  queries f t d = (f d, d)

module _ {D : Type 0} where
  unfoldable pub writes : (D → D) → Statement D (Unit {0})
  writes f t d = (ok tt, f d)

  -- A statement that a constraint of the schema may refuse.
  unfoldable pub checked : String → (D → Bool) → (D → D) → Statement D (Unit {0})
  checked what good f t d = if good d then (ok tt, f d) else (err (fault what), d)

module _ {D A : Type 0} where
  unfoldable pub pure : A → Action D A
  pure a w = (ok a, w)

  unfoldable pub raise : Error → Action D A
  raise e w = (err e, w)

  -- A result that needs no outside call.
  unfoldable pub lift : Result A → Action D A
  lift r w = (r, w)

  -- The answer and the state of one outside call, by its outcome.
  abbrev pub settle : Outcome → String → Statement D A → ℕ → D → Result A × D
  settle done what op t d = op t d
  settle refused what op t d = (err (fault what), d)
  settle lost what op t d = (err (fault what), (op t d).1)

  -- One call of an outside system, with the text under which its failure is reported.
  unfoldable pub call : Env → String → Statement D A → Action D A
  call env what op w =
      let (r, d) = settle (env.outcome w.tick) what op (env.now w.tick) w.db in
      (r, record { db = d; tick = w.tick + 1 })

  -- The end of a transaction that began at `d` and stands at `d'`: an error rolls it back, and the
  -- commit may be refused or lose its answer.
  abbrev pub end : Outcome → String → D → Result A → D → Result A × D
  end o what d (err e) d' = (err e, d)
  end done what d (ok a) d' = (ok a, d')
  end refused what d (ok a) d' = (err (fault what), d)
  end lost what d (ok a) d' = (err (fault what), d')

  unfoldable pub transaction : Env → String → Action D A → Action D A
  transaction env what body w =
      let (r, w') = body w in
      let (r', d) = end (env.outcome w'.tick) what w.db r w'.db in
      (r', record { db = d; tick = w'.tick + 1 })

  -- An error that is dropped, or only logged.
  unfoldable pub ignore : Action D A → Action D (Unit {0})
  ignore m w = (ok tt, (m w).1)

-- The answer of a call whose error is dropped.
abbrev pub answer_of : {A : Type 0} → Result A → Option A
answer_of (ok a) = some a
answer_of (err e) = none

abbrev pub or_instead : {A : Type 0} → Error → Result A → Result A
or_instead e (ok a) = ok a
or_instead e (err e') = err e

module _ {D A : Type 0} where
  unfoldable pub attempt : Action D A → Action D (Option A)
  attempt m w = let (r, w') = m w in (ok (answer_of r), w')

  -- An error that is replaced by another.
  unfoldable pub instead : Error → Action D A → Action D A
  instead e m w = let (r, w') = m w in (or_instead e r, w')

module _ {D : Type 0} where
  -- `if c { return ..., e }`
  unfoldable pub raise_if : Bool → Error → Action D (Unit {0})
  raise_if c e w = (if c then err e else ok tt, w)

  -- `time.Now()` and `uuid.NewString()`
  unfoldable pub get_time : Env → Action D ℕ
  get_time env w = (ok (env.now w.tick), record w { tick = w.tick + 1 })

  unfoldable pub new_uuid : Env → Action D String
  new_uuid env w = (ok (env.uuid w.tick), record w { tick = w.tick + 1 })

  -- `if s.part != nil { ... }`
  unfoldable pub when : Bool → Action D (Unit {0}) → Action D (Unit {0})
  unfolding pure
  when true m = m
  when false m = pure tt

module _ {D A B : Type 0} where
  abbrev pub continue : Result A → (A → Action D B) → Action D B
  continue (ok a) f w = f a w
  continue (err e) f w = (err e, w)

  infixl 5 ◌>>=◌ ◌>>◌
  -- Opening this opens the other building blocks too.
  unfoldable pub ◌>>=◌ : Action D A → (A → Action D B) → Action D B
  unfolding pure raise lift call transaction ignore raise_if get_time new_uuid when reads queries
      writes checked
  ◌>>=◌ m f w = let (r, w') = m w in continue r f w'

  abbrev pub ◌>>◌ : Action D A → Action D B → Action D B
  m >> k = m >>= λ _. k

-- `pgx.ErrNoRows` becomes the sentinel error of the repository.
abbrev pub or_raise : {A : Type 0} → Option A → Error → Result A
or_raise none e = err e
or_raise (some a) e = ok a
