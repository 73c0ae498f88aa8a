-- ===== src/Http.antt =====
-- The answers of the HTTP handlers, and the gRPC calls of the gateway's clients.
pub mod Paths
pub mod Relayed
use kazakh_express.Base.{ℕ, ◌+◌, String, List, []}
use kazakh_express.Effect.{
  Error, fault, Result, ok, err, Outcome, done, refused, lost, World, Action,
}

-- What a handler writes as JSON: a value, a list, the slice that
-- is nil, the text of an error (to which gRPC adds its own),
-- the same with the status "unavailable", a text under "error", a text, or the seconds
-- to wait after "rate limit exceeded".
pub data Body (A : Type 0) : Type 0 where
  one : A → Body A
  many : List A → Body A
  null : Body A
  error_of unavailable : Error → Body A
  error_text text : String → Body A
  wait : ℕ → Body A
  empty : Body A

pub record Reply (A : Type 0) : Type 0 where
  pub status : ℕ
  pub body : Body A

-- A slice of Go: nil is not the empty one for JSON.
pub data Slice (A : Type 0) : Type 0 where
  nil : Slice A
  slice : List A → Slice A

abbrev pub elements : {A : Type 0} → Slice A → List A
elements nil = []
elements (slice l) = l

abbrev pub json_of : {A : Type 0} → Slice A → Body A
json_of nil = null
json_of (slice l) = many l

abbrev pub Handler : Type 0 → Type 0 → Type 0
Handler D B = World D → Reply B × World D

module _ {A B : Type 0} where
  -- `writeResult` of a value, and the handler of the error.
  abbrev pub reply_to : (Error → Reply B) → ℕ → (A → Body B) → Result A → Reply B
  reply_to on_error status body (ok a) = record { status = status; body = body a }
  reply_to on_error status body (err e) = on_error e

abbrev pub invalid_json : {B : Type 0} → Reply B
invalid_json = record { status = 400; body = error_text "invalid json" }

-- The errors of the gateway: `writeResult`, and the handlers of health.
abbrev pub bad_gateway : {B : Type 0} → Error → Reply B
bad_gateway e = record { status = 502; body = error_of e }

abbrev pub unhealthy : {B : Type 0} → Error → Reply B
unhealthy e = record { status = 502; body = unavailable e }

module _ {D A B : Type 0} where
  -- A call of the service, its error or its answer.
  unfoldable pub respond : (Error → Reply B) → ℕ → (A → Body B) → Action D A → Handler D B
  respond on_error status body m w = let (r, w') = m w in (reply_to on_error status body r, w')

module _ {D B : Type 0} where
  -- An answer that calls no service.
  unfoldable pub answer : Reply B → Handler D B
  answer r w = (r, w)

module _ {D A : Type 0} where
  -- A call over gRPC: it reaches the service and its answer comes back, it does not reach the
  -- service, or its answer is lost.
  unfoldable pub remote : Outcome → Action D A → Action D A
  remote done m w = m w
  remote refused m w = (err (fault "unavailable"), w)
  remote lost m w = (err (fault "unavailable"), (m w).1)
