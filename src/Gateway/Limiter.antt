-- ===== src/Gateway/Limiter.antt =====
-- api-gateway/internal/gateway/redis_limiter.go, and `redisRateLimit` of router.go.
use kazakh_express.Base.{
  ℕ, ◌+◌, ◌-◌, String, Bool, not, Option, none, some, List, ◌∷◌, eqb, ltb, if◌then◌else◌,
}
use Prim.Native.Nat.{◌/◌}
use kazakh_express.Base.Int.{ℤ, pos, ◌-ℤ◌, wrap64, ltb_ℤ, leb_ℤ}
use kazakh_express.Base.Table.{find, delete_where}
use kazakh_express.Effect.{
  Result, ok, err, rejected, Env, Action, pure, raise_if, call, ◌>>=◌, ◌>>◌, Statement,
}

-- A counter of Redis; `expires` is the time at which the key is gone, if it has one.
pub record Counter : Type 0 where
  pub key : String
  pub count : ℕ
  pub expires : Option ℕ

pub record Db : Type 0 where
  pub counters : List Counter

pub record RateLimitResult : Type 0 where
  pub allowed : Bool
  pub remaining : ℤ
  pub retry_after : ℕ

-- A key that has expired is not there.
abbrev pub unexpired : ℕ → Counter → Option ℕ → Option Counter
unexpired t c none = some c
unexpired t c (some e) = if ltb t e then some c else none

abbrev pub live : ℕ → Option Counter → Option Counter
live t none = none
live t (some c) = unexpired t c c.expires

abbrev pub stored : String → ℕ → Db → Option Counter
stored key t d = live t (find (λ c. c.key) key d.counters)

abbrev pub put : Counter → Db → Db
put c d = record d { counters = c ∷ delete_where (λ c. c.key) c.key d.counters }

-- INCR keeps the time to live of a key, and starts a key that is not there at 1 with none.
abbrev pub incremented : String → Option Counter → Counter
incremented key none = record { key = key; count = 1; expires = none }
incremented key (some c) = record c { count = c.count + 1 }

-- The time to live that TTL answers, if the key has one.
abbrev pub time_left : (ℕ → ℕ) → ℕ → Option ℕ → Option ℕ
time_left round t none = none
time_left round t (some e) = some (round (e - t))

-- The pipeline of INCR and TTL. `round` is the precision of TTL.
abbrev pub increment : (ℕ → ℕ) → String → Statement Db (ℕ × Option ℕ)
increment round key t d =
    let c = incremented key (stored key t d) in (ok (c.count, time_left round t c.expires), put c d)

-- EXPIRE of a key that is not there changes nothing.
abbrev pub expiring : ℕ → ℕ → Option Counter → Db → Db
expiring window t none d = d
expiring window t (some c) d = put (record c { expires = some (t + window) }) d

abbrev pub expire : ℕ → String → Statement Db (Unit {0})
expire window key t d = (ok tt, expiring window t (stored key t d) d)

-- `limit - count`, and 0 below 0.
abbrev pub remaining_of : ℤ → ℕ → ℤ
remaining_of limit count =
    let r = wrap64 (limit -ℤ pos count) in if ltb_ℤ r (pos 0) then pos 0 else r

abbrev pub result_of : ℤ → ℕ → ℕ → RateLimitResult
result_of limit count ttl = record {
  allowed = leb_ℤ (pos count) limit;
  remaining = remaining_of limit count;
  retry_after = ttl;
}

-- Once the key has a time to live, it is the answer.
abbrev pub kept_ttl : ℕ → Option ℕ → Option ℕ
kept_ttl count none = none
kept_ttl count (some ttl) = if eqb count 1 then none else some ttl

module _ (env : Env) (round : ℕ → ℕ) where
  unfoldable pub ensure_ttl : String → ℕ → Option ℕ → Action Db ℕ
  ensure_ttl key window (some ttl) = pure ttl
  ensure_ttl key window none = do
    call env "redis rate limit expire" (expire window key)
    pure window

  -- `Allow`; `configured` says that the limiter and its client are not nil.
  unfoldable pub allow : Bool → String → ℤ → ℕ → Action Db RateLimitResult
  allow configured key limit window = do
    raise_if (not configured) (rejected "redis rate limiter is not configured")
    counted ← call env "redis rate limit increment" (increment round key)
    ttl ← ensure_ttl key window (kept_ttl counted.0 counted.1)
    pure (result_of limit counted.0 ttl)

-- What the middleware does with a request: it goes on, or is answered 429 with a time to wait in
-- seconds.
pub data Decision : Type 0 where
  next : Decision
  next_with : ℤ → Decision
  too_many_requests : ℕ → Decision

abbrev pub seconds : ℕ → ℕ
seconds ns = let s = ns / 1000000000 in if ltb s 1 then 1 else s

-- `redisRateLimit`
abbrev pub decide : Result RateLimitResult → Decision
decide (err e) = next
decide (ok r) =
    if r.allowed then next_with r.remaining else too_many_requests (seconds r.retry_after)
