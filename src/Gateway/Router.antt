-- ===== src/Gateway/Router.antt =====
-- api-gateway/internal/gateway/router.go: the middleware before every route.
pub mod Shield
use kazakh_express.Base.{
  ℕ, String, ◌==◌, Bool, true, false, ◌&&◌, List, [], ◌∷◌, ltb, if◌then◌else◌,
}
use kazakh_express.Base.Int.{ℤ, pos, ltb_ℤ}
use kazakh_express.Base.Decimal.{decimal, texts, number_text}
use kazakh_express.Effect.{Env, World}
use kazakh_express.Http.{Reply, wait, empty}
use kazakh_express.Gateway.Limiter.{Db, allow, decide, Decision, next, next_with, too_many_requests}

-- `routerConfig`; of the limiter, whether it is set.
pub record RouterConfig : Type 0 where
  pub rate_limiter : Bool
  pub rate_limit : ℤ
  pub rate_window : ℕ

abbrev pub default_config : RouterConfig
default_config = record { rate_limiter = false; rate_limit = pos 120; rate_window = 60000000000 }

-- The options of `NewRouter`, one after the other.
unfoldable pub configure : List (RouterConfig → RouterConfig) → RouterConfig → RouterConfig
configure [] config = config
configure (option ∷ options) config = configure options (option config)

-- `WithRateLimiter`
abbrev pub with_rate_limiter : Bool → ℤ → ℕ → RouterConfig → RouterConfig
with_rate_limiter limiter limit window config = record {
  rate_limiter = limiter;
  rate_limit = limit;
  rate_window = window;
}

abbrev pub is_limited : RouterConfig → Bool
is_limited config =
    config.rate_limiter && ltb_ℤ (pos 0) config.rate_limit && ltb 0 config.rate_window

pub record Incoming : Type 0 where
  pub client_ip : String
  pub method : String
  pub path : String

-- The headers that the middleware sets, and the answer.
pub record Answered (B : Type 0) : Type 0 where
  pub headers : List (String × String)
  pub reply : Reply B

abbrev pub cors_headers : List (String × String)
cors_headers =
    ("Access-Control-Allow-Origin", "*")
    ∷ ("Access-Control-Allow-Methods", "GET,POST,PUT,PATCH,DELETE,OPTIONS")
    ∷ ("Access-Control-Allow-Headers", "Authorization,Content-Type,Idempotency-Key")
    ∷ []

abbrev pub rate_key : Incoming → String
rate_key r = texts ("gateway:ratelimit:" ∷ r.client_ip ∷ ":" ∷ r.method ∷ ":" ∷ r.path ∷ [])

module _ {S B : Type 0} (route : S → Reply B × S) where
  abbrev pub routed : List (String × String) → World Db → S → Answered B × (World Db × S)
  routed headers w s =
      let (reply, s') = route s in (record { headers = headers; reply = reply }, (w, s'))

  abbrev pub limit_headers : ℤ → ℤ → List (String × String)
  limit_headers limit remaining =
      ("X-RateLimit-Remaining", number_text remaining)
      ∷ ("X-RateLimit-Limit", number_text limit)
      ∷ cors_headers

  -- The rest of `redisRateLimit`, from the decision; a refusal comes when nothing remains.
  unfoldable pub go_on : ℤ → Decision → World Db → S → Answered B × (World Db × S)
  go_on limit next w s = routed cors_headers w s
  go_on limit (next_with remaining) w s = routed (limit_headers limit remaining) w s
  go_on limit (too_many_requests n) w s = (
    record {
      headers = ("Retry-After", decimal n) ∷ limit_headers limit (pos 0);
      reply = record { status = 429; body = wait n };
    },
    (w, s),
  )

  -- `cors`, then the limit, then the route, on the state of the limiter and that of the service.
  unfoldable pub serve :
      RouterConfig → Env → (ℕ → ℕ) → Incoming → World Db × S → Answered B × (World Db × S)
  serve config env round r (w, s) =
      let (result, w') = allow env round true (rate_key r) config.rate_limit config.rate_window w in
      if r.method == "OPTIONS"
      then (
        record { headers = cors_headers; reply = record { status = 204; body = empty } },
        (w, s),
      )
      else if is_limited config
      then go_on config.rate_limit (decide result) w' s
      else routed cors_headers w s
