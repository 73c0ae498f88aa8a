-- ===== src/Gateway/Tests.antt =====
-- The rate limit of the gateway on concrete inputs.
use kazakh_express.Base.{ℕ, ◌+◌, String, ◌≡◌, refl, true, [], ◌∷◌, none, arith}
use kazakh_express.Base.Int.{pos}
use kazakh_express.Base.Decimal.{decimal}
use kazakh_express.Base.Table.{find}
use kazakh_express.Effect.{done, Env, World, ◌>>=◌}
use kazakh_express.Gateway.Limiter.{Db, allow, ensure_ttl, result_of}
use kazakh_express.Http.{Reply, text}
use kazakh_express.Gateway.Router.{RouterConfig, Incoming}
use kazakh_express.Gateway.Router.Shield.{repeated, shielded}
use kazakh_express.Gateway.Window.{ends, answered_ends}

abbrev calm : Env
calm = record { outcome = λ n. done; now = λ n. n; uuid = decimal }

abbrev empty : World Db
empty = record { db = record { counters = [] }; tick = 0 }

-- A counter whose EXPIRE has failed.
abbrev stuck : World Db
stuck = record {
  db = record { counters = record { key = "ip"; count = 7; expires = none } ∷ [] };
  tick = 0;
}

answered_ends_example :
    ends (find (λ c. c.key) "ip" (allow calm (λ t. t) true "ip" (pos 2) 100 stuck).1.db.counters)
    ≡ true
unfolding allow ensure_ttl ◌>>=◌
answered_ends_example =
    answered_ends calm (λ t. t) true "ip" (pos 2) 100 stuck (result_of (pos 2) 8 100) refl

-- A route that counts the requests that it answers.
abbrev counting : ℕ → Reply String × ℕ
counting n = (record { status = 200; body = text "ok" }, n + 1)

abbrev two_in_100 : RouterConfig
two_in_100 = record { rate_limiter = true; rate_limit = pos 2; rate_window = 100 }

abbrev asking : Incoming
asking = record { client_ip = "ip"; method = "GET"; path = "/orders" }

-- Two of four requests.
shielded_example : (repeated counting two_in_100 calm (λ t. t) asking 4 (empty, 0)).1 ≡ 2
shielded_example =
    shielded counting two_in_100 calm (λ t. t) asking 2 3 empty 0 refl refl refl (λ n. refl) refl
      (λ m le. omega arith)
