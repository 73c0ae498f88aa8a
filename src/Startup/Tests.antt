-- ===== src/Startup/Tests.antt =====
-- The start of a service on concrete inputs.
use kazakh_express.Base.{ℕ, ltb, false, if◌then◌else◌}
use kazakh_express.Effect.{Result, ok, err, rejected}
use kazakh_express.Startup.{retry, retry-Ends, Ends}

-- The database answers the third ping.
abbrev third : ℕ → Result (Unit {0})
third n = if ltb n 3 then err (rejected "refused") else ok tt

retry-Ends_example :
    Ends third
      (λ n. false)
      (rejected "canceled")
      0
      30
      (retry third (λ n. false) (rejected "canceled"))
retry-Ends_example = retry-Ends third (λ n. false) (rejected "canceled")
