-- ===== src/Gateway/Window.antt =====
-- The windows of the rate limiter (api-gateway/internal/gateway/redis_limiter.go).
use kazakh_express.Base.{
  ℕ, suc, zero, ◌+◌, ◌-◌, ◌<◌, String, eq_iff, ◌≡◌, refl, sym, ◌∙◌, ap, Bool, true, false, Option,
  none, some, arith, is_some, leb, if◌then◌else◌,
}
use kazakh_express.Base.Int.{ℤ, pos}
use kazakh_express.Base.Table.{find, key-find}
use kazakh_express.Effect.Cases.{guard_ok, bind_ok}
use kazakh_express.Effect.{call, pure, ok, done, Env, World, ◌>>=◌}
use kazakh_express.Gateway.Limiter.{
  Counter, Db, RateLimitResult, allow, ensure_ttl, kept_ttl, time_left, incremented, increment, put,
  decide, stored, live, unexpired, Decision, next, next_with, too_many_requests,
}

-- Requests that the middleware lets through.
abbrev pub passes : Decision → ℕ
passes next = 1
passes (next_with n) = 1
passes (too_many_requests s) = 0

module _ (env : Env) (round : ℕ → ℕ) (key : String) (limit window : ℕ) where
  -- Requests under one key, one after the other: those that go through, and the state.
  abbrev pub requests : ℕ → World Db → ℕ × World Db
  requests zero w = (0, w)
  requests (suc n) w =
      let (r, w') = allow env round true key (pos limit) window w in
      let (passed, w'') = requests n w' in (passes (decide r) + passed, w'')

  module _ (up : (n : ℕ) → env.outcome n ≡ done) where
    -- A request while the counter is there with a time to live, if it is not the first.
    counted :
        (w : World Db) (c e : ℕ)
        → find (λ c. c.key) key w.db.counters
          ≡ some (record { key = key; count = suc c; expires = some e })
        → env.now w.tick < e
        → let (r, w') = allow env round true key (pos limit) window w in
          (passes (decide r) ≡ (if leb (suc c + 1) limit then 1 else 0))
          × (find (λ c. c.key) key w'.db.counters
              ≡ some (record { key = key; count = suc c + 1; expires = some e }))
          × (w'.tick ≡ w.tick + 1)
    unfolding allow ensure_ttl ◌>>=◌
    counted w c e there early = ground (arith, up w.tick, eq_iff key key)

    first :
        (w : World Db)
        → stored key (env.now w.tick) w.db ≡ none
        → let (r, w') = allow env round true key (pos limit) window w in
          (passes (decide r) ≡ (if leb 1 limit then 1 else 0))
          × (find (λ c. c.key) key w'.db.counters
              ≡ some
                  (record { key = key; count = 1; expires = some (env.now (w.tick + 1) + window) }))
          × (w'.tick ≡ w.tick + 1 + 1)
    unfolding allow ensure_ttl ◌>>=◌
    first w absent = ground (arith, up w.tick, up (w.tick + 1), eq_iff key key)

    counted_requests :
        (n : ℕ) (w : World Db) (c e : ℕ)
        → find (λ c. c.key) key w.db.counters
          ≡ some (record { key = key; count = suc c; expires = some e })
        → ((m : ℕ) → m < w.tick + n → env.now m < e)
        → (requests n w).0 ≡ (if leb n (limit - suc c) then n else limit - suc c)
    counted_requests zero w c e there early = ground arith
    counted_requests (suc n) w c e there early =
        let w' = (allow env round true key (pos limit) window w).1 in
        let (passed, there', tick) = counted w c e there (early w.tick (omega arith)) in
        let rest =
          counted_requests n w' (suc c) e
            (there'
              ∙ ap some (ap (λ k. record { key = key; count = k; expires = some e }) (omega arith)))
            (λ m le. early m (omega arith)) in
        ground (arith, passed, rest)

    -- Of the requests under one key that the middleware handles before the window is over that the
    -- first of them opens, with no fault, as many go through as the limit allows: all of them, or the
    -- limit.
    pub window_limit :
        (n : ℕ) (w : World Db)
        → stored key (env.now w.tick) w.db ≡ none
        → ((m : ℕ) → m < w.tick + 1 + 1 + n → env.now m < env.now (w.tick + 1) + window)
        → (requests (suc n) w).0 ≡ (if leb (suc n) limit then suc n else limit)
    window_limit n w absent early =
        let w' = (allow env round true key (pos limit) window w).1 in
        let (passed, there, tick) = first w absent in
        let rest =
          counted_requests n w' 0 (env.now (w.tick + 1) + window) there
            (λ m le. early m (omega arith)) in
        ground (arith, passed, rest)

-- The counter of a key has an end.
abbrev pub ends : Option Counter → Bool
ends none = false
ends (some c) = is_some c.expires

-- The part of `Allow` after the pipeline, on the counter that it has left.
ensured :
    (env : Env) (round : ℕ → ℕ) (key : String) (window t : ℕ) (w : World Db) (n : ℕ) (o : Option ℕ)
    {ttl : ℕ}
    → find (λ c. c.key) key w.db.counters ≡ some (record { key = key; count = n; expires = o })
    → (ensure_ttl env round key window (kept_ttl n (time_left round t o)) w).0 ≡ ok ttl
    → ends (
        find
          (λ c. c.key)
          key
          (ensure_ttl env round key window (kept_ttl n (time_left round t o)) w).1.db.counters)
      ≡ true
unfolding ensure_ttl ◌>>=◌
ensured env round key window t w n none there h = ground (arith, eq_iff key key)
ensured env round key window t w n (some e) there h = ground (arith, eq_iff key key)

-- The counter that the pipeline leaves, if it answers.
piped :
    (env : Env) (round : ℕ → ℕ) (key : String) (w : World Db) {x : ℕ × Option ℕ}
    → (call env "redis rate limit increment" (increment round key) w).0 ≡ ok x
    → let c = incremented key (stored key (env.now w.tick) w.db) in
      (x ≡ (c.count, time_left round (env.now w.tick) c.expires))
      × ((call env "redis rate limit increment" (increment round key) w).1.db ≡ put c w.db)
unfolding ◌>>=◌
piped env round key w {x} h = ground arith

unexpired_key :
    (key : String) (t : ℕ) (c : Counter) (o : Option ℕ)
    → c.key ≡ key
    → (incremented key (unexpired t c o)).key ≡ key
unexpired_key key t c none same = same
unexpired_key key t c (some e) same = ground arith

live_key :
    (key : String) (t : ℕ) (o : Option Counter)
    → ((c : Counter) → o ≡ some c → c.key ≡ key)
    → (incremented key (live t o)).key ≡ key
live_key key t none same = refl
live_key key t (some c) same = unexpired_key key t c c.expires (same c refl)

incremented_found :
    (key : String) (t : ℕ) (d : Db)
    → let c = incremented key (stored key t d) in
      find (λ c. c.key) key (put c d).counters
      ≡ some (record { key = key; count = c.count; expires = c.expires })
incremented_found key t d =
    let same =
      live_key key t (find (λ c. c.key) key d.counters)
        (λ c found. key-find (λ c. c.key) key d.counters found) in
    ground (arith, same, eq_iff (incremented key (stored key t d)).key key)

-- Whatever fails, after a request that the limiter answers, the counter of its key has a time at
-- which it ends, also if the EXPIRE of an earlier request has failed.
pub answered_ends :
    (env : Env) (round : ℕ → ℕ) (configured : Bool) (key : String) (limit : ℤ) (window : ℕ)
    (w : World Db) (r : RateLimitResult)
    → (allow env round configured key limit window w).0 ≡ ok r
    → ends (find (λ c. c.key) key (allow env round configured key limit window w).1.db.counters)
      ≡ true
unfolding allow pure
answered_ends env round configured key limit window w r h =
    let (on, step) = guard_ok _ _ _ w h in
    let (counted, answered, rest) =
      bind_ok (call env "redis rate limit increment" (increment round key)) _ w
        (ap (λ x. x.0) (sym step) ∙ h) in
    let w' = (call env "redis rate limit increment" (increment round key) w).1 in
    let (fields, left) = piped env round key w answered in
    let t = env.now w.tick in
    let c = incremented key (stored key t w.db) in
    let there = ap (λ d. find (λ c. c.key) key d.counters) left ∙ incremented_found key t w.db in
    let (ttl, ended, finish) =
      bind_ok (ensure_ttl env round key window (kept_ttl counted.0 counted.1)) _ w'
        (ap (λ x. x.0) (sym (step ∙ rest)) ∙ h) in
    let ended' : (ensure_ttl env round key window (kept_ttl c.count (time_left round t c.expires))
          w').0
        ≡ ok ttl =
      ap (λ x. (ensure_ttl env round key window (kept_ttl x.0 x.1) w').0) (sym fields) ∙ ended in
    ap (λ x. ends (find (λ c. c.key) key x.1.db.counters)) (step ∙ rest ∙ finish)
    ∙ ap
        (λ x. ends (
          find (λ c. c.key) key
            (ensure_ttl env round key window (kept_ttl x.0 x.1) w').1.db.counters))
        fields
    ∙ ensured env round key window t w' c.count c.expires there ended'
