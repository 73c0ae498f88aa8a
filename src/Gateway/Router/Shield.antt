-- ===== src/Gateway/Router/Shield.antt =====
-- How often requests reach a service behind the limit.
use kazakh_express.Base.{
  ℕ, suc, zero, ◌+◌, ◌<◌, ◌==◌, ◌≡◌, refl, ◌∙◌, ap, true, false, none, arith, leb, if◌then◌else◌,
}
use kazakh_express.Base.Int.{ℤ, pos}
use kazakh_express.Effect.{done, Env, World}
use kazakh_express.Http.{Reply}
use kazakh_express.Gateway.Limiter.{
  Db, allow, decide, stored, Decision, next, next_with, too_many_requests,
}
use kazakh_express.Gateway.Window.{passes, requests, window_limit}
use kazakh_express.Gateway.Router.{RouterConfig, Incoming, rate_key, go_on, serve, is_limited}

module _ {S B : Type 0} (route : S → Reply B × S) where
  -- The state of a service that `n` requests have reached.
  abbrev pub reached : ℕ → S → S
  reached zero s = s
  reached (suc n) s = reached n (route s).1

  -- The same request, again and again.
  unfoldable pub repeated :
      RouterConfig → Env → (ℕ → ℕ) → Incoming → ℕ → World Db × S → World Db × S
  repeated config env round r zero ws = ws
  repeated config env round r (suc n) ws =
      repeated config env round r n (serve route config env round r ws).1

  go_on-reached :
      (limit : ℤ) (d : Decision) (w : World Db) (s : S)
      → (go_on route limit d w s).1 ≡ (w, reached (passes d) s)
  unfolding go_on
  go_on-reached limit next w s = refl
  go_on-reached limit (next_with n) w s = refl
  go_on-reached limit (too_many_requests n) w s = refl

  reached-suc : (n : ℕ) (s : S) → reached n (route s).1 ≡ reached (1 + n) s
  reached-suc n s = let sum : suc n ≡ 1 + n = omega arith in ap (λ k. reached k s) sum

  reached-passes :
      (d : Decision) (n : ℕ) (s : S) → reached n (reached (passes d) s) ≡ reached (passes d + n) s
  reached-passes next n s = reached-suc n s
  reached-passes (next_with m) n s = reached-suc n s
  reached-passes (too_many_requests m) n s =
      let sum : n ≡ 0 + n = omega arith in ap (λ k. reached k s) sum

  module _ (config : RouterConfig) (env : Env) (round : ℕ → ℕ) (r : Incoming) (limit : ℕ)
      (simple : (r.method == "OPTIONS") ≡ false) (limited : is_limited config ≡ true)
      (bound : config.rate_limit ≡ pos limit) where
    serve-reached :
        (w : World Db) (s : S)
        → let (d, w') = allow env round true (rate_key r) (pos limit) config.rate_window w in
          (serve route config env round r (w, s)).1 ≡ (w', reached (passes (decide d)) s)
    unfolding serve
    serve-reached w s =
        let (d, w') = allow env round true (rate_key r) (pos limit) config.rate_window w in
        rw (simple, limited, bound) (go_on-reached (pos limit) (decide d) w' s)

    repeated-reached :
        (n : ℕ) (w : World Db) (s : S)
        → let counted = requests env round (rate_key r) limit config.rate_window n w in
          repeated config env round r n (w, s) ≡ (counted.1, reached counted.0 s)
    unfolding repeated
    repeated-reached zero w s = refl
    repeated-reached (suc n) w s =
        let (d, w') = allow env round true (rate_key r) (pos limit) config.rate_window w in
        let counted = requests env round (rate_key r) limit config.rate_window n w' in
        ap (repeated config env round r n) (serve-reached w s)
        ∙ repeated-reached n w' (reached (passes (decide d)) s)
        ∙ ap (λ x. (counted.1, x)) (reached-passes (decide d) counted.0 s)

  -- Behind a configured limit, the same request (of one client, with one method other than OPTIONS
  -- and one path), again and again, with no fault of Redis and before the window is over that the
  -- first of them opens: the service is left in the state in which as many of these requests leave it
  -- as the limit allows, all of them or the limit. The others do not reach it.
  pub shielded :
      (config : RouterConfig) (env : Env) (round : ℕ → ℕ) (r : Incoming) (limit n : ℕ)
      (w : World Db) (s : S)
      → (r.method == "OPTIONS") ≡ false
      → is_limited config ≡ true
      → config.rate_limit ≡ pos limit
      → ((n : ℕ) → env.outcome n ≡ done)
      → stored (rate_key r) (env.now w.tick) w.db ≡ none
      → ((m : ℕ) → m < w.tick + 1 + 1 + n → env.now m < env.now (w.tick + 1) + config.rate_window)
      → (repeated config env round r (suc n) (w, s)).1
        ≡ reached (if leb (suc n) limit then suc n else limit) s
  shielded config env round r limit n w s simple limited bound up absent early =
      ap (λ x. x.1) (repeated-reached config env round r limit simple limited bound (suc n) w s)
      ∙ ap (λ k. reached k s)
          (window_limit env round (rate_key r) limit config.rate_window up n w absent early)
