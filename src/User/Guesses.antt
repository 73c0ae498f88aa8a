-- ===== src/User/Guesses.antt =====
-- The limit of login attempts (user-service/internal/user/service.go, internal/redis/client.go).
use kazakh_express.Base.{
  ◌<◌, ℕ, suc, ◌+◌, ◌*◌, ◌-◌, ◌≤◌, String, eq_iff, ◌≡◌, refl, sym, ◌∙◌, ap, true, false, none, some,
  List, [], ◌∷◌, ◌++◌, map, Bool-cases, inl, inr, length, All, select, ltb, arith, if◌then◌else◌,
}
use kazakh_express.Base.Table.{find}
use kazakh_express.Effect.{Result, err, rejected, done, Env, World, instead, attempt, ◌>>=◌}
use kazakh_express.User.Model.{Row, AuthResponse, Db}
use kazakh_express.User.Repository
use kazakh_express.User.Repository.{by_email}
use kazakh_express.User.Redis
use kazakh_express.User.Redis.{added, times_of, get, count_attempts}
use kazakh_express.User.Service.{Parts, Crypto, quarter_hour, login, limit_login, check_attempts}

-- Times after `a` and before `b`.
abbrev Between : ℕ → ℕ → List ℕ → Type 0
Between a b = All (λ s. (a < s) × (s < b))

-- None of them is dropped by a window that begins at `a` or before.
select-Between : (a b c : ℕ) (ss : List ℕ) → c ≤ a → Between a b ss → select (λ s. ltb c s) ss ≡ ss
select-Between a b c [] le h = refl
select-Between a b c (s ∷ ss) le h = ground (arith, select-Between a b c ss le h.1)

added-Between :
    (a b b' now : ℕ) (ss : List ℕ)
    → b ≤ now
    → a < now
    → now < b'
    → Between a b ss
    → (length (added now ss) ≡ suc (length ss)) × Between a b' (added now ss)
added-Between a b b' now [] le after early h = (refl, ((after, early), tt))
added-Between a b b' now (s ∷ ss) le after early h =
    ground (arith, added-Between a b b' now ss le after early h.1)

abbrev pub refused_guess : Result AuthResponse
refused_guess = err (rejected "invalid email or password")

abbrev pub refused_more : Result AuthResponse
refused_more = err (rejected "too many login attempts, please try again later")

module _ (env : Env) (parts : Parts) (crypto : Crypto) (email : String) where
  -- Logins with one address and these passwords, one after the other.
  abbrev pub guesses : List String → World Db → List (Result AuthResponse)
  guesses [] w = []
  guesses (p ∷ ps) w =
      let (r, w') = login env parts crypto (record { email = email; password = p }) w in
      r ∷ guesses ps w'

  module _ (up : (n : ℕ) → env.outcome n ≡ done) (on : parts.rate_limit ≡ true) where
    -- The state that the count of an attempt leaves.
    abbrev tried : World Db → World Db
    tried w = record {
      db =
          (count_attempts email quarter_hour (env.now (w.tick + 1)) (env.now (w.tick + 1 + 1))
            w.db).1;
      tick = w.tick + 1 + 1 + 1;
    }

    abbrev seen : World Db → List ℕ
    seen w = times_of (get (env.now (w.tick + 1 + 1)) email w.db.attempts)

    abbrev recent : World Db → List ℕ
    recent w = select (λ s. ltb (env.now (w.tick + 1) - quarter_hour) s) (seen w)

    login_refused :
        (p : String) (w : World Db) (row : Row)
        → by_email email w.db.users ≡ some row
        → ltb 5 (length (recent w)) ≡ true
        → login env parts crypto (record { email = email; password = p }) w
          ≡ (refused_more, tried w)
    unfolding login instead limit_login check_attempts attempt Repository.get_by_email
        Redis.check_login_rate_limit ◌>>=◌
    login_refused p w row there many = ground (arith, on, up w.tick, up (w.tick + 1 + 1))

    login_wrong :
        (p : String) (w : World Db) (row : Row)
        → by_email email w.db.users ≡ some row
        → ltb 5 (length (recent w)) ≡ false
        → crypto.matches row.user.password p ≡ false
        → login env parts crypto (record { email = email; password = p }) w
          ≡ (refused_guess, tried w)
    unfolding login instead limit_login check_attempts attempt Repository.get_by_email
        Redis.check_login_rate_limit ◌>>=◌
    login_wrong p w row there few wrong = ground (arith, on, up w.tick, up (w.tick + 1 + 1))

    module _ (start : ℕ) (later : (n : ℕ) → env.now n < env.now (n + 1)) where
      -- Every reading of the key within the window that begins at `start` gives `k` times of it.
      abbrev IsCounted : ℕ → World Db → Type 0
      IsCounted k w =
          (t : ℕ)
          → t < start + quarter_hour
          → let ts = times_of (get t email w.db.attempts) in
            (length ts ≡ k) × Between start (env.now w.tick) ts

      recent-IsCounted :
          (k : ℕ) (w : World Db)
          → env.now (w.tick + 1 + 1) < start + quarter_hour
          → IsCounted k w
          → (length (recent w) ≡ k) × Between start (env.now w.tick) (recent w)
      recent-IsCounted k w early counted =
          let h = counted (env.now (w.tick + 1 + 1)) early in
          let same =
            select-Between start (env.now w.tick) (env.now (w.tick + 1) - quarter_hour) (seen w)
              (omega (arith, later (w.tick + 1))) h.1 in
          ground (arith, h, same)

      tried-IsCounted :
          (k : ℕ) (w : World Db)
          → start ≤ env.now w.tick
          → env.now (w.tick + 1 + 1) < start + quarter_hour
          → IsCounted k w
          → IsCounted (suc k) (tried w)
      tried-IsCounted k w after early counted t before =
          let h = recent-IsCounted k w early counted in
          let now = env.now (w.tick + 1) in
          let more =
            added-Between start (env.now w.tick) (env.now (w.tick + 1 + 1 + 1)) now (recent w)
              (omega (arith, later w.tick)) (omega (arith, later w.tick))
              (omega (arith, later (w.tick + 1), later (w.tick + 1 + 1))) h.1 in
          ground (arith, eq_iff email email, more, h.0, later w.tick, later (w.tick + 1))

      module _ (row : Row) where
        abbrev verdict : ℕ → Result AuthResponse
        verdict k = if ltb 5 k then refused_more else refused_guess

        abbrev verdicts : ℕ → List String → List (Result AuthResponse)
        verdicts k [] = []
        verdicts k (p ∷ ps) = verdict k ∷ verdicts (suc k) ps

        -- The passwords before the seventh attempt are wrong.
        abbrev AreWrong : ℕ → List String → Type 0
        AreWrong k [] = Unit
        AreWrong k (p ∷ ps) =
            (ltb 5 k ≡ false → crypto.matches row.user.password p ≡ false) × AreWrong (suc k) ps

        login-verdict :
            (k : ℕ) (p : String) (w : World Db)
            → by_email email w.db.users ≡ some row
            → (ltb 5 k ≡ false → crypto.matches row.user.password p ≡ false)
            → length (recent w) ≡ k
            → login env parts crypto (record { email = email; password = p }) w
              ≡ (verdict k, tried w)
        login-verdict k p w there wrong count = elim (Bool-cases (ltb 5 k)) [
          | inl many ↦
              login_refused p w row there (ap (ltb 5) count ∙ many)
              ∙ ap (λ b. (if b then refused_more else refused_guess, tried w)) (sym many)
          | inr few ↦
              login_wrong p w row there (ap (ltb 5) count ∙ few) (wrong few)
              ∙ ap (λ b. (if b then refused_more else refused_guess, tried w)) (sym few)
        ]

        guesses-verdicts :
            (k : ℕ) (ps : List String) (w : World Db)
            → by_email email w.db.users ≡ some row
            → AreWrong k ps
            → start ≤ env.now w.tick
            → ((m : ℕ) → m < w.tick + 3 * length ps → env.now m < start + quarter_hour)
            → IsCounted k w
            → guesses ps w ≡ verdicts k ps
        guesses-verdicts k [] w there wrong after early counted = refl
        guesses-verdicts k (p ∷ ps) w there wrong after early counted =
            let soon = early (w.tick + 1 + 1) (omega arith) in
            let count = recent-IsCounted k w soon counted in
            let rest =
              guesses-verdicts (suc k) ps (tried w) there wrong.1
                (omega (arith, later w.tick, later (w.tick + 1), later (w.tick + 1 + 1)))
                (λ m le. early m (omega arith)) (tried-IsCounted k w after soon counted) in
            ap (λ x. x.0 ∷ guesses ps x.1) (login-verdict k p w there wrong.0 count.0)
            ∙ ap (λ rs. verdict k ∷ rs) rest

        AreWrong-more : (k : ℕ) (ps : List String) → ltb 5 k ≡ true → AreWrong k ps
        AreWrong-more k [] many = tt
        AreWrong-more k (p ∷ ps) many = (λ few. cc, AreWrong-more (suc k) ps (ground arith))

        AreWrong-append :
            (k : ℕ) (ps qs : List String)
            → All (λ p. crypto.matches row.user.password p ≡ false) ps
            → k + length ps ≡ 6
            → AreWrong k (ps ++ qs)
        AreWrong-append k [] qs wrong six = AreWrong-more k qs (ground arith)
        AreWrong-append k (p ∷ ps) qs wrong six =
            (λ few. wrong.0, AreWrong-append (suc k) ps qs wrong.1 (omega arith))

        verdicts-more :
            (k : ℕ) (ps : List String) → ltb 5 k ≡ true → verdicts k ps ≡ map (λ p. refused_more) ps
        verdicts-more k [] many = refl
        verdicts-more k (p ∷ ps) many = ground (arith, verdicts-more (suc k) ps)

        verdicts-append :
            (k : ℕ) (ps qs : List String)
            → k + length ps ≡ 6
            → verdicts k (ps ++ qs) ≡ map (λ p. refused_guess) ps ++ map (λ p. refused_more) qs
        verdicts-append k [] qs six = verdicts-more k qs (ground arith)
        verdicts-append k (p ∷ ps) qs six =
            ground (arith, verdicts-append (suc k) ps qs (omega arith))

    -- A service with the limit, no fault and a clock that moves on, an address of an account with no
    -- attempt counted, and passwords that come one after the other within a quarter of an hour, of
    -- which the first six are wrong: these six are answered as wrong, and every later one is refused
    -- whether it is right or not.
    pub six_guesses :
        (later : (n : ℕ) → env.now n < env.now (n + 1)) (wrong more : List String) (w : World Db)
        (row : Row)
        → by_email email w.db.users ≡ some row
        → find (λ h. h.key) email w.db.attempts ≡ none
        → length wrong ≡ 6
        → All (λ p. crypto.matches row.user.password p ≡ false) wrong
        → ((m : ℕ)
            → m < w.tick + 3 * length (wrong ++ more)
            → env.now m < env.now w.tick + quarter_hour)
        → guesses (wrong ++ more) w ≡ map (λ p. refused_guess) wrong ++ map (λ p. refused_more) more
    six_guesses later wrong more w row there fresh six bad early =
        guesses-verdicts (env.now w.tick) later row 0 (wrong ++ more) w there
          (AreWrong-append (env.now w.tick) later row 0 wrong more bad (omega arith)) (omega arith)
          early (λ t before. ground (arith, fresh))
        ∙ verdicts-append (env.now w.tick) later row 0 wrong more (omega arith)
