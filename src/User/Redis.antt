-- ===== src/User/Redis.antt =====
-- user-service/internal/redis/client.go, through internal/user/adapters.go.
use kazakh_express.Base.{
  ℕ, ◌+◌, ◌-◌, String, Bool, Option, none, some, List, [], ◌∷◌, is_some, length, select, ltb, eqb,
  if◌then◌else◌,
}
use kazakh_express.Base.Table.{find, delete_where}
use kazakh_express.Effect.{ok, rejected, Env, Action, call, writes, or_raise, Statement}
use kazakh_express.User.Model.{User, Held, Db}

-- What a key holds that has not expired.
abbrev pub held : {A : Type 0} → ℕ → Option (Held A) → Option A
held t none = none
held t (some h) = if ltb t h.expires then some h.value else none

abbrev pub get : {A : Type 0} → ℕ → String → List (Held A) → Option A
get t key hs = held t (find (λ h. h.key) key hs)

-- `BlacklistToken`, `IsTokenBlacklisted`
unfoldable pub blacklist_token : Env → String → ℕ → Action Db (Unit {0})
blacklist_token env token ttl = call env "blacklist token" (λ t d. (
  ok tt,
  record d { revoked = record { key = token; value = tt; expires = t + ttl } ∷ d.revoked },
))

unfoldable pub is_token_blacklisted : Env → String → Action Db Bool
is_token_blacklisted env token =
    call env "is token blacklisted" (λ t d. (ok (is_some (get t token d.revoked)), d))

abbrev pub times_of : Option (List ℕ) → List ℕ
times_of none = []
times_of (some ts) = ts

-- ZADD of a time under itself: a set has it once.
abbrev pub added : ℕ → List ℕ → List ℕ
added now [] = now ∷ []
added now (s ∷ ss) = if eqb s now then s ∷ ss else s ∷ added now ss

-- The pipeline of `CheckLoginRateLimit`: the attempts within the window are counted before the new
-- one is added. `now` is the time that the client has read.
abbrev pub count_attempts : String → ℕ → ℕ → Statement Db ℕ
count_attempts key window now t d =
    let recent = select (λ s. ltb (now - window) s) (times_of (get t key d.attempts)) in
    (
      ok (length recent),
      record d {
        attempts =
            record { key = key; value = added now recent; expires = t + window } ∷ d.attempts;
      },
    )

-- `CheckLoginRateLimit`, given that time, and `ResetLoginRateLimit`
unfoldable pub check_login_rate_limit : Env → String → ℕ → ℕ → Action Db ℕ
check_login_rate_limit env key window now =
    call env "login rate limit" (count_attempts key window now)

unfoldable pub reset_login_rate_limit : Env → String → Action Db (Unit {0})
reset_login_rate_limit env key =
    call env "reset rate limit"
      (writes (λ d. record d { attempts = delete_where (λ h. h.key) key d.attempts }))

-- `CacheUser`: the password is not part of the JSON text.
unfoldable pub cache_user : Env → String → User → ℕ → Action Db (Unit {0})
cache_user env id u ttl = call env "cache user" (λ t d. (
  ok tt,
  record d {
    cached = record { key = id; value = record u { password = "" }; expires = t + ttl } ∷ d.cached;
  },
))

unfoldable pub get_cached_user : Env → String → Action Db User
get_cached_user env id =
    call env "get cached user" (λ t d. (or_raise (get t id d.cached) (rejected "cache miss"), d))

unfoldable pub invalidate_user_cache : Env → String → Action Db (Unit {0})
invalidate_user_cache env id =
    call env "invalidate user cache"
      (writes (λ d. record d { cached = delete_where (λ h. h.key) id d.cached }))
