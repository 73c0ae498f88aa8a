-- ===== src/User/Service/Tokens.antt =====
-- user-service/internal/user/service.go: a pair of tokens, the hash of a password, the events and the
-- cache of profiles.
use kazakh_express.Base.{Bool, true, false, ◌+◌, String, [], ◌∷◌, ◌++◌}
use kazakh_express.Base.Decimal.{concat}
use kazakh_express.Effect.{
  ok, rejected, Env, Action, pure, lift, call, ignore, when, get_time, new_uuid, ◌>>=◌, ◌>>◌,
  writes, or_raise,
}
use kazakh_express.User.Model.{
  User, EventType, Task, send_welcome, publish, cache_profile, drop_profile, revoke, Db,
}
use kazakh_express.User.Repository
use kazakh_express.User.Redis
use kazakh_express.User.Service.Setup.{Parts, Crypto, month, week, five_minutes}

-- `if s.part != nil { go ... }`: the call is made at some later time.
unfoldable pub start : Bool → Task → Action Db (Unit {0})
start false t w = (ok tt, w)
start true t w = (ok tt, record w { db = record w.db { started = w.db.started ++ t ∷ [] } })

module _ (env : Env) (parts : Parts) (crypto : Crypto) where
  -- `publishEvent`
  unfoldable pub publish_event : EventType → User → Action Db (Unit {0})
  publish_event event u = when parts.event (
      get_time env >>= λ now. ignore (
        call env "publish event" (
          writes (λ d. record d {
            published =
                d.published
                ++ record {
                  user_id = u.id;
                  email = u.email;
                  first_name = u.first_name;
                  last_name = u.last_name;
                  event = event;
                  timestamp = now;
                }
                  ∷ [];
          }))))

  -- What a task does. The profile is kept for five minutes, and a revoked token for a week.
  unfoldable pub perform : Task → Action Db (Unit {0})
  perform (send_welcome u) = ignore (
      call env "send welcome email"
        (writes (λ d. record d { welcomed = d.welcomed ++ u.email ∷ [] })))
  perform (publish event u) = publish_event event u
  perform (cache_profile id u) = ignore (Redis.cache_user env id u five_minutes)
  perform (drop_profile id) = ignore (Redis.invalidate_user_cache env id)
  perform (revoke token) = ignore (Redis.blacklist_token env token week)

  -- `generateTokenPair`
  unfoldable pub generate_token_pair : String → Action Db (String × String)
  generate_token_pair user_id = do
    jti ← new_uuid env
    exp ← get_time env
    iat ← get_time env
    raw ← new_uuid env
    now ← get_time env
    let refresh = concat raw (concat "-" user_id)
    Repository.save_refresh_token env user_id (crypto.hash_token refresh) (now + month)
    pure (crypto.sign user_id jti (exp + week) iat, refresh)

  -- `bcrypt.GenerateFromPassword`
  unfoldable pub hash_password : String → Action Db String
  hash_password password = do
    salt ← get_time env
    lift (or_raise (crypto.hash_password salt password) (rejected "failed to hash password"))
