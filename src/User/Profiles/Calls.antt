-- ===== src/User/Profiles/Calls.antt =====
-- What each call of user-service/internal/user/service.go, and each task, keeps of the cache of profiles
-- and of the started tasks.
use kazakh_express.Base.{String, Option, none, some, List, Bool}
use kazakh_express.Effect.{Env}
use kazakh_express.Effect.Keeps.{Keeps, keeps_rules, Keeps-ignore, Keeps-call, Respects-writes}
use kazakh_express.User.Model.{
  User, RefreshToken, RegisterInput, LoginInput, UpdateProfileInput, ResetPasswordInput, Task,
  send_welcome, publish, cache_profile, drop_profile, revoke, Db,
}
use kazakh_express.User.Repository
use kazakh_express.User.Repository.{by_id}
use kazakh_express.User.Redis
use kazakh_express.User.Service
use kazakh_express.User.Service.{
  Parts, Crypto, publish_event, start, perform, generate_token_pair, hash_password, limit_login,
  check_attempts, save_reset, rotate, expire_token, is_revoked, read_profile, profile_or,
  without_password,
}
use kazakh_express.User.Lookups.{start-Keeps, is_revoked-Keeps}
use kazakh_express.User.Profiles.Shown.{IsGood, IsKept, Kept-start, Kept-cache, Kept-drop}

module _ (past : List Db) where
  -- A task that is started writes nothing, or what was stored.
  pub started-Keeps : (b : Bool) (t : Task) → IsGood past t → Keeps (IsKept past) (start b t)
  started-Keeps b t good = start-Keeps b t (λ d h. (h.0, Kept-start past t d.started good h.1))

  drop-Keeps : (b : Bool) (id : String) → Keeps (IsKept past) (start b (drop_profile id))
  drop-Keeps b id = started-Keeps b (drop_profile id) tt

  revoke-Keeps : (b : Bool) (t : String) → Keeps (IsKept past) (start b (revoke t))
  revoke-Keeps b t = started-Keeps b (revoke t) tt

  welcome-Keeps : (b : Bool) (u : User) → Keeps (IsKept past) (start b (send_welcome u))
  welcome-Keeps b u = started-Keeps b (send_welcome u) tt

  event-Keeps : (b : Bool) (e : _) (u : User) → Keeps (IsKept past) (start b (publish e u))
  event-Keeps b e u = started-Keeps b (publish e u) tt

  module _ (env : Env) (parts : Parts) (crypto : Crypto) where
    ruleset calls = (keeps_rules, drop-Keeps, revoke-Keeps, welcome-Keeps, event-Keeps)

    pub perform-Keeps :
        (t : Task) → IsGood past t → Keeps (IsKept past) (perform env parts crypto t)
    unfolding perform publish_event Redis.cache_user Redis.invalidate_user_cache
        Redis.blacklist_token
    perform-Keeps (send_welcome u) good = search keeps_rules
    perform-Keeps (publish event u) good = search keeps_rules depth 12
    perform-Keeps (cache_profile id u) good =
        Keeps-ignore _
          (Keeps-call env _ _ (record { of = λ t d h. Kept-cache past id u _ d good h }))
    perform-Keeps (drop_profile id) good =
        Keeps-ignore _ (Keeps-call env _ _ (Respects-writes _ (λ d h. Kept-drop past id d h)))
    perform-Keeps (revoke token) good = search keeps_rules

    pair-Keeps : (id : String) → Keeps (IsKept past) (generate_token_pair env parts crypto id)
    unfolding generate_token_pair Repository.save_refresh_token
    pair-Keeps id = search keeps_rules depth 12

    limit-Keeps : (email : String) → Keeps (IsKept past) (limit_login env parts crypto email)
    unfolding limit_login check_attempts Redis.check_login_rate_limit
    limit-Keeps email = search keeps_rules depth 12

    pub register-Keeps :
        (i : RegisterInput) → Keeps (IsKept past) (Service.register env parts crypto i)
    unfolding Service.register Repository.get_by_email hash_password Repository.create
    register-Keeps i = search (calls, pair-Keeps) depth 20

    pub login-Keeps : (i : LoginInput) → Keeps (IsKept past) (Service.login env parts crypto i)
    unfolding Service.login Repository.get_by_email Redis.reset_login_rate_limit
    login-Keeps i = search (calls, limit-Keeps, pair-Keeps) depth 16

    pub update_profile-Keeps :
        (id : String) (i : UpdateProfileInput)
        → Keeps (IsKept past) (Service.update_profile env parts crypto id i)
    unfolding Service.update_profile Repository.get_by_id Repository.update
    update_profile-Keeps id i = search calls depth 16

    pub validate-Keeps :
        (t : String) → Keeps (IsKept past) (Service.validate_token env parts crypto t)
    unfolding Service.validate_token
    validate-Keeps t = search (keeps_rules, is_revoked-Keeps) depth 16

    rotate-Keeps :
        (hash : String) (saved : RefreshToken)
        → Keeps (IsKept past) (rotate env parts crypto hash saved)
    unfolding rotate Repository.get_by_id Repository.delete_refresh_token
    rotate-Keeps hash saved = search (keeps_rules, pair-Keeps) depth 16

    pub refresh-Keeps :
        (t : String) → Keeps (IsKept past) (Service.refresh_token env parts crypto t)
    unfolding Service.refresh_token expire_token Repository.get_refresh_token
        Repository.delete_refresh_token
    refresh-Keeps t = search (keeps_rules, rotate-Keeps) depth 16

    pub logout-Keeps :
        (id access refresh : String)
        → Keeps (IsKept past) (Service.logout env parts crypto id access refresh)
    unfolding Service.logout Repository.delete_refresh_token Repository.delete_user_refresh_tokens
    logout-Keeps id access refresh = search calls depth 16

    saved-Keeps : (o : Option User) → Keeps (IsKept past) (save_reset env parts crypto o)
    unfolding save_reset Repository.save_password_reset_token
    saved-Keeps none = search keeps_rules
    saved-Keeps (some u) = search keeps_rules depth 16

    pub forgot-Keeps :
        (email : String) → Keeps (IsKept past) (Service.forgot_password env parts crypto email)
    unfolding Service.forgot_password Repository.get_by_email
    forgot-Keeps email = search (keeps_rules, saved-Keeps) depth 16

    pub reset-Keeps :
        (i : ResetPasswordInput) → Keeps (IsKept past) (Service.reset_password env parts crypto i)
    unfolding Service.reset_password hash_password Repository.get_user_by_reset_token
        Repository.delete_user_refresh_tokens Repository.update_password
        Repository.clear_password_reset_token
    reset-Keeps i = search calls depth 20
