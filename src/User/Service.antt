-- ===== src/User/Service.antt =====
-- user-service/internal/user/service.go: the methods. The call of a `go` statement is a task
-- that is started where the statement stands.
mod Setup
mod Tokens
use kazakh_express.Base.{
  ℕ, ◌+◌, String, Bool, false, not, Option, none, some, [], ◌∷◌, ◌++◌, is_empty, is_some, ltb,
  if◌then◌else◌,
}
use kazakh_express.Base.Decimal.{concat}
use kazakh_express.Effect.{
  Result, ok, err, rejected, Env, World, Action, pure, raise, raise_if, lift, call, ignore, when,
  get_time, new_uuid, attempt, instead, ◌>>=◌, ◌>>◌, writes, or_raise,
}
use kazakh_express.User.Model.{
  User, RefreshToken, RegisterInput, LoginInput, UpdateProfileInput, AuthResponse,
  ResetPasswordInput, EventType, user_created, user_updated, send_welcome, publish, cache_profile,
  drop_profile, revoke, Db,
}
use kazakh_express.User.Repository
use kazakh_express.User.Redis
unfoldable pub use kazakh_express.User.Service.Setup.*
unfoldable pub use kazakh_express.User.Service.Tokens.*

module _ (env : Env) (parts : Parts) (crypto : Crypto) where
  abbrev pub new_user : RegisterInput → String → String → User
  new_user input id hash = record {
    id = id;
    email = input.email;
    password = hash;
    first_name = input.first_name;
    last_name = input.last_name;
    phone = input.phone;
    address = input.address;
    created_at = 0;
    updated_at = 0;
  }

  -- An error of `GetByEmail`, of whatever kind, lets the registration go on.
  unfoldable pub register : RegisterInput → Action Db AuthResponse
  register input = do
    existing ← attempt (Repository.get_by_email env input.email)
    raise_if (is_some existing)
        (rejected (concat "user with email " (concat input.email " already exists")))
    hash ← hash_password env parts crypto input.password
    id ← new_uuid env
    u ← Repository.create env (new_user input id hash)
    pair ←
        instead (rejected "failed to generate tokens") (generate_token_pair env parts crypto u.id)
    start parts.email (send_welcome u)
    start parts.event (publish user_created u)
    pure (response u pair)

  -- The number of attempts before this one; an error counts as none.
  abbrev pub too_many : Option ℕ → Bool
  too_many none = false
  too_many (some n) = ltb 5 n

  -- The limit of `Login`: the client reads the time.
  unfoldable pub check_attempts : String → Action Db (Unit {0})
  check_attempts email = do
    now ← get_time env
    n ← attempt (Redis.check_login_rate_limit env email quarter_hour now)
    raise_if (too_many n) (rejected "too many login attempts, please try again later")

  unfoldable pub limit_login : String → Action Db (Unit {0})
  limit_login email = when parts.rate_limit (check_attempts email)

  unfoldable pub login : LoginInput → Action Db AuthResponse
  login input = do
    u ← instead (rejected "invalid email or password") (Repository.get_by_email env input.email)
    limit_login input.email
    raise_if (not (crypto.matches u.password input.password)) (rejected "invalid email or password")
    when parts.rate_limit (ignore (Redis.reset_login_rate_limit env input.email))
    pair ←
        instead (rejected "failed to generate tokens") (generate_token_pair env parts crypto u.id)
    pure (response u pair)

  -- What the cache gives for `GetProfile`: nothing if there is no cache or no live entry.
  unfoldable pub read_profile : String → Action Db (Option User)
  read_profile id w = if parts.cache then attempt (Redis.get_cached_user env id) w else (ok none, w)

  unfoldable pub profile_or : String → Option User → Action Db User
  profile_or id (some u) = pure (without_password u)
  profile_or id none = do
    u ← instead (rejected "user not found") (Repository.get_by_id env id)
    start parts.cache (cache_profile id u)
    pure (without_password u)

  -- `GetProfile`
  unfoldable pub get_profile : String → Action Db User
  get_profile id = do cached ← read_profile id; profile_or id cached

  -- `UpdateProfile`
  unfoldable pub update_profile : String → UpdateProfileInput → Action Db User
  update_profile id input = do
    u ← instead (rejected "user not found") (Repository.get_by_id env id)
    changed ← instead (rejected "failed to update user") (Repository.update env (edited input u))
    start parts.cache (drop_profile id)
    start parts.event (publish user_updated changed)
    pure (without_password changed)

  -- Whether the cache says that a token is revoked; an error says that it is not.
  unfoldable pub is_revoked : String → Action Db Bool
  is_revoked token w =
      if parts.cache then said (attempt (Redis.is_token_blacklisted env token) w) else (ok false, w)

  -- `ValidateToken`
  unfoldable pub validate_token : String → Action Db String
  validate_token token = do
    revoked ← is_revoked token
    raise_if revoked (rejected "token has been revoked")
    now ← get_time env
    lift (checked_token crypto now token)

  -- The new tokens of `RefreshToken`, for the row that was read. An error of the delete is dropped.
  unfoldable pub rotate : String → RefreshToken → Action Db AuthResponse
  rotate hash saved = do
    u ← instead (rejected "user not found") (Repository.get_by_id env saved.user_id)
    ignore (Repository.delete_refresh_token env hash)
    pair ←
        instead (rejected "failed to generate tokens") (generate_token_pair env parts crypto u.id)
    pure (response u pair)

  unfoldable pub expire_token : String → Action Db AuthResponse
  expire_token hash = do
    ignore (Repository.delete_refresh_token env hash)
    raise (rejected "refresh token expired")

  -- `RefreshToken`
  unfoldable pub refresh_token : String → Action Db AuthResponse
  refresh_token text = do
    let hash = crypto.hash_token text
    saved ← instead (rejected "invalid refresh token") (Repository.get_refresh_token env hash)
    now ← get_time env
    if ltb saved.expires_at now then expire_token hash else rotate hash saved

  unfoldable pub logout : String → String → String → Action Db (Unit {0})
  logout user_id access refresh = do
    start parts.cache (revoke access)
    when (not (is_empty refresh))
        (ignore (Repository.delete_refresh_token env (crypto.hash_token refresh)))
    ignore (Repository.delete_user_refresh_tokens env user_id)
    start parts.cache (drop_profile user_id)

  -- `ForgotPassword`: an unknown address is no error.
  unfoldable pub save_reset : Option User → Action Db (Unit {0})
  save_reset none = pure tt
  save_reset (some u) = do
    seed ← get_time env
    now ← get_time env
    Repository.save_password_reset_token env u.id (crypto.hash_token (crypto.random seed))
        (now + hour)

  unfoldable pub forgot_password : String → Action Db (Unit {0})
  forgot_password email = do u ← attempt (Repository.get_by_email env email); save_reset u

  unfoldable pub reset_password : ResetPasswordInput → Action Db (Unit {0})
  reset_password input = do
    u ←
        instead (rejected "invalid or expired reset token")
          (Repository.get_user_by_reset_token env (crypto.hash_token input.token))
    hash ← hash_password env parts crypto input.new_password
    Repository.update_password env u.id hash
    ignore (Repository.clear_password_reset_token env u.id)
    ignore (Repository.delete_user_refresh_tokens env u.id)
    start parts.cache (drop_profile u.id)
