-- ===== src/User/Accounts.antt =====
-- The accounts and their refresh tokens, after any calls of user-service/internal/user/service.go.
pub mod Rows
use kazakh_express.Base.{
  ℕ, String, eq_iff, ◌≡◌, refl, ◌∙◌, ap, true, false, not, ◌&&◌, none, some, List, [], ◌∷◌, ◌++◌,
  Option, Option-cases, inl, inr, arith, is_some, subst, sym,
}
use kazakh_express.Base.Table.{
  find, delete_where, update_where, keys, keys-append, keys-update_where, has, has-append,
  IsDistinct, IsDistinct-append, has-keys-none, has-keys_found,
}
use kazakh_express.Effect.{Env, World, ◌>>=◌}
use kazakh_express.Effect.Keeps.{
  Keeps, keeps_rules, Keeps-bind, Keeps-call, Respects-checked, Respects-writes,
}
use kazakh_express.User.Model.{
  User, Row, RefreshToken, RegisterInput, LoginInput, UpdateProfileInput, ResetPasswordInput, Task,
  send_welcome, publish, cache_profile, drop_profile, revoke, Db,
}
use kazakh_express.User.Repository
use kazakh_express.User.Repository.{by_id, by_email}
use kazakh_express.User.Redis
use kazakh_express.User.Service
use kazakh_express.User.Service.{
  Parts, Crypto, publish_event, start, perform, generate_token_pair, hash_password, limit_login,
  check_attempts, save_reset, rotate, expire_token, is_revoked, read_profile, profile_or,
}
use kazakh_express.User.Lookups.{start-Keeps, is_revoked-Keeps, read_profile-Keeps}
use kazakh_express.User.Runs.{Op, apply, run, turn, taken}
use kazakh_express.User.Accounts.Rows.{
  IsConsistent, create-Keeps, save-Keeps, update-Keeps, save_reset-Keeps, update_password-Keeps,
  clear_reset-Keeps, delete-Keeps, delete_all-Keeps,
}

module _ (env : Env) (parts : Parts) (crypto : Crypto) where
  pair-Keeps : (id : String) → Keeps IsConsistent (generate_token_pair env parts crypto id)
  unfolding generate_token_pair
  pair-Keeps id = search (keeps_rules, save-Keeps) depth 12

  limit-Keeps : (email : String) → Keeps IsConsistent (limit_login env parts crypto email)
  unfolding limit_login check_attempts Redis.check_login_rate_limit
  limit-Keeps email = search keeps_rules depth 12

  register-Keeps : (i : RegisterInput) → Keeps IsConsistent (Service.register env parts crypto i)
  unfolding Service.register Repository.get_by_email hash_password
  register-Keeps i = search (keeps_rules, start-Keeps, create-Keeps, pair-Keeps) depth 16

  login-Keeps : (i : LoginInput) → Keeps IsConsistent (Service.login env parts crypto i)
  unfolding Service.login Repository.get_by_email Redis.reset_login_rate_limit
  login-Keeps i = search (keeps_rules, limit-Keeps, pair-Keeps) depth 16

  profile-Keeps :
      (id : String) (o : Option User) → Keeps IsConsistent (profile_or env parts crypto id o)
  unfolding profile_or Repository.get_by_id
  profile-Keeps id none = search (keeps_rules, start-Keeps) depth 16
  profile-Keeps id (some u) = search keeps_rules

  get_profile-Keeps : (id : String) → Keeps IsConsistent (Service.get_profile env parts crypto id)
  unfolding Service.get_profile
  get_profile-Keeps id = search (keeps_rules, read_profile-Keeps, profile-Keeps) depth 16

  update_profile-Keeps :
      (id : String) (i : UpdateProfileInput)
      → Keeps IsConsistent (Service.update_profile env parts crypto id i)
  unfolding Service.update_profile Repository.get_by_id
  update_profile-Keeps id i = search (keeps_rules, start-Keeps, update-Keeps) depth 16

  validate-Keeps : (t : String) → Keeps IsConsistent (Service.validate_token env parts crypto t)
  unfolding Service.validate_token
  validate-Keeps t = search (keeps_rules, is_revoked-Keeps) depth 16

  rotate-Keeps :
      (hash : String) (saved : RefreshToken)
      → Keeps IsConsistent (rotate env parts crypto hash saved)
  unfolding rotate Repository.get_by_id
  rotate-Keeps hash saved = search (keeps_rules, delete-Keeps, pair-Keeps) depth 16

  refresh-Keeps : (t : String) → Keeps IsConsistent (Service.refresh_token env parts crypto t)
  unfolding Service.refresh_token expire_token Repository.get_refresh_token
  refresh-Keeps t = search (keeps_rules, rotate-Keeps, delete-Keeps) depth 16

  logout-Keeps :
      (id access refresh : String)
      → Keeps IsConsistent (Service.logout env parts crypto id access refresh)
  unfolding Service.logout
  logout-Keeps id access refresh =
      search (keeps_rules, start-Keeps, delete-Keeps, delete_all-Keeps) depth 16

  saved-Keeps : (o : Option User) → Keeps IsConsistent (save_reset env parts crypto o)
  unfolding save_reset
  saved-Keeps none = search keeps_rules
  saved-Keeps (some u) = search (keeps_rules, save_reset-Keeps) depth 16

  forgot-Keeps :
      (email : String) → Keeps IsConsistent (Service.forgot_password env parts crypto email)
  unfolding Service.forgot_password Repository.get_by_email
  forgot-Keeps email = search (keeps_rules, saved-Keeps) depth 16

  reset-Keeps :
      (i : ResetPasswordInput) → Keeps IsConsistent (Service.reset_password env parts crypto i)
  unfolding Service.reset_password hash_password Repository.get_user_by_reset_token
  reset-Keeps i =
      search (keeps_rules, start-Keeps, update_password-Keeps, clear_reset-Keeps, delete_all-Keeps)
        depth 16

  perform-Keeps : (t : Task) → Keeps IsConsistent (perform env parts crypto t)
  unfolding perform publish_event Redis.cache_user Redis.invalidate_user_cache Redis.blacklist_token
  perform-Keeps (send_welcome u) = search keeps_rules
  perform-Keeps (publish event u) = search keeps_rules depth 12
  perform-Keeps (cache_profile id u) = search keeps_rules
  perform-Keeps (drop_profile id) = search keeps_rules
  perform-Keeps (revoke token) = search keeps_rules

  turn-IsConsistent :
      (o : Option (Task × List Task)) (w : World Db)
      → IsConsistent w.db
      → IsConsistent (turn env parts crypto o w).db
  unfolding turn
  turn-IsConsistent none w h = h
  turn-IsConsistent (some (t, rest)) w h = (perform-Keeps t).at _ h

  apply-IsConsistent :
      (op : Op) (w : World Db) → IsConsistent w.db → IsConsistent (apply env parts crypto op w).db
  unfolding apply
  apply-IsConsistent (Op.register i) w h = (register-Keeps i).at w h
  apply-IsConsistent (Op.login i) w h = (login-Keeps i).at w h
  apply-IsConsistent (Op.get_profile id) w h = (get_profile-Keeps id).at w h
  apply-IsConsistent (Op.validate_token t) w h = (validate-Keeps t).at w h
  apply-IsConsistent (Op.refresh_token t) w h = (refresh-Keeps t).at w h
  apply-IsConsistent (Op.forgot_password e) w h = (forgot-Keeps e).at w h
  apply-IsConsistent (Op.update_profile id i) w h = (update_profile-Keeps id i).at w h
  apply-IsConsistent (Op.logout id a r) w h = (logout-Keeps id a r).at w h
  apply-IsConsistent (Op.reset_password i) w h = (reset-Keeps i).at w h
  apply-IsConsistent (Op.task n) w h = turn-IsConsistent (taken n w.db.started) w h

  -- From a state where this holds, after any calls and tasks, under any environment: the identifiers and the
  -- addresses of the accounts are distinct, the hashes of the refresh tokens are distinct, and every
  -- token belongs to an account.
  pub run-IsConsistent :
      (ops : List Op) (w : World Db)
      → IsConsistent w.db
      → IsConsistent (run env parts crypto ops w).db
  unfolding run
  run-IsConsistent [] w h = h
  run-IsConsistent (op ∷ ops) w h =
      run-IsConsistent ops (apply env parts crypto op w) (apply-IsConsistent op w h)
