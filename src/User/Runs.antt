-- ===== src/User/Runs.antt =====
-- Histories of the user service: any sequence of calls, and of the calls that `go` statements have
-- started, each at any later time (user-service/internal/user/service.go).
use kazakh_express.Base.{ℕ, zero, suc, String, Option, none, some, List, [], ◌∷◌}
use kazakh_express.Base.Table.{map_some}
use kazakh_express.Effect.{Env, World}
use kazakh_express.User.Model.{
  RegisterInput, LoginInput, UpdateProfileInput, ResetPasswordInput, Task, Db,
}
use kazakh_express.User.Service
use kazakh_express.User.Service.{Parts, Crypto, perform}

-- A task of the started ones, and those that are left.
abbrev pub keep_first : Task → Task × List Task → Task × List Task
keep_first t (s, ts) = (s, t ∷ ts)

abbrev pub taken : ℕ → List Task → Option (Task × List Task)
taken n [] = none
taken zero (t ∷ ts) = some (t, ts)
taken (suc n) (t ∷ ts) = map_some (keep_first t) (taken n ts)

-- The calls of the service, and the turn of a started task, by its place.
pub data Op : Type 0 where
  register : RegisterInput → Op
  login : LoginInput → Op
  get_profile validate_token refresh_token forgot_password : String → Op
  update_profile : String → UpdateProfileInput → Op
  logout : String → String → String → Op
  reset_password : ResetPasswordInput → Op
  task : ℕ → Op

module _ (env : Env) (parts : Parts) (crypto : Crypto) where
  unfoldable pub turn : Option (Task × List Task) → World Db → World Db
  turn none w = w
  turn (some (t, rest)) w =
      (perform env parts crypto t (record w { db = record w.db { started = rest } })).1

  unfoldable pub apply : Op → World Db → World Db
  unfolding turn
  apply (Op.register i) w = (Service.register env parts crypto i w).1
  apply (Op.login i) w = (Service.login env parts crypto i w).1
  apply (Op.get_profile id) w = (Service.get_profile env parts crypto id w).1
  apply (Op.validate_token t) w = (Service.validate_token env parts crypto t w).1
  apply (Op.refresh_token t) w = (Service.refresh_token env parts crypto t w).1
  apply (Op.forgot_password e) w = (Service.forgot_password env parts crypto e w).1
  apply (Op.update_profile id i) w = (Service.update_profile env parts crypto id i w).1
  apply (Op.logout id a r) w = (Service.logout env parts crypto id a r w).1
  apply (Op.reset_password i) w = (Service.reset_password env parts crypto i w).1
  apply (Op.task n) w = turn (taken n w.db.started) w

  unfoldable pub run : List Op → World Db → World Db
  unfolding apply
  run [] w = w
  run (op ∷ ops) w = run ops (apply op w)
