-- ===== src/User/Profiles.antt =====
-- The cache of profiles (user-service/internal/user/service.go, internal/redis/client.go), whose writes
-- are started by `go` and done at any later time.
pub mod Shown
pub mod Stale
mod Calls
mod Reads
use kazakh_express.Base.{
  ℕ, ◌+◌, String, ◌≡◌, refl, sym, ◌∙◌, ap, subst, Option, none, some, List, [], ◌∷◌, ◌++◌, arith,
  Option-cases, inl, inr,
}
use kazakh_express.Base.Table.{find}
use kazakh_express.Effect.{Result, ok, Env, World}
use kazakh_express.User.Model.{User, Held, Task, Db}
use kazakh_express.User.Service
use kazakh_express.User.Service.{Parts, Crypto, perform}
use kazakh_express.User.Runs.{Op, apply, run, turn, taken}
use kazakh_express.User.Profiles.Shown.{
  Was, here, later, IsKept, Kept-later, AreGood, taken-AreGood,
}
use kazakh_express.User.Profiles.Calls.{
  register-Keeps, login-Keeps, update_profile-Keeps, validate-Keeps, refresh-Keeps, logout-Keeps,
  forgot-Keeps, reset-Keeps, perform-Keeps,
}
use kazakh_express.User.Profiles.Reads.{get_profile-keeps, get_profile-Was}

module _ (env : Env) (parts : Parts) (crypto : Crypto) where
  -- The states that a run passes, the last one first, after those that came before.
  abbrev pub states : List Op → World Db → List Db → List Db
  states [] w past = past
  states (op ∷ ops) w past = let w' = apply env parts crypto op w in states ops w' (w'.db ∷ past)

  turn-IsKept :
      (past : List Db) (o : Option (Task × List Task)) (w : World Db)
      → AreGood past o
      → IsKept past w.db
      → IsKept past (turn env parts crypto o w).db
  unfolding turn
  turn-IsKept past none w good h = h
  turn-IsKept past (some (t, rest)) w good h =
      (perform-Keeps past env parts crypto t good.0).at
        (record w { db = record w.db { started = rest } }) (h.0, good.1)

  apply-IsKept :
      (op : Op) (w : World Db) (past : List Db)
      → IsKept (w.db ∷ past) w.db
      → IsKept (w.db ∷ past) (apply env parts crypto op w).db
  unfolding apply
  apply-IsKept (Op.register i) w past h = (register-Keeps _ env parts crypto i).at w h
  apply-IsKept (Op.login i) w past h = (login-Keeps _ env parts crypto i).at w h
  apply-IsKept (Op.get_profile id) w past h = get_profile-keeps env parts crypto past id w h
  apply-IsKept (Op.validate_token t) w past h = (validate-Keeps _ env parts crypto t).at w h
  apply-IsKept (Op.refresh_token t) w past h = (refresh-Keeps _ env parts crypto t).at w h
  apply-IsKept (Op.forgot_password e) w past h = (forgot-Keeps _ env parts crypto e).at w h
  apply-IsKept (Op.update_profile id i) w past h =
      (update_profile-Keeps _ env parts crypto id i).at w h
  apply-IsKept (Op.logout id a r) w past h = (logout-Keeps _ env parts crypto id a r).at w h
  apply-IsKept (Op.reset_password i) w past h = (reset-Keeps _ env parts crypto i).at w h
  apply-IsKept (Op.task n) w past h =
      turn-IsKept _ (taken n w.db.started) w (taken-AreGood _ n w.db.started h.1) h

  run_shown :
      (ops : List Op) (id : String) (w : World Db) (past : List Db) (u : User)
      → IsKept (w.db ∷ past) w.db
      → (Service.get_profile env parts crypto id (run env parts crypto ops w)).0 ≡ ok u
      → Was id u (states ops w (w.db ∷ past))
  unfolding run
  run_shown [] id w past u h answered = get_profile-Was env parts crypto past id w u h answered
  run_shown (op ∷ ops) id w past u h answered =
      run_shown ops id (apply env parts crypto op w) (w.db ∷ past) u
        (Kept-later (w.db ∷ past) (apply env parts crypto op w).db (apply env parts crypto op w).db
          (apply-IsKept op w past h))
        answered

  -- From a state with an empty cache of profiles and no task that is started, after any calls and
  -- tasks, whatever fails and whenever a task is done: a profile that is answered is that of the
  -- user's row, without its password, in one of the states that the run has passed.
  pub stored_profile :
      (ops : List Op) (id : String) (w : World Db) (u : User)
      → w.db.cached ≡ []
      → w.db.started ≡ []
      → (Service.get_profile env parts crypto id (run env parts crypto ops w)).0 ≡ ok u
      → Was id u (states ops w (w.db ∷ []))
  stored_profile ops id w u empty idle answered =
      run_shown ops id w [] u (rw empty (λ id h found. cc), rw idle tt) answered
