-- ===== src/User/Lookups.antt =====
-- The reads of Redis and the `go` statements of user-service/internal/user/service.go, which keep what
-- does not depend on a task that is started.
use kazakh_express.Base.{String, Bool, true, false, ◌≡◌, sym, subst, arith, [], ◌∷◌, ◌++◌}
use kazakh_express.Effect.{Env, World, attempt, ◌>>=◌}
use kazakh_express.Effect.Keeps.{Keeps}
use kazakh_express.User.Model.{Task, Db}
use kazakh_express.User.Redis
use kazakh_express.User.Service.{Parts, Crypto, is_revoked, read_profile, start}

module _ {P : Db → Type 0} where
  pub start-Keeps :
      (b : Bool) (t : Task)
      → ((d : Db) → P d → P (record d { started = d.started ++ t ∷ [] }))
      → Keeps P (start b t)
  unfolding start
  start-Keeps true t k = record { at = λ w h. k w.db h }
  start-Keeps false t k = record { at = λ w h. h }

module _ (env : Env) (parts : Parts) (crypto : Crypto) where
  db-is_revoked :
      (token : String) (w : World Db) → (is_revoked env parts crypto token w).1.db ≡ w.db
  unfolding is_revoked attempt Redis.is_token_blacklisted ◌>>=◌
  db-is_revoked token w = ground arith

  pub db-read_profile :
      (id : String) (w : World Db) → (read_profile env parts crypto id w).1.db ≡ w.db
  unfolding read_profile attempt Redis.get_cached_user ◌>>=◌
  db-read_profile id w = ground arith

  module _ {P : Db → Type 0} where
    pub is_revoked-Keeps : (token : String) → Keeps P (is_revoked env parts crypto token)
    is_revoked-Keeps token = record { at = λ w h. subst P (sym (db-is_revoked token w)) h }

    pub read_profile-Keeps : (id : String) → Keeps P (read_profile env parts crypto id)
    read_profile-Keeps id = record { at = λ w h. subst P (sym (db-read_profile id w)) h }
