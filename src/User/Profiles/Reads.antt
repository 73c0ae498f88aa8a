-- ===== src/User/Profiles/Reads.antt =====
-- `GetProfile` of user-service/internal/user/service.go: what it answers was stored, and what it starts
-- to cache is stored.
use kazakh_express.Base.{
  ℕ, String, ◌≡◌, refl, ◌∙◌, ap, subst, Option, none, some, List, ◌∷◌, arith, Option-cases, inl,
  inr, Bool, true, false,
}
use kazakh_express.Base.Table.{find}
use kazakh_express.Effect.{
  Result, ok, rejected, Action, Env, World, instead, attempt, pure, ◌>>=◌, ◌>>◌,
}
use kazakh_express.Effect.Cases.{bind_cases}
use kazakh_express.User.Model.{User, Task, cache_profile, Db}
use kazakh_express.User.Repository
use kazakh_express.User.Redis
use kazakh_express.User.Service
use kazakh_express.User.Service.{Parts, Crypto, start, read_profile, profile_or, without_password}
use kazakh_express.User.Lookups.{db-read_profile}
use kazakh_express.User.Profiles.Shown.{Was, here, IsKept, profile_of}
use kazakh_express.User.Profiles.Calls.{started-Keeps}

live-Was :
    (past : List Db) (t : ℕ) (id : String) (d : Db) (u : User)
    → IsKept past d
    → Redis.get t id d.cached ≡ some u
    → Was id (without_password u) past
live-Was past t id d u h live = elim (Option-cases (find (λ c. c.key) id d.cached)) [
  | inl absent ↦ absurd (ground arith)
  | inr (e, there) ↦
      let value : e.value ≡ u = ground arith in
      subst (λ v. Was id (without_password v) past) value (h.0 id e there)
]

ok_inj : {A : Type 0} {a b : A} → ok a ≡ ok b → a ≡ b
ok_inj h = cc

start-pure :
    {A : Type 0} (b : Bool) (t : Task) (a : A) (w : World Db)
    → (start b t >> pure a) w ≡ (ok a, (start b t w).1)
unfolding ◌>>=◌ start pure
start-pure true t a w = refl
start-pure false t a w = refl

module _ (env : Env) (parts : Parts) (crypto : Crypto) where
  read_profile-live :
      (id : String) (w : World Db) (u : User)
      → (read_profile env parts crypto id w).0 ≡ ok (some u)
      → Redis.get (env.now w.tick) id w.db.cached ≡ some u
  unfolding read_profile attempt Redis.get_cached_user ◌>>=◌
  read_profile-live id w u h = ground arith

  abbrev found : String → Action Db User
  found id = instead (rejected "user not found") (Repository.get_by_id env id)

  db-found : (id : String) (w : World Db) → (found id w).1.db ≡ w.db
  unfolding instead Repository.get_by_id ◌>>=◌
  db-found id w = ground arith

  found-profile :
      (id : String) (w : World Db) (u : User)
      → (found id w).0 ≡ ok u
      → profile_of id w.db ≡ some (without_password u)
  unfolding instead Repository.get_by_id ◌>>=◌
  found-profile id w u h = ground arith

  -- What a profile may answer and leave.
  abbrev Fits : List Db → String → Result User × World Db → Type 0
  Fits past id (r, w') = IsKept past w'.db × ((u : User) → r ≡ ok u → Was id u past)

  started-Fits :
      (past : List Db) (id : String) (u : User) (w : World Db)
      → Was id (without_password u) past
      → IsKept past w.db
      → Fits past id ((start parts.cache (cache_profile id u) >> pure (without_password u)) w)
  started-Fits past id u w was h =
      rw (start-pure parts.cache (cache_profile id u) (without_password u) w) (
        (started-Keeps past parts.cache (cache_profile id u) was).at w h,
        λ v e. subst (λ x. Was id x past) (ok_inj e) was,
      )

  profile-Fits :
      (past : List Db) (id : String) (o : Option User) (w : World Db)
      → IsKept (w.db ∷ past) w.db
      → ((u : User) → o ≡ some u → Was id (without_password u) (w.db ∷ past))
      → Fits (w.db ∷ past) id (profile_or env parts crypto id o w)
  unfolding profile_or pure
  profile-Fits past id (some u) w h was =
      (h, λ v e. subst (λ x. Was id x (w.db ∷ past)) (ok_inj e) (was u refl))
  profile-Fits past id none w h was =
      bind_cases (Fits (w.db ∷ past) id) (found id) _ w
        (λ e failed. (rw (db-found id w) h, λ u same. cc))
        (λ u answered.
          started-Fits (w.db ∷ past) id u (found id w).1 (here (found-profile id w u answered))
            (rw (db-found id w) h))

  read_profile-Was :
      (past : List Db) (id : String) (w : World Db) (u : User)
      → IsKept past w.db
      → (read_profile env parts crypto id w).0 ≡ ok (some u)
      → Was id (without_password u) past
  read_profile-Was past id w u h answered =
      live-Was past (env.now w.tick) id w.db u h (read_profile-live id w u answered)

  get_profile-Fits :
      (past : List Db) (id : String) (w : World Db)
      → IsKept (w.db ∷ past) w.db
      → Fits (w.db ∷ past) id (Service.get_profile env parts crypto id w)
  unfolding Service.get_profile
  get_profile-Fits past id w h =
      let w1 = (read_profile env parts crypto id w).1 in
      bind_cases (Fits (w.db ∷ past) id) (read_profile env parts crypto id) _ w
        (λ e failed. (rw (db-read_profile env parts crypto id w) h, λ u same. cc))
        (λ o answered.
          subst (λ d. Fits (d ∷ past) id (profile_or env parts crypto id o w1))
            (db-read_profile env parts crypto id w)
            (profile-Fits past id o w1 (rw (db-read_profile env parts crypto id w) h) (λ u e.
              rw (db-read_profile env parts crypto id w)
                (read_profile-Was (w.db ∷ past) id w u h (answered ∙ ap ok e)))))

  pub get_profile-keeps :
      (past : List Db) (id : String) (w : World Db)
      → IsKept (w.db ∷ past) w.db
      → IsKept (w.db ∷ past) (Service.get_profile env parts crypto id w).1.db
  get_profile-keeps past id w h = (get_profile-Fits past id w h).0

  pub get_profile-Was :
      (past : List Db) (id : String) (w : World Db) (u : User)
      → IsKept (w.db ∷ past) w.db
      → (Service.get_profile env parts crypto id w).0 ≡ ok u
      → Was id u (w.db ∷ past)
  get_profile-Was past id w u h answered = (get_profile-Fits past id w h).1 u answered
