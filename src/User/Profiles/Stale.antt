-- ===== src/User/Profiles/Stale.antt =====
-- A profile that is cached after it was removed (user-service/internal/user/service.go).
use kazakh_express.Base.{
  ℕ, ◌+◌, ◌<◌, String, eq_iff, ◌≡◌, refl, ◌∙◌, ap, true, false, Bool, none, some, List, [], ◌∷◌,
  ◌++◌, arith,
}
use kazakh_express.Base.Table.{find, update_where, delete_where}
use kazakh_express.Effect.{ok, done, Env, World, instead, attempt, ◌>>=◌}
use kazakh_express.User.Model.{
  User, Row, UpdateProfileInput, Task, cache_profile, drop_profile, publish, user_updated, Db,
}
use kazakh_express.User.Repository
use kazakh_express.User.Repository.{by_id, set_columns}
use kazakh_express.User.Redis
use kazakh_express.User.Service.{
  Parts, Crypto, start, perform, get_profile, read_profile, profile_or, update_profile, edited,
  without_password, five_minutes,
}
use kazakh_express.User.Runs.{Op, apply, run, turn}

-- The user that an update stores, at a time.
abbrev pub changed : UpdateProfileInput → User → ℕ → User
changed input u now = record (edited input u) { updated_at = now }

-- The profile is read, changed, its copy removed, and the copy that was read is cached.
abbrev pub late_copy : String → UpdateProfileInput → List Op
late_copy id input = Op.get_profile id ∷ Op.update_profile id input ∷ Op.task 1 ∷ Op.task 0 ∷ []

module _ (env : Env) (parts : Parts) (crypto : Crypto) (up : (n : ℕ) → env.outcome n ≡ done)
    (on : parts.cache ≡ true) (id : String) where
  -- The tasks with the event that an update may start.
  abbrev and_event : Bool → User → List Task → List Task
  and_event true u ts = ts ++ publish user_updated u ∷ []
  and_event false u ts = ts

  read_starts :
      (w : World Db) (row : Row)
      → by_id id w.db.users ≡ some row
      → find (λ h. h.key) id w.db.cached ≡ none
      → (get_profile env parts crypto id w).1 ≡ record {
        db = record w.db { started = w.db.started ++ cache_profile id row.user ∷ [] };
        tick = w.tick + 1 + 1;
      }
  unfolding get_profile read_profile profile_or attempt instead start Redis.get_cached_user
      Repository.get_by_id ◌>>=◌
  read_starts w row there absent = ground (arith, on, up w.tick, up (w.tick + 1))

  update_starts :
      (input : UpdateProfileInput) (w : World Db) (row : Row)
      → by_id id w.db.users ≡ some row
      → let u = changed input row.user (env.now (w.tick + 1)) in
        (update_profile env parts crypto id input w).1 ≡ record {
          db = record w.db {
            users = update_where (λ r. r.user.id) row.user.id (set_columns u) w.db.users;
            started = and_event parts.event u (w.db.started ++ drop_profile id ∷ []);
          };
          tick = w.tick + 1 + 1 + 1;
        }
  unfolding update_profile instead start Repository.get_by_id Repository.update ◌>>=◌
  update_starts input w row there = ground (arith, on, up w.tick, up (w.tick + 1 + 1))

  drops :
      (w : World Db) (u : User) (ts : List Task)
      → w.db.started ≡ cache_profile id u ∷ drop_profile id ∷ ts
      → apply env parts crypto (Op.task 1) w ≡ record {
        db = record w.db {
          started = cache_profile id u ∷ ts;
          cached = delete_where (λ h. h.key) id w.db.cached;
        };
        tick = w.tick + 1;
      }
  unfolding apply turn perform Redis.invalidate_user_cache ◌>>=◌
  drops w u ts there = rw there (ground (arith, up w.tick))

  caches :
      (w : World Db) (u : User) (ts : List Task)
      → w.db.started ≡ cache_profile id u ∷ ts
      → apply env parts crypto (Op.task 0) w ≡ record {
        db = record w.db {
          started = ts;
          cached =
              record {
                key = id;
                value = without_password u;
                expires = env.now w.tick + five_minutes;
              }
              ∷ w.db.cached;
        };
        tick = w.tick + 1;
      }
  unfolding apply turn perform Redis.cache_user ◌>>=◌
  caches w u ts there = rw there (ground (arith, up w.tick))

  shows :
      (w : World Db) (u : User) (e : ℕ)
      → find (λ h. h.key) id w.db.cached
        ≡ some (record { key = id; value = without_password u; expires = e })
      → env.now w.tick < e
      → (get_profile env parts crypto id w).0 ≡ ok (without_password u)
  unfolding get_profile read_profile profile_or attempt Redis.get_cached_user ◌>>=◌
  shows w u e there early = ground (arith, on, up w.tick)

  queue :
      (b : Bool) (u : User) (c d : Task) (ts : List Task)
      → ts ≡ []
      → and_event b u ((ts ++ c ∷ []) ++ d ∷ []) ≡ c ∷ d ∷ and_event b u []
  queue true u c d ts idle = rw idle refl
  queue false u c d ts idle = rw idle refl

  abbrev after_read : World Db → Row → World Db
  after_read w row = record {
    db = record w.db { started = w.db.started ++ cache_profile id row.user ∷ [] };
    tick = w.tick + 1 + 1;
  }

  abbrev after_update : UpdateProfileInput → World Db → Row → World Db
  after_update input w row =
      let u = changed input row.user (env.now (w.tick + 1)) in
      record {
        db = record w.db {
          users = update_where (λ r. r.user.id) row.user.id (set_columns u) w.db.users;
          started = and_event parts.event u (w.db.started ++ drop_profile id ∷ []);
        };
        tick = w.tick + 1 + 1 + 1;
      }

  abbrev after_drop : World Db → List Task → World Db
  after_drop w ts = record {
    db = record w.db { started = ts; cached = delete_where (λ h. h.key) id w.db.cached };
    tick = w.tick + 1;
  }

  abbrev after_cache : World Db → User → List Task → World Db
  after_cache w u ts = record {
    db = record w.db {
      started = ts;
      cached =
          record { key = id; value = without_password u; expires = env.now w.tick + five_minutes }
          ∷ w.db.cached;
    };
    tick = w.tick + 1;
  }

  ends :
      (input : UpdateProfileInput) (w : World Db) (row : Row)
      → by_id id w.db.users ≡ some row
      → find (λ h. h.key) id w.db.cached ≡ none
      → w.db.started ≡ []
      → let w2 = after_update input (after_read w row) row in
        let events =
          and_event parts.event (changed input row.user (env.now (w.tick + 1 + 1 + 1))) [] in
        run env parts crypto (late_copy id input) w
        ≡ after_cache (after_drop w2 (cache_profile id row.user ∷ events)) row.user events
  unfolding run
  ends input w row there absent idle =
      let u = changed input row.user (env.now (w.tick + 1 + 1 + 1)) in
      let w1 = after_read w row in
      let w2 = after_update input w1 row in
      let rest = and_event parts.event u [] in
      let w3 = after_drop w2 (cache_profile id row.user ∷ rest) in
      let cached = apply env parts crypto (Op.task 0) in
      let dropped = apply env parts crypto (Op.task 1) in
      ap (λ x. cached (dropped (apply env parts crypto (Op.update_profile id input) x)))
        (read_starts w row there absent)
      ∙ ap (λ x. cached (dropped x)) (update_starts input w1 row there)
      ∙ ap cached (drops w2 row.user rest (queue parts.event u _ _ w.db.started idle))
      ∙ caches w3 row.user rest refl

  plus_three : (n : ℕ) → n + 1 + 1 + 1 ≡ n + 3
  plus_three n = omega arith

  plus_six : (n : ℕ) → n + 1 + 1 + 1 + 1 + 1 + 1 ≡ n + 6
  plus_six n = omega arith

  plus_seven : (n : ℕ) → n + 1 + 1 + 1 + 1 + 1 + 1 + 1 ≡ n + 7
  plus_seven n = omega arith

  -- A service with a cache, with no fault and no task waiting. A profile that is not cached is read,
  -- then changed, and the task of the update, which removes the copy from the cache, is done before the
  -- task of the read, which puts it there. Where the next read comes less than five minutes after that,
  -- the change is stored and the read answers the profile from before it, without its password.
  pub stale_profile :
      (input : UpdateProfileInput) (w : World Db) (row : Row)
      → by_id id w.db.users ≡ some row
      → find (λ h. h.key) id w.db.cached ≡ none
      → w.db.started ≡ []
      → env.now (w.tick + 7) < env.now (w.tick + 6) + five_minutes
      → let w' = run env parts crypto (late_copy id input) w in
        ((get_profile env parts crypto id w').0 ≡ ok (without_password row.user))
        × (w'.db.users
            ≡ update_where
                (λ r. r.user.id)
                row.user.id
                (set_columns (changed input row.user (env.now (w.tick + 3))))
                w.db.users)
  stale_profile input w row there absent idle early =
      let end = ends input w row there absent idle in
      let soon : env.now (w.tick + 1 + 1 + 1 + 1 + 1 + 1 + 1)
          < env.now (w.tick + 1 + 1 + 1 + 1 + 1 + 1) + five_minutes =
        rw (plus_seven w.tick, plus_six w.tick) early in
      (
        ap (λ x. (get_profile env parts crypto id x).0) end
            ∙ shows _ row.user (env.now (w.tick + 1 + 1 + 1 + 1 + 1 + 1) + five_minutes)
                (ground (arith, eq_iff id id)) soon,
        ap (λ x. x.db.users) end ∙ rw (plus_three w.tick) refl,
      )
