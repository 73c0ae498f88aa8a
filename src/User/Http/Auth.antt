-- ===== src/User/Http/Auth.antt =====
-- Who may read and change the profile behind `/users/me`.
use kazakh_express.Base.{String, ◌≡◌, refl, ◌⊎◌, inl, inr, ◌==◌, is_empty, Bool-cases, arith}
use kazakh_express.Base.Decimal.{concat}
use kazakh_express.Effect.{Result, ok, err, Env, World, attempt, ◌>>=◌}
use kazakh_express.Http.Paths.{trim_prefix, trimmed-concat}
use kazakh_express.Http.{Handler}
use kazakh_express.User.Model.{User, Db}
use kazakh_express.User.Redis
use kazakh_express.User.Service
use kazakh_express.User.Service.{Parts, Crypto, is_revoked}
use kazakh_express.User.Http.{Json, Request, me, handle_profile, with_auth, authorized}

module _ (env : Env) (parts : Parts) (crypto : Crypto) (w : World Db) where
  -- The token of a request is checked without a change of the state.
  validate_token-db :
      (token : String) → (Service.validate_token env parts crypto token w).1.db ≡ w.db
  unfolding Service.validate_token is_revoked Redis.is_token_blacklisted attempt ◌>>=◌
  validate_token-db token = ground arith

  authorized_cases :
      (next : String → Handler Db User) (checked : Result String) (w' : World Db)
      → w'.db ≡ w.db
      → let answered = authorized env parts crypto next (checked, w') in
        ((answered.0.status ≡ 401) × (answered.1.db ≡ w.db))
        ⊎ ((id : String) × (checked ≡ ok id) × (answered ≡ next id w'))
  unfolding authorized
  authorized_cases next (ok id) w' same = inr (id, refl, refl)
  authorized_cases next (err e) w' same = inl (refl, same)

  -- A request on `/users/me` is answered with 401 and changes nothing, or its `Authorization` header
  -- is `Bearer ` and a token that the service accepts; then it is handled for the user whom that token
  -- names. This holds in any environment.
  pub profile_needs_token :
      (json : Json) (r : Request)
      → let answered = me json env parts crypto r w in
        ((answered.0.status ≡ 401) × (answered.1.db ≡ w.db))
        ⊎ ((token : String) × (id : String) × (r.authorization ≡ concat "Bearer " token)
            × ((Service.validate_token env parts crypto token w).0 ≡ ok id)
            × (answered
                ≡ handle_profile json env parts crypto r id
                    (Service.validate_token env parts crypto token w).1))
  unfolding me with_auth
  profile_needs_token json r = elim (Bool-cases (is_empty r.authorization)) [
    | inl h ↦ inl (rw h (refl, refl))
    | inr h ↦ elim (Bool-cases (trim_prefix "Bearer " r.authorization == r.authorization)) [
      | inl k ↦ inl (rw (h, k) (refl, refl))
      | inr k ↦
          let token = trim_prefix "Bearer " r.authorization in
          let checked = Service.validate_token env parts crypto token w in
          rw (h, k)
            (elim (authorized_cases (handle_profile json env parts crypto r) checked.0 checked.1
              (validate_token-db token)) [
                | inl refused ↦ inl refused
                | inr (id, good, next) ↦
                    inr (token, id, trimmed-concat "Bearer " r.authorization k, good, next)
              ])
    ]
  ]
