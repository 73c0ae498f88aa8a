-- ===== src/User/Sessions.antt =====
-- The refresh tokens of a user (user-service/internal/user/service.go).
use mathlib.Core.List.{append_assoc}
use kazakh_express.Base.{
  ◌<◌, ℕ, ◌+◌, ◌≤◌, String, eq_iff, ◌≡◌, sym, ◌∙◌, ap, true, false, none, some, [], ◌∷◌, ◌++◌,
  Option-cases, Bool-cases, inl, inr, ltb, arith,
}
use kazakh_express.Base.Table.{find, find-delete_where, delete_where, key-find}
use kazakh_express.Effect.{attempt, rejected, err, is_ok, ok, done, Env, World, instead, ◌>>=◌}
use kazakh_express.User.Model.{
  Row, RefreshToken, AuthResponse, ResetPasswordInput, Db, revoke, drop_profile,
}
use kazakh_express.User.Repository
use kazakh_express.User.Repository.{by_id, by_reset, row_user}
use kazakh_express.User.Redis
use kazakh_express.User.Service.{
  Parts, Crypto, month, week, validate_token, is_revoked, start, perform, refresh_token, rotate,
  expire_token, generate_token_pair, logout, reset_password, hash_password,
}

module _ (env : Env) (parts : Parts) (crypto : Crypto) (up : (n : ℕ) → env.outcome n ≡ done) where
  -- After a logout that meets no fault, no refresh token of the user is left.
  pub logout_clears :
      (id access refresh : String) (w : World Db)
      → find (λ t. t.user_id) id (logout env parts crypto id access refresh w).1.db.tokens ≡ none
  unfolding logout start Repository.delete_refresh_token Repository.delete_user_refresh_tokens ◌>>=◌
  logout_clears id access refresh w = ground (
    arith,
    up w.tick,
    up (w.tick + 1),
    up (w.tick + 1 + 1),
    eq_iff id id,
    find-delete_where (λ t. t.user_id) id id w.db.tokens,
    find-delete_where (λ t. t.user_id) id id
        (delete_where (λ t. t.token_hash) (crypto.hash_token refresh) w.db.tokens),
  )

  -- The row of a new refresh token, from the tick at which its pair is begun.
  abbrev pub new_row : String → String → ℕ → RefreshToken
  new_row user_id text t = record {
    user_id = user_id;
    token_hash = crypto.hash_token text;
    expires_at = env.now (t + 1 + 1 + 1 + 1) + month;
    created_at = env.now (t + 1 + 1 + 1 + 1 + 1);
  }

  -- The answer of a rotation, and the tokens that it leaves.
  rotated :
      (hash : String) (saved : RefreshToken) (w : World Db) (r : AuthResponse)
      → (rotate env parts crypto hash saved w).0 ≡ ok r
      → ((rotate env parts crypto hash saved w).1.db.tokens
          ≡ delete_where (λ t. t.token_hash) hash w.db.tokens
            ++ new_row saved.user_id r.refresh_token (w.tick + 1 + 1) ∷ [])
        × (r.user.id ≡ saved.user_id)
  unfolding rotate instead generate_token_pair Repository.get_by_id Repository.delete_refresh_token
      Repository.save_refresh_token ◌>>=◌
  rotated hash saved w r h = grind (
    arith,
    up w.tick,
    up (w.tick + 1),
    up (w.tick + 1 + 1 + 1 + 1 + 1 + 1 + 1 + 1),
    key-find (λ r. r.user.id) saved.user_id w.db.users,
  )

  refresh_runs :
      (text : String) (w : World Db) (saved : RefreshToken)
      → find (λ t. t.token_hash) (crypto.hash_token text) w.db.tokens ≡ some saved
      → ltb saved.expires_at (env.now (w.tick + 1)) ≡ false
      → refresh_token env parts crypto text w
        ≡ rotate env parts crypto
            (crypto.hash_token text)
            saved
            (record { db = w.db; tick = w.tick + 1 + 1 })
  unfolding refresh_token instead Repository.get_refresh_token ◌>>=◌
  refresh_runs text w saved found early = ground (arith, up w.tick)

  refresh_fails :
      (text : String) (w : World Db) (saved : RefreshToken)
      → find (λ t. t.token_hash) (crypto.hash_token text) w.db.tokens ≡ some saved
      → ltb saved.expires_at (env.now (w.tick + 1)) ≡ true
      → is_ok (refresh_token env parts crypto text w).0 ≡ false
  unfolding refresh_token expire_token instead Repository.get_refresh_token
      Repository.delete_refresh_token ◌>>=◌
  refresh_fails text w saved found late = ground (arith, up w.tick)

  refresh_absent :
      (text : String) (w : World Db)
      → find (λ t. t.token_hash) (crypto.hash_token text) w.db.tokens ≡ none
      → is_ok (refresh_token env parts crypto text w).0 ≡ false
  unfolding refresh_token instead Repository.get_refresh_token ◌>>=◌
  refresh_absent text w absent = ground (arith, up w.tick)

  -- A refresh that answers, and meets no fault, has found its token, not expired; it leaves the other
  -- tokens as they were and in its place a new one of the user whom it named, which is the one that it
  -- answers, with that user.
  pub refresh_rotates :
      (text : String) (w : World Db) (r : AuthResponse)
      → (refresh_token env parts crypto text w).0 ≡ ok r
      → let hash = crypto.hash_token text in
        (saved : RefreshToken) × (find (λ t. t.token_hash) hash w.db.tokens ≡ some saved)
        × (env.now (w.tick + 1) ≤ saved.expires_at)
        × ((refresh_token env parts crypto text w).1.db.tokens
            ≡ delete_where (λ t. t.token_hash) hash w.db.tokens
              ++ new_row saved.user_id r.refresh_token (w.tick + 1 + 1 + 1 + 1) ∷ [])
        × (r.user.id ≡ saved.user_id)
  refresh_rotates text w r h =
      elim (Option-cases (find (λ t. t.token_hash) (crypto.hash_token text) w.db.tokens)) [
        | inl absent ↦ absurd (cc (sym (ap is_ok h) ∙ refresh_absent text w absent))
        | inr (saved, found) ↦ elim (Bool-cases (ltb saved.expires_at (env.now (w.tick + 1)))) [
          | inl late ↦ absurd (cc (sym (ap is_ok h) ∙ refresh_fails text w saved found late))
          | inr early ↦
              let run = refresh_runs text w saved found early in
              let (tokens, same) =
                rotated (crypto.hash_token text) saved _ r (ap (λ x. x.0) (sym run) ∙ h) in
              (saved, found, ground arith, ap (λ x. x.1.db.tokens) run ∙ tokens, same)
        ]
      ]

  -- A password reset with a token that is stored and has not expired, and a password that bcrypt
  -- accepts, succeeds if it meets no fault, and leaves no refresh token of the user.
  pub reset_clears :
      (input : ResetPasswordInput) (w : World Db) (r : Row) (hash : String)
      → by_reset (crypto.hash_token input.token) (env.now w.tick) w.db.users ≡ some r
      → crypto.hash_password (env.now (w.tick + 1)) input.new_password ≡ some hash
      → ((reset_password env parts crypto input w).0 ≡ ok tt)
        × (find (λ t. t.user_id) r.user.id (reset_password env parts crypto input w).1.db.tokens
            ≡ none)
  unfolding reset_password instead hash_password start Repository.get_user_by_reset_token
      Repository.update_password Repository.clear_password_reset_token
      Repository.delete_user_refresh_tokens ◌>>=◌
  reset_clears input w r hash stored hashed = ground (
    arith,
    up w.tick,
    up (w.tick + 1 + 1),
    up (w.tick + 1 + 1 + 1),
    up (w.tick + 1 + 1 + 1 + 1),
    eq_iff r.user.id r.user.id,
    find-delete_where (λ t. t.user_id) r.user.id r.user.id w.db.tokens,
  )

  logout-started :
      (id access refresh : String) (w : World Db)
      → parts.cache ≡ true
      → let w1 = (logout env parts crypto id access refresh w).1 in
        (w1.db.started ≡ (w.db.started ++ revoke access ∷ []) ++ drop_profile id ∷ [])
        × (w1.db.revoked ≡ w.db.revoked)
  unfolding logout start Repository.delete_refresh_token Repository.delete_user_refresh_tokens ◌>>=◌
  logout-started id access refresh w on = ground (arith, on, up w.tick, up (w.tick + 1))

  perform-revoked :
      (access : String) (w : World Db)
      → find (λ h. h.key) access (perform env parts crypto (revoke access) w).1.db.revoked
        ≡ some (record { key = access; value = tt; expires = env.now w.tick + week })
  unfolding perform Redis.blacklist_token ◌>>=◌
  perform-revoked access w = ground (arith, up w.tick, eq_iff access access)

  -- Of a service with a cache: a logout starts the revocation of its access token and returns before
  -- it. Once the revocation has been done, in whatever state `w'` it finds, with no fault, the token is
  -- refused for a week, in every state `w''` with the revoked tokens that it left.
  pub logout_revokes :
      (id access refresh : String) (w w' w'' : World Db)
      → parts.cache ≡ true
      → w''.db.revoked ≡ (perform env parts crypto (revoke access) w').1.db.revoked
      → env.now w''.tick < env.now w'.tick + week
      → let w1 = (logout env parts crypto id access refresh w).1 in
        (w1.db.started ≡ w.db.started ++ revoke access ∷ drop_profile id ∷ [])
        × (w1.db.revoked ≡ w.db.revoked)
        × ((validate_token env parts crypto access w'').0 ≡ err (rejected "token has been revoked"))
  unfolding validate_token is_revoked attempt Redis.is_token_blacklisted ◌>>=◌
  logout_revokes id access refresh w w' w'' on kept early =
      let (started, same) = logout-started id access refresh w on in
      let there = ap (find (λ h. h.key) access) kept ∙ perform-revoked access w' in
      (
        started ∙ append_assoc w.db.started (revoke access ∷ []) (drop_profile id ∷ []),
        same,
        ground (arith, there, up w''.tick),
      )
