-- ===== src/User/Repository.antt =====
-- user-service/internal/user/repository.go (PostgresRepository) with the constraints of its tables,
-- and internal/redis/client.go. The length of a VARCHAR is not checked.
use kazakh_express.Base.{
  ℕ, String, ◌==◌, Bool, false, not, ◌&&◌, Option, none, some, List, [], ◌∷◌, ◌++◌, is_some, ltb,
  if◌then◌else◌,
}
use kazakh_express.Base.Table.{find, update_where, delete_where, map_some}
use kazakh_express.Effect.{
  ok, rejected, Env, Action, pure, call, get_time, ◌>>=◌, ◌>>◌, queries, writes, checked, or_raise,
}
use kazakh_express.User.Model.{User, Row, RefreshToken, Db}

abbrev pub row_user : Option Row → Option User
row_user o = map_some (λ r. r.user) o

abbrev pub by_id : String → List Row → Option Row
by_id = find (λ r. r.user.id)

abbrev pub by_email : String → List Row → Option Row
by_email = find (λ r. r.user.email)

-- `Create` sets both times.
unfoldable pub create : Env → User → Action Db User
create env u = do
  created ← get_time env
  updated ← get_time env
  let stored = record u { created_at = created; updated_at = updated }
  call env "failed to create user" (
      checked "failed to create user"
        (λ d. not (is_some (by_id u.id d.users)) && not (is_some (by_email u.email d.users)))
        (λ d. record d {
          users =
              d.users
              ++ record { user = stored; reset_token_hash = none; reset_token_expires_at = none }
                ∷ [];
        }))
  pure stored

unfoldable pub get_by_id : Env → String → Action Db User
get_by_id env id =
    call env "failed to get user"
      (queries (λ d. or_raise (row_user (by_id id d.users)) (rejected "user not found")))

unfoldable pub get_by_email : Env → String → Action Db User
get_by_email env email =
    call env "failed to get user"
      (queries (λ d. or_raise (row_user (by_email email d.users)) (rejected "user not found")))

-- The columns that `Update` sets.
abbrev pub set_columns : User → Row → Row
set_columns u r = record r {
  user = record r.user {
    first_name = u.first_name;
    last_name = u.last_name;
    phone = u.phone;
    address = u.address;
    updated_at = u.updated_at;
  };
}

unfoldable pub update : Env → User → Action Db User
update env u = do
  now ← get_time env
  let changed = record u { updated_at = now }
  call env "failed to update user" (
      writes (λ d. record d {
        users = update_where (λ r. r.user.id) u.id (set_columns changed) d.users;
      }))
  pure changed

-- The row names its user as a foreign key, and its hash is unique.
unfoldable pub save_refresh_token : Env → String → String → ℕ → Action Db (Unit {0})
save_refresh_token env user_id token_hash expires_at = do
  now ← get_time env
  call env "failed to save refresh token" (
      checked "failed to save refresh token"
        (λ d.
          is_some (by_id user_id d.users)
          && not (is_some (find (λ t. t.token_hash) token_hash d.tokens)))
        (λ d. record d {
          tokens =
              d.tokens
              ++ record {
                user_id = user_id;
                token_hash = token_hash;
                expires_at = expires_at;
                created_at = now;
              }
                ∷ [];
        }))

unfoldable pub get_refresh_token : Env → String → Action Db RefreshToken
get_refresh_token env token_hash = call env "failed to get refresh token" (
    queries (λ d.
      or_raise (find (λ t. t.token_hash) token_hash d.tokens) (rejected "refresh token not found")))

unfoldable pub delete_refresh_token : Env → String → Action Db (Unit {0})
delete_refresh_token env token_hash =
    call env "delete refresh token"
      (writes (λ d. record d { tokens = delete_where (λ t. t.token_hash) token_hash d.tokens }))

unfoldable pub delete_user_refresh_tokens : Env → String → Action Db (Unit {0})
delete_user_refresh_tokens env user_id =
    call env "delete user refresh tokens"
      (writes (λ d. record d { tokens = delete_where (λ t. t.user_id) user_id d.tokens }))

-- The statements on a user set `updated_at` to the time of the database.
abbrev pub touch : ℕ → User → User
touch now u = record u { updated_at = now }

unfoldable pub save_password_reset_token : Env → String → String → ℕ → Action Db (Unit {0})
save_password_reset_token env user_id token_hash expires_at =
    call env "save password reset token" (λ now d. (
      ok tt,
      record d {
        users =
            update_where (λ r. r.user.id) user_id
              (λ r. record {
                user = touch now r.user;
                reset_token_hash = some token_hash;
                reset_token_expires_at = some expires_at;
              })
              d.users;
      },
    ))

-- reset_token_hash = $1 AND reset_token_expires_at > NOW()
abbrev pub has_reset : String → ℕ → Option String → Option ℕ → Bool
has_reset token_hash now (some h) (some e) = h == token_hash && ltb now e
has_reset token_hash now _ _ = false

abbrev pub by_reset : String → ℕ → List Row → Option Row
by_reset token_hash now [] = none
by_reset token_hash now (r ∷ rs) =
    if has_reset token_hash now r.reset_token_hash r.reset_token_expires_at
    then some r
    else by_reset token_hash now rs

unfoldable pub get_user_by_reset_token : Env → String → Action Db User
get_user_by_reset_token env token_hash = call env "failed to get user by reset token" (λ now d. (
  or_raise (row_user (by_reset token_hash now d.users)) (rejected "invalid or expired reset token"),
  d,
))

unfoldable pub update_password : Env → String → String → Action Db (Unit {0})
update_password env user_id password_hash = call env "update password" (λ now d. (
  ok tt,
  record d {
    users =
        update_where (λ r. r.user.id) user_id
          (λ r. record r { user = record (touch now r.user) { password = password_hash } }) d.users;
  },
))

unfoldable pub clear_password_reset_token : Env → String → Action Db (Unit {0})
clear_password_reset_token env user_id = call env "clear password reset token" (λ now d. (
  ok tt,
  record d {
    users =
        update_where (λ r. r.user.id) user_id
          (λ r. record {
            user = touch now r.user;
            reset_token_hash = none;
            reset_token_expires_at = none;
          })
          d.users;
  },
))

-- `Delete`: the refresh tokens of the user go with the row.
unfoldable pub delete : Env → String → Action Db (Unit {0})
delete env id = call env "failed to delete user" (
    writes (λ d. record d {
      users = delete_where (λ r. r.user.id) id d.users;
      tokens = delete_where (λ t. t.user_id) id d.tokens;
    }))

-- The insert of `AddToBlacklist`, which leaves a token that is there as it is.
abbrev pub blacklisted : String → ℕ → ℕ → Db → Db
blacklisted jti expires_at now d =
    if is_some (find (λ b. b.jti) jti d.blacklist) then d else record d {
      blacklist =
          d.blacklist ++ record { jti = jti; expires_at = expires_at; created_at = now } ∷ [];
    }

-- `AddToBlacklist`
unfoldable pub add_to_blacklist : Env → String → ℕ → Action Db (Unit {0})
add_to_blacklist env jti expires_at = do
  now ← get_time env
  call env "add to blacklist" (writes (blacklisted jti expires_at now))

-- `IsBlacklisted`
unfoldable pub is_blacklisted : Env → String → Action Db Bool
is_blacklisted env jti =
    call env "is blacklisted" (λ t d. (ok (is_some (find (λ b. b.jti) jti d.blacklist)), d))
