-- ===== src/User/Tests.antt =====
-- The user service on concrete inputs.
use kazakh_express.Base.{
  false, String, ◌⊎◌, arith, ◌≤◌, ◌==◌, ◌≡◌, refl, true, List, [], ◌∷◌, ◌++◌, map, none, some,
}
use kazakh_express.Base.Decimal.{concat, decimal}
use kazakh_express.Base.Table.{update_where, find}
use kazakh_express.Effect.{err, rejected, ok, done, Env, World, instead, attempt, ◌>>=◌}
use kazakh_express.User.Model.{
  UpdateProfileInput, User, RefreshToken, AuthResponse, revoke, drop_profile, Db,
}
use kazakh_express.User.Http.{Json, Request, me, handle_profile}
use kazakh_express.User.Http.Auth.{profile_needs_token}
use kazakh_express.User.Repository
use kazakh_express.User.Redis
use kazakh_express.User.Service.{
  Parts, Crypto, get_profile, validate_token, start, perform, update_profile, profile_or,
  read_profile, refresh_token, rotate, generate_token_pair, logout,
}
use kazakh_express.User.Accounts.{run-IsConsistent}
use kazakh_express.User.Accounts.Rows.{IsConsistent}
use kazakh_express.User.Guesses.{guesses, refused_guess, refused_more, six_guesses}
use kazakh_express.User.Runs.{Op, run, apply, turn}
use kazakh_express.User.Profiles.{states, stored_profile}
use kazakh_express.User.Profiles.Shown.{Was}
use kazakh_express.User.Profiles.Stale.{late_copy, changed, stale_profile}
use kazakh_express.User.Sessions.{logout_revokes, refresh_rotates, new_row}

abbrev calm : Env
calm = record { outcome = λ n. done; now = λ n. n; uuid = decimal }

abbrev all_parts : Parts
all_parts = record { email = true; event = true; cache = true; rate_limit = true }

abbrev plain : Crypto
plain = record {
  hash_password = λ salt password. some (concat "hash-" password);
  matches = λ hash password. hash == concat "hash-" password;
  hash_token = λ text. concat "sha-" text;
  sign = λ user jti exp iat. concat "jwt-" user;
  parse = λ text. none;
  is_valid = λ now text. false;
  random = decimal;
}

abbrev anna : User
anna = record {
  id = "u1";
  email = "anna@mail.kz";
  password = "hash-secret";
  first_name = "Anna";
  last_name = "A";
  phone = "1";
  address = "";
  created_at = 0;
  updated_at = 0;
}

abbrev session : World Db
session = record {
  db = record {
    users =
        record { user = anna; reset_token_hash = some "sha-r"; reset_token_expires_at = some 50 }
        ∷ [];
    tokens = record { user_id = "u1"; token_hash = "sha-t"; expires_at = 100; created_at = 0 } ∷ [];
    blacklist = [];
    cached = [];
    revoked = [];
    attempts = [];
    published = [];
    welcomed = [];
    started = [];
  };
  tick = 0;
}

abbrev refreshed : AuthResponse
refreshed = record {
  user = record anna { password = "" };
  token = "jwt-u1";
  refresh_token = "7-u1";
}

refresh_rotates_example :
    (saved : RefreshToken) × (find (λ t. t.token_hash) "sha-t" session.db.tokens ≡ some saved)
    × (1 ≤ saved.expires_at)
    × ((refresh_token calm all_parts plain "t" session).1.db.tokens
        ≡ new_row calm all_parts plain (λ n. refl) saved.user_id "7-u1" 4 ∷ [])
    × ("u1" ≡ saved.user_id)
unfolding refresh_token rotate instead generate_token_pair decimal Repository.get_refresh_token
    Repository.get_by_id Repository.delete_refresh_token Repository.save_refresh_token ◌>>=◌
refresh_rotates_example =
    refresh_rotates calm all_parts plain (λ n. refl) "t" session refreshed refl

-- The revocation that the logout starts is done at once.
abbrev left : World Db
left = (logout calm all_parts plain "u1" "a" "t" session).1

abbrev revoked : World Db
revoked = (perform calm all_parts plain (revoke "a") left).1

logout_revokes_example :
    (left.db.started ≡ revoke "a" ∷ drop_profile "u1" ∷ [])
    × (left.db.revoked ≡ [])
    × ((validate_token calm all_parts plain "a" revoked).0
        ≡ err (rejected "token has been revoked"))
unfolding logout start perform Redis.blacklist_token Repository.delete_user_refresh_tokens
    Repository.delete_refresh_token ◌>>=◌
logout_revokes_example =
    logout_revokes calm all_parts plain (λ n. refl) "u1" "a" "t" session left revoked refl refl
      (ground arith)

-- Nothing is read of a body.
abbrev no_body : Json
no_body = record { register = λ b. none; login = λ b. none; update_profile = λ b. none }

abbrev unsigned : Request
unsigned = record {
  method = "PUT";
  path = "/users/me";
  authorization = "Bearer forged";
  body = "{}";
}

profile_needs_token_example :
    let answered = me no_body calm all_parts plain unsigned session in
    ((answered.0.status ≡ 401) × (answered.1.db ≡ session.db))
    ⊎ ((token : String) × (id : String) × ("Bearer forged" ≡ concat "Bearer " token)
        × ((validate_token calm all_parts plain token session).0 ≡ ok id)
        × (answered
            ≡ handle_profile no_body calm all_parts plain unsigned id
                (validate_token calm all_parts plain token session).1))
profile_needs_token_example = profile_needs_token calm all_parts plain session no_body unsigned

abbrev six_bad : List String
six_bad = "a" ∷ "b" ∷ "c" ∷ "d" ∷ "e" ∷ "f" ∷ []

-- The seventh password is the right one.
six_guesses_example :
    guesses calm all_parts plain "anna@mail.kz" (six_bad ++ "secret" ∷ []) session
    ≡ map (λ p. refused_guess) six_bad ++ refused_more ∷ []
six_guesses_example =
    six_guesses calm all_parts plain "anna@mail.kz" (λ n. refl) refl (λ n. omega arith) six_bad
      ("secret" ∷ []) session
      (record { user = anna; reset_token_hash = some "sha-r"; reset_token_expires_at = some 50 })
      refl refl refl (refl, (refl, (refl, (refl, (refl, (refl, tt)))))) (λ m before. omega arith)

-- The profile is read, then changed; its first copy reaches the cache last.
abbrev changes : List Op
changes =
    Op.get_profile "u1"
    ∷ Op.update_profile "u1"
        (record { first_name = none; last_name = none; phone = some "2"; address = none })
    ∷ Op.task 1
    ∷ Op.task 0
    ∷ []

abbrev new_phone : UpdateProfileInput
new_phone = record { first_name = none; last_name = none; phone = some "2"; address = none }

stale_profile_example :
    let later = run calm all_parts plain (late_copy "u1" new_phone) session in
    ((get_profile calm all_parts plain "u1" later).0 ≡ ok (record anna { password = "" }))
    × (later.db.users
        ≡ update_where
            (λ r. r.user.id)
            "u1"
            (Repository.set_columns (changed new_phone anna 3))
            session.db.users)
stale_profile_example =
    stale_profile calm all_parts plain (λ n. refl) refl "u1" new_phone session
      (record { user = anna; reset_token_hash = some "sha-r"; reset_token_expires_at = some 50 })
      refl refl refl (omega arith)

stored_profile_example :
    Was "u1"
      (record anna { password = "" })
      (states calm all_parts plain changes session (session.db ∷ []))
unfolding run apply turn start perform get_profile update_profile profile_or read_profile attempt
    instead Redis.get_cached_user Redis.cache_user Redis.invalidate_user_cache Repository.get_by_id
    Repository.update ◌>>=◌
stored_profile_example =
    stored_profile calm all_parts plain changes "u1" session (record anna { password = "" }) refl
      refl refl

run-IsConsistent_example : IsConsistent (run calm all_parts plain changes session).db
run-IsConsistent_example = run-IsConsistent calm all_parts plain changes session (record {
  ids = (refl, tt);
  emails = (refl, tt);
  hashes = (refl, tt);
  owners = λ k there. there;
})
