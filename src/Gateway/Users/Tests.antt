-- ===== src/Gateway/Users/Tests.antt =====
-- Users through the gateway on concrete inputs.
use kazakh_express.Base.{false, ◌==◌, ◌≡◌, true, [], ◌∷◌, some, none}
use kazakh_express.Base.Decimal.{concat, decimal}
use kazakh_express.Effect.{done, Env, World}
use kazakh_express.User.Model.{UpdateProfileInput, Db}
use kazakh_express.User.Service
use kazakh_express.User.Service.{Parts, Crypto}
use kazakh_express.Gateway.Users.{Headers, update_me}
use kazakh_express.Gateway.Users.Relay.{IsShown, update_me_unchecked}

abbrev calm : Env
calm = record { outcome = λ n. done; now = λ n. n; uuid = decimal }

abbrev all_parts : Parts
all_parts = record { email = true; event = true; cache = true; rate_limit = true }

abbrev plain : Crypto
plain = record {
  hash_password = λ salt password. some (concat "hash-" password);
  matches = λ hash password. hash == concat "hash-" password;
  hash_token = λ text. concat "sha-" text;
  sign = λ user jti exp iat. concat "jwt-" user;
  parse = λ text. none;
  is_valid = λ now text. false;
  random = decimal;
}

abbrev with_anna : World Db
with_anna = record {
  db = record {
    users =
        record {
          user = record {
            id = "u1";
            email = "anna@mail.kz";
            password = "hash-secret";
            first_name = "Anna";
            last_name = "A";
            phone = "1";
            address = "";
            created_at = 0;
            updated_at = 0;
          };
          reset_token_hash = none;
          reset_token_expires_at = none;
        }
        ∷ [];
    tokens = [];
    blacklist = [];
    cached = [];
    revoked = [];
    attempts = [];
    published = [];
    welcomed = [];
    started = [];
  };
  tick = 0;
}

abbrev new_address : UpdateProfileInput
new_address = record { first_name = none; last_name = none; phone = none; address = some "Almaty" }

-- No token at all.
update_me_unchecked_example :
    let headers : Headers = record { x_user_id = "u1"; authorization = "" } in
    let d = Service.update_profile calm all_parts plain "u1" new_address with_anna in
    let g = update_me done calm all_parts plain decimal headers (some new_address) with_anna in
    (g.1 ≡ d.1) × IsShown decimal d.0 g.0
update_me_unchecked_example =
    update_me_unchecked calm all_parts plain decimal "u1" "" new_address with_anna
