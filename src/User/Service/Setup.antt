-- ===== src/User/Service/Setup.antt =====
-- The services and libraries that user-service/internal/user/service.go uses, its durations, and its
-- changes of a user.
use kazakh_express.Base.{ℕ, String, Bool, false, not, Option, none, some, if◌then◌else◌}
use kazakh_express.Effect.{Result, ok, err, rejected, World}
use kazakh_express.User.Model.{User, UpdateProfileInput, AuthResponse, Db}

-- Which of the optional parts of `UserService` are set.
pub record Parts : Type 0 where
  pub email : Bool
  pub event : Bool
  pub cache : Bool
  pub rate_limit : Bool

-- An access token taken apart: whether its header names an HMAC, and the text that is its claim
-- `user_id`, if it is one.
pub record Parsed : Type 0 where
  pub is_hmac : Bool
  pub user_id : Option String

-- bcrypt (with its salt, from a number), SHA-256, the signature of an access token (over the user, the
-- identifier and the times of expiry and issue), a token taken apart, its verification by the secret at
-- a time, and the random source.
pub record Crypto : Type 0 where
  pub hash_password : ℕ → String → Option String
  pub matches : String → String → Bool
  pub hash_token : String → String
  pub sign : String → String → ℕ → ℕ → String
  pub parse : String → Option Parsed
  pub is_valid : ℕ → String → Bool
  pub random : ℕ → String

-- Durations in nanoseconds.
abbrev pub hour : ℕ
hour = 3600000000000

abbrev pub week : ℕ
week = 604800000000000

abbrev pub month : ℕ
month = 2592000000000000

abbrev pub quarter_hour : ℕ
quarter_hour = 900000000000

abbrev pub five_minutes : ℕ
five_minutes = 300000000000

abbrev pub without_password : User → User
without_password u = record u { password = "" }

abbrev pub response : User → String × String → AuthResponse
response u (token, refresh) = record {
  user = without_password u;
  token = token;
  refresh_token = refresh;
}

abbrev pub given : Option String → String → String
given none old = old
given (some s) old = s

abbrev pub edited : UpdateProfileInput → User → User
edited i u = record u {
  first_name = given i.first_name u.first_name;
  last_name = given i.last_name u.last_name;
  phone = given i.phone u.phone;
  address = given i.address u.address;
}

abbrev pub said_of : Option Bool → Bool
said_of none = false
said_of (some b) = b

abbrev pub said : Result (Option Bool) × World Db → Result Bool × World Db
said (ok o, w) = (ok (said_of o), w)
said (err e, w) = (ok false, w)

-- `jwt.Parse` with the test of the method, and the claims of the token.
abbrev pub user_of : Option String → Result String
user_of none = err (rejected "invalid user ID in token")
user_of (some id) = ok id

abbrev pub accepted : Bool → Parsed → Result String
accepted valid p =
    if not p.is_hmac
    then err (rejected "invalid token")
    else if valid
    then user_of p.user_id
    else err (rejected "invalid token")

abbrev pub accepted_or : Bool → Option Parsed → Result String
accepted_or valid none = err (rejected "invalid token")
accepted_or valid (some p) = accepted valid p

abbrev pub checked_token : Crypto → ℕ → String → Result String
checked_token crypto now token = accepted_or (crypto.is_valid now token) (crypto.parse token)
