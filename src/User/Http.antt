-- ===== src/User/Http.antt =====
-- user-service/internal/http/handler.go: the routes of the user service, from the method, the path
-- and the headers of a request.
pub mod Auth
use kazakh_express.Base.{
  ℕ, String, Bool, false, ◌||◌, Option, none, some, ◌==◌, is_empty, if◌then◌else◌,
}
use kazakh_express.Effect.{Error, rejected, fault, Result, ok, err, Env, World}
use kazakh_express.Http.{one, text, Reply, Handler, respond, answer}
use kazakh_express.Http.Paths.{trim_prefix, cut_prefix, contains}
use kazakh_express.User.Model.{
  User, RegisterInput, LoginInput, UpdateProfileInput, AuthResponse, Db,
}
use kazakh_express.User.Service
use kazakh_express.User.Service.{Parts, Crypto}

pub record Request : Type 0 where
  pub method : String
  pub path : String
  pub authorization : String
  pub body : String

-- What encoding/json reads from a body; one that is no JSON is `none`.
pub record Json : Type 0 where
  pub register : String → Option RegisterInput
  pub login : String → Option LoginInput
  pub update_profile : String → Option UpdateProfileInput

-- `strings.Contains(err.Error(), word)`
abbrev pub mentions : String → Error → Bool
mentions word (rejected t) = contains word t
mentions word (fault t) = contains word t
mentions word _ = false

-- `http.Error`
abbrev pub http_error : {A : Type 0} → String → ℕ → Reply A
http_error t status = record { status = status; body = text t }

abbrev pub not_allowed : {A : Type 0} → Reply A
not_allowed = http_error "Method not allowed" 405

abbrev pub internal : {A : Type 0} → Reply A
internal = http_error "Internal server error" 500

abbrev pub error_message : Error → String
error_message (rejected t) = t
error_message (fault t) = t
error_message _ = ""

-- The errors of `handleRegister`, of `handleLogin`, and of the handlers of a profile.
unfoldable pub register_error : Error → Reply AuthResponse
register_error e =
    if mentions "already exists" e then http_error (error_message e) 409 else internal

unfoldable pub login_error : Error → Reply AuthResponse
login_error e =
    if mentions "invalid email or password" e
    then http_error "Invalid credentials" 401
    else internal

unfoldable pub profile_error : Error → Reply User
profile_error e = if mentions "not found" e then http_error "User not found" 404 else internal

module _ (env : Env) (parts : Parts) (crypto : Crypto) where
  unfoldable pub register : Option RegisterInput → Handler Db AuthResponse
  register none = answer (http_error "Invalid request body" 400)
  register (some input) = respond register_error 201 one (Service.register env parts crypto input)

  unfoldable pub login : Option LoginInput → Handler Db AuthResponse
  login none = answer (http_error "Invalid request body" 400)
  login (some input) = respond login_error 200 one (Service.login env parts crypto input)

  unfoldable pub show_profile : String → Handler Db User
  show_profile id = respond profile_error 200 one (Service.get_profile env parts crypto id)

  unfoldable pub update_profile : String → Option UpdateProfileInput → Handler Db User
  update_profile id none = answer (http_error "Invalid request body" 400)
  update_profile id (some input) =
      respond profile_error 200 one (Service.update_profile env parts crypto id input)

  -- The rest of `withAuth`, from the answer of `ValidateToken`.
  unfoldable pub authorized :
      (String → Handler Db User) → Result String × World Db → Reply User × World Db
  authorized next (ok id, w) = next id w
  authorized next (err e, w) = (http_error "Invalid token" 401, w)

  -- `withAuth`
  unfoldable pub with_auth : (String → Handler Db User) → String → Handler Db User
  with_auth next header w =
      let token = trim_prefix "Bearer " header in
      if is_empty header
      then (http_error "Authorization header required" 401, w)
      else if token == header
      then (http_error "Invalid authorization header format" 401, w)
      else authorized next (Service.validate_token env parts crypto token w)

module _ (json : Json) (env : Env) (parts : Parts) (crypto : Crypto) where
  -- `handleRegister` and `handleLogin`
  unfoldable pub handle_register : Request → Handler Db AuthResponse
  handle_register r =
      if r.method == "POST"
      then register env parts crypto (json.register r.body)
      else answer not_allowed

  unfoldable pub handle_login : Request → Handler Db AuthResponse
  handle_login r =
      if r.method == "POST" then login env parts crypto (json.login r.body) else answer not_allowed

  -- `handleGetProfile`
  unfoldable pub handle_get_profile : Request → String → Handler Db User
  handle_get_profile r id =
      if r.method == "GET" then show_profile env parts crypto id else answer not_allowed

  -- `handleProfile`
  unfoldable pub handle_profile : Request → String → Handler Db User
  handle_profile r id =
      if r.method == "GET"
      then handle_get_profile r id
      else if (r.method == "PUT") || (r.method == "PATCH")
      then update_profile env parts crypto id (json.update_profile r.body)
      else answer not_allowed

  -- The route `/users/me`.
  unfoldable pub me : Request → Handler Db User
  me r = with_auth env parts crypto (handle_profile r) r.authorization

  -- `handleGetUserByID`
  unfoldable pub handle_get_user_by_id : Request → Handler Db User
  handle_get_user_by_id r =
      let id = trim_prefix "/users/" r.path in
      if r.method == "GET"
      then if is_empty id
        then answer (http_error "User ID is required" 400)
        else show_profile env parts crypto id
      else answer not_allowed
