-- ===== src/Gateway/Users.antt =====
-- api-gateway/internal/userservice: the client of the user service and its routes.
pub mod Relay
mod Tests
use kazakh_express.Base.{ℕ, String, Option, none, some, is_empty, if◌then◌else◌}
use kazakh_express.Effect.{Outcome, Env, Action, pure, ◌>>=◌}
use kazakh_express.Http.{one, text, Handler, respond, answer, invalid_json, remote, bad_gateway}
use kazakh_express.Http.Paths.{trim_prefix}
use kazakh_express.User.Model.{RegisterInput, LoginInput, UpdateProfileInput, Db}
use kazakh_express.User.Service.{Parts, Crypto}
use kazakh_express.User.Grpc
use kazakh_express.User.Grpc.{UserProto, AuthProto}

-- model.go; `RegisterRequest` and `LoginRequest` have the fields of the inputs.
pub record User : Type 0 where
  pub id : String
  pub email : String
  pub first_name : String
  pub last_name : String
  pub phone : String
  pub address : String
  pub created_at : String
  pub updated_at : String

pub record AuthResponse : Type 0 where
  pub user : User
  pub token : String
  pub refresh_token : String

pub record LogoutRequest : Type 0 where
  pub user_id : String
  pub access_token : String
  pub refresh_token : String

-- The headers that the routes read.
pub record Headers : Type 0 where
  pub x_user_id : String
  pub authorization : String

unfoldable pub user_from_proto : UserProto → User
user_from_proto item = record {
  id = item.id;
  email = item.email;
  first_name = item.first_name;
  last_name = item.last_name;
  phone = item.phone;
  address = item.address;
  created_at = item.created_at;
  updated_at = item.updated_at;
}

unfoldable pub auth_from_proto : AuthProto → AuthResponse
unfolding user_from_proto
auth_from_proto item = record {
  user = user_from_proto item.user;
  token = item.token;
  refresh_token = item.refresh_token;
}

-- The client: a call over `link`, and what its answer holds.
module _ (link : Outcome) (env : Env) (parts : Parts) (crypto : Crypto) (format : ℕ → String) where
  unfoldable pub client_register : RegisterInput → Action Db AuthResponse
  client_register input = do
    output ← remote link (Grpc.register_user env parts crypto format input)
    pure (auth_from_proto output)

  unfoldable pub client_login : LoginInput → Action Db AuthResponse
  client_login input = do
    output ← remote link (Grpc.login_user env parts crypto format input)
    pure (auth_from_proto output)

  unfoldable pub client_refresh : String → Action Db AuthResponse
  client_refresh token = do
    output ← remote link (Grpc.refresh_token env parts crypto format token)
    pure (auth_from_proto output)

  unfoldable pub client_logout : LogoutRequest → Action Db (Unit {0})
  client_logout input =
      remote link
        (Grpc.logout env parts crypto format input.user_id input.access_token input.refresh_token)

  unfoldable pub client_get_user : String → Action Db User
  client_get_user id = do
    output ← remote link (Grpc.get_user env parts crypto format id)
    pure (user_from_proto output)

  unfoldable pub client_update_profile : String → UpdateProfileInput → Action Db User
  client_update_profile id input = do
    output ← remote link (Grpc.update_user_profile env parts crypto format id input)
    pure (user_from_proto output)

  unfoldable pub register : Option RegisterInput → Handler Db AuthResponse
  register none = answer invalid_json
  register (some input) = respond bad_gateway 201 one (client_register input)

  unfoldable pub login : Option LoginInput → Handler Db AuthResponse
  login none = answer invalid_json
  login (some input) = respond bad_gateway 200 one (client_login input)

  -- The body holds the refresh token.
  unfoldable pub refresh : Option String → Handler Db AuthResponse
  refresh none = answer invalid_json
  refresh (some token) = respond bad_gateway 200 one (client_refresh token)

  unfoldable pub me : Headers → Handler Db User
  me headers = respond bad_gateway 200 one (client_get_user headers.x_user_id)

  unfoldable pub update_me : Headers → Option UpdateProfileInput → Handler Db User
  update_me headers none = answer invalid_json
  update_me headers (some input) =
      respond bad_gateway 200 one (client_update_profile headers.x_user_id input)

  unfoldable pub get_user : String → Handler Db User
  get_user id = respond bad_gateway 200 one (client_get_user id)

-- `bearer`; `trim_space` is strings.TrimSpace.
unfoldable pub bearer : (String → String) → Headers → String
bearer trim_space headers = trim_space (trim_prefix "Bearer " headers.authorization)

-- `logout`, from what has been read of the body.
unfoldable pub logout :
    (String → String)
    → Outcome
    → Env
    → Parts
    → Crypto
    → (ℕ → String)
    → Headers
    → LogoutRequest
    → Handler Db User
logout trim_space link env parts crypto format headers input =
    let access =
      if is_empty input.access_token then bearer trim_space headers else input.access_token in
    respond bad_gateway 200 (λ _. text "ok")
      (client_logout link env parts crypto format (record input { access_token = access }))
