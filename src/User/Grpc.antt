-- ===== src/User/Grpc.antt =====
-- user-service/internal/grpc/handler.go: the user service over gRPC. The messages are those that the
-- code reads and writes, field by field.
use kazakh_express.Base.{ℕ, String, Bool, true, false, Option, none, some}
use kazakh_express.Base.Decimal.{concat}
use kazakh_express.Effect.{
  Error, rejected, fault, Result, ok, err, Env, Action, pure, attempt, ◌>>=◌,
}
use kazakh_express.User.Model.{
  User, RegisterInput, LoginInput, UpdateProfileInput, AuthResponse, Db,
}
use kazakh_express.User.Service
use kazakh_express.User.Service.{Parts, Crypto}

-- `pb.User`
pub record UserProto : Type 0 where
  pub id : String
  pub email : String
  pub first_name : String
  pub last_name : String
  pub phone : String
  pub address : String
  pub created_at : String
  pub updated_at : String

-- `pb.AuthResponse`
pub record AuthProto : Type 0 where
  pub user : UserProto
  pub token : String
  pub refresh_token : String

-- `pb.ValidateTokenResponse`
pub record ValidProto : Type 0 where
  pub valid : Bool
  pub user_id : String

-- `status.Errorf(code, "...: %v", err)`, under the text of its code and of its message.
abbrev pub status_error : String → Error → Error
status_error what (rejected t) = rejected (concat what t)
status_error what (fault t) = rejected (concat what t)
status_error what e = e

abbrev pub with_status : {A : Type 0} → String → Result A → Result A
with_status what (ok a) = ok a
with_status what (err e) = err (status_error what e)

unfoldable pub labelled : {A : Type 0} → String → Action Db A → Action Db A
labelled what m w = let (r, w') = m w in (with_status what r, w')

-- `domainToProtoUser`; `format` is the text of a time in RFC 3339.
unfoldable pub domain_to_proto_user : (ℕ → String) → User → UserProto
domain_to_proto_user format u = record {
  id = u.id;
  email = u.email;
  first_name = u.first_name;
  last_name = u.last_name;
  phone = u.phone;
  address = u.address;
  created_at = format u.created_at;
  updated_at = format u.updated_at;
}

unfoldable pub auth_to_proto : (ℕ → String) → AuthResponse → AuthProto
unfolding domain_to_proto_user
auth_to_proto format r = record {
  user = domain_to_proto_user format r.user;
  token = r.token;
  refresh_token = r.refresh_token;
}

abbrev pub validity : Option String → ValidProto
validity none = record { valid = false; user_id = "" }
validity (some id) = record { valid = true; user_id = id }

module _ (env : Env) (parts : Parts) (crypto : Crypto) (format : ℕ → String) where
  unfoldable pub register_user : RegisterInput → Action Db AuthProto
  register_user input = do
    result ←
        labelled "code = Internal desc = registration failed: "
          (Service.register env parts crypto input)
    pure (auth_to_proto format result)

  unfoldable pub login_user : LoginInput → Action Db AuthProto
  login_user input = do
    result ←
        labelled "code = Unauthenticated desc = login failed: "
          (Service.login env parts crypto input)
    pure (auth_to_proto format result)

  -- `GetUser`, which `GetUserByID` calls.
  unfoldable pub get_user : String → Action Db UserProto
  get_user id = do
    u ← labelled "code = NotFound desc = user not found: " (Service.get_profile env parts crypto id)
    pure (domain_to_proto_user format u)

  unfoldable pub update_user_profile : String → UpdateProfileInput → Action Db UserProto
  update_user_profile id input = do
    u ←
        labelled "code = Internal desc = update failed: "
          (Service.update_profile env parts crypto id input)
    pure (domain_to_proto_user format u)

  -- An invalid token is no error.
  unfoldable pub validate_token : String → Action Db ValidProto
  validate_token token = do
    id ← attempt (Service.validate_token env parts crypto token)
    pure (validity id)

  unfoldable pub refresh_token : String → Action Db AuthProto
  refresh_token token = do
    result ←
        labelled "code = Unauthenticated desc = refresh failed: "
          (Service.refresh_token env parts crypto token)
    pure (auth_to_proto format result)

  unfoldable pub logout : String → String → String → Action Db (Unit {0})
  logout user_id access refresh =
      labelled "code = Internal desc = logout failed: "
        (Service.logout env parts crypto user_id access refresh)
