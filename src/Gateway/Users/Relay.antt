-- ===== src/Gateway/Users/Relay.antt =====
-- The routes of the gateway beside the user service: whose profile a request changes.
use kazakh_express.Base.{ℕ, String, some, ◌≡◌, refl}
use kazakh_express.Effect.{Result, ok, err, done, Env, World, Action, pure, ◌>>=◌}
use kazakh_express.Http.{Reply, one, respond, remote, bad_gateway}
use kazakh_express.User.Model
use kazakh_express.User.Model.{UpdateProfileInput, Db}
use kazakh_express.User.Service
use kazakh_express.User.Service.{Parts, Crypto}
use kazakh_express.User.Grpc
use kazakh_express.User.Grpc.{domain_to_proto_user, labelled}
use kazakh_express.Gateway.Users.{User, Headers, user_from_proto, client_update_profile, update_me}

-- The user that the client of the gateway sees.
abbrev pub view : (ℕ → String) → Model.User → User
view format u = user_from_proto (domain_to_proto_user format u)

-- What the gateway answers to a result of `UpdateProfile`.
abbrev pub IsShown : (ℕ → String) → Result Model.User → Reply User → Type 0
IsShown format (ok u) g = g ≡ record { status = 200; body = one (view format u) }
IsShown format (err e) g = g.status ≡ 502

update-IsShown :
    (format : ℕ → String) (what : String) (r : Result Model.User) (w w' : World Db)
    → let m : Action Db Model.User = λ _. (r, w') in
      let c : Action Db User =
        remote done (labelled what m >>= λ u. pure (domain_to_proto_user format u)) >>= λ u.
        pure (user_from_proto u) in
      let g = respond bad_gateway 200 one c w in (g.1 ≡ w') × IsShown format r g.0
unfolding labelled respond remote ◌>>=◌
update-IsShown format what (ok u) w w' = (refl, refl)
update-IsShown format what (err e) w w' = (refl, refl)

-- The gateway changes the profile of the user whom the header `X-User-ID` names, whatever the
-- `Authorization` header holds: over a call that is delivered, the state and the answer are those of
-- `UpdateProfile` for that user, and no token is checked.
pub update_me_unchecked :
    (env : Env) (parts : Parts) (crypto : Crypto) (format : ℕ → String) (id authorization : String)
    (input : UpdateProfileInput) (w : World Db)
    → let headers : Headers = record { x_user_id = id; authorization = authorization } in
      let d = Service.update_profile env parts crypto id input w in
      let g = update_me done env parts crypto format headers (some input) w in
      (g.1 ≡ d.1) × IsShown format d.0 g.0
unfolding update_me client_update_profile Grpc.update_user_profile labelled respond remote ◌>>=◌
update_me_unchecked env parts crypto format id authorization input w =
    let d = Service.update_profile env parts crypto id input w in
    update-IsShown format "code = Internal desc = update failed: " d.0 w d.1
