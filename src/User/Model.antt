-- ===== src/User/Model.antt =====
-- user-service/internal/user/model.go, and the tables, the Redis keys and the logs that the service
-- writes to.
use kazakh_express.Base.{ℕ, String, Option, List}

pub record User : Type 0 where
  pub id : String
  pub email : String
  pub password : String
  pub first_name : String
  pub last_name : String
  pub phone : String
  pub address : String
  pub created_at : ℕ
  pub updated_at : ℕ

-- A row of `users`.
pub record Row : Type 0 where
  pub user : User
  pub reset_token_hash : Option String
  pub reset_token_expires_at : Option ℕ

pub record RegisterInput : Type 0 where
  pub email : String
  pub password : String
  pub first_name : String
  pub last_name : String
  pub phone : String
  pub address : String

pub record LoginInput : Type 0 where
  pub email : String
  pub password : String

-- A pointer that may be nil is an option.
pub record UpdateProfileInput : Type 0 where
  pub first_name : Option String
  pub last_name : Option String
  pub phone : Option String
  pub address : Option String

pub record AuthResponse : Type 0 where
  pub user : User
  pub token : String
  pub refresh_token : String

-- A row of `refresh_tokens`, without its serial number.
pub record RefreshToken : Type 0 where
  pub user_id : String
  pub token_hash : String
  pub expires_at : ℕ
  pub created_at : ℕ

-- A row of `token_blacklist`.
pub record Blacklisted : Type 0 where
  pub jti : String
  pub expires_at : ℕ
  pub created_at : ℕ

pub record ResetPasswordInput : Type 0 where
  pub token : String
  pub new_password : String

-- A key of Redis that ends, with what it holds.
pub record Held (A : Type 0) : Type 0 where
  pub key : String
  pub value : A
  pub expires : ℕ

pub data EventType : Type 0 where
  user_created user_updated : EventType

pub record UserEvent : Type 0 where
  pub user_id : String
  pub email : String
  pub first_name : String
  pub last_name : String
  pub event : EventType
  pub timestamp : ℕ

-- A call of a `go` statement that has been started and is not done.
pub data Task : Type 0 where
  send_welcome : User → Task
  publish : EventType → User → Task
  cache_profile : String → User → Task
  drop_profile revoke : String → Task

-- The tables; the cached users, the revoked tokens and the times of the attempts to log in, newest
-- entry first; the messages and the welcome mails, oldest first; and the tasks
-- that are started, oldest first.
pub record Db : Type 0 where
  pub users : List Row
  pub tokens : List RefreshToken
  pub blacklist : List Blacklisted
  pub cached : List (Held User)
  pub revoked : List (Held (Unit {0}))
  pub attempts : List (Held (List ℕ))
  pub published : List UserEvent
  pub welcomed : List String
  pub started : List Task
