-- ===== src/Order/Model.antt =====
-- order-service/internal/order/model.go, and the tables and logs that the service writes to.
use kazakh_express.Base.{ℕ, String, List, Bool, true, false}
use kazakh_express.Base.Int.{ℤ}

-- `type Status string`: the constants of the source, the empty text of a first history row, and
-- any other text.
pub data Status : Type 0 where
  created paid payment_failed shipped completed canceled no_status : Status
  other_status : String → Status

pub record Item : Type 0 where
  pub product_id : String
  pub name : String
  pub quantity : ℤ
  pub price_kzt : ℤ

pub record Order : Type 0 where
  pub id : String
  pub customer_id : String
  pub items : List Item
  pub status : Status
  pub total_kzt : ℤ
  pub created_at : ℕ
  pub updated_at : ℕ

pub record CreateInput : Type 0 where
  pub customer_id : String
  pub items : List Item

-- A row of `order_status_history`, without its serial number.
pub record StatusHistory : Type 0 where
  pub order_id : String
  pub from_status : Status
  pub to_status : Status
  pub reason : String
  pub created_at : ℕ

pub record Event : Type 0 where
  pub order_id : String
  pub customer_id : String
  pub status : Status
  pub total_kzt : ℤ
  pub reason : String
  pub occurred_at : ℕ

pub record PaymentEvent : Type 0 where
  pub payment_id : String
  pub order_id : String
  pub customer_id : String
  pub status : String
  pub reason : String
  pub occurred_at : ℕ

pub record StockReservedEvent : Type 0 where
  pub order_id : String
  pub customer_id : String
  pub occurred_at : ℕ

-- A row of `orders`; the items stand in a table of their own.
pub record Row : Type 0 where
  pub id : String
  pub customer_id : String
  pub status : Status
  pub total_kzt : ℤ
  pub created_at : ℕ
  pub updated_at : ℕ

-- A row of `order_items`.
pub record ItemRow : Type 0 where
  pub order_id : String
  pub item : Item

pub data Topic : Type 0 where
  order_created order_cancelled order_completed : Topic

-- The tables, the statuses in Redis (newest first) and the messages sent (oldest first).
pub record Db : Type 0 where
  pub orders : List Row
  pub items : List ItemRow
  pub history : List StatusHistory
  pub cached : List (String × Status)
  pub published : List (Topic × Event)

abbrev pub is_completed : Status → Bool
is_completed completed = true
is_completed _ = false

abbrev pub is_canceled : Status → Bool
is_canceled canceled = true
is_canceled _ = false

-- `isAllowedStatus`, which is also the check of the column `status`.
abbrev pub is_allowed_status : Status → Bool
is_allowed_status no_status = false
is_allowed_status (other_status _) = false
is_allowed_status _ = true
