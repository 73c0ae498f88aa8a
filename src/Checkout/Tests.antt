-- ===== src/Checkout/Tests.antt =====
-- A payment and its order on concrete inputs.
use kazakh_express.Base.{◌≡◌, refl, true, [], ◌∷◌, ◌++◌, some, List}
use kazakh_express.Base.Int.{pos}
use kazakh_express.Base.Decimal.{decimal}
use kazakh_express.Base.Table.{find}
use kazakh_express.Effect.{done, Env, World}
use kazakh_express.Payment.Model
use kazakh_express.Payment.Model.{CreateInput, Topic}
use kazakh_express.Payment.Service
use kazakh_express.Payment.Service.{mock_charge}
use kazakh_express.Order.Model as OrderModel
use kazakh_express.Order.Model.{Row}
use kazakh_express.Order.Service.{Parts}
use kazakh_express.Checkout.{deliver}
use kazakh_express.Checkout.Settled.{order_status, order_settled}

abbrev calm : Env
calm = record { outcome = λ n. done; now = λ n. n; uuid = decimal }

abbrev all_parts : Parts
all_parts = record { publisher = true; cache = true }

abbrev purchase : CreateInput
purchase = record {
  order_id = "ord-1";
  customer_id = "c1";
  customer_email = "c1@mail.kz";
  amount_kzt = pos 700000;
  method = Model.wallet;
  idempotency_key = "k1";
}

abbrev no_payment : World Model.Db
no_payment = record {
  db = record {
    payments = [];
    events = [];
    refunds = [];
    saved = [];
    published = [];
    charged = [];
    mailed = [];
  };
  tick = 0;
}

abbrev open_order : Row
open_order = record {
  id = "ord-1";
  customer_id = "c1";
  status = OrderModel.created;
  total_kzt = pos 700000;
  created_at = 1;
  updated_at = 1;
}

abbrev ordered : World OrderModel.Db
ordered = record {
  db = record { orders = open_order ∷ []; items = []; history = []; cached = []; published = [] };
  tick = 0;
}

-- A wallet beyond its limit.
order_settled_example :
    (messages : List (Topic × Model.PaymentEvent)) × (r' : Row) × ((Service.create calm 100
        mock_charge purchase no_payment).1.db.published
      ≡ [] ++ messages)
    × (find (λ r. r.id) "ord-1" (deliver calm all_parts messages ordered).db.orders ≡ some r')
    × (r'.status ≡ order_status Model.failed)
unfolding mock_charge decimal
order_settled_example =
    order_settled calm calm 100 mock_charge purchase Model.failed no_payment all_parts ordered
      open_order (λ n. refl) (λ n. refl) refl refl refl refl refl
