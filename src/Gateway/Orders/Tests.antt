-- ===== src/Gateway/Orders/Tests.antt =====
-- Orders through the gateway on concrete inputs.
use kazakh_express.Base.{◌≡◌, refl, true, [], ◌∷◌, some, ◌↔◌}
use kazakh_express.Base.Int.{pos}
use kazakh_express.Base.Decimal.{decimal}
use kazakh_express.Effect.{done, Env, World, invalid_input}
use kazakh_express.Http.Relayed.{IsRelayed}
use kazakh_express.Order.Model
use kazakh_express.Order.Model.{Db}
use kazakh_express.Order.Text.{status_of}
use kazakh_express.Order.Service.{Parts}
use kazakh_express.Order.Http
use kazakh_express.Order.Http.{service_error}
use kazakh_express.Order.Grpc.{input_of}
use kazakh_express.Gateway.Orders.{
  Item, CreateOrderRequest, Request, serve, update_status, create_message,
}
use kazakh_express.Gateway.Orders.Relay.{
  seen, direct, direct_input, all_fit, items_arrive, gateway_order, unknown_status_resets,
}

abbrev calm : Env
calm = record { outcome = λ n. done; now = λ n. n; uuid = decimal }

abbrev all_parts : Parts
all_parts = record { publisher = true; cache = true }

abbrev with_order : World Db
with_order = record {
  db = record {
    orders =
        record {
          id = "ord-1";
          customer_id = "c1";
          status = Model.shipped;
          total_kzt = pos 1000;
          created_at = 1;
          updated_at = 1;
        }
        ∷ [];
    items = [];
    history = [];
    cached = [];
    published = [];
  };
  tick = 0;
}

-- 2 ^ 32 + 1 packets, which arrive as one.
abbrev many_packets : Item
many_packets = record {
  product_id = "prd-1";
  name = "tea";
  quantity = pos 4294967297;
  price_kzt = pos 500;
}

abbrev purchase : CreateOrderRequest
purchase = record {
  customer_id = "c1";
  items = record many_packets { quantity = pos 2 } ∷ many_packets ∷ [];
}

abbrev shipping : Request
shipping = Request.patch_status "ord-1" (some "completed")

items_arrive_example :
    ((input_of (create_message purchase)).items ≡ (direct_input purchase).items)
    ↔ (all_fit purchase.items ≡ true)
items_arrive_example = items_arrive purchase

gateway_order_example :
    let s = direct calm all_parts shipping with_order in
    let g = serve done calm all_parts decimal shipping with_order in
    IsRelayed (seen decimal) s.0 g.0 × (g.1 ≡ s.1)
unfolding status_of
gateway_order_example = gateway_order calm all_parts decimal shipping with_order refl

unknown_status_resets_example :
    (Http.update_status calm all_parts "ord-1" (some (status_of "lost")) with_order
      ≡ (service_error invalid_input, with_order))
    × (update_status done calm all_parts decimal "ord-1" (some "lost") with_order
        ≡ update_status done calm all_parts decimal "ord-1" (some "created") with_order)
unfolding status_of
unknown_status_resets_example =
    unknown_status_resets calm all_parts decimal "ord-1" "lost" with_order refl
