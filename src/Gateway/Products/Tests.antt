-- ===== src/Gateway/Products/Tests.antt =====
-- Products through the gateway on concrete inputs.
use kazakh_express.Base.{String, ◌==◌, ◌≡◌, refl, true, false, [], ◌∷◌, some, none}
use kazakh_express.Base.Int.{ℤ, pos}
use kazakh_express.Base.Decimal.{decimal}
use kazakh_express.Effect.{done, Env, World}
use kazakh_express.Http.Relayed.{IsRelayed}
use kazakh_express.Product.Model.{Db}
use kazakh_express.Product.Postgres.{postgres}
use kazakh_express.Product.Service.{Service}
use kazakh_express.Gateway.Products.Relay.{
  seen, Request, list_products, direct, through, gateway_product,
}

abbrev calm : Env
calm = record { outcome = λ n. done; now = λ n. n; uuid = decimal }

abbrev shop : Service
shop = record {
  repo = postgres calm (λ text p. p.name == text);
  storage = false;
  publisher = true;
  url_of = λ object. object;
  base_name = λ name. name;
}

abbrev stocked : World Db
stocked = record {
  db = record {
    products =
        record {
          id = "prd-1";
          name = "tea";
          description = "";
          price_kzt = pos 500;
          stock = pos 5;
          image_url = "";
          created_at = 0;
          updated_at = 0;
        }
        ∷ [];
    images = [];
    objects = [];
    published = [];
  };
  tick = 0;
}

-- What Atoi answers for the two defaults.
abbrev atoi : String → ℤ
atoi s = pos 50

abbrev first_page : Request
first_page = list_products none (some "0") "tea"

gateway_product_example :
    let d = direct atoi calm shop first_page stocked in
    let g = through atoi calm shop decimal first_page stocked in
    IsRelayed (seen decimal) d.0 g.0 × (g.1 ≡ d.1)
gateway_product_example = gateway_product atoi calm shop decimal first_page stocked refl
