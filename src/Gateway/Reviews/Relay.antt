-- ===== src/Gateway/Reviews/Relay.antt =====
-- The routes of the gateway beside the review service.
use kazakh_express.Base.{ℕ, String, some, ◌≡◌, refl, ap, subst, true}
use kazakh_express.Base.Int.{fits32, wrap32_fits}
use kazakh_express.Effect.{done, Env, World}
use kazakh_express.Http.{respond, one, bad_gateway}
use kazakh_express.Http.Relayed.{IsRelayed, relay_one}
use kazakh_express.Review.Model
use kazakh_express.Review.Model.{CreateInput, Db}
use kazakh_express.Review.Service
use kazakh_express.Review.Service.{Parts, is_bad_rating}
use kazakh_express.Review.Grpc
use kazakh_express.Review.Grpc.{to_proto}
use kazakh_express.Gateway.Reviews.{
  Review, CreateReviewRequest, from_proto, create_message, client_create, create,
}

-- The review that the client of the gateway sees.
abbrev pub view : (ℕ → String) → Model.Review → Review
view format r = from_proto (to_proto format r)

abbrev pub direct_input : String → CreateReviewRequest → CreateInput
direct_input product_id i = record {
  product_id = product_id;
  customer_id = i.customer_id;
  rating = i.rating;
  comment = i.comment;
}

create_message_fits :
    (product_id : String) (i : CreateReviewRequest)
    → fits32 i.rating ≡ true
    → create_message product_id i ≡ direct_input product_id i
unfolding create_message
create_message_fits product_id i h =
    ap (λ n. record (direct_input product_id i) { rating = n }) (wrap32_fits i.rating h)

-- A review that is created over the gateway, on a call that is delivered: with a rating that fits
-- in 32 bits, the state and the answer are those of the service.
pub gateway_review :
    (env : Env) (parts : Parts) (format : ℕ → String) (product_id : String)
    (i : CreateReviewRequest) (w : World Db)
    → fits32 i.rating ≡ true
    → let d =
        respond bad_gateway 201 one (Service.create env parts (direct_input product_id i)) w in
      let g = create done env parts format product_id (some i) w in
      IsRelayed (view format) d.0 g.0 × (g.1 ≡ d.1)
unfolding create client_create Grpc.create_review
gateway_review env parts format product_id i w h =
    subst
      (λ input.
        let g = create done env parts format product_id (some i) w in
        let d = respond bad_gateway 201 one (Service.create env parts input) w in
        IsRelayed (view format) d.0 g.0 × (g.1 ≡ d.1))
      (create_message_fits product_id i h)
      (relay_one (to_proto format) from_proto bad_gateway (λ e. refl) 201
        (Service.create env parts (create_message product_id i)) w)
