-- ===== src/Order/Http/Routes.antt =====
-- The routes of one order, by the method of the request.
use kazakh_express.Base.{String, [], ◌∷◌, ◌==◌, ◌≡◌, refl, if◌then◌else◌}
use kazakh_express.Base.Decimal.{concat}
use kazakh_express.Effect.{Env}
use kazakh_express.Http.{answer, Handler}
use kazakh_express.Http.Paths.{IsPart, IsPlain, split-trim-join}
use kazakh_express.Order.Model.{Order, Db}
use kazakh_express.Order.Service.{Parts}
use kazakh_express.Order.Http.{
  Json, order_by_id, order_of_parts, get_order, update_status, cancel_order, not_allowed,
}

-- A request behind `/orders/`.
abbrev pub at : Json → Env → Parts → String → String → String → Handler Db Order
at json env parts method body path =
    order_by_id json env parts
      (record { method = method; path = concat "/orders/" path; body = body })

-- For an identifier that is not empty and holds no slash: behind `/orders/`, the identifier is read
-- by GET, with `/status` its status is set by PATCH, with `/cancel` it is cancelled by POST, and
-- every other method is answered by 405 without a call of the service.
pub order_routes :
    (json : Json) (env : Env) (parts : Parts) (method body id : String)
    → IsPart id
    → (at json env parts method body id
        ≡ (if method == "GET" then get_order env parts id else answer not_allowed))
      × (at json env parts method body (concat id "/status") ≡ (
          if method == "PATCH"
          then update_status env parts id (json.update_status body)
          else answer not_allowed))
      × (at json env parts method body (concat id "/cancel") ≡ (
          if method == "POST"
          then cancel_order env parts id (json.cancel_reason body)
          else answer not_allowed))
unfolding order_by_id order_of_parts
order_routes json env parts method body id h =
    let six_letters : IsPlain "status" = (refl, (refl, (refl, (refl, (refl, (refl, tt)))))) in
    let status = split-trim-join "/orders/" id ("status" ∷ []) h ((refl, six_letters), tt) in
    let cancel = split-trim-join "/orders/" id ("cancel" ∷ []) h ((refl, six_letters), tt) in
    (
      rw (split-trim-join "/orders/" id [] h tt, h.0) refl,
      rw (status, h.0) refl,
      rw (cancel, h.0) refl,
    )
