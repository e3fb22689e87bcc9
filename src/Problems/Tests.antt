-- ===== src/Problems/Tests.antt =====
-- The answers to concrete exceptions.
use node_b2b_orders.Base.{◌≡◌, refl, none, some, [], ◌∷◌, decimal}
use node_b2b_orders.Problems.{
  catch_exception, explain, status_to_title, title_in, join_semicolon, http, described, several,
  error, order_not_found,
}

invalid_body :
    (catch_exception
      (http 400 (described (several ("qty" ∷ "sku" ∷ [])) none))
      "/v1/orders"
      none
      "n").0.detail
    ≡ "qty; sku"
unfolding catch_exception explain join_semicolon
invalid_body = refl

unknown_order :
    (catch_exception (order_not_found "o1") "/v1/orders/o1" (some "c") "n").0.title ≡ "Not Found"
unfolding catch_exception explain status_to_title title_in
unknown_order = refl

-- The message of an error that is no exception of HTTP is in the answer.
internal_message :
    (catch_exception (error "connect ECONNREFUSED db:5432") "/v1/orders" none "n").0.detail
    ≡ "connect ECONNREFUSED db:5432"
unfolding catch_exception explain
internal_message = refl

type_runs :
    (catch_exception (order_not_found "o1") "/" none "n").0.type ≡ "https://httpstatuses.com/404"
unfolding catch_exception explain decimal
type_runs = refl
