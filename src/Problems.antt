-- ===== src/Problems.antt =====
-- src/shared/filters/problem-details.filter.ts and src/shared/exceptions/domain.exception.ts: the
-- answer to a request whose handler threw.
mod Tests
use node_b2b_orders.Base.{
  ℕ, String, Bool, true, false, Option, none, some, List, [], ◌∷◌, ◌==◌, leb, str_eq, decimal,
  if◌then◌else◌,
}
use node_b2b_orders.Services.{template}
use node_b2b_orders.Guards.{non_empty}

-- `message` of the object that an `HttpException` carries; a list where the body was not valid.
pub data ErrorMessage : Type 0 where
  absent : ErrorMessage
  single : String → ErrorMessage
  several : List String → ErrorMessage

-- What `getResponse()` returns.
pub data HttpBody : Type 0 where
  plain_text : String → HttpBody
  described : (message : ErrorMessage) (detail : Option String) → HttpBody

pub data Exception : Type 0 where
  domain : (message : String) (status : ℕ) → Exception
  http : (status : ℕ) → HttpBody → Exception
  error : (message : String) → Exception
  other : Exception

-- The exceptions of `DomainException`'s subclasses.
abbrev pub order_not_found : String → Exception
order_not_found order_id = domain (template ("Order not found: " ∷ order_id ∷ [])) 404

abbrev pub invalid_order_state : (current attempted : String) → Exception
invalid_order_state current attempted =
    domain (template ("Cannot transition order from " ∷ current ∷ " to " ∷ attempted ∷ [])) 409

abbrev pub insufficient_stock : String → Exception
insufficient_stock sku = domain (template ("Insufficient stock for SKU: " ∷ sku ∷ [])) 409

abbrev pub product_not_found : String → Exception
product_not_found product_id = domain (template ("Product not found: " ∷ product_id ∷ [])) 404

abbrev pub duplicate_order : String → Exception
duplicate_order key =
    domain (template ("Order already exists for idempotency key: " ∷ key ∷ [])) 409

pub record Problem : Type 0 where
  pub type : String
  pub title : String
  pub status : ℕ
  pub detail : String
  pub instance_url : String
  pub correlation_id : String

abbrev pub titles : List (ℕ × String)
titles =
    (400, "Bad Request")
    ∷ (401, "Unauthorized")
    ∷ (403, "Forbidden")
    ∷ (404, "Not Found")
    ∷ (409, "Conflict")
    ∷ (422, "Unprocessable Entity")
    ∷ (429, "Too Many Requests")
    ∷ (500, "Internal Server Error")
    ∷ (502, "Bad Gateway")
    ∷ (503, "Service Unavailable")
    ∷ []

unfoldable pub title_in : ℕ → List (ℕ × String) → String
title_in status [] = "Error"
title_in status ((code, title) ∷ rest) =
    let found = title_in status rest in if code == status then title else found

-- `statusToTitle`
unfoldable pub status_to_title : ℕ → String
unfolding title_in
status_to_title status = title_in status titles

abbrev pub unexpected : String
unexpected = "An unexpected error occurred"

-- `join('; ')`
unfoldable pub join_semicolon : List String → String
join_semicolon [] = ""
join_semicolon (s ∷ []) = s
join_semicolon (s ∷ t ∷ rest) = template (s ∷ "; " ∷ join_semicolon (t ∷ rest) ∷ [])

abbrev or_unexpected : Option String → String
or_unexpected detail = elim (non_empty detail) [ none ↦ unexpected | some d ↦ d ]

abbrev detail_of : HttpBody → String
detail_of (plain_text s) = s
detail_of (described (several messages) detail) = join_semicolon messages
detail_of (described absent detail) = or_unexpected detail
detail_of (described (single message) detail) = elim (non_empty (some message)) [
  | none ↦ or_unexpected detail
  | some m ↦ m
]

-- The status, the title and the detail.
unfoldable pub explain : Exception → ℕ × String × String
unfolding status_to_title
explain (domain message status) = (status, status_to_title status, message)
explain (http status body) = (status, status_to_title status, detail_of body)
explain (error message) = (500, "Internal Server Error", message)
explain other = (500, "Internal Server Error", unexpected)

-- The reply of `catch`, and whether the exception goes to Sentry. `new_id` is `uuidv4()` without its
-- dashes; the timestamp is left out.
unfoldable pub catch_exception :
    Exception → (url : String) (correlation_id : Option String) (new_id : String) → Problem × Bool
unfolding explain
catch_exception e url correlation_id new_id =
    let (status, title, detail) = explain e in
    (
      record {
        type = template ("https://httpstatuses.com/" ∷ decimal status ∷ []);
        title = title;
        status = status;
        detail = detail;
        instance_url = url;
        correlation_id = elim (non_empty correlation_id) [ none ↦ new_id | some id ↦ id ];
      },
      leb 500 status,
    )
