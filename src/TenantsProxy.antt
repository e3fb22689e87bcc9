-- ===== src/TenantsProxy.antt =====
-- src/interfaces/tenants-proxy: the requests for tenants, which go on to the Core service. `upper` is
-- `toUpperCase()`, `stringify` and `parse` are those of JSON, and `fetch` is the call over HTTP.
pub mod Relay
mod Tests
use Prim.Native.String.{len, slice}
use text.Mathlib.Text.{find?}
use node_b2b_orders.Base.{
  ℕ, ◌+◌, ◌-◌, String, Bool, true, false, Option, none, some, List, [], ◌∷◌, str_eq, starts_with,
  Result, ok, err, service_unavailable, if◌then◌else◌,
}
use node_b2b_orders.Services.{template}
use node_b2b_orders.Queries.{includes}
use node_b2b_orders.Maps.{get, set}
use node_b2b_orders.Guards.{non_empty}

abbrev pub forward_headers : List String
forward_headers =
    "authorization" ∷ "content-type" ∷ "accept" ∷ "x-correlation-id" ∷ "x-tenant-id" ∷ []

-- A header that was sent more than once may be a list.
pub data HeaderValue : Type 0 where
  one : String → HeaderValue
  several : List String → HeaderValue

pub data Body (A : Type 0) : Type 0 where
  raw_body : String → Body A
  parsed_body : A → Body A

pub record Incoming (A : Type 0) : Type 0 where
  pub url : Option String
  pub method : Option String
  pub headers : String → Option HeaderValue
  pub correlation_id : Option String
  pub body : Option (Body A)

-- The options of `fetch`, with its address.
pub record Outgoing : Type 0 where
  pub url : String
  pub method : String
  pub headers : List (String × String)
  pub body : Option String

-- `await res.text()`, which may throw.
pub data Content : Type 0 where
  read : String → Content
  unread : (message : String) → Content

pub record CoreResponse : Type 0 where
  pub status : ℕ
  pub content_type : Option String
  pub correlation_id : Option String
  pub content : Content

-- `aborted` is the `AbortError` of the timeout.
pub data Fetched : Type 0 where
  responded : CoreResponse → Fetched
  aborted : Fetched
  failed : (message : String) → Fetched

pub data Sent (A : Type 0) : Type 0 where
  sent_json : A → Sent A
  sent_text : String → Sent A
  sent_nothing : Sent A

-- What is set on the reply before something is sent.
pub record Reply : Type 0 where
  pub content_type : Option String
  pub correlation_id : Option String
  pub code : Option ℕ

abbrev pub fresh_reply : Reply
fresh_reply = record { content_type = none; correlation_id = none; code = none }

-- `replace(/\/$/, '')`
unfoldable pub without_slash : String → String
without_slash s = if str_eq (slice s (len s - 1) (len s)) "/" then slice s 0 (len s - 1) else s

abbrev until : String → Option ℕ → String
until s none = s
until s (some i) = slice s 0 i

abbrev after : String → Option ℕ → String
after s none = ""
after s (some i) = let rest = slice s (i + 1) (len s) in until rest (find? rest "?")

-- `split('?')[0]`
unfoldable pub path_of : String → String
path_of url = until url (find? url "?")

-- `url.includes('?') ? url.split('?')[1] ?? '' : ''`
unfoldable pub query_of : String → String
query_of url = after url (find? url "?")

abbrev pub or_empty : Option String → String
or_empty none = ""
or_empty (some s) = s

-- `proxyWildcard`: `replace(/^\/v1\/tenants\/?/, '')` on the path
unfoldable pub sub_path : Option String → String
unfolding path_of
sub_path url =
    let path = path_of (or_empty url) in
    if starts_with path "/v1/tenants/"
    then slice path 12 (len path)
    else if starts_with path "/v1/tenants"
    then slice path 11 (len path)
    else path

abbrev prefixed : String → String → String
prefixed mark s = if str_eq s "" then "" else template (mark ∷ s ∷ [])

unfoldable pub target_url : (base : String) (sub : String) (url : Option String) → String
unfolding without_slash query_of
target_url base sub url = template (
    without_slash base
    ∷ "/v1/tenants"
    ∷ prefixed "/" sub
    ∷ prefixed "?" (query_of (or_empty url))
    ∷ [])

-- `if (v && typeof v === 'string')`
abbrev pub single : Option HeaderValue → Option String
single none = none
single (some (several values)) = none
single (some (one value)) = non_empty (some value)

abbrev pub set_some : String → Option String → List (String × String) → List (String × String)
set_some name none headers = headers
set_some name (some value) headers = set name value headers

-- The loop over `FORWARD_HEADERS`.
unfoldable pub copy_headers :
    (names : List String)
    → (String → Option HeaderValue)
    → List (String × String)
    → List (String × String)
unfolding set
copy_headers [] given headers = headers
copy_headers (name ∷ names) given headers =
    copy_headers names given (set_some name (single (given name)) headers)

unfoldable pub outgoing_headers : {A : Type 0} → Incoming A → List (String × String)
unfolding copy_headers set
outgoing_headers req =
    set_some "x-correlation-id" (non_empty req.correlation_id)
      (copy_headers forward_headers req.headers [])

-- `contentType?.includes('application/json')`
abbrev pub is_json : Option String → Bool
is_json none = false
is_json (some type) = elim (find? type "application/json") [ none ↦ false | some i ↦ true ]

-- The address of the Core: `CORE_API_URL ?? SAAS_CORE_URL`, where an empty text is not used.
abbrev pub base_url : (core saas : Option String) → Option String
base_url (some url) saas = non_empty (some url)
base_url none saas = non_empty saas

abbrev pub proxy_error : String → String
proxy_error message = template ("Tenants proxy error: " ∷ message ∷ [])

module _ {A : Type 0} (upper : String → String) (stringify : A → String) (parse : String → Option A)
    (fetch : Outgoing → Fetched) where
  abbrev pub method_of : Incoming A → String
  method_of req = upper (elim (non_empty req.method) [ none ↦ "GET" | some method ↦ method ])

  abbrev body_text : Option (Body A) → Option String
  body_text none = none
  body_text (some (raw_body s)) = non_empty (some s)
  body_text (some (parsed_body a)) = some (stringify a)

  unfoldable pub outgoing : (base sub : String) → Incoming A → Outgoing
  unfolding outgoing_headers target_url
  outgoing base sub req = record {
    url = target_url base sub req.url;
    method = method_of req;
    headers = outgoing_headers req;
    body =
        if includes (method_of req) ("POST" ∷ "PUT" ∷ "PATCH" ∷ [])
        then body_text req.body
        else none;
  }

  abbrev received : CoreResponse → Reply
  received r = record {
    content_type = non_empty r.content_type;
    correlation_id = non_empty r.correlation_id;
    code = some r.status;
  }

  -- What follows `await res.text()`; a throw here is caught by the same `catch` as one of `fetch`.
  abbrev sent_of : Option String → Content → Result (Sent A)
  sent_of content_type (unread message) = err (service_unavailable (proxy_error message))
  sent_of content_type (read s) =
      if str_eq s ""
      then ok sent_nothing
      else if is_json (non_empty content_type)
      then elim (parse s) [
        | some a ↦ ok (sent_json a)
        | none ↦
            err (service_unavailable (proxy_error "Tenants proxy: resposta JSON inválida do Core"))
      ]
      else ok (sent_text s)

  abbrev pub relay : Fetched → Result (Sent A) × Reply
  relay (responded r) = (sent_of r.content_type r.content, received r)
  relay aborted = (err (service_unavailable "Tenants proxy request to Core timed out"), fresh_reply)
  relay (failed message) = (err (service_unavailable (proxy_error message)), fresh_reply)

  -- `forward`
  unfoldable pub forward :
      (core saas : Option String) → Incoming A → (sub : String) → Result (Sent A) × Reply
  forward core saas req sub = elim (base_url core saas) [
    | none ↦ (
      err (service_unavailable "Tenants proxy is not configured: CORE_API_URL is missing"),
      fresh_reply,
    )
    | some base ↦ relay (fetch (outgoing base sub req))
  ]

  -- `TenantsProxyController`, on the two routes
  unfoldable pub proxy_root : (core saas : Option String) → Incoming A → Result (Sent A) × Reply
  unfolding forward
  proxy_root core saas req = forward core saas req ""

  unfoldable pub proxy_wildcard : (core saas : Option String) → Incoming A → Result (Sent A) × Reply
  unfolding forward sub_path
  proxy_wildcard core saas req = forward core saas req (sub_path req.url)
