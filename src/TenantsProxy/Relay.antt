-- ===== src/TenantsProxy/Relay.antt =====
-- What goes on to the Core service, and what comes back.
use node_b2b_orders.Base.{
  String, ◌≡◌, inl, inr, refl, ◌∙◌, Bool, true, false, ◌||◌, Option, none, some, List, [], ◌∷◌,
  str_eq, eq_iff, Bool-cases, if◌then◌else◌,
}
use node_b2b_orders.Queries.{includes}
use node_b2b_orders.Maps.{get}
use node_b2b_orders.Maps.Laws
use mathlib.Core.Path.{ap}
use node_b2b_orders.Guards.{non_empty}
use node_b2b_orders.TenantsProxy.{
  Incoming, HeaderValue, single, set_some, copy_headers, outgoing_headers, forward_headers,
}

-- The first text, or the second where there is none.
abbrev first_of : Option String → Option String → Option String
first_of none g = g
first_of (some value) g = some value

-- The header after `if (v) headers[name] = v`.
get-set_some :
    (n name : String) (v : Option String) (headers : List (String × String))
    → get name (set_some n v headers)
      ≡ (if str_eq n name then first_of v (get name headers) else get name headers)
get-set_some n name none headers = elim (Bool-cases (str_eq n name)) [
  | inl e ↦ rw e refl
  | inr e ↦ rw e refl
]
get-set_some n name (some value) headers = Laws.get-set n name value headers

merged :
    (same listed : Bool) (mine other g : Option String)
    → (same ≡ true → other ≡ mine)
    → (if listed
        then first_of mine (if same then first_of other g else g)
        else if same
        then first_of other g
        else g)
      ≡ (if same || listed then first_of mine g else g)
merged false listed mine other g h = refl
merged true true none other g h = rw (h refl) refl
merged true true (some v) other g h = refl
merged true false mine other g h = rw (h refl) refl

get-copy_headers :
    (name : String) (names : List String) (given : String → Option HeaderValue)
    (headers : List (String × String))
    → get name (copy_headers names given headers) ≡ (
        if includes name names
        then first_of (single (given name)) (get name headers)
        else get name headers)
unfolding copy_headers
get-copy_headers name [] given headers = refl
get-copy_headers name (n ∷ names) given headers =
    get-copy_headers name names given (set_some n (single (given n)) headers)
    ∙ ap (λ g. if includes name names then first_of (single (given name)) g else g)
        (get-set_some n name (single (given n)) headers)
    ∙ merged (str_eq n name) (includes name names) (single (given name)) (single (given n))
        (get name headers) (λ e. ap (λ x. single (given x)) ((eq_iff n name).0 e))

-- The value of a header that goes on.
abbrev pub forwarded : {A : Type 0} → Incoming A → String → Option String
forwarded req name =
    let own = if includes name forward_headers then single (req.headers name) else none in
    if str_eq "x-correlation-id" name then first_of (non_empty req.correlation_id) own else own

none_default : (v : Option String) → first_of v none ≡ v
none_default none = refl
none_default (some s) = refl

copied :
    (name : String) (given : String → Option HeaderValue)
    → get name (copy_headers forward_headers given [])
      ≡ (if includes name forward_headers then single (given name) else none)
unfolding get
copied name given =
    get-copy_headers name forward_headers given []
    ∙ ap (λ v. if includes name forward_headers then v else none)
        (none_default (single (given name)))

-- Of the headers of a request, the Core receives those on the list that hold one text that is not
-- empty, unchanged, and no other; the correlation id of the request, where it has one, takes the place
-- of its header.
pub get-outgoing_headers :
    {A : Type 0} (req : Incoming A) (name : String)
    → get name (outgoing_headers req) ≡ forwarded req name
unfolding outgoing_headers
get-outgoing_headers req name =
    get-set_some "x-correlation-id" name (non_empty req.correlation_id)
      (copy_headers forward_headers req.headers [])
    ∙ ap
        (λ g.
          if str_eq "x-correlation-id" name then first_of (non_empty req.correlation_id) g else g)
        (copied name req.headers)
