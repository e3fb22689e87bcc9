-- ===== src/Search.antt =====
-- `NlpSearchService` of src/interfaces/ai/nlp-search.service.ts. A query is given by what the code asks
-- of its normalized text: `has word` is `q.includes(word)`, and the other fields are what the regular
-- expressions capture, parsed; amounts are in cents, instants in milliseconds.
mod Tests
pub mod Stock
pub mod Products
use node_b2b_orders.Base.{
  ℕ, String, Bool, true, false, ◌&&◌, ◌||◌, Option, none, some, List, [], ◌∷◌, take, leb, str_eq,
  if◌then◌else◌,
}
use node_b2b_orders.Schema.{Order, status_text}
use node_b2b_orders.Queries.{at_least, at_most, find_many}
use node_b2b_orders.Maps.{or_default}
use node_b2b_orders.Sales.{OrderRow}
use node_b2b_orders.Sorting.{SortOrder, asc, desc, Sort}
use node_b2b_orders.Products.{ProductRow}

pub record Dates : Type 0 where
  pub from : ℕ
  pub to : ℕ

pub record Query : Type 0 where
  pub has : String → Bool
  pub above : Option ℕ
  pub below : Option ℕ
  pub rs : Option ℕ
  pub reais : Option ℕ
  pub entre : Option (ℕ × ℕ)
  pub month : Option Dates
  pub last_days : Option Dates
  pub ultimos_pedidos : Option ℕ
  pub top : Option ℕ
  pub primeiros : Option ℕ
  pub cliente : Option String

-- The ranges of the calendar that the code computes from the clock.
pub record Calendar : Type 0 where
  pub last_month : Dates
  pub this_week : Dates
  pub today : Dates

pub record ParsedOrderQuery : Type 0 where
  pub status : Option String
  pub customer_id : Option String
  pub dates : Option Dates
  pub min_amount : Option ℕ
  pub max_amount : Option ℕ
  pub limit : Option ℕ
  pub sort_by : Option String
  pub sort_order : Option SortOrder

abbrev status_map : List (String × String)
status_map =
    ("criado", "CREATED")
    ∷ ("criados", "CREATED")
    ∷ ("confirmado", "CONFIRMED")
    ∷ ("confirmados", "CONFIRMED")
    ∷ ("pago", "PAID")
    ∷ ("pagos", "PAID")
    ∷ ("enviado", "SHIPPED")
    ∷ ("enviados", "SHIPPED")
    ∷ ("entregue", "DELIVERED")
    ∷ ("entregues", "DELIVERED")
    ∷ ("cancelado", "CANCELLED")
    ∷ ("cancelados", "CANCELLED")
    ∷ []

-- The status of the first word that the query has.
abbrev first_status : (String → Bool) → List (String × String) → Option String
first_status has [] = none
first_status has ((word, status) ∷ rest) =
    let later = first_status has rest in if has word then some status else later

abbrev first_of {ℓ} : {A : Type ℓ} → Option A → Option A → Option A
first_of none b = b
first_of (some a) b = some a

-- `rsMatch && min === undefined && max === undefined`
abbrev unless_bounded : Query → Option ℕ → Option ℕ
unless_bounded q amount = elim q.above [
  | some _ ↦ none
  | none ↦ elim q.below [ some _ ↦ none | none ↦ amount ]
]

abbrev order_min : Query → Option ℕ
order_min q = first_of q.above (unless_bounded q (first_of q.rs q.reais))

-- Later phrases overwrite earlier ones.
abbrev when {ℓ} : {A : Type ℓ} → Bool → A → Option A
when b a = if b then some a else none

abbrev order_dates : Calendar → Query → Option Dates
order_dates c q = first_of (when (q.has "hoje") c.today) (
    first_of (when (q.has "esta semana" || q.has "essa semana") c.this_week) (
      first_of (when (q.has "ultimo mes" || q.has "mes passado") c.last_month)
        (first_of q.last_days q.month)))

-- The limit, and the order that comes with it.
abbrev order_limit : Query → Option ℕ × Option SortOrder
order_limit q = elim q.ultimos_pedidos [
  | some n ↦ (some n, some desc)
  | none ↦ elim q.top [
    | some n ↦ (some n, none)
    | none ↦ elim q.primeiros [ some n ↦ (some n, some asc) | none ↦ (none, none) ]
  ]
]

abbrev order_sort : Query → Option (String × SortOrder)
order_sort q =
    if q.has "mais recente" || (q.has "mais novos" || q.has "mais novo")
    then some ("createdAt", desc)
    else if q.has "mais antigo" || (q.has "mais velhos" || q.has "mais velho")
    then some ("createdAt", asc)
    else if q.has "mais caro" || q.has "maior valor"
    then some ("totalAmount", desc)
    else if q.has "mais barato" || q.has "menor valor"
    then some ("totalAmount", asc)
    else none

abbrev key_of : Option (String × SortOrder) → Option String
key_of none = none
key_of (some (key, order)) = some key

abbrev order_of : Option (String × SortOrder) → Option SortOrder
order_of none = none
order_of (some (key, order)) = some order

unfoldable pub parse_order_query : Calendar → Query → ParsedOrderQuery
parse_order_query c q = record {
  status = first_status q.has status_map;
  customer_id = q.cliente;
  dates = order_dates c q;
  min_amount = order_min q;
  max_amount = q.below;
  limit = (order_limit q).0;
  sort_by = key_of (order_sort q);
  sort_order = first_of (order_of (order_sort q)) (order_limit q).1;
}

abbrev equals : Option String → String → Bool
equals none s = true
equals (some t) s = str_eq t "" || str_eq s t

abbrev within : Option Dates → ℕ → Bool
within none at = true
within (some d) at = leb d.from at && leb at d.to

unfoldable pub search_orders :
    (order_by : Sort → List OrderRow → List OrderRow)
    → Calendar
    → (tenant : String) → Query
    → List OrderRow
    → List OrderRow
unfolding parse_order_query
search_orders order_by c tenant q rows =
    let f = parse_order_query c q in
    take (or_default 20 f.limit) (
      order_by
        (record { field = or_default "createdAt" f.sort_by; order = or_default desc f.sort_order })
        (find_many
          (λ r.
            str_eq r.order.tenant_id tenant
            && (equals f.status (status_text r.order.status)
                && (equals f.customer_id r.order.customer_id
                    && (within f.dates r.created_at
                        && (at_least f.min_amount r.order.total_amount
                            && at_most f.max_amount r.order.total_amount)))))
          rows))
