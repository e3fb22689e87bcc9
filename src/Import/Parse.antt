-- ===== src/Import/Parse.antt =====
-- `parseRows` and `parseOrdersCsv` of src/interfaces/import/import.service.ts.
use node_b2b_orders.Base.{
  String, Bool, not, Option, none, some, List, [], ◌∷◌, ◌++◌, map, any, str_eq, Error, Result, ok,
  err, bad_request, if◌then◌else◌,
}
use node_b2b_orders.Queries.{find_many, includes}
use node_b2b_orders.Maps.{get, set, or_default, aggregate}
use node_b2b_orders.Csv.{Text, parse_csv}
use node_b2b_orders.Services.{template}
use node_b2b_orders.Import.{Value, text, number, flag, Fields, Runtime}

pub data ImportFormat : Type 0 where
  csv json : ImportFormat

-- The `data` of a request: a text, an array of rows, or something else.
pub data RawData (R : Type 0) : Type 0 where
  raw_text : Text → RawData R
  array : List R → RawData R
  other : RawData R

pub record ItemRow : Type 0 where
  pub sku : Option Value
  pub qty : Option Value
  pub price : Option Value

-- `items` is `none` where it is not an array.
pub record OrderImportRow : Type 0 where
  pub customer_id : Option Value
  pub items : Option (List ItemRow)

abbrev pub not_array : Error
not_array = bad_request "data must be an array for JSON format"

abbrev pub not_text : Error
not_text = bad_request "data must be a string for CSV format"

abbrev pub too_short : Error
too_short = bad_request "CSV must have a header row and at least one data row"

abbrev pub missing_header : String → Error
missing_header h = bad_request (template ("CSV missing required header: " ∷ h ∷ []))

-- `csvRows[0].map((h) => h.trim().toLowerCase())`
abbrev pub header_names : Runtime → List Text → List String
header_names js cells = map (λ c. js.to_lower_case (js.trim c)) cells

-- The first required header that is not there.
unfoldable pub first_missing : Runtime → (required headers : List String) → Option String
first_missing js [] headers = none
first_missing js (h ∷ required) headers =
    let rest = first_missing js required headers in
    if includes (js.to_lower_case h) headers then rest else some h

-- `row[idx]?.trim() ?? ''`, and the cells from the next index on.
abbrev pub cell : Runtime → List Text → String
cell js [] = ""
cell js (c ∷ cells) = js.trim c

abbrev pub next_cells : List Text → List Text
next_cells [] = []
next_cells (c ∷ cells) = cells

abbrev pub set_field : Runtime → (header val : String) → Fields → Fields
set_field js header val obj =
    if str_eq header "instock"
    then set "inStock" (flag (str_eq (js.to_lower_case val) "true")) obj
    else set header (text val) obj

-- The loop on the headers of `parseRows`: empty cells set nothing.
unfoldable pub row_fields : Runtime → List String → List Text → Fields → Fields
unfolding set
row_fields js [] cells obj = obj
row_fields js (h ∷ headers) cells obj =
    let val = cell js cells in
    row_fields js headers (next_cells cells) (if str_eq val "" then obj else set_field js h val obj)

abbrev pub is_blank : Runtime → List Text → Bool
is_blank js row = not (any (λ c. not (str_eq (js.trim c) "")) row)

-- The rows of a CSV text under its headers, or what is thrown.
unfoldable pub csv_table :
    Runtime → (required : List String) → List (List Text) → Result (List String × List (List Text))
unfolding first_missing
csv_table js required [] = err too_short
csv_table js required (h ∷ []) = err too_short
csv_table js required (h ∷ r ∷ rows) = elim (first_missing js required (header_names js h)) [
  | some missing ↦ err (missing_header missing)
  | none ↦ ok (header_names js h, r ∷ rows)
]

unfoldable pub parse_rows :
    Runtime → ImportFormat → RawData Fields → (required : List String) → Result (List Fields)
unfolding csv_table row_fields parse_csv
parse_rows js json (array rows) required = ok rows
parse_rows js json _ required = err not_array
parse_rows js csv (raw_text t) required = elim (csv_table js required (parse_csv t)) [
  | err e ↦ err e
  | ok (headers, rows) ↦
      ok (map (λ row. row_fields js headers row []) (find_many (λ row. not (is_blank js row)) rows))
]
parse_rows js csv _ required = err not_text

-- The loop on the headers of `parseOrdersCsv`.
unfoldable pub order_fields :
    Runtime → List String → List Text → List (String × String) → List (String × String)
unfolding set
order_fields js [] cells obj = obj
order_fields js (h ∷ headers) cells obj =
    order_fields js headers (next_cells cells) (set h (cell js cells) obj)

abbrev pub order_field : String → List (String × String) → String
order_field name obj = or_default "" (get name obj)

abbrev pub row_customer : List (String × String) → String
row_customer obj = order_field "customerid" obj

abbrev pub row_item : Runtime → List (String × String) → ItemRow
row_item js obj = record {
  sku = some (text (order_field "sku" obj));
  qty = some (number (js.parse_int (order_field "qty" obj)));
  price = some (number (js.parse_float (order_field "price" obj)));
}

abbrev pub push_item : Runtime → List (String × String) → List ItemRow → List ItemRow
push_item js obj items = items ++ row_item js obj ∷ []

abbrev pub order_of : String × List ItemRow → OrderImportRow
order_of (customer, items) = record { customer_id = some (text customer); items = some items }

-- `if (!obj.customerid) continue`
abbrev pub has_customer : List (String × String) → Bool
has_customer obj = not (str_eq (row_customer obj) "")

unfoldable pub group_orders : Runtime → List (List (String × String)) → List (String × List ItemRow)
unfolding aggregate
group_orders js rows = aggregate [] row_customer (push_item js) (find_many has_customer rows) []

unfoldable pub parse_orders_csv : Runtime → RawData OrderImportRow → Result (List OrderImportRow)
unfolding csv_table order_fields group_orders parse_csv
parse_orders_csv js (raw_text t) =
    elim (csv_table js ("customerid" ∷ "sku" ∷ "qty" ∷ "price" ∷ []) (parse_csv t)) [
      | err e ↦ err e
      | ok (headers, rows) ↦
          ok (map order_of (group_orders js (map (λ row. order_fields js headers row []) rows)))
    ]
parse_orders_csv js _ = err not_text
