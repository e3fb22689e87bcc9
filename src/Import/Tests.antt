-- ===== src/Import/Tests.antt =====
-- Imports over the database in memory, with texts that are read by a table of a few values.
use node_b2b_orders.Base.{
  String, ◌≡◌, refl, some, List, [], ◌∷◌, str_eq, Error, arith, if◌then◌else◌,
}
use node_b2b_orders.Base.Int.{ℤ, ◌+ℤ◌, ◌-ℤ◌}
use node_b2b_orders.Schema.{stock_in, key_eq}
use node_b2b_orders.Database.Memory.{memory}
use node_b2b_orders.Maps.{get, or_default}
use node_b2b_orders.Orders.Tests.{world, empty_world}
use node_b2b_orders.Inventory.{adjust_in_transaction}
use node_b2b_orders.Import.{
  Number, nan, hundredths, text, number, Fields, Runtime, Caller, check_rows, for_each, import_rows,
}
use node_b2b_orders.Import.Parse.{json, array, RawData, group_orders, OrderImportRow}
use node_b2b_orders.Import.Stock.{StockImportRow, check_stock, import_stock_row, import_inventory}
use node_b2b_orders.Import.Orders.{import_orders}
use node_b2b_orders.Import.Outcome.{import_rows_lem, IsOutcome}
use node_b2b_orders.Import.Covered.{AllCovered, import_inventory_covered}
use node_b2b_orders.Import.Imported.{import_orders_frame, SameBesideOrders}
use node_b2b_orders.Import.Groups.{group_orders_lem, items_of}
use node_b2b_orders.Import.Agreement.{request_of, SameEffect, import_stock_row-adjust}

abbrev read_number : String → Number
read_number s = if str_eq s "4" then hundredths 400 else nan

abbrev js : Runtime
js = record {
  trim = λ t. "";
  to_lower_case = λ s. s;
  to_upper_case = λ s. if str_eq s "in" then "IN" else s;
  to_number = read_number;
  parse_int = read_number;
  parse_float = read_number;
  index_text = λ n. "0";
}

abbrev caller : Caller
caller = record { tenant_id = "acme"; actor_sub = "ann"; correlation_id = "x" }

abbrev message : Error → String
message e = "refused"

abbrev qty_text : ℤ → String
qty_text n = "n"

abbrev row : (sku qty type : String) → Fields
row sku qty type = ("sku", text sku) ∷ ("qty", text qty) ∷ ("type", text type) ∷ []

-- One row is valid, one has no number, and one takes more out than there is.
abbrev stock_rows : List Fields
stock_rows = row "pen" "4" "in" ∷ row "pen" "many" "in" ∷ row "ink" "4" "OUT" ∷ []

service : Unit {0}
unfolding check_rows check_stock get for_each import_stock_row import_rows import_inventory key_eq
    ◌+ℤ◌ ◌-ℤ◌
service = tt

import_rows_lem_example :
    IsOutcome message caller "import.inventory" "Inventory" 3
      (check_rows (check_stock js) 0 stock_rows)
      world
      (for_each
        (import_stock_row qty_text caller)
        (check_rows (check_stock js) 0 stock_rows).valid
        world)
      (import_rows message caller "import.inventory" "Inventory" "rows"
        (check_stock js)
        (import_stock_row qty_text caller)
        stock_rows
        world)
import_rows_lem_example =
    import_rows_lem message caller "import.inventory" "Inventory" "rows" (check_stock js)
      (import_stock_row qty_text caller) stock_rows world (omega arith)

import_inventory_covered_example :
    AllCovered memory
      (import_inventory js qty_text message caller json (array stock_rows) empty_world).1.inventory
import_inventory_covered_example =
    import_inventory_covered js qty_text message caller json (array stock_rows) empty_world
      (λ k. tt)

abbrev orders : RawData OrderImportRow
orders = array (
    record {
      customer_id = some (text "c1");
      items = some (
          record {
            sku = some (text "pen");
            qty = some (text "4");
            price = some (number (hundredths 250));
          }
          ∷ []);
    }
    ∷ [])

import_orders_frame_example :
    SameBesideOrders world (import_orders js (λ t. "o9") message caller json orders world).1
import_orders_frame_example = import_orders_frame js (λ t. "o9") message caller json orders world

abbrev cells : (customer sku : String) → List (String × String)
cells customer sku = ("customerid", customer) ∷ ("sku", sku) ∷ ("qty", "4") ∷ ("price", "4") ∷ []

abbrev csv_rows : List (List (String × String))
csv_rows = cells "c1" "pen" ∷ cells "" "cap" ∷ cells "c2" "ink" ∷ cells "c1" "ink" ∷ []

group_orders_lem_example :
    or_default [] (get "c1" (group_orders js csv_rows)) ≡ items_of js "c1" csv_rows
group_orders_lem_example = (group_orders_lem js csv_rows "c1" refl).1

abbrev pens_in : StockImportRow
pens_in = record { sku = "pen"; qty = 4; type = stock_in; reason = some (text "count") }

import_stock_row-adjust_example :
    SameEffect
      (adjust_in_transaction qty_text (request_of caller pens_in "count") world)
      (import_stock_row qty_text caller pens_in world)
import_stock_row-adjust_example = import_stock_row-adjust qty_text caller pens_in "count" world refl

-- The first row is imported, the second has an error, and the third undoes the first.
imports_nothing :
    (import_inventory js qty_text message caller json (array stock_rows) world).1.inventory
    ≡ world.inventory
unfolding service
imports_nothing = refl
