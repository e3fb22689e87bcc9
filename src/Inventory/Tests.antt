-- ===== src/Inventory/Tests.antt =====
-- The theorems on adjustments at concrete requests, over the database in memory.
use node_b2b_orders.Base.{String, ◌≡◌, refl, ok}
use node_b2b_orders.Base.Int.{ℤ, ◌+ℤ◌}
use node_b2b_orders.Schema.{stock_in, key_eq}
use node_b2b_orders.Database.{adjusted}
use node_b2b_orders.Services.{cached}
use node_b2b_orders.Orders.Tests.{world}
use node_b2b_orders.Inventory.{Adjustment, adjustment_row, create_adjustment}
use node_b2b_orders.Inventory.Adjust.{create_adjustment_applies}

abbrev qty_text : ℤ → String
qty_text n = "n"

abbrev more_pens : Adjustment
more_pens = record {
  tenant_id = "acme";
  correlation_id = "x";
  actor_sub = "ann";
  idempotency_key = "k";
  sku = "pen";
  type = stock_in;
  qty = 4;
  reason = "count";
}

create_adjustment_applies_example :
    (create_adjustment qty_text 100 more_pens world).0 ≡ ok (adjusted (adjustment_row more_pens))
unfolding cached ◌+ℤ◌ key_eq
create_adjustment_applies_example =
    (create_adjustment_applies qty_text 100 more_pens world
      (record { tenant_id = "acme"; sku = "pen" }) refl tt refl).0
