-- ===== src/Inventory/Controller.antt =====
-- src/interfaces/inventory/inventory.controller.ts: the routes of the stock, after the guards.
use node_b2b_orders.Base.{ℕ, String, str_eq, bad_request, if◌then◌else◌}
use node_b2b_orders.Base.Int.{ℤ}
use node_b2b_orders.Schema.{AdjustmentType}
use node_b2b_orders.Database.{Database, Response}
use node_b2b_orders.World.{Exec, throw}
use node_b2b_orders.Services.{or_unknown}
use node_b2b_orders.Orders.Controller.{Call}
use node_b2b_orders.Inventory.{create_adjustment}

-- `CreateAdjustmentDto`
pub record AdjustmentBody : Type 0 where
  pub sku : String
  pub type : AdjustmentType
  pub qty : ℕ
  pub reason : String

module _ {db : Database} where
  -- `createAdjustment`; a missing header is an empty key.
  pub post_adjustment : (ℤ → String) → Call → AdjustmentBody → Exec db Response
  post_adjustment qty_text c body =
      if str_eq c.idempotency_key ""
      then throw (bad_request "Idempotency-Key header is required")
      else create_adjustment qty_text c.now (record {
        tenant_id = c.tenant_id;
        correlation_id = c.correlation_id;
        actor_sub = or_unknown c.user_sub;
        idempotency_key = c.idempotency_key;
        sku = body.sku;
        type = body.type;
        qty = body.qty;
        reason = body.reason;
      })
