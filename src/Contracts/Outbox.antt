-- ===== src/Contracts/Outbox.antt =====
-- Every event that the program writes has a schema.
use node_b2b_orders.Base.{◌≡◌, true, All}
use node_b2b_orders.Schema.{OutboxEvent}
use node_b2b_orders.Database.{Database}
use node_b2b_orders.Worker.Consumer.{Inbox}
use node_b2b_orders.Contracts.{has_schema}

abbrev pub HasSchema : OutboxEvent → Type 0
HasSchema e = has_schema e.event_type ≡ true

module _ {db : Database} where
  -- Every event that waits in the outbox.
  abbrev pub AllKnown : Inbox db → Type 0
  AllKnown s = All HasSchema s.world.outbox
