-- ===== src/Recommendation/Tests.antt =====
-- The recommendations over three orders of two customers.
use node_b2b_orders.Base.{ℕ, String, ◌≤◌, List, [], ◌∷◌, length}
use node_b2b_orders.Schema.{OrderItem}
use node_b2b_orders.Orders.{new_order}
use node_b2b_orders.Sales.{OrderRow}
use node_b2b_orders.Recommendation.{personalized_feed}
use node_b2b_orders.Recommendation.Feed.{personalized_feed_lem}

abbrev item : String → ℕ → OrderItem
item sku qty = record { sku = sku; qty = qty; price = 100 }

abbrev sold : (id customer : String) → List OrderItem → OrderRow
sold id customer items = record {
  order = new_order id "acme" customer items;
  created_at = 1000;
  updated_at = 1000;
}

abbrev pub sales : List OrderRow
sales =
    sold "o1" "ann" (item "pen" 2 ∷ [])
    ∷ sold "o2" "bob" (item "pen" 1 ∷ item "ink" 5 ∷ [])
    ∷ sold "o3" "bob" (item "cap" 1 ∷ item "ink" 1 ∷ [])
    ∷ []

personalized_feed_lem_example : length (personalized_feed 2000 "acme" "ann" 2 sales) ≤ 2
personalized_feed_lem_example = (personalized_feed_lem 2000 "acme" "ann" 2 sales).1
