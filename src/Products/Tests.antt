-- ===== src/Products/Tests.antt =====
-- A deletion among two products.
use node_b2b_orders.Base.{◌≡◌, refl, none, some, List, [], err, not_found}
use node_b2b_orders.Products.{ProductRow, find_one, soft_delete, ProductData, create, update_row}

abbrev pen : ProductData
pen = record {
  name = "Pen";
  sku = "pen";
  price = 250;
  description = none;
  category = some "office";
  image_url = none;
  currency = none;
}

service : Unit {0}
unfolding create find_one soft_delete
service = tt

abbrev shop : List ProductRow
unfolding create
shop = (create "p1" "t1" "acme" pen (create "p2" "t0" "acme" (record pen { sku = "ink" }) []).1).1

gone : find_one "acme" "p1" (soft_delete "acme" "p1" shop).1 ≡ err (not_found "product not found")
unfolding service update_row
gone = refl
