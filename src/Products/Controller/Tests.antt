-- ===== src/Products/Controller/Tests.antt =====
-- A deletion that asks for a product of another tenant.
use node_b2b_orders.Base.{String, ◌≡◌, refl, Bool, true, List, [], ◌∷◌}
use node_b2b_orders.Schema.{Product}
use node_b2b_orders.Sorting.{Sort}
use node_b2b_orders.Pagination.Tests.{pairs}
use node_b2b_orders.Guards.Tests.{request, user, policy, same, none_parsed}
use node_b2b_orders.Products.{ProductRow}
use node_b2b_orders.Products.Controller.{remove, serve}
use node_b2b_orders.Products.Controller.Isolation.{others, serve-others}

abbrev pen : Product
pen = record {
  name = "Pen";
  description = "";
  price = 250;
  currency = "BRL";
  category = "office";
  image_url = "";
  in_stock = true;
  active = true;
}

abbrev catalogue : List ProductRow
catalogue =
    record { id = "p1"; tenant_id = "acme"; sku = "pen"; created_at = "t0"; product = pen }
    ∷ record { id = "p2"; tenant_id = "globex"; sku = "pen"; created_at = "t1"; product = pen }
    ∷ []

abbrev as_given : Sort → List ProductRow → List ProductRow
as_given sort rows = rows

abbrev never : String → String → Bool
never s part = Bool.false

abbrev any_id : String → Bool
any_id s = true

serve-others_example :
    others "acme"
      (serve as_given never pairs any_id "p3" "t2" same same none_parsed policy request
        (remove "p2")
        catalogue).1
    ≡ others "acme" catalogue
serve-others_example =
    serve-others as_given never pairs any_id "p3" "t2" same same none_parsed policy request user
      (remove "p2") catalogue refl refl ((refl, tt), (tt, tt))
