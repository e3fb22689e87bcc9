-- ===== src/Import/Products.antt =====
-- `importProducts` of src/interfaces/import/import.service.ts.
use node_b2b_orders.Base.{
  ℕ, String, Bool, true, Option, none, some, List, [], ◌∷◌, ◌++◌, Error, ok, err, invalid_value,
}
use node_b2b_orders.Schema.{ItemKey, Product}
use node_b2b_orders.Maps.{get, or_default}
use node_b2b_orders.Database.{Database}
use node_b2b_orders.World.{Exec, ◌>>=◌, pure, throw, gets, modify}
use node_b2b_orders.Import.{
  Value, text, flag, Fields, Runtime, ImportResult, number_of, non_empty_text, non_negative,
  error_unless, Check, refused, accepted, Caller, import_rows,
}
use node_b2b_orders.Import.Parse.{ImportFormat, RawData, parse_rows}

-- A row that passed the checks.
pub record ProductRow : Type 0 where
  pub sku : String
  pub name : String
  pub price : ℕ
  pub fields : Fields

abbrev product_row :
    Fields → Option String → Option String → Option ℕ → List String → Check ProductRow
product_row fields (some sku) (some name) (some price) errors =
    accepted (record { sku = sku; name = name; price = price; fields = fields })
product_row fields _ _ _ errors = refused errors

unfoldable pub check_product : Runtime → Fields → Check ProductRow
unfolding get
check_product js row =
    let sku = non_empty_text (get "sku" row) in
    let name = non_empty_text (get "name" row) in
    let price = non_negative (number_of js (get "price" row)) in
    product_row row sku name price (
      error_unless sku "sku is required"
      ++ error_unless name "name is required"
      ++ error_unless price "price must be a non-negative number")

-- The row that the upsert leaves; the columns that it does not set have their defaults.
abbrev pub upserted :
    ProductRow
    → (description currency category : Option String) (in_stock : Option Bool) → Option Product
    → Product
upserted p description currency category in_stock none = record {
  name = p.name;
  description = or_default "" description;
  price = p.price;
  currency = or_default "BRL" currency;
  category = or_default "" category;
  image_url = "";
  in_stock = or_default true in_stock;
  active = true;
}
upserted p description currency category in_stock (some old) = record old {
  name = p.name;
  description = or_default old.description description;
  price = p.price;
  currency = or_default old.currency currency;
  category = or_default old.category category;
  in_stock = or_default old.in_stock in_stock;
}

module _ {db : Database} where
  -- An optional value of a row in a text column, and in a Boolean one.
  abbrev pub text_column : Option Value → Exec db (Option String)
  text_column none = pure none
  text_column (some (text s)) = pure (some s)
  text_column (some _) = throw invalid_value

  abbrev pub flag_column : Option Value → Exec db (Option Bool)
  flag_column none = pure none
  flag_column (some (flag b)) = pure (some b)
  flag_column (some _) = throw invalid_value

  unfoldable pub upsert_product : (tenant : String) → ProductRow → Exec db (Unit {0})
  unfolding get
  upsert_product tenant p = do
    description ← text_column (get "description" p.fields)
    currency ← text_column (get "currency" p.fields)
    category ← text_column (get "category" p.fields)
    in_stock ← flag_column (get "inStock" p.fields)
    let key : ItemKey = record { tenant_id = tenant; sku = p.sku }
    found ← gets (λ w. db.products.find key w.products)
    modify (λ w. record w {
      products =
          db.products.put key (upserted p description currency category in_stock found) w.products;
    })

  unfoldable pub import_products :
      Runtime
      → (message : Error → String) → Caller
      → ImportFormat
      → RawData Fields
      → Exec db ImportResult
  unfolding parse_rows check_product upsert_product import_rows
  import_products js message caller format raw =
      elim (parse_rows js format raw ("sku" ∷ "name" ∷ "price" ∷ [])) [
        | err e ↦ throw e
        | ok rows ↦
            import_rows message caller "import.products" "Products" "rows" (check_product js)
              (upsert_product caller.tenant_id) rows
      ]
