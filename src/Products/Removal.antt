-- ===== src/Products/Removal.antt =====
-- What is left of a product that was deleted.
use node_b2b_orders.Base.{
  String, ◌≡◌, refl, none, List, [], ◌∷◌, arith, str_eq, Bool-cases, inl, inr, ok, err, not_found,
}
use node_b2b_orders.Queries.{find_first}
use node_b2b_orders.Products.{ProductRow, has_id, find_one, update_row, deactivated, soft_delete}

none_active :
    (viewer id : String) (rows : List ProductRow)
    → find_first (has_id viewer id) (update_row id deactivated rows) ≡ none
unfolding update_row
none_active viewer id [] = refl
none_active viewer id (p ∷ rows) = elim (Bool-cases (str_eq p.id id)) [
  | inl e ↦ rw e (ground (arith, e, none_active viewer id rows))
  | inr e ↦ rw e (ground (arith, e, none_active viewer id rows))
]

gone :
    (viewer id : String) (rows : List ProductRow)
    → find_one viewer id (update_row id deactivated rows) ≡ err (not_found "product not found")
unfolding find_one
gone viewer id rows = rw (find_one, none_active viewer id rows) refl

-- A deletion that finds its product gives it back inactive, and after it no tenant finds the product,
-- nor changes or deletes it again.
pub soft_delete_lem :
    (tenant viewer id : String) (rows : List ProductRow) (p : ProductRow)
    → find_one tenant id rows ≡ ok p
    → let (r, rows') = soft_delete tenant id rows in
      (r ≡ ok (deactivated p))
      × (find_one viewer id rows' ≡ err (not_found "product not found"))
      × (soft_delete viewer id rows' ≡ (err (not_found "product not found"), rows'))
unfolding soft_delete
soft_delete_lem tenant viewer id rows p h = rw (h, gone viewer id rows) (refl, refl, refl)
