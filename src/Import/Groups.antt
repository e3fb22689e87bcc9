-- ===== src/Import/Groups.antt =====
-- The orders that a CSV text is grouped into.
use node_b2b_orders.Base.{
  append_assoc, String, ◌≡◌, refl, ap, ◌∙◌, false, Option, none, some, List, [], ◌∷◌, ◌++◌, arith,
  str_eq, eq_iff, Bool-cases, inl, inr, if◌then◌else◌,
}
use node_b2b_orders.Queries.{find_many}
use node_b2b_orders.Maps.{get, or_default}
use node_b2b_orders.Maps.Laws.{
  HasDistinctKeys, accumulated, get-aggregate, aggregate-HasDistinctKeys,
}
use node_b2b_orders.Import.{Runtime}
use node_b2b_orders.Import.Parse.{
  ItemRow, row_customer, row_item, push_item, has_customer, group_orders,
}

-- The items of the rows of one customer, in their order.
abbrev pub items_of : Runtime → (customer : String) → List (List (String × String)) → List ItemRow
items_of js customer [] = []
items_of js customer (r ∷ rows) =
    let rest = items_of js customer rows in
    if str_eq (row_customer r) customer then row_item js r ∷ rest else rest

append_nil {ℓ} : {A : Type ℓ} (xs : List A) → xs ++ [] ≡ xs
append_nil [] = refl
append_nil (x ∷ xs) = ap (λ l. x ∷ l) (append_nil xs)

accumulated-items_of :
    (js : Runtime) (customer : String) (rows : List (List (String × String)))
    (o : Option (List ItemRow))
    → or_default [] (accumulated [] row_customer (push_item js) customer o rows)
      ≡ or_default [] o ++ items_of js customer rows
accumulated-items_of js customer [] o = rw (append_nil (or_default [] o)) refl
accumulated-items_of js customer (r ∷ rows) o =
    elim (Bool-cases (str_eq (row_customer r) customer)) [
      | inl e ↦ rw e (
          accumulated-items_of js customer rows (some (push_item js r (or_default [] o)))
          ∙ append_assoc (or_default [] o) (row_item js r ∷ []) (items_of js customer rows))
      | inr e ↦ rw e (accumulated-items_of js customer rows o)
    ]

-- The rows without a customer are no rows of a customer.
items_of-has_customer :
    (js : Runtime) (customer : String) (rows : List (List (String × String)))
    → str_eq customer "" ≡ false
    → items_of js customer (find_many has_customer rows) ≡ items_of js customer rows
items_of-has_customer js customer [] h = refl
items_of-has_customer js customer (r ∷ rows) h =
    let rest = items_of-has_customer js customer rows h in
    elim (Bool-cases (str_eq (row_customer r) "")) [
      | inl e ↦
          let other : str_eq (row_customer r) customer ≡ false = ground (
            arith,
            eq_iff (row_customer r) "",
            eq_iff (row_customer r) customer,
            eq_iff customer "",
          ) in
          rw (e, other) rest
      | inr e ↦ rw (e, rest) refl
    ]

-- The orders that the rows of a CSV text are grouped into have different customers, and the order of
-- a customer has the items of the rows of that customer, in their order.
pub group_orders_lem :
    (js : Runtime) (rows : List (List (String × String))) (customer : String)
    → str_eq customer "" ≡ false
    → HasDistinctKeys (group_orders js rows)
      × (or_default [] (get customer (group_orders js rows)) ≡ items_of js customer rows)
unfolding group_orders get
group_orders_lem js rows customer h = (
  aggregate-HasDistinctKeys [] row_customer (push_item js) (find_many has_customer rows) [] tt,
  ap (λ o. or_default [] o)
        (get-aggregate [] row_customer (push_item js) customer (find_many has_customer rows) [])
      ∙ accumulated-items_of js customer (find_many has_customer rows) none
      ∙ items_of-has_customer js customer rows h,
)
