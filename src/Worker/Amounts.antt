-- ===== src/Worker/Amounts.antt =====
-- The rows of the inventory after the loops of the worker, in units.
use node_b2b_orders.Base.{ℕ, String, ◌≡◌, ◌∙◌, List, [], ◌∷◌, inl, inr, Bool-cases}
use node_b2b_orders.Base.Int.{ℤ, pos, ◌+ℤ◌, ◌-ℤ◌, int_laws}
use node_b2b_orders.Schema.{OrderItem, ItemKey, key_eq, InventoryItem}
use node_b2b_orders.Stock.Loop.{key_of}
use node_b2b_orders.Stock.{apply_all, ordered}
use node_b2b_orders.Worker.{reserve, release}

-- A row with `n` units moved from available to reserved, and back.
abbrev pub taken : ℕ → InventoryItem → InventoryItem
taken n i = record {
  available_qty = i.available_qty -ℤ pos n;
  reserved_qty = i.reserved_qty +ℤ pos n;
}

abbrev pub given_back : ℕ → InventoryItem → InventoryItem
given_back n i = record {
  available_qty = i.available_qty +ℤ pos n;
  reserved_qty = i.reserved_qty -ℤ pos n;
}

item_eq :
    (a a' r r' : ℤ)
    → a ≡ a'
    → r ≡ r'
    → ◌≡◌ {A = InventoryItem}
        (record { available_qty = a; reserved_qty = r })
        (record { available_qty = a'; reserved_qty = r' })
item_eq a a' r r' p q = λ i. record { available_qty = p i; reserved_qty = q i }

pub apply_all-reserve :
    (tenant : String) (k : ItemKey) (items : List OrderItem) (i : InventoryItem)
    → apply_all reserve tenant k items i ≡ taken (ordered tenant k items) i
apply_all-reserve tenant k [] i = item_eq _ _ _ _ (omega int_laws) (omega int_laws)
apply_all-reserve tenant k (item ∷ rest) i = elim (Bool-cases (key_eq (key_of tenant item) k)) [
  | inl here ↦ rw here (
      apply_all-reserve tenant k rest (reserve item i)
      ∙ item_eq _ _ _ _ (omega int_laws) (omega int_laws))
  | inr other ↦
      rw other
        (apply_all-reserve tenant k rest i ∙ item_eq _ _ _ _ (omega int_laws) (omega int_laws))
]

pub apply_all-release :
    (tenant : String) (k : ItemKey) (items : List OrderItem) (i : InventoryItem)
    → apply_all release tenant k items i ≡ given_back (ordered tenant k items) i
apply_all-release tenant k [] i = item_eq _ _ _ _ (omega int_laws) (omega int_laws)
apply_all-release tenant k (item ∷ rest) i = elim (Bool-cases (key_eq (key_of tenant item) k)) [
  | inl here ↦ rw here (
      apply_all-release tenant k rest (release item i)
      ∙ item_eq _ _ _ _ (omega int_laws) (omega int_laws))
  | inr other ↦
      rw other
        (apply_all-release tenant k rest i ∙ item_eq _ _ _ _ (omega int_laws) (omega int_laws))
]
