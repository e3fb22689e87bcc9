-- ===== src/Stock/Effect.antt =====
-- What the loop over the items of an order does to the inventory.
use mathlib.Core.Option
use node_b2b_orders.Base.{
  ℕ, ◌+◌, ◌≡◌, ◌≢◌, ◌⊎◌, ap, refl, ◌∙◌, err, record_missing, String, true, false, none, some, List,
  [], ◌∷◌, arith, eq_iff, eq_refl, ok, All, Bool-cases, Option-cases, inl, inr, if◌then◌else◌,
}
use node_b2b_orders.Schema.{OrderItem, ItemKey, key_eq, InventoryItem}
use node_b2b_orders.Database.{Database}
use node_b2b_orders.World.{World}
use node_b2b_orders.Stock.Loop.{key_of, After, for_each_item}

pub eq-of_key_eq : (k j : ItemKey) → key_eq k j ≡ true → k ≡ j
unfolding key_eq
eq-of_key_eq k j h = ground (arith, eq_iff k.tenant_id j.tenant_id, eq_iff k.sku j.sku)

pub key_eq_refl : (k : ItemKey) → key_eq k k ≡ true
unfolding key_eq
key_eq_refl k = ground (arith, eq_refl k.tenant_id, eq_refl k.sku)

-- The changes of the items with a given key, in order, on one row.
abbrev pub apply_all :
    (OrderItem → InventoryItem → InventoryItem)
    → String
    → ItemKey
    → List OrderItem
    → InventoryItem
    → InventoryItem
apply_all change tenant k [] i = i
apply_all change tenant k (item ∷ rest) i =
    apply_all change tenant k rest (if key_eq (key_of tenant item) k then change item i else i)

-- How many units of a key the items order.
abbrev pub ordered : String → ItemKey → List OrderItem → ℕ
ordered tenant k [] = 0
ordered tenant k (item ∷ rest) =
    (if key_eq (key_of tenant item) k then item.qty else 0) + ordered tenant k rest

module _ (db : Database) (tenant : String) where
  -- There is a row for every item.
  abbrev pub IsStocked : List OrderItem → db.inventory.Rep → Type 0
  IsStocked items inv = All (λ item. db.inventory.find (key_of tenant item) inv ≢ none) items

  IsStocked-put :
      (k : ItemKey) (i : InventoryItem) (items : List OrderItem) (inv : db.inventory.Rep)
      → IsStocked items inv
      → IsStocked items (db.inventory.put k i inv)
  IsStocked-put k i [] inv h = tt
  IsStocked-put k i (item ∷ rest) inv (here, later) =
      (rw db.inventory.find-put (ground (arith, here)), IsStocked-put k i rest inv later)

-- The state after one round.
abbrev round :
    {db : Database}
    → (OrderItem → InventoryItem → InventoryItem)
    → After db
    → String
    → OrderItem
    → InventoryItem
    → World db
    → World db
round {db} change after tenant item i w = record w {
  inventory = db.inventory.put (key_of tenant item) (change item i) w.inventory;
  products = after (key_of tenant item) (change item i) w.products;
}

module _ {db : Database} (change : OrderItem → InventoryItem → InventoryItem) (after : After db)
    (tenant : String) where
  -- Only the inventory and the products change, also where the loop throws.
  pub for_each_item_frame :
      (items : List OrderItem) (w : World db)
      → let w' = (for_each_item change after tenant items w).1 in
        w' ≡ record w { inventory = w'.inventory; products = w'.products }
  unfolding for_each_item
  for_each_item_frame [] w = refl
  for_each_item_frame (item ∷ rest) w =
      elim (Option-cases (db.inventory.find (key_of tenant item) w.inventory)) [
        | inl e ↦ ground arith
        | inr (i, e) ↦ ground (arith, for_each_item_frame rest (round change after tenant item i w))
      ]

  for_each_item_step :
      (item : OrderItem) (rest : List OrderItem) (i : InventoryItem) (w : World db)
      → db.inventory.find (key_of tenant item) w.inventory ≡ some i
      → for_each_item change after tenant (item ∷ rest) w
        ≡ for_each_item change after tenant rest (round change after tenant item i w)
  unfolding for_each_item
  for_each_item_step item rest i w e = ground arith

  for_each_item_missing :
      (item : OrderItem) (rest : List OrderItem) (w : World db)
      → db.inventory.find (key_of tenant item) w.inventory ≡ none
      → for_each_item change after tenant (item ∷ rest) w ≡ (err record_missing, w)
  unfolding for_each_item
  for_each_item_missing item rest w e = ground arith

  -- One write, as the reads of a key and the later changes see it.
  find-round :
      (item : OrderItem) (rest : List OrderItem) (i : InventoryItem) (w : World db) (k : ItemKey)
      → db.inventory.find (key_of tenant item) w.inventory ≡ some i
      → Option.map
          (apply_all change tenant k rest)
          (db.inventory.find k (round change after tenant item i w).inventory)
        ≡ Option.map (apply_all change tenant k (item ∷ rest)) (db.inventory.find k w.inventory)
  find-round item rest i w k e = elim (Bool-cases (key_eq (key_of tenant item) k)) [
    | inl same ↦
        let row : db.inventory.find k w.inventory ≡ some i =
          rw (← eq-of_key_eq (key_of tenant item) k same) e in
        rw (db.inventory.find-put, same, row) (rw same)
    | inr other ↦
        rw (db.inventory.find-put, other)
          (unchanged other (Option-cases (db.inventory.find k w.inventory)))
  ]
    where
      unchanged :
          key_eq (key_of tenant item) k ≡ false
          → (db.inventory.find k w.inventory ≡ none)
            ⊎ ((j : InventoryItem) × (db.inventory.find k w.inventory ≡ some j))
          → Option.map (apply_all change tenant k rest) (db.inventory.find k w.inventory)
            ≡ Option.map (apply_all change tenant k (item ∷ rest)) (db.inventory.find k w.inventory)
      unchanged other (inl absent) = rw absent
      unchanged other (inr (j, found)) = rw found (rw other)

  pub for_each_item_find :
      (items : List OrderItem) (w : World db)
      → (for_each_item change after tenant items w).0 ≡ ok tt
      → (k : ItemKey)
      → db.inventory.find k (for_each_item change after tenant items w).1.inventory
        ≡ Option.map (apply_all change tenant k items) (db.inventory.find k w.inventory)
  for_each_item_find [] w h k = elim (Option-cases (db.inventory.find k w.inventory)) [
    | inl e ↦ unfold for_each_item in rw e refl
    | inr (i, e) ↦ unfold for_each_item in rw e refl
  ]
  for_each_item_find (item ∷ rest) w h k =
      elim (Option-cases (db.inventory.find (key_of tenant item) w.inventory)) [
        | inl e ↦ cc (for_each_item_missing item rest w e)
        | inr (i, e) ↦
            let step = for_each_item_step item rest i w e in
            rw step (
              for_each_item_find rest (round change after tenant item i w) (rw step at h) k
              ∙ find-round item rest i w k e)
      ]

  pub for_each_item_ok :
      (items : List OrderItem) (w : World db)
      → IsStocked db tenant items w.inventory
      → (for_each_item change after tenant items w).0 ≡ ok tt
  for_each_item_ok [] w h = unfold for_each_item in refl
  for_each_item_ok (item ∷ rest) w (here, later) =
      elim (Option-cases (db.inventory.find (key_of tenant item) w.inventory)) [
        | inl e ↦ absurd (here e)
        | inr (i, e) ↦ rw (for_each_item_step item rest i w e) (
            for_each_item_ok rest (round change after tenant item i w)
              (IsStocked-put db tenant (key_of tenant item) (change item i) rest w.inventory later))
      ]

  pub for_each_item_orders :
      (items : List OrderItem) (w : World db)
      → (for_each_item change after tenant items w).1.orders ≡ w.orders
  for_each_item_orders items w = ap (λ (v : World db). v.orders) (for_each_item_frame items w)

  pub for_each_item_outbox :
      (items : List OrderItem) (w : World db)
      → (for_each_item change after tenant items w).1.outbox ≡ w.outbox
  for_each_item_outbox items w = ap (λ (v : World db). v.outbox) (for_each_item_frame items w)

  pub for_each_item_redis :
      (items : List OrderItem) (w : World db)
      → (for_each_item change after tenant items w).1.redis ≡ w.redis
  for_each_item_redis items w = ap (λ (v : World db). v.redis) (for_each_item_frame items w)
