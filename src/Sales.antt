-- ===== src/Sales.antt =====
-- The rows that the reports read: orders with the two instants of their row, in milliseconds, and the
-- items of orders with the order of each (`orderItem` with its relation `order`).
use node_b2b_orders.Base.{ℕ, ◌-◌, ◌*◌, Bool, List, map, leb}
use node_b2b_orders.Schema.{OrderItem, Order}
use node_b2b_orders.Queries.{flat_map}

pub record OrderRow : Type 0 where
  pub order : Order
  pub created_at : ℕ
  pub updated_at : ℕ

pub record Line : Type 0 where
  pub row : OrderRow
  pub item : OrderItem

abbrev pub lines_of_row : OrderRow → List Line
lines_of_row r = map (λ i. record { row = r; item = i }) r.order.items

-- The table of the items.
abbrev pub lines : List OrderRow → List Line
lines rows = flat_map lines_of_row rows

-- `date.setDate(date.getDate() - n)`, with days of 24 hours.
abbrev pub days_before : ℕ → ℕ → ℕ
days_before n now = now - n * 86400000

-- `createdAt: { gte: since }`
abbrev pub since : ℕ → OrderRow → Bool
since at r = leb at r.created_at
