-- ===== src/Database.antt =====
-- What the program takes from PostgreSQL (through Prisma), from Redis and from JSON, as parameters:
-- a table is a store by unique key whose law is that a read returns the last write under the key,
-- the cache keeps a text until its time to live is over, and a printed response parses back.
pub mod Memory
use node_b2b_orders.Base.{
  ℕ, ◌+◌, ◌≤◌, String, ◌≡◌, Bool, false, Option, none, some, List, ltb, str_eq, if◌then◌else◌,
}
use node_b2b_orders.Base.Int.{ℤ}
use node_b2b_orders.Schema.{
  Status, OrderItem, Order, ItemKey, key_eq, InventoryItem, InventoryAdjustment, Product,
}

pub record Table (K R : Type 0) (same : K → K → Bool) : Type 1 where
  pub Rep : Type 0
  pub find : K → Rep → Option R
  pub put : K → R → Rep → Rep
  pub find-put :
      (k j : K) (r : R) (t : Rep) → find j (put k r t) ≡ (if same k j then some r else find j t)

-- `GET`, `SET key value EX ttl` and `SET key value EX ttl NX`, at an instant in seconds.
pub record Cache (V : Type 0) : Type 1 where
  pub Rep : Type 0
  pub get : ℕ → String → Rep → Option V
  pub set : ℕ → String → V → ℕ → Rep → Rep
  pub set_nx : ℕ → String → V → ℕ → Rep → Option Rep
  pub get-set :
      (now later : ℕ) (k j : String) (v : V) (ttl : ℕ) (c : Rep)
      → now ≤ later
      → get later j (set now k v ttl c)
        ≡ (if str_eq k j then (if ltb later (now + ttl) then some v else none) else get later j c)
  pub set_nx_lem :
      (now : ℕ) (k : String) (v : V) (ttl : ℕ) (c : Rep)
      → set_nx now k v ttl c
        ≡ elim (get now k c) [ none ↦ some (set now k v ttl c) | some _ ↦ none ]

-- What the services return, and what they keep under an idempotency key.
pub data Response : Type 0 where
  created_order : String → Status → String → List OrderItem → Response
  order_status : String → Status → Response
  adjusted : InventoryAdjustment → Response

-- A printed response; `is_empty` is the test `!raw` on it.
pub record Json : Type 1 where
  pub Text : Type 0
  pub stringify : Response → Text
  pub parse : Text → Option Response
  pub is_empty : Text → Bool
  pub parse-stringify : (r : Response) → parse (stringify r) ≡ some r
  pub is_empty-stringify : (r : Response) → is_empty (stringify r) ≡ false

pub record Database : Type 1 where
  pub orders : Table String Order str_eq
  pub inventory : Table ItemKey InventoryItem key_eq
  pub products : Table ItemKey Product key_eq
  pub json : Json
  pub redis : Cache json.Text
  pub dedup : Cache String
  -- The constraints that the tables of the stock put on an adjustment, given the tenant, the quantity
  -- of the adjustment and the available quantity that it leaves: 32-bit columns, and a tenant that
  -- exists. A write against them throws.
  pub accepts_stock : (tenant : String) (qty : ℕ) (available : ℤ) → Bool
