-- ===== src/Database/Memory.antt =====
-- A database in memory: tables are functions from keys to rows, and a cache entry is kept with the
-- instant at which it ends. It shows that the laws of the parameters can hold, and runs the tests.
use node_b2b_orders.Base.{
  ℕ, ◌+◌, String, ◌≡◌, refl, Bool, false, ◌&&◌, Option, none, some, ltb, str_eq, arith,
  if◌then◌else◌,
}
use node_b2b_orders.Base.Int.{pos, negsuc, leb_ℤ}
use node_b2b_orders.Schema.{Order, ItemKey, key_eq, InventoryItem, Product}
use node_b2b_orders.Database.{Table, Cache, Response, Database}

abbrev memory_table : (K R : Type 0) (same : K → K → Bool) → Table K R same
memory_table K R same = record {
  Rep = K → Option R;
  find = λ k t. t k;
  put = λ k r t j. if same k j then some r else t j;
  find-put = λ k j r t. refl;
}

abbrev pub live : {V : Type 0} → ℕ → Option (ℕ × V) → Option V
live now none = none
live now (some (end, v)) = if ltb now end then some v else none

abbrev pub memory_set :
    {V : Type 0} → ℕ → String → V → ℕ → (String → Option (ℕ × V)) → String → Option (ℕ × V)
memory_set now k v ttl c j = if str_eq k j then some (now + ttl, v) else c j

pub memory_get-set :
    {V : Type 0} (now later : ℕ) (k j : String) (v : V) (ttl : ℕ) (c : String → Option (ℕ × V))
    → live later (memory_set now k v ttl c j)
      ≡ (if str_eq k j then (if ltb later (now + ttl) then some v else none) else live later (c j))
memory_get-set now later k j v ttl c = ground arith

abbrev memory_cache : (V : Type 0) → Cache V
memory_cache V = record {
  Rep = String → Option (ℕ × V);
  get = λ now k c. live now (c k);
  set = memory_set;
  set_nx = λ now k v ttl c. elim (live now (c k)) [
    | none ↦ some (memory_set now k v ttl c)
    | some _ ↦ none
  ];
  get-set = λ now later k j v ttl c h. memory_get-set now later k j v ttl c;
  set_nx_lem = λ now k v ttl c. refl;
}

abbrev pub memory : Database
memory = record {
  orders = memory_table String Order str_eq;
  inventory = memory_table ItemKey InventoryItem key_eq;
  products = memory_table ItemKey Product key_eq;
  json = record {
    Text = Response;
    stringify = λ r. r;
    parse = some;
    is_empty = λ r. false;
    parse-stringify = λ r. refl;
    is_empty-stringify = λ r. refl;
  };
  redis = memory_cache Response;
  dedup = memory_cache String;
  accepts_stock = λ tenant qty available.
      ltb qty 2147483648
      && (leb_ℤ (negsuc 2147483647) available && leb_ℤ available (pos 2147483647));
}
