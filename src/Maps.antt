-- ===== src/Maps.antt =====
-- The `Map` of the runtime, by text: an association list in the order of insertion, and the loop
-- that adds the items of a list up by a key.
pub mod Laws
use node_b2b_orders.Base.{ℕ, String, Option, none, some, List, [], ◌∷◌, str_eq, if◌then◌else◌}

abbrev pub or_default {ℓ} : {V : Type ℓ} → V → Option V → V
or_default v none = v
or_default v (some w) = w

module _ {ℓ} {V : Type ℓ} where
  -- `map.get(key)` and `map.set(key, value)`
  unfoldable pub get : String → List (String × V) → Option V
  get key [] = none
  get key ((k, v) ∷ rest) = let found = get key rest in if str_eq k key then some v else found

  unfoldable pub set : String → V → List (String × V) → List (String × V)
  set key w [] = (key, w) ∷ []
  set key w ((k, v) ∷ rest) =
      let rest' = set key w rest in if str_eq k key then (k, w) ∷ rest else (k, v) ∷ rest'

  -- `map.delete(key)`
  unfoldable pub delete : String → List (String × V) → List (String × V)
  delete key [] = []
  delete key ((k, v) ∷ rest) =
      let rest' = delete key rest in if str_eq k key then rest else (k, v) ∷ rest'

  -- `for (const x of items) map.set(key(x), step(x, map.get(key(x)) ?? zero))`
  module _ {κ} {A : Type κ} (initial : V) (key : A → String) (step : A → V → V) where
    unfoldable pub aggregate : List A → List (String × V) → List (String × V)
    unfolding get set
    aggregate [] m = m
    aggregate (x ∷ items) m =
        aggregate items (set (key x) (step x (or_default initial (get (key x) m))) m)
