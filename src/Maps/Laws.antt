-- ===== src/Maps/Laws.antt =====
-- What the map holds after the loop.
use node_b2b_orders.Base.{
  String, ◌≡◌, ◌≢◌, refl, ap, ◌∙◌, Option, some, List, [], ◌∷◌, All, arith, str_eq, eq_iff,
  Bool-cases, inl, inr, if◌then◌else◌,
}
use node_b2b_orders.Maps.{get, set, or_default, aggregate}

-- The keys differ from one another.
abbrev pub HasDistinctKeys {ℓ} : {V : Type ℓ} → List (String × V) → Type 0
HasDistinctKeys [] = Unit
HasDistinctKeys ((k, v) ∷ rest) = All (λ p. k ≢ p.0) rest × HasDistinctKeys rest

module _ {ℓ} {V : Type ℓ} where
  pub get-set :
      (key j : String) (v : V) (m : List (String × V))
      → get j (set key v m) ≡ (if str_eq key j then some v else get j m)
  unfolding get set
  get-set key j v [] = refl
  get-set key j v ((k, w) ∷ rest) =
      ground (arith, eq_iff key j, eq_iff k key, eq_iff k j, get-set key j v rest)

  set-All :
      (P : String → Type 0) (key : String) (v : V) (m : List (String × V))
      → P key
      → All (λ p. P p.0) m
      → All (λ p. P p.0) (set key v m)
  unfolding set
  set-All P key v [] p h = (p, tt)
  set-All P key v ((k, w) ∷ rest) p h = elim (Bool-cases (str_eq k key)) [
    | inl e ↦ rw e h
    | inr e ↦ rw e (h.0, set-All P key v rest p h.1)
  ]

  set-HasDistinctKeys :
      (key : String) (v : V) (m : List (String × V))
      → HasDistinctKeys m
      → HasDistinctKeys (set key v m)
  unfolding set
  set-HasDistinctKeys key v [] h = (tt, tt)
  set-HasDistinctKeys key v ((k, w) ∷ rest) h = elim (Bool-cases (str_eq k key)) [
    | inl e ↦ rw e h
    | inr e ↦ rw e (
      set-All (λ j. k ≢ j) key v rest (ground (arith, eq_iff k key)) h.0,
      set-HasDistinctKeys key v rest h.1,
    )
  ]

module _ {ℓ κ} {V : Type ℓ} {A : Type κ} (initial : V) (key : A → String) (step : A → V → V) where
  -- The items of one key alone, from what the map held under it.
  abbrev pub accumulated : String → Option V → List A → Option V
  accumulated k o [] = o
  accumulated k o (x ∷ items) =
      accumulated k (if str_eq (key x) k then some (step x (or_default initial o)) else o) items

  get_updated :
      (k : String) (x : A) (m : List (String × V))
      → get k (set (key x) (step x (or_default initial (get (key x) m))) m)
        ≡ (if str_eq (key x) k then some (step x (or_default initial (get k m))) else get k m)
  get_updated k x m =
      ground
        (arith, eq_iff (key x) k, get-set (key x) k (step x (or_default initial (get (key x) m))) m)

  pub get-aggregate :
      (k : String) (items : List A) (m : List (String × V))
      → get k (aggregate initial key step items m) ≡ accumulated k (get k m) items
  unfolding aggregate
  get-aggregate k [] m = refl
  get-aggregate k (x ∷ items) m =
      get-aggregate k items _ ∙ ap (λ o. accumulated k o items) (get_updated k x m)

  pub aggregate-HasDistinctKeys :
      (items : List A) (m : List (String × V))
      → HasDistinctKeys m
      → HasDistinctKeys (aggregate initial key step items m)
  unfolding aggregate
  aggregate-HasDistinctKeys [] m h = h
  aggregate-HasDistinctKeys (x ∷ items) m h =
      aggregate-HasDistinctKeys items _ (set-HasDistinctKeys (key x) _ m h)

  -- A property of the keys of all items is one of the keys of the map.
  pub aggregate-All :
      (P : String → Type 0) (items : List A) (m : List (String × V))
      → All (λ x. P (key x)) items
      → All (λ p. P p.0) m
      → All (λ p. P p.0) (aggregate initial key step items m)
  unfolding aggregate
  aggregate-All P [] m h k = k
  aggregate-All P (x ∷ items) m h k = aggregate-All P items _ h.1 (set-All P (key x) _ m h.0 k)
