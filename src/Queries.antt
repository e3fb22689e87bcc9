-- ===== src/Queries.antt =====
-- The queries that several services make, on a table as the list of its rows in the order of
-- creation, and what `Array.includes`, `Set` and `flatMap` do to lists.
use node_b2b_orders.Base.{
  ℕ, zero, suc, String, ◌≡◌, Bool, leb, true, false, Option, none, some, List, [], ◌∷◌, ◌++◌, any,
  take, All, str_eq, Bool-cases, inl, inr, if◌then◌else◌,
}

module _ {ℓ} {A : Type ℓ} where
  -- `findMany({ where })`
  abbrev pub find_many : (A → Bool) → List A → List A
  find_many test [] = []
  find_many test (x ∷ xs) = let rest = find_many test xs in if test x then x ∷ rest else rest

  -- `findFirst({ where })`
  abbrev pub find_first : (A → Bool) → List A → Option A
  find_first test [] = none
  find_first test (x ∷ xs) = let rest = find_first test xs in if test x then some x else rest

  -- `orderBy: { createdAt: 'desc' }`
  abbrev pub newest_first : List A → List A
  newest_first [] = []
  newest_first (x ∷ xs) = newest_first xs ++ x ∷ []

  abbrev pub flat_map {κ} : {B : Type κ} → (A → List B) → List A → List B
  flat_map f [] = []
  flat_map f (x ∷ xs) = f x ++ flat_map f xs

-- `list.includes(s)`, and `set.has(s)`
abbrev pub includes : String → List String → Bool
includes s l = any (λ t. str_eq t s) l

-- `new Set(list)`: each text at its first place; the texts before are in `seen`.
unfoldable pub distinct_from : (seen list : List String) → List String
distinct_from seen [] = []
distinct_from seen (s ∷ rest) =
    let new = distinct_from (s ∷ seen) rest in
    let old = distinct_from seen rest in if includes s seen then old else s ∷ new

unfoldable pub distinct : List String → List String
unfolding distinct_from
distinct list = distinct_from [] list

-- A comparison with a column that is null is false.
abbrev pub at_least : Option ℕ → Option ℕ → Bool
at_least none amount = true
at_least (some n) none = false
at_least (some n) (some amount) = leb n amount

abbrev pub at_most : Option ℕ → Option ℕ → Bool
at_most none amount = true
at_most (some n) none = false
at_most (some n) (some amount) = leb amount n

pub take-All {ℓ κ} :
    {A : Type ℓ} (P : A → Type κ) (n : ℕ) (xs : List A) → All P xs → All P (take n xs)
take-All P zero xs h = tt
take-All P (suc n) [] h = tt
take-All P (suc n) (x ∷ xs) h = (h.0, take-All P n xs h.1)

pub find_many-All {ℓ} :
    {A : Type ℓ} (test : A → Bool) (xs : List A) → All (λ x. test x ≡ true) (find_many test xs)
find_many-All test [] = tt
find_many-All test (x ∷ xs) = elim (Bool-cases (test x)) [
  | inl e ↦ rw e (e, find_many-All test xs)
  | inr e ↦ rw e (find_many-All test xs)
]

pub All-append {ℓ κ} :
    {A : Type ℓ} (P : A → Type κ) (xs ys : List A) → All P xs → All P ys → All P (xs ++ ys)
All-append P [] ys hx hy = hy
All-append P (x ∷ xs) ys hx hy = (hx.0, All-append P xs ys hx.1 hy)
