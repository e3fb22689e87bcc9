-- ===== src/Ranking.antt =====
-- `list.sort((a, b) => b.score - a.score).slice(0, limit)`: the sort of the runtime is stable.
pub mod Laws
use node_b2b_orders.Base.{
  ℕ, zero, suc, ◌≤◌, String, ◌≡◌, ◌≢◌, sym, Bool, true, false, List, [], ◌∷◌, length, take, drop,
  All, arith, ltb, min, length-take, Bool-cases, inl, inr, if◌then◌else◌,
}
use node_b2b_orders.Queries.{take-All}

module _ {ℓ} {A : Type ℓ} (score : A → ℕ) where
  -- Before the first item of a lower score: ties keep their order, when the items come last to first.
  unfoldable pub insert_desc : A → List A → List A
  insert_desc x [] = x ∷ []
  insert_desc x (y ∷ ys) =
      let rest = insert_desc x ys in if ltb (score x) (score y) then y ∷ rest else x ∷ y ∷ ys

  unfoldable pub sort_desc : List A → List A
  unfolding insert_desc
  sort_desc [] = []
  sort_desc (x ∷ xs) = insert_desc x (sort_desc xs)

  unfoldable pub top : (limit : ℕ) → List A → List A
  unfolding sort_desc
  top limit xs = take limit (sort_desc xs)

  abbrev pub IsDescending : List A → Type 0
  IsDescending [] = Unit
  IsDescending (x ∷ xs) = All (λ y. score y ≤ score x) xs × IsDescending xs
