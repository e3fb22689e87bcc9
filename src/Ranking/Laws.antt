-- ===== src/Ranking/Laws.antt =====
-- What a ranking returns.
use mathlib.Core.List.{Perm}
use mathlib.Core.List.Perm
use node_b2b_orders.Base.{
  refl, ap, ◌++◌, ℕ, zero, suc, ◌≤◌, String, ◌≡◌, ◌≢◌, sym, List, [], ◌∷◌, length, take, drop, All,
  arith, ltb, length-take, Bool-cases, inl, inr,
}
use node_b2b_orders.Queries.{take-All}
use node_b2b_orders.Ranking.{insert_desc, sort_desc, top, IsDescending}

-- The texts of the items differ from one another.
abbrev pub HasDistinct {ℓ} : {A : Type ℓ} → (A → String) → List A → Type 0
HasDistinct key [] = Unit
HasDistinct key (x ∷ xs) = All (λ y. key x ≢ key y) xs × HasDistinct key xs

module _ {ℓ} {A : Type ℓ} (score : A → ℕ) where
  insert_desc-All {κ} :
      (P : A → Type κ) (x : A) (xs : List A) → P x → All P xs → All P (insert_desc score x xs)
  unfolding insert_desc
  insert_desc-All P x [] p h = (p, tt)
  insert_desc-All P x (y ∷ ys) p h = elim (Bool-cases (ltb (score x) (score y))) [
    | inl e ↦ rw e (h.0, insert_desc-All P x ys p h.1)
    | inr e ↦ rw e (p, h)
  ]

  pub sort_desc-All {κ} : (P : A → Type κ) (xs : List A) → All P xs → All P (sort_desc score xs)
  unfolding sort_desc
  sort_desc-All P [] h = tt
  sort_desc-All P (x ∷ xs) h = insert_desc-All P x _ h.0 (sort_desc-All P xs h.1)

  pub top-All {κ} :
      (P : A → Type κ) (limit : ℕ) (xs : List A) → All P xs → All P (top score limit xs)
  unfolding top
  top-All P limit xs h = take-All P limit _ (sort_desc-All P xs h)

  All-le : (a b : ℕ) (xs : List A) → a ≤ b → All (λ y. score y ≤ a) xs → All (λ y. score y ≤ b) xs
  All-le a b [] h k = tt
  All-le a b (x ∷ xs) h k = (omega (arith, k.0), All-le a b xs h k.1)

  insert_desc-IsDescending :
      (x : A) (xs : List A) → IsDescending score xs → IsDescending score (insert_desc score x xs)
  unfolding insert_desc
  insert_desc-IsDescending x [] h = (tt, tt)
  insert_desc-IsDescending x (y ∷ ys) h = elim (Bool-cases (ltb (score x) (score y))) [
    | inl e ↦ rw e (
      insert_desc-All (λ z. score z ≤ score y) x ys (ground arith) h.0,
      insert_desc-IsDescending x ys h.1,
    )
    | inr e ↦
        let below : score y ≤ score x = ground arith in
        rw e ((below, All-le (score y) (score x) ys below h.0), h)
  ]

  pub sort_desc-IsDescending : (xs : List A) → IsDescending score (sort_desc score xs)
  unfolding sort_desc
  sort_desc-IsDescending [] = tt
  sort_desc-IsDescending (x ∷ xs) = insert_desc-IsDescending x _ (sort_desc-IsDescending xs)

  insert_desc-perm : (x : A) (xs : List A) → Perm (insert_desc score x xs) (x ∷ xs)
  unfolding insert_desc
  insert_desc-perm x [] = Perm.refl (x ∷ [])
  insert_desc-perm x (y ∷ ys) = elim (Bool-cases (ltb (score x) (score y))) [
    | inl e ↦ rw e (Perm.trans (Perm.cons y (insert_desc-perm x ys)) (Perm.swap x y ys))
    | inr e ↦ rw e (Perm.refl (x ∷ y ∷ ys))
  ]

  pub sort_desc-perm : (xs : List A) → Perm (sort_desc score xs) xs
  unfolding sort_desc
  sort_desc-perm [] = Perm.refl []
  sort_desc-perm (x ∷ xs) =
      Perm.trans (insert_desc-perm x (sort_desc score xs)) (Perm.cons x (sort_desc-perm xs))

  take-IsDescending :
      (n : ℕ) (xs : List A)
      → IsDescending score xs
      → IsDescending score (take n xs)
        × All (λ x. All (λ y. score y ≤ score x) (drop n xs)) (take n xs)
  take-IsDescending zero xs h = (tt, tt)
  take-IsDescending (suc n) [] h = (tt, tt)
  take-IsDescending (suc n) (x ∷ xs) h =
      let (ih, over) = take-IsDescending n xs h.1 in
      ((take-All _ n xs h.0, ih), (drop-All (λ y. score y ≤ score x) n xs h.0, over))
    where
      drop-All : (P : A → Type 0) (n : ℕ) (ys : List A) → All P ys → All P (drop n ys)
      drop-All P zero ys k = k
      drop-All P (suc n) [] k = tt
      drop-All P (suc n) (y ∷ ys) k = drop-All P n ys k.1

  take-append-drop : (n : ℕ) (xs : List A) → take n xs ++ drop n xs ≡ xs
  take-append-drop zero xs = refl
  take-append-drop (suc n) [] = refl
  take-append-drop (suc n) (x ∷ xs) = ap (λ l. x ∷ l) (take-append-drop n xs)

  -- The ranking is a part of the list: the list is, in another order, the ranking and the rest, none
  -- of whose items has a higher score than one of the ranking, which is in descending order and no
  -- longer than the limit.
  pub top_lem :
      (limit : ℕ) (xs : List A)
      → (rest : List A) × Perm (top score limit xs ++ rest) xs
        × (length (top score limit xs) ≤ limit)
        × IsDescending score (top score limit xs)
        × All (λ x. All (λ y. score y ≤ score x) rest) (top score limit xs)
  unfolding top
  top_lem limit xs =
      let sorted = sort_desc score xs in
      let (down, over) = take-IsDescending limit sorted (sort_desc-IsDescending xs) in
      (
        drop limit sorted,
        rw take-append-drop (sort_desc-perm xs),
        omega (arith, length-take limit sorted),
        down,
        over,
      )

  module _ (key : A → String) where
    insert_desc-HasDistinct :
        (x : A) (xs : List A)
        → All (λ y. key x ≢ key y) xs
        → HasDistinct key xs
        → HasDistinct key (insert_desc score x xs)
    unfolding insert_desc
    insert_desc-HasDistinct x [] h d = (tt, tt)
    insert_desc-HasDistinct x (y ∷ ys) h d = elim (Bool-cases (ltb (score x) (score y))) [
      | inl e ↦ rw e (
        insert_desc-All (λ z. key y ≢ key z) x ys (λ p. h.0 (sym p)) d.0,
        insert_desc-HasDistinct x ys h.1 d.1,
      )
      | inr e ↦ rw e (h, d)
    ]

    sort_desc-HasDistinct :
        (xs : List A) → HasDistinct key xs → HasDistinct key (sort_desc score xs)
    unfolding sort_desc
    sort_desc-HasDistinct [] d = tt
    sort_desc-HasDistinct (x ∷ xs) d =
        insert_desc-HasDistinct x _ (sort_desc-All (λ y. key x ≢ key y) xs d.0)
          (sort_desc-HasDistinct xs d.1)

    take-HasDistinct : (n : ℕ) (xs : List A) → HasDistinct key xs → HasDistinct key (take n xs)
    take-HasDistinct zero xs d = tt
    take-HasDistinct (suc n) [] d = tt
    take-HasDistinct (suc n) (x ∷ xs) d = (take-All _ n xs d.0, take-HasDistinct n xs d.1)

    pub top-HasDistinct :
        (limit : ℕ) (xs : List A) → HasDistinct key xs → HasDistinct key (top score limit xs)
    unfolding top
    top-HasDistinct limit xs d = take-HasDistinct limit _ (sort_desc-HasDistinct xs d)
