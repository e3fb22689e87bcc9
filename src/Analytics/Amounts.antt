-- ===== src/Analytics/Amounts.antt =====
-- Orders of a high amount.
use node_b2b_orders.Base.{
  ℕ, ◌+◌, ◌-◌, ◌*◌, ◌≤◌, ◌<◌, String, ◌≡◌, refl, ap, ◌∙◌, suc, Bool, true, false, ◌&&◌, some, List,
  [], ◌∷◌, map, length, All, arith, leb, ltb,
}
use node_b2b_orders.Queries.{find_many}
use node_b2b_orders.Sales.{OrderRow}
use node_b2b_orders.Analytics.{
  sum_amounts, sum_squares, amount_of, has_amount, is_known, exceeds, of_tenant, high_amount_orders,
}

abbrev HaveAmount : ℕ → List OrderRow → Type 0
HaveAmount a rows = All (λ r. r.order.total_amount ≡ some a) rows

sum_amounts_const :
    (a : ℕ) (rows : List OrderRow) → HaveAmount a rows → sum_amounts rows ≡ length rows * a
unfolding sum_amounts
sum_amounts_const a [] h = omega arith
sum_amounts_const a (r ∷ rows) h = let ih = sum_amounts_const a rows h.1 in rw (h.0) (grind arith)

sum_squares_const :
    (a : ℕ) (rows : List OrderRow) → HaveAmount a rows → sum_squares rows ≡ length rows * (a * a)
unfolding sum_squares
sum_squares_const a [] h = omega arith
sum_squares_const a (r ∷ rows) h = let ih = sum_squares_const a rows h.1 in rw (h.0) (grind arith)

mul_self : (n a : ℕ) → n * (n * (a * a)) ≡ (n * a) * (n * a)
mul_self n a = grind arith

leb_refl : (n : ℕ) → leb n n ≡ true
leb_refl n = ground arith

leb_add : (n k : ℕ) → leb n (k + n) ≡ true
leb_add n k = ground arith

exceeds_const : (n a : ℕ) → exceeds n (n * a) (n * (a * a)) a ≡ true
unfolding exceeds
exceeds_const n a =
    let e = mul_self n a in
    rw (e, leb_refl (n * a), leb_add (9 * ((n * a) * (n * a))) ((n * a - n * a) * (n * a - n * a)))
      refl

find_many_every {ℓ} :
    {A : Type ℓ} (test : A → Bool) (xs : List A)
    → All (λ x. test x ≡ true) xs
    → find_many test xs ≡ xs
find_many_every test [] h = refl
find_many_every test (x ∷ xs) h = rw (h.0, find_many_every test xs h.1) refl

length-map {ℓ κ} :
    {A : Type ℓ} {B : Type κ} (f : A → B) (xs : List A) → length (map f xs) ≡ length xs
length-map f [] = refl
length-map f (x ∷ xs) = ap (λ n. suc n) (length-map f xs)

All-map {ℓ} :
    {A : Type ℓ} (P R : A → Type 0) (xs : List A) → ((x : A) → P x → R x) → All P xs → All R xs
All-map P R [] f p = tt
All-map P R (x ∷ xs) f p = (f x p.0, All-map P R xs f p.1)

All-and {ℓ} :
    {A : Type ℓ} (p q : A → Bool) (xs : List A)
    → All (λ x. p x ≡ true) xs
    → All (λ x. q x ≡ true) xs
    → All (λ x. (p x && q x) ≡ true) xs
All-and p q [] hp hq = tt
All-and p q (x ∷ xs) hp hq = (rw (hp.0, hq.0) refl, All-and p q xs hp.1 hq.1)

-- Where all orders of a tenant, two at least, have the same positive amount, every one of them is
-- reported as an order of a high amount: the deviation is zero, and the amount is at least the mean.
pub high_amount_orders_const :
    (tenant : String) (a : ℕ) (rows : List OrderRow)
    → 0 < a
    → 2 ≤ length rows
    → All (λ r. of_tenant tenant r ≡ true) rows
    → HaveAmount a rows
    → length (high_amount_orders tenant rows) ≡ length rows
unfolding high_amount_orders
high_amount_orders_const tenant a rows pos two ht ha =
    let of_amount =
      λ (R : OrderRow → Type 0) (f : (r : OrderRow) → r.order.total_amount ≡ some a → R r).
        All-map (λ r. r.order.total_amount ≡ some a) R rows f ha in
    let known =
      All-and (of_tenant tenant) (λ r. is_known r.order.total_amount) rows ht
        (of_amount (λ r. is_known r.order.total_amount ≡ true) (λ r h. rw h refl)) in
    let positive = of_amount (λ r. has_amount r ≡ true) (λ r h. rw h (ground arith)) in
    let many : ltb (length rows) 2 ≡ false = ground arith in
    let n = length rows in
    let above =
      of_amount (λ r. exceeds n (n * a) (n * (a * a)) (amount_of r) ≡ true)
        (λ r h. rw h (exceeds_const n a)) in
    rw
      (
        find_many_every (λ r. of_tenant tenant r && is_known r.order.total_amount) rows known,
        find_many_every has_amount rows positive,
        sum_amounts_const a rows ha,
        sum_squares_const a rows ha,
        many,
      )
      (length-map _ _ ∙ ap (λ l. length l) (find_many_every _ rows above))
