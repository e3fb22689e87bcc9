-- ===== src/Recommendation/Purchases.antt =====
-- What is never recommended.
use node_b2b_orders.Base.{
  ℕ, String, ◌≡◌, refl, Bool, true, false, not, List, [], ◌∷◌, map, All, str_eq, if◌then◌else◌,
}
use node_b2b_orders.Queries.{find_many, includes, find_many-All}
use node_b2b_orders.Maps.{aggregate}
use node_b2b_orders.Maps.Laws.{aggregate-All}
use node_b2b_orders.Ranking.{top}
use node_b2b_orders.Ranking.Laws.{top-All}
use node_b2b_orders.Sales.{OrderRow, Line}
use node_b2b_orders.Recommendation.{
  is_nil, of_customer, line_sku, add_qty, count_line, bought_together, RecommendedProduct,
  BoughtTogether, purchased_skus, candidates, sku_scores, recommended, recommendations_for_customer,
  frequently_bought_together, co_items, similar_customers,
}

pub map-All {ℓ κ μ} :
    {A : Type ℓ} {B : Type κ} (P : B → Type μ) (f : A → B) (xs : List A)
    → All (λ x. P (f x)) xs
    → All P (map f xs)
map-All P f [] h = tt
map-All P f (x ∷ xs) h = (h.0, map-All P f xs h.1)

All-imp {ℓ κ μ} :
    {A : Type ℓ} (P : A → Type κ) (Q : A → Type μ)
    → ((x : A) → P x → Q x)
    → (xs : List A) → All P xs
    → All Q xs
All-imp P Q f [] h = tt
All-imp P Q f (x ∷ xs) h = (f x h.0, All-imp P Q f xs h.1)

not-true : (b : Bool) → not b ≡ true → b ≡ false
not-true true h = cc
not-true false h = refl

-- The lines that pass a negated test, added up by their SKU.
keys_without {ℓ} :
    {V : Type ℓ} (initial : V) (step : Line → V → V) (test : String → Bool) (ls : List Line)
    → All
        (λ p. test p.0 ≡ false)
        (aggregate initial line_sku step (find_many (λ l. not (test l.item.sku)) ls) [])
keys_without initial step test ls =
    aggregate-All initial line_sku step (λ s. test s ≡ false)
      (find_many (λ l. not (test l.item.sku)) ls) []
      (All-imp (λ l. not (test l.item.sku) ≡ true) (λ l. test l.item.sku ≡ false) (λ l. not-true _)
        (find_many (λ l. not (test l.item.sku)) ls) (find_many-All (λ l. not (test l.item.sku)) ls))
      tt

if_empty-All {ℓ} :
    {A : Type ℓ} (P : A → Type 0) (b : Bool) (xs : List A) → All P xs → All P (if b then [] else xs)
if_empty-All P true xs h = tt
if_empty-All P false xs h = h

-- No product is recommended to a customer who has bought it, in whatever orders there are.
pub recommendations_for_customer-new :
    (tenant customer : String) (limit : ℕ) (rows : List OrderRow)
    → All
        (λ r. includes r.sku (purchased_skus tenant customer rows) ≡ false)
        (recommendations_for_customer tenant customer limit rows)
unfolding recommendations_for_customer candidates sku_scores
recommendations_for_customer-new tenant customer limit rows =
    let skus = purchased_skus tenant customer rows in
    let similar = similar_customers tenant customer skus rows in
    let P : RecommendedProduct → Type 0 = λ r. includes r.sku skus ≡ false in
    let best =
      top (λ (r : RecommendedProduct). r.score) limit
        (map recommended (sku_scores (candidates tenant skus similar rows))) in
    let some_similar = if is_nil similar then [] else best in
    let best =
      top (λ (r : RecommendedProduct). r.score) limit
        (map recommended (sku_scores (candidates tenant skus similar rows))) in
    let some_similar = if is_nil similar then [] else best in
    if_empty-All P (is_nil (find_many (of_customer tenant customer) rows))
      (if is_nil skus then [] else some_similar)
      (if_empty-All P (is_nil skus) some_similar (
        if_empty-All P (is_nil similar) best (
          top-All (λ (r : RecommendedProduct). r.score) P limit
            (map recommended (sku_scores (candidates tenant skus similar rows)))
            (map-All P recommended (sku_scores (candidates tenant skus similar rows))
              (keys_without 0 add_qty (λ s. includes s skus) _)))))

-- A product is not listed as bought together with itself.
pub frequently_bought_together-other :
    (tenant sku : String) (limit : ℕ) (rows : List OrderRow)
    → All (λ b. str_eq b.sku sku ≡ false) (frequently_bought_together tenant sku limit rows)
unfolding frequently_bought_together co_items
frequently_bought_together-other tenant sku limit rows =
    top-All (λ (b : BoughtTogether). b.co_occurrences) (λ b. str_eq b.sku sku ≡ false) limit _
      (map-All (λ b. str_eq b.sku sku ≡ false) bought_together
        (aggregate 0 line_sku count_line (co_items tenant sku rows) [])
        (keys_without 0 count_line (λ s. str_eq s sku) _))
