-- ===== src/Recommendation.antt =====
-- `RecommendationService` of src/interfaces/ai/recommendation.service.ts.
pub mod Controller
mod Tests
pub mod Purchases
pub mod Feed
use node_b2b_orders.Base.{
  ℕ, ◌+◌, ◌*◌, String, Bool, true, false, not, ◌&&◌, Option, none, some, List, [], ◌∷◌, ◌++◌, map,
  str_eq, if◌then◌else◌,
}
use node_b2b_orders.Queries.{find_many, flat_map, includes, distinct}
use node_b2b_orders.Maps.{aggregate}
use node_b2b_orders.Ranking.{top}
use node_b2b_orders.Sales.{OrderRow, Line, lines, days_before, since}

pub record RecommendedProduct : Type 0 where
  pub sku : String
  pub score : ℕ
  pub reason : String

pub record TrendingProduct : Type 0 where
  pub sku : String
  pub order_count : ℕ
  pub total_qty : ℕ

pub record BoughtTogether : Type 0 where
  pub sku : String
  pub co_occurrences : ℕ

pub data Source : Type 0 where
  trending history collaborative : Source

pub record FeedItem : Type 0 where
  pub sku : String
  pub score : ℕ
  pub source : Source

abbrev pub of_tenant : String → OrderRow → Bool
of_tenant tenant r = str_eq r.order.tenant_id tenant

abbrev pub of_customer : (tenant customer : String) → OrderRow → Bool
of_customer tenant customer r = of_tenant tenant r && str_eq r.order.customer_id customer

-- `where: { orderId: { in: orderIds } }`
abbrev pub lines_in : List String → List OrderRow → List Line
lines_in ids rows = find_many (λ l. includes l.row.order.id ids) (lines rows)

abbrev pub line_sku : Line → String
line_sku l = l.item.sku

abbrev pub add_qty : Line → ℕ → ℕ
add_qty l n = n + l.item.qty

abbrev pub count_line : Line → ℕ → ℕ
count_line l n = n + 1

abbrev pub bought_together : String × ℕ → BoughtTogether
bought_together p = record { sku = p.0; co_occurrences = p.1 }

abbrev pub skus_of : List Line → List String
skus_of ls = map (λ (l : Line). l.item.sku) ls

abbrev pub ids_of : List OrderRow → List String
ids_of rows = map (λ (r : OrderRow). r.order.id) rows

-- `purchasedSkus`
unfoldable pub purchased_skus : (tenant customer : String) → List OrderRow → List String
unfolding distinct
purchased_skus tenant customer rows =
    distinct (skus_of (lines_in (ids_of (find_many (of_customer tenant customer) rows)) rows))

-- `similarCustomerIds`
unfoldable pub similar_customers :
    (tenant customer : String) (skus : List String) → List OrderRow → List String
unfolding distinct
similar_customers tenant customer skus rows = distinct (
    map (λ (l : Line). l.row.order.customer_id)
      (find_many
        (λ l.
          includes l.item.sku skus
          && (of_tenant tenant l.row && not (str_eq l.row.order.customer_id customer)))
        (lines rows)))

-- `candidateItems`
unfoldable pub candidates :
    (tenant : String) (skus customers : List String) → List OrderRow → List Line
candidates tenant skus customers rows =
    find_many (λ l. not (includes l.item.sku skus))
      (lines_in
        (ids_of
          (find_many (λ r. of_tenant tenant r && includes r.order.customer_id customers) rows))
        rows)

-- `map.set(sku, (map.get(sku) ?? 0) + qty)`
unfoldable pub sku_scores : List Line → List (String × ℕ)
unfolding aggregate
sku_scores ls = aggregate 0 line_sku add_qty ls []

abbrev pub recommended : String × ℕ → RecommendedProduct
recommended p = record { sku = p.0; score = p.1; reason = "collaborative_filtering" }

abbrev pub is_nil {ℓ} : {A : Type ℓ} → List A → Bool
is_nil [] = true
is_nil (x ∷ xs) = false

unfoldable pub recommendations_for_customer :
    (tenant customer : String) (limit : ℕ) → List OrderRow → List RecommendedProduct
unfolding purchased_skus similar_customers candidates sku_scores top
recommendations_for_customer tenant customer limit rows =
    let skus = purchased_skus tenant customer rows in
    let similar = similar_customers tenant customer skus rows in
    if is_nil (find_many (of_customer tenant customer) rows)
    then []
    else if is_nil skus
    then []
    else if is_nil similar
    then []
    else top (λ (r : RecommendedProduct). r.score) limit
        (map recommended (sku_scores (candidates tenant skus similar rows)))

-- `{ orderCount, totalQty }`
pub record Sold : Type 0 where
  pub order_count : ℕ
  pub total_qty : ℕ

abbrev pub add_line : Line → Sold → Sold
add_line l v = record { order_count = v.order_count + 1; total_qty = v.total_qty + l.item.qty }

abbrev pub nothing_sold : Sold
nothing_sold = record { order_count = 0; total_qty = 0 }

abbrev pub trending_product : String × Sold → TrendingProduct
trending_product (sku, v) = record {
  sku = sku;
  order_count = v.order_count;
  total_qty = v.total_qty;
}

unfoldable pub trending_products :
    (now : ℕ) (tenant : String) (days limit : ℕ) → List OrderRow → List TrendingProduct
unfolding aggregate top
trending_products now tenant days limit rows =
    top (λ (p : TrendingProduct). p.order_count) limit
      (map trending_product (
        aggregate nothing_sold line_sku add_line
          (find_many (λ l. of_tenant tenant l.row && since (days_before days now) l.row)
            (lines rows))
          []))

-- `coItems`
unfoldable pub co_items : (tenant sku : String) → List OrderRow → List Line
co_items tenant sku rows =
    let with_sku = find_many (λ l. str_eq l.item.sku sku && of_tenant tenant l.row) (lines rows) in
    find_many (λ l. not (str_eq l.item.sku sku))
      (lines_in (map (λ (l : Line). l.row.order.id) with_sku) rows)

unfoldable pub frequently_bought_together :
    (tenant sku : String) (limit : ℕ) → List OrderRow → List BoughtTogether
unfolding aggregate co_items top
frequently_bought_together tenant sku limit rows =
    top (λ (b : BoughtTogether). b.co_occurrences) limit
      (map bought_together (aggregate 0 line_sku count_line (co_items tenant sku rows) []))

-- `seen` and `feed`.
pub record FeedState : Type 0 where
  pub seen : List String
  pub feed : List FeedItem

-- `if (!seen.has(item.sku)) { seen.add(item.sku); feed.push(item) }`
unfoldable pub see : FeedItem → FeedState → FeedState
see item s =
    if includes item.sku s.seen
    then s
    else record { seen = item.sku ∷ s.seen; feed = s.feed ++ item ∷ [] }

-- The loop over one of the two lists.
unfoldable pub add_unseen : List FeedItem → FeedState → FeedState
unfolding see
add_unseen [] s = s
add_unseen (item ∷ items) s = add_unseen items (see item s)

abbrev pub empty_feed : FeedState
empty_feed = record { seen = []; feed = [] }

abbrev pub from_collaborative : RecommendedProduct → FeedItem
from_collaborative r = record { sku = r.sku; score = r.score * 2; source = collaborative }

abbrev pub from_trending : TrendingProduct → FeedItem
from_trending p = record { sku = p.sku; score = p.order_count; source = trending }

unfoldable pub personalized_feed :
    (now : ℕ) (tenant customer : String) (limit : ℕ) → List OrderRow → List FeedItem
unfolding recommendations_for_customer trending_products add_unseen top
personalized_feed now tenant customer limit rows =
    let first = map from_collaborative (recommendations_for_customer tenant customer limit rows) in
    let second = map from_trending (trending_products now tenant 30 limit rows) in
    top (λ (f : FeedItem). f.score) limit (add_unseen second (add_unseen first empty_feed)).feed
