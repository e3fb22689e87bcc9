-- ===== src/Recommendation/Controller.antt =====
-- src/interfaces/ai/recommendation.controller.ts: the routes of the reports, after the guards. A number
-- of the query that is missing has a default; `parse` is `ParseIntPipe`, `none` where it refuses. The
-- negative numbers that it lets through are not modelled.
use node_b2b_orders.Base.{ℕ, String, Option, none, some, List, Error, Result, ok, err, bad_request}
use node_b2b_orders.Sales.{OrderRow}
use node_b2b_orders.Recommendation.{
  RecommendedProduct, TrendingProduct, BoughtTogether, FeedItem, recommendations_for_customer,
  trending_products, frequently_bought_together, personalized_feed,
}

pub data ReportCall : Type 0 where
  get_for_customer : (customer_id : String) (limit : Option String) → ReportCall
  get_trending : (days limit : Option String) → ReportCall
  get_together : (sku : String) (limit : Option String) → ReportCall
  get_feed : (customer_id : String) (limit : Option String) → ReportCall

pub data Report : Type 0 where
  recommended : List RecommendedProduct → Report
  trending : List TrendingProduct → Report
  together : List BoughtTogether → Report
  feed : List FeedItem → Report

abbrev not_numeric : Error
not_numeric = bad_request "Validation failed (numeric string is expected)"

module _ (parse : String → Option ℕ) where
  -- `@Query(name, new DefaultValuePipe(d), ParseIntPipe)`
  abbrev number_param : Option String → ℕ → Result ℕ
  number_param none d = ok d
  number_param (some s) d = elim (parse s) [ none ↦ err not_numeric | some n ↦ ok n ]

  abbrev with_number : Result ℕ → (ℕ → Result Report) → Result Report
  with_number (ok n) report = report n
  with_number (err e) report = err e

  -- The methods of the controller.
  unfoldable pub report : (now : ℕ) (tenant : String) → ReportCall → List OrderRow → Result Report
  unfolding recommendations_for_customer trending_products frequently_bought_together
      personalized_feed
  report now tenant (get_for_customer customer limit) rows =
      with_number (number_param limit 10)
        (λ n. ok (recommended (recommendations_for_customer tenant customer n rows)))
  report now tenant (get_trending days limit) rows = with_number (number_param days 30) (λ d.
      with_number (number_param limit 10)
        (λ n. ok (trending (trending_products now tenant d n rows))))
  report now tenant (get_together sku limit) rows =
      with_number (number_param limit 5)
        (λ n. ok (together (frequently_bought_together tenant sku n rows)))
  report now tenant (get_feed customer limit) rows =
      with_number (number_param limit 20)
        (λ n. ok (feed (personalized_feed now tenant customer n rows)))
