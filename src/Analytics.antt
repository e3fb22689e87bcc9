-- ===== src/Analytics.antt =====
-- `AnalyticsService` of src/interfaces/analytics/analytics.service.ts: the demand and the anomalies;
-- the forecast is in Analytics/Forecast. Amounts are counted in cents, instants in milliseconds. Where
-- the code computes in doubles, the model multiplies the denominators out; rounding is not modelled.
mod Tests
pub mod Revenue
pub mod Amounts
pub mod Forecast
use node_b2b_orders.Base.{
  ℕ, ◌+◌, ◌-◌, ◌*◌, String, Bool, true, false, ◌&&◌, Option, none, some, List, [], ◌∷◌, map, length,
  leb, ltb, ◌==◌, str_eq, if◌then◌else◌,
}
use node_b2b_orders.Schema.{Status, confirmed, cancelled, paid, shipped, delivered, status_text}
use node_b2b_orders.Queries.{find_many}
use node_b2b_orders.Maps.{aggregate}
use node_b2b_orders.Ranking.{top}
use node_b2b_orders.Sales.{OrderRow, Line, lines, days_before, since}

pub record OrdersByStatus : Type 0 where
  pub status : String
  pub count : ℕ
  pub total_amount : ℕ

pub record TopProduct : Type 0 where
  pub sku : String
  pub order_volume : ℕ
  pub revenue : ℕ

pub record RevenueByPeriod : Type 0 where
  pub daily : ℕ
  pub weekly : ℕ
  pub total : ℕ

pub data Severity : Type 0 where
  high medium : Severity

-- The numbers of an anomaly; `order_id` is `n/a` where it is not about one order.
pub data Detail : Type 0 where
  amount : (amount count sum : ℕ) → Detail
  stuck : (updated_at : ℕ) → Detail
  volume : (current previous : ℕ) → Detail
  cancellations : (cancelled total : ℕ) → Detail

pub record AnomalyItem : Type 0 where
  pub order_id : String
  pub type : String
  pub severity : Severity
  pub detail : Detail

abbrev pub of_tenant : String → OrderRow → Bool
of_tenant tenant r = str_eq r.order.tenant_id tenant

-- `Number(o.totalAmount ?? 0)`
abbrev pub amount_or_zero : Option ℕ → ℕ
amount_or_zero none = 0
amount_or_zero (some n) = n

abbrev pub amount_of : OrderRow → ℕ
amount_of r = amount_or_zero r.order.total_amount

unfoldable pub sum_amounts : List OrderRow → ℕ
sum_amounts [] = 0
sum_amounts (r ∷ rows) = amount_of r + sum_amounts rows

-- `order.count({ where })`
abbrev pub count_rows : (OrderRow → Bool) → List OrderRow → ℕ
count_rows test rows = length (find_many test rows)

-- `groupBy({ by: ['status'], _count, _sum })`
abbrev pub status_key : OrderRow → String
status_key r = status_text r.order.status

abbrev pub Totals : Type 0
Totals = ℕ × ℕ

abbrev pub add_order : OrderRow → Totals → Totals
add_order r (n, sum) = (n + 1, sum + amount_of r)

unfoldable pub orders_by_status : (tenant : String) → List OrderRow → List OrdersByStatus
unfolding aggregate
orders_by_status tenant rows =
    map
      (λ (p : String × Totals).
        let (status, g) = p in record { status = status; count = g.0; total_amount = g.1 })
      (aggregate {V = Totals} (0, 0) status_key add_order (find_many (of_tenant tenant) rows) [])

pub record Volume : Type 0 where
  pub volume : ℕ
  pub revenue : ℕ

abbrev pub line_sku : Line → String
line_sku l = l.item.sku

abbrev pub add_line : Line → Volume → Volume
add_line l v = record {
  volume = v.volume + l.item.qty;
  revenue = v.revenue + l.item.price * l.item.qty;
}

abbrev pub no_volume : Volume
no_volume = record { volume = 0; revenue = 0 }

abbrev pub top_product : String × Volume → TopProduct
top_product (sku, v) = record { sku = sku; order_volume = v.volume; revenue = v.revenue }

unfoldable pub top_products : (tenant : String) (limit : ℕ) → List OrderRow → List TopProduct
unfolding aggregate top
top_products tenant limit rows =
    top (λ (p : TopProduct). p.order_volume) limit
      (map top_product (
        aggregate no_volume line_sku add_line (find_many (λ l. of_tenant tenant l.row) (lines rows))
          []))

-- `status: { in: ['PAID', 'SHIPPED', 'DELIVERED'] }`
abbrev pub is_revenue : Status → Bool
is_revenue paid = true
is_revenue shipped = true
is_revenue delivered = true
is_revenue _ = false

abbrev pub revenue_since : (tenant : String) (at : ℕ) → OrderRow → Bool
revenue_since tenant at r = of_tenant tenant r && (since at r && is_revenue r.order.status)

unfoldable pub revenue_by_period : (now : ℕ) (tenant : String) → List OrderRow → RevenueByPeriod
unfolding sum_amounts
revenue_by_period now tenant rows = record {
  daily = sum_amounts (find_many (revenue_since tenant (days_before 1 now)) rows);
  weekly = sum_amounts (find_many (revenue_since tenant (days_before 7 now)) rows);
  total = sum_amounts (find_many (λ r. of_tenant tenant r && is_revenue r.order.status) rows);
}

-- `filter((a) => a > 0)`, the sum, and the sum of the squares.
abbrev pub has_amount : OrderRow → Bool
has_amount r = ltb 0 (amount_of r)

unfoldable pub sum_squares : List OrderRow → ℕ
sum_squares [] = 0
sum_squares (r ∷ rows) = amount_of r * amount_of r + sum_squares rows

-- `amount >= mean + 3 * Math.sqrt(variance)`, where `mean = sum / n` and `variance` is the mean of
-- `(a - mean) ** 2`: both sides times `n`, and squared.
unfoldable pub exceeds : (n sum squares a : ℕ) → Bool
exceeds n sum squares a =
    leb sum (n * a) && leb (9 * (n * squares)) ((n * a - sum) * (n * a - sum) + 9 * (sum * sum))

abbrev pub is_known : Option ℕ → Bool
is_known none = false
is_known (some n) = true

unfoldable pub high_amount_orders : (tenant : String) → List OrderRow → List AnomalyItem
unfolding sum_amounts sum_squares exceeds
high_amount_orders tenant rows =
    let orders = find_many (λ r. of_tenant tenant r && is_known r.order.total_amount) rows in
    let amounts = find_many has_amount orders in
    let n = length amounts in
    let sum = sum_amounts amounts in
    if ltb n 2
    then []
    else map
        (λ (r : OrderRow). record {
          order_id = r.order.id;
          type = "high_amount";
          severity = high;
          detail = amount (amount_of r) n sum;
        })
        (find_many (λ r. exceeds n sum (sum_squares amounts) (amount_of r)) orders)

abbrev pub is_stuck : (now : ℕ) (tenant : String) → OrderRow → Bool
is_stuck now tenant r =
    of_tenant tenant r
    && (elim r.order.status [ confirmed ↦ true | _ ↦ false ]
        && ltb r.updated_at (now - 24 * 3600000))

unfoldable pub stuck_orders : (now : ℕ) (tenant : String) → List OrderRow → List AnomalyItem
stuck_orders now tenant rows =
    map
      (λ (r : OrderRow). record {
        order_id = r.order.id;
        type = "stuck_in_status";
        severity = medium;
        detail = stuck r.updated_at;
      })
      (find_many (is_stuck now tenant) rows)

abbrev spike : ℕ → ℕ → List AnomalyItem
spike current previous =
    record {
      order_id = "n/a";
      type = "volume_spike";
      severity = high;
      detail = volume current previous;
    }
    ∷ []

unfoldable pub volume_spikes : (now : ℕ) (tenant : String) → List OrderRow → List AnomalyItem
volume_spikes now tenant rows =
    let last24h = now - 24 * 3600000 in
    let prev24h = last24h - 24 * 3600000 in
    let current = count_rows (λ r. of_tenant tenant r && since last24h r) rows in
    let previous =
      count_rows (λ r. of_tenant tenant r && (since prev24h r && ltb r.created_at last24h)) rows in
    if previous == 0 && ltb 5 current
    then spike current previous
    else if ltb 0 previous && leb (previous * 3) current
    then spike current previous
    else []

abbrev pub is_cancelled : Status → Bool
is_cancelled cancelled = true
is_cancelled _ = false

-- `total >= 10 && cancelRate > 0.5`
unfoldable pub unusual_cancellations :
    (now : ℕ) (tenant : String) → List OrderRow → List AnomalyItem
unusual_cancellations now tenant rows =
    let week = λ (r : OrderRow). of_tenant tenant r && since (days_before 7 now) r in
    let total = count_rows week rows in
    let gone = count_rows (λ r. week r && is_cancelled r.order.status) rows in
    if leb 10 total && ltb total (gone * 2)
    then record {
      order_id = "n/a";
      type = "unusual_cancellations";
      severity = medium;
      detail = cancellations gone total;
    }
      ∷ []
    else []

pub record AnomaliesAnalytics : Type 0 where
  pub high_amount_orders : List AnomalyItem
  pub volume_spikes : List AnomalyItem
  pub stuck_orders : List AnomalyItem
  pub unusual_cancellations : List AnomalyItem

unfoldable pub anomalies : (now : ℕ) (tenant : String) → List OrderRow → AnomaliesAnalytics
unfolding high_amount_orders volume_spikes stuck_orders unusual_cancellations
anomalies now tenant rows = record {
  high_amount_orders = high_amount_orders tenant rows;
  volume_spikes = volume_spikes now tenant rows;
  stuck_orders = stuck_orders now tenant rows;
  unusual_cancellations = unusual_cancellations now tenant rows;
}
