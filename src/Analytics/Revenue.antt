-- ===== src/Analytics/Revenue.antt =====
-- The revenue of the three periods.
use node_b2b_orders.Base.{
  ℕ, ◌≤◌, String, ◌≡◌, Bool, true, ◌&&◌, List, [], ◌∷◌, arith, Bool-cases, inl, inr,
}
use node_b2b_orders.Queries.{find_many}
use node_b2b_orders.Sales.{OrderRow, days_before}
use node_b2b_orders.Analytics.{sum_amounts, revenue_by_period, revenue_since, of_tenant, is_revenue}

-- A test that fewer rows pass gives a sum that is not greater.
sum_amounts_mono :
    (p q : OrderRow → Bool)
    → ((r : OrderRow) → p r ≡ true → q r ≡ true)
    → (rows : List OrderRow) → sum_amounts (find_many p rows) ≤ sum_amounts (find_many q rows)
unfolding sum_amounts
sum_amounts_mono p q h [] = omega arith
sum_amounts_mono p q h (r ∷ rows) = elim (Bool-cases (p r)) [
  | inl e ↦ rw (e, h r e) (omega (arith, sum_amounts_mono p q h rows))
  | inr e ↦ elim (Bool-cases (q r)) [
    | inl f ↦ rw (e, f) (omega (arith, sum_amounts_mono p q h rows))
    | inr f ↦ rw (e, f) (sum_amounts_mono p q h rows)
  ]
]

-- The revenue of the last day is at most that of the last week, and that at most the total.
pub revenue_by_period_bounds :
    (now : ℕ) (tenant : String) (rows : List OrderRow)
    → let r = revenue_by_period now tenant rows in (r.daily ≤ r.weekly) × (r.weekly ≤ r.total)
unfolding revenue_by_period
revenue_by_period_bounds now tenant rows = (
  sum_amounts_mono (revenue_since tenant (days_before 1 now))
      (revenue_since tenant (days_before 7 now)) (λ r h. ground arith) rows,
  sum_amounts_mono (revenue_since tenant (days_before 7 now))
      (λ r. of_tenant tenant r && is_revenue r.order.status) (λ r h. ground arith) rows,
)
