-- ===== src/Analytics/Tests.antt =====
-- The forecast of one item.
use node_b2b_orders.Base.{ℕ, ◌+◌, ◌*◌, ◌/◌, refl, ltb, arith, none, List, [], ◌∷◌, All}
use node_b2b_orders.Base.Int.{pos}
use node_b2b_orders.Schema.{stock_out}
use node_b2b_orders.Analytics.Forecast.{
  Double, IsOrdered, AdjustmentRow, StockRow, IsForecast, forecast_items, forecast_items_lem,
}

abbrev stock : List StockRow
stock =
    record {
      key = record { tenant_id = "acme"; sku = "pen" };
      item = record { available_qty = pos 10; reserved_qty = pos 0 };
    }
    ∷ []

abbrev taken : ℕ → AdjustmentRow
taken at = record {
  adjustment = record {
    tenant_id = "acme";
    sku = "pen";
    type = stock_out;
    qty = 6;
    reason = "sold";
    actor_sub = "ann";
    correlation_id = "x";
    idempotency_key = none;
  };
  created_at = at;
}

abbrev now : ℕ
now = 2592000000

-- Exact fractions have the laws that are asked of doubles.
abbrev Fraction : Type 0
Fraction = ℕ × ℕ

instance abbrev fraction_double : Double Fraction
fraction_double = record {
  of_ℕ = λ n. (n, 1);
  divide = λ p q. (p.0 * q.1, p.1 * q.0);
  times = λ p q. (p.0 * q.0, p.1 * q.1);
  floor = λ p. (p.0 / p.1, 1);
  round = λ p. ((2 * p.0 + p.1) / (2 * p.1), 1);
  less = λ p q. ltb (p.0 * q.1) (q.0 * p.1);
}

Fraction-IsOrdered : IsOrdered Fraction
Fraction-IsOrdered = record { less_irrefl = refl; divide-pos = λ n h. ground arith }

forecast_items_lem_example :
    All
      (IsForecast {W = Fraction} now "acme" 5 (taken 2000000000 ∷ taken 0 ∷ []))
      (forecast_items now "acme" 5 stock (taken 2000000000 ∷ taken 0 ∷ []))
forecast_items_lem_example =
    forecast_items_lem now "acme" 5 (taken 2000000000 ∷ taken 0 ∷ []) Fraction-IsOrdered stock
