-- ===== src/Analytics/Forecast.antt =====
-- `getInventoryForecast` of src/interfaces/analytics/analytics.service.ts. Quantities and their sums
-- are integers, which the code adds without rounding as long as they stay below 2^53; the daily rate
-- and the days until depletion are doubles, whose operations are a parameter.
use Prim.Native.Nat.{zero, suc}
use node_b2b_orders.Base.{
  ℕ, ◌+◌, ◌≤◌, ◌<◌, String, ◌≡◌, refl, ap, Bool, true, false, ◌&&◌, ◌||◌, Option, none, some, List,
  [], ◌∷◌, map, All, arith, leb, ltb, str_eq, Bool-cases, inl, inr, if◌then◌else◌,
}
use node_b2b_orders.Base.Int.{ℤ, pos, negsuc, ltb_ℤ}
use node_b2b_orders.Schema.{AdjustmentType, stock_out, ItemKey, InventoryItem, InventoryAdjustment}
use node_b2b_orders.Queries.{find_many}
use node_b2b_orders.Maps.{or_default, get, aggregate}
use node_b2b_orders.Maps.Laws.{accumulated, get-aggregate}
use node_b2b_orders.Sales.{days_before}

pub record AdjustmentRow : Type 0 where
  pub adjustment : InventoryAdjustment
  pub created_at : ℕ

pub record StockRow : Type 0 where
  pub key : ItemKey
  pub item : InventoryItem

-- What the code does with doubles. `of_ℕ` is an integer as a double.
pub record Double (W : Type 0) : Type 0 where
  pub of_ℕ : ℕ → W
  pub divide : W → W → W
  pub times : W → W → W
  pub floor : W → W
  pub round : W → W
  pub less : W → W → Bool

-- Zero is not below itself, and the thirtieth part of a positive integer is above it.
pub record IsOrdered (W : Type 0) ⦃d : Double W⦄ : Type 0 where
  pub less_irrefl : d.less (d.of_ℕ 0) (d.of_ℕ 0) ≡ false
  pub divide-pos : (n : ℕ) → 0 < n → d.less (d.of_ℕ 0) (d.divide (d.of_ℕ n) (d.of_ℕ 30)) ≡ true

pub record ForecastItem (W : Type 0) : Type 0 where
  pub sku : String
  pub available_qty : ℤ
  pub reserved_qty : ℤ
  pub consumption_7d : ℕ
  pub consumption_30d : ℕ
  pub daily_consumption_rate : W
  pub estimated_days : Option W
  pub reorder_suggested : Bool

pub record Forecast (W : Type 0) : Type 0 where
  pub low_stock : List (ForecastItem W)
  pub consumption_summary : List (ForecastItem W)
  pub reorder_suggestions : List (ForecastItem W)

abbrev pub is_out : AdjustmentType → Bool
is_out stock_out = true
is_out _ = false

-- `where: { tenantId, type: 'OUT', createdAt: { gte: since } }`
abbrev pub is_out_since : (tenant : String) (since : ℕ) → AdjustmentRow → Bool
is_out_since tenant since a =
    str_eq a.adjustment.tenant_id tenant && (is_out a.adjustment.type && leb since a.created_at)

abbrev pub row_sku : AdjustmentRow → String
row_sku a = a.adjustment.sku

abbrev pub add_row : AdjustmentRow → ℕ → ℕ
add_row a sum = sum + a.adjustment.qty

unfoldable pub out_by_sku : (tenant : String) (since : ℕ) → List AdjustmentRow → List (String × ℕ)
unfolding aggregate
out_by_sku tenant since rows =
    aggregate 0 row_sku add_row (find_many (is_out_since tenant since) rows) []

module _ {W : Type 0} ⦃d : Double W⦄ where
  abbrev pub daily_rate : (c7 c30 : ℕ) → W
  daily_rate c7 c30 =
      if ltb 0 c30
      then d.divide (d.of_ℕ c30) (d.of_ℕ 30)
      else if ltb 0 c7
      then d.divide (d.of_ℕ c7) (d.of_ℕ 7)
      else d.of_ℕ 0

  -- `dailyRate > 0 && availableQty > 0 ? Math.floor(availableQty / dailyRate) : null`
  abbrev pub estimated_days : ℤ → W → Option W
  estimated_days (pos n) rate =
      if d.less (d.of_ℕ 0) rate && ltb 0 n then some (d.floor (d.divide (d.of_ℕ n) rate)) else none
  estimated_days (negsuc n) rate = none

  abbrev pub is_soon : Option W → Bool
  is_soon none = false
  is_soon (some days) = d.less days (d.of_ℕ 7)

  unfoldable pub forecast_item :
      (threshold : ℕ) (out7 out30 : List (String × ℕ)) → StockRow → ForecastItem W
  unfolding get
  forecast_item threshold out7 out30 i =
      let c7 = or_default 0 (get i.key.sku out7) in
      let c30 = or_default 0 (get i.key.sku out30) in
      let rate = daily_rate c7 c30 in
      let days = estimated_days i.item.available_qty rate in
      record {
        sku = i.key.sku;
        available_qty = i.item.available_qty;
        reserved_qty = i.item.reserved_qty;
        consumption_7d = c7;
        consumption_30d = c30;
        daily_consumption_rate = d.divide (d.round (d.times rate (d.of_ℕ 100))) (d.of_ℕ 100);
        estimated_days = days;
        reorder_suggested = ltb_ℤ i.item.available_qty (pos threshold) || is_soon days;
      }

  unfoldable pub forecast_items :
      (now : ℕ) (tenant : String) (threshold : ℕ)
      → List StockRow
      → List AdjustmentRow
      → List (ForecastItem W)
  unfolding forecast_item out_by_sku
  forecast_items now tenant threshold items rows =
      map
        (forecast_item threshold (out_by_sku tenant (days_before 7 now) rows)
          (out_by_sku tenant (days_before 30 now) rows))
        (find_many (λ (i : StockRow). str_eq i.key.tenant_id tenant) items)

  unfoldable pub inventory_forecast :
      (now : ℕ) (tenant : String) (threshold : ℕ) → List StockRow → List AdjustmentRow → Forecast W
  unfolding forecast_items
  inventory_forecast now tenant threshold items rows =
      let result = forecast_items now tenant threshold items rows in
      record {
        low_stock =
            find_many (λ (r : ForecastItem W). ltb_ℤ r.available_qty (pos threshold)) result;
        consumption_summary =
            find_many (λ (r : ForecastItem W). ltb 0 r.consumption_7d || ltb 0 r.consumption_30d)
              result;
        reorder_suggestions = find_many (λ (r : ForecastItem W). r.reorder_suggested) result;
      }

-- What left the stock of a SKU, summed over the adjustments.
abbrev pub consumed : (sku : String) → List AdjustmentRow → ℕ
consumed sku [] = 0
consumed sku (a ∷ rows) =
    let rest = consumed sku rows in if str_eq (row_sku a) sku then a.adjustment.qty + rest else rest

accumulated-consumed :
    (sku : String) (rows : List AdjustmentRow) (o : Option ℕ)
    → or_default 0 (accumulated 0 row_sku add_row sku o rows) ≡ or_default 0 o + consumed sku rows
accumulated-consumed sku [] o = omega arith
accumulated-consumed sku (a ∷ rows) o = elim (Bool-cases (str_eq (row_sku a) sku)) [
  | inl e ↦
      rw e (omega (arith, accumulated-consumed sku rows (some (or_default 0 o + a.adjustment.qty))))
  | inr e ↦ rw e (accumulated-consumed sku rows o)
]

get-out_by_sku :
    (sku tenant : String) (since : ℕ) (rows : List AdjustmentRow)
    → or_default 0 (get sku (out_by_sku tenant since rows))
      ≡ consumed sku (find_many (is_out_since tenant since) rows)
unfolding out_by_sku get
get-out_by_sku sku tenant since rows =
    let out = find_many (is_out_since tenant since) rows in
    let e = ap (λ o. or_default 0 o) (get-aggregate 0 row_sku add_row sku out []) in
    omega (arith, e, accumulated-consumed sku out none)

consumed_mono :
    (p q : AdjustmentRow → Bool)
    → ((a : AdjustmentRow) → p a ≡ true → q a ≡ true)
    → (sku : String) (rows : List AdjustmentRow)
    → consumed sku (find_many p rows) ≤ consumed sku (find_many q rows)
consumed_mono p q h sku [] = omega arith
consumed_mono p q h sku (a ∷ rows) = ground (arith, h a, consumed_mono p q h sku rows)

module _ {W : Type 0} ⦃d : Double W⦄ where
  -- The whole days that `available` units last where `units` leave the stock in 30 days, computed in
  -- doubles. There is no number where nothing left, or nothing is available.
  abbrev days_left : (available : ℤ) (units : ℕ) → Option W
  days_left (pos (suc n)) (suc units) =
      some (d.floor (d.divide (d.of_ℕ (suc n)) (d.divide (d.of_ℕ (suc units)) (d.of_ℕ 30))))
  days_left _ _ = none

  estimated_days-days_left :
      (laws : IsOrdered W) (available : ℤ) (c7 c30 : ℕ)
      → c7 ≤ c30
      → estimated_days available (daily_rate c7 c30) ≡ days_left available c30
  estimated_days-days_left laws (negsuc n) c7 c30 h = refl
  estimated_days-days_left laws (pos zero) c7 c30 h = ground arith
  estimated_days-days_left laws (pos (suc n)) c7 zero h = ground (arith, laws.less_irrefl)
  estimated_days-days_left laws (pos (suc n)) c7 (suc units) h =
      ground (arith, laws.divide-pos (suc units))

out_mono :
    (now : ℕ) (tenant : String) (a : AdjustmentRow)
    → is_out_since tenant (days_before 7 now) a ≡ true
    → is_out_since tenant (days_before 30 now) a ≡ true
out_mono now tenant a h = ground arith

-- The adjustments of the tenant that took stock out in the last `n` days.
abbrev pub taken_out : (now : ℕ) (tenant : String) → List AdjustmentRow → ℕ → List AdjustmentRow
taken_out now tenant rows n = find_many (is_out_since tenant (days_before n now)) rows

map-All {ℓ κ} :
    {A : Type ℓ} {B : Type κ} (P : B → Type 0) (f : A → B) (xs : List A)
    → ((x : A) → P (f x))
    → All P (map f xs)
map-All P f [] h = tt
map-All P f (x ∷ xs) h = (h x, map-All P f xs h)

module _ {W : Type 0} ⦃d : Double W⦄ (now : ℕ) (tenant : String) (threshold : ℕ)
    (rows : List AdjustmentRow) where
  abbrev pub IsForecast : ForecastItem W → Type 0
  IsForecast i =
      (i.consumption_7d ≡ consumed i.sku (taken_out now tenant rows 7))
      × (i.consumption_30d ≡ consumed i.sku (taken_out now tenant rows 30))
      × (i.consumption_7d ≤ i.consumption_30d)
      × (i.estimated_days ≡ days_left i.available_qty i.consumption_30d)

  forecast_item_lem :
      (laws : IsOrdered W) (i : StockRow)
      → IsForecast (
          forecast_item threshold
            (out_by_sku tenant (days_before 7 now) rows)
            (out_by_sku tenant (days_before 30 now) rows)
            i)
  unfolding forecast_item
  forecast_item_lem laws i =
      let sku = i.key.sku in
      let e7 = get-out_by_sku sku tenant (days_before 7 now) rows in
      let e30 = get-out_by_sku sku tenant (days_before 30 now) rows in
      let le = consumed_mono _ _ (out_mono now tenant) sku rows in
      (
        e7,
        e30,
        rw (e7, e30) le,
        rw (e7, e30) (estimated_days-days_left laws i.item.available_qty _ _ le),
      )

  -- In every row of the forecast, the consumption of 7 and of 30 days is what the OUT adjustments of
  -- the tenant took of the SKU in that time, and that of 7 days is at most that of 30, so that the rate
  -- is always that of 30 days: the estimate is the available quantity divided by a thirtieth of that
  -- consumption and rounded down, in doubles, and is missing exactly where there is no consumption or
  -- nothing is available. Of the doubles it needs that zero is not below itself and that the
  -- thirtieth part of a positive integer is above it.
  pub forecast_items_lem :
      (laws : IsOrdered W) (items : List StockRow)
      → All IsForecast (forecast_items now tenant threshold items rows)
  unfolding forecast_items
  forecast_items_lem laws items =
      map-All IsForecast _ (find_many (λ (i : StockRow). str_eq i.key.tenant_id tenant) items)
        (forecast_item_lem laws)
