-- ===== src/Search/Tests.antt =====
-- Two queries for products by their stock.
use node_b2b_orders.Base.{◌≡◌, refl, true, false, some, [], ◌∷◌}
use node_b2b_orders.Queries.{includes}
use node_b2b_orders.Search.Stock.{stock_filter}

stock_filter_unavailable :
    stock_filter (λ w. includes w ("indisponivel" ∷ "disponivel" ∷ [])) ≡ some true
unfolding stock_filter
stock_filter_unavailable = refl

stock_filter_sold_out : stock_filter (λ w. includes w ("esgotado" ∷ [])) ≡ some false
unfolding stock_filter
stock_filter_sold_out = refl
