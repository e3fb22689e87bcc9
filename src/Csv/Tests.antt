-- ===== src/Csv/Tests.antt =====
-- The round trip at a table with quotes, commas and line ends.
use node_b2b_orders.Base.{◌≡◌, List, [], ◌∷◌}
use node_b2b_orders.Csv.{Text, parse_csv, to_csv, quote, comma, line_feed}
use node_b2b_orders.Csv.RoundTrip.{parse_csv-to_csv}

abbrev headers : List Text
headers = (97 ∷ []) ∷ (98 ∷ []) ∷ []

abbrev rows : List (List Text)
rows = ((97 ∷ comma ∷ []) ∷ (quote ∷ 98 ∷ []) ∷ []) ∷ ([] ∷ (line_feed ∷ []) ∷ []) ∷ []

parse_csv-to_csv_example : parse_csv (to_csv headers rows) ≡ headers ∷ rows
parse_csv-to_csv_example =
    parse_csv-to_csv headers rows (λ e. cc, (λ e. cc, (λ e. cc, tt))) (λ e. cc)
