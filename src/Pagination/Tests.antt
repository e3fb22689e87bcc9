-- ===== src/Pagination/Tests.antt =====
-- Three rows in pages of two, with a cursor that is the pair that it encodes.
use node_b2b_orders.Base.{String, ◌≡◌, ◌≢◌, refl, false, none, some, List, [], ◌∷◌, arith, eq_iff}
use node_b2b_orders.Base.Int.{pos}
use node_b2b_orders.Pagination.{CursorText}
use node_b2b_orders.Pagination.Follow.{follow, follow-rows}

abbrev pub pairs : CursorText
pairs = record {
  Cursor = String × String;
  is_empty = λ c. false;
  encode_cursor = λ id created_at. (id, created_at);
  decode_cursor = λ c. some (record { id = c.0; created_at = c.1 });
  decode-encode = λ id created_at. refl;
  encode-not_empty = λ id created_at. refl;
}

abbrev rows : List String
rows = "a" ∷ "b" ∷ "c" ∷ []

a_b : ◌≢◌ {A = String} "a" "b"
a_b = ground (arith, eq_iff "a" "b")

a_c : ◌≢◌ {A = String} "a" "c"
a_c = ground (arith, eq_iff "a" "c")

b_c : ◌≢◌ {A = String} "b" "c"
b_c = ground (arith, eq_iff "b" "c")

follow-rows_example : follow pairs (λ r. r) (λ r. r) (some (pos 2)) rows 4 none ≡ rows
follow-rows_example =
    follow-rows pairs (λ r. r) (λ r. r) (some (pos 2)) rows
      ((a_b, (a_c, tt)), ((b_c, tt), (tt, tt)))
