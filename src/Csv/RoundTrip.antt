-- ===== src/Csv/RoundTrip.antt =====
-- What the import reads from the text that the export writes.
use mathlib.Core.List.{append-nil, append_assoc, head?, tail}
use node_b2b_orders.Base.{
  ℕ, ◌≡◌, ◌≢◌, ◌∙◌, refl, sym, ap, Bool, true, false, Option, some, List, [], ◌∷◌, ◌++◌, map, any,
  All, arith, ◌==◌, Bool-cases, inl, inr,
}
use node_b2b_orders.Csv.{
  Text, quote, comma, line_feed, Scan, Move, one, two, push, next_is, advance, finish_row, finish,
  scan, parse_csv, is_special, double_quotes, escape_csv_field, join, csv_line, to_csv,
}

abbrev st : List (List Text) → List Text → Text → Bool → Scan
st rows row field q = record { rows = rows; row = row; field = field; in_quotes = q }

abbrev after : Move → Text → List (List Text)
after (one s) rest = scan s rest
after (two s) rest = scan s (tail rest)

scan_step :
    (s : Scan) (c : ℕ) (rest : Text)
    → scan s (c ∷ rest) ≡ after (advance s.in_quotes c (head? rest) s) rest
unfolding scan
scan_step s c [] = ground arith
scan_step s c (d ∷ rest) = ground arith

advance_plain :
    (c : ℕ) (next : Option ℕ) (s : Scan)
    → is_special c ≡ false
    → advance false c next s ≡ one (push c s)
unfolding advance
advance_plain c next s h = ground arith

advance_inner :
    (c : ℕ) (next : Option ℕ) (s : Scan)
    → (c == quote) ≡ false
    → advance true c next s ≡ one (push c s)
unfolding advance
advance_inner c next s h = ground arith

-- One round on a known character.
scan_one :
    (s s' : Scan) (c : ℕ) (rest : Text)
    → advance s.in_quotes c (head? rest) s ≡ one s'
    → scan s (c ∷ rest) ≡ scan s' rest
scan_one s s' c rest e = scan_step s c rest ∙ ap (λ m. after m rest) e

-- A round that goes two characters on.
scan_two :
    (s s' : Scan) (c : ℕ) (rest : Text)
    → advance s.in_quotes c (head? rest) s ≡ two s'
    → scan s (c ∷ rest) ≡ scan s' (tail rest)
scan_two s s' c rest e = scan_step s c rest ∙ ap (λ m. after m rest) e

advance_doubled :
    (rows : List (List Text)) (row : List Text) (field : Text)
    → advance true quote (some quote) (st rows row field true)
      ≡ two (st rows row (field ++ quote ∷ []) true)
unfolding advance
advance_doubled rows row field = refl

comma_lem :
    (next : Option ℕ) (rows : List (List Text)) (row : List Text) (field : Text)
    → advance false comma next (st rows row field false)
      ≡ one (st rows (row ++ field ∷ []) [] false)
unfolding advance
comma_lem next rows row field = refl

line_feed_lem :
    (next : Option ℕ) (rows : List (List Text)) (row : List Text) (field : Text)
    → advance false line_feed next (st rows row field false)
      ≡ one (st (rows ++ (row ++ field ∷ []) ∷ []) [] [] false)
unfolding advance
line_feed_lem next rows row field = refl

module _ (rows : List (List Text)) (row : List Text) where
  scan_plain :
      (field f rest : Text)
      → any is_special f ≡ false
      → scan (st rows row field false) (f ++ rest) ≡ scan (st rows row (field ++ f) false) rest
  scan_plain field [] rest h = rw append-nil
  scan_plain field (c ∷ f) rest h =
      scan_one (st rows row field false) (st rows row (field ++ c ∷ []) false) c (f ++ rest)
        (advance_plain c (head? (f ++ rest)) (st rows row field false) (ground arith))
      ∙ scan_plain (field ++ c ∷ []) f rest (ground arith)
      ∙ ap (λ x. scan (st rows row x false) rest) (append_assoc field (c ∷ []) f)

  scan_quoted :
      (field f rest : Text)
      → next_is quote (head? rest) ≡ false
      → scan (st rows row field true) (double_quotes f ++ quote ∷ rest)
        ≡ scan (st rows row (field ++ f) false) rest
  unfolding double_quotes
  scan_quoted field [] rest h =
      scan_one (st rows row field true) (st rows row field false) quote rest
        (unfold advance in ground arith)
      ∙ ap (λ x. scan (st rows row x false) rest) (sym (append-nil field))
  scan_quoted field (c ∷ f) rest h = elim (Bool-cases (c == quote)) [
    | inl same ↦
        let is : c ≡ quote = ground arith in
        rw same (
          scan_two (st rows row field true) (st rows row (field ++ quote ∷ []) true) quote
            (quote ∷ double_quotes f ++ quote ∷ rest) (advance_doubled rows row field)
          ∙ scan_quoted (field ++ quote ∷ []) f rest h
          ∙ ap (λ x. scan (st rows row x false) rest)
              (append_assoc field (quote ∷ []) f ∙ ap (λ d. field ++ d ∷ f) (sym is)))
    | inr other ↦ rw other (
        scan_one (st rows row field true) (st rows row (field ++ c ∷ []) true) c
          (double_quotes f ++ quote ∷ rest)
          (advance_inner c (head? (double_quotes f ++ quote ∷ rest)) (st rows row field true) other)
        ∙ scan_quoted (field ++ c ∷ []) f rest h
        ∙ ap (λ x. scan (st rows row x false) rest) (append_assoc field (c ∷ []) f))
  ]

  -- A written field, before a separator or the end, is read back.
  scan_field :
      (f rest : Text)
      → next_is quote (head? rest) ≡ false
      → scan (st rows row [] false) (escape_csv_field f ++ rest) ≡ scan (st rows row f false) rest
  unfolding escape_csv_field
  scan_field f rest h = elim (Bool-cases (any is_special f)) [
    | inl special ↦ rw special (
        scan_one (st rows row [] false) (st rows row [] true) quote
          ((double_quotes f ++ quote ∷ []) ++ rest) (unfold advance in refl)
        ∙ ap (scan (st rows row [] true)) (append_assoc (double_quotes f) (quote ∷ []) rest)
        ∙ scan_quoted [] f rest h)
    | inr plain ↦ rw plain (scan_plain [] f rest plain)
  ]

-- The fields of a line but the last, and the last.
abbrev init : Text → List Text → List Text
init x [] = []
init x (y ∷ ys) = x ∷ init y ys

abbrev last : Text → List Text → Text
last x [] = x
last x (y ∷ ys) = last y ys

init-last : (x : Text) (xs : List Text) → init x xs ++ last x xs ∷ [] ≡ x ∷ xs
init-last x [] = refl
init-last x (y ∷ ys) = ap (λ l. x ∷ l) (init-last y ys)

scan_line :
    (rows : List (List Text)) (row : List Text) (x : Text) (xs : List Text) (rest : Text)
    → next_is quote (head? rest) ≡ false
    → scan (st rows row [] false) (csv_line (x ∷ xs) ++ rest)
      ≡ scan (st rows (row ++ init x xs) (last x xs) false) rest
unfolding csv_line
scan_line rows row x [] rest h =
    scan_field rows row x rest h ∙ ap (λ r. scan (st rows r x false) rest) (sym (append-nil row))
scan_line rows row x (y ∷ ys) rest h =
    ap (scan (st rows row [] false))
      (append_assoc (escape_csv_field x) (comma ∷ csv_line (y ∷ ys)) rest)
    ∙ scan_field rows row x (comma ∷ csv_line (y ∷ ys) ++ rest) refl
    ∙ scan_one (st rows row x false) (st rows (row ++ x ∷ []) [] false) comma
        (csv_line (y ∷ ys) ++ rest) (comma_lem (head? (csv_line (y ∷ ys) ++ rest)) rows row x)
    ∙ scan_line rows (row ++ x ∷ []) y ys rest h
    ∙ ap (λ r. scan (st rows r (last y ys) false) rest) (append_assoc row (x ∷ []) (init y ys))

-- The last line is not one empty cell.
abbrev pub EndsWell : List Text → List (List Text) → Type 0
EndsWell line [] = line ≢ [] ∷ []
EndsWell line (next ∷ more) = EndsWell next more

finish_last :
    (rows : List (List Text)) (row : List Text) (x : Text)
    → row ++ x ∷ [] ≢ [] ∷ []
    → finish_row rows row x ≡ rows ++ (row ++ x ∷ []) ∷ []
finish_last rows [] [] h = absurd (h refl)
finish_last rows [] (c ∷ x) h = refl
finish_last rows (f ∷ row) x h = refl

scan_end :
    (rows : List (List Text)) (row : List Text) (x : Text)
    → scan (st rows row x false) [] ≡ finish_row rows row x
unfolding scan finish
scan_end rows row x = refl

scan_last :
    (rows : List (List Text)) (x : Text) (xs : List Text)
    → x ∷ xs ≢ [] ∷ []
    → scan (st rows [] [] false) (csv_line (x ∷ xs)) ≡ rows ++ (x ∷ xs) ∷ []
scan_last rows x xs h =
    ap (scan (st rows [] [] false)) (sym (append-nil (csv_line (x ∷ xs))))
    ∙ scan_line rows [] x xs [] refl
    ∙ scan_end rows (init x xs) (last x xs)
    ∙ finish_last rows (init x xs) (last x xs) (λ e. h (sym (init-last x xs) ∙ e))
    ∙ ap (λ l. rows ++ l ∷ []) (init-last x xs)

scan_lines :
    (rows : List (List Text)) (line : List Text) (more : List (List Text))
    → All (λ l. l ≢ []) (line ∷ more)
    → EndsWell line more
    → scan (st rows [] [] false) (join line_feed (map csv_line (line ∷ more))) ≡ rows ++ line ∷ more
unfolding join
scan_lines rows [] more all h = absurd (all.0 refl)
scan_lines rows (x ∷ xs) [] all h = scan_last rows x xs h
scan_lines rows (x ∷ xs) (next ∷ more) all h =
    let rest = join line_feed (map csv_line (next ∷ more)) in
    scan_line rows [] x xs (line_feed ∷ rest) refl
    ∙ scan_one (st rows (init x xs) (last x xs) false)
        (st (rows ++ (init x xs ++ last x xs ∷ []) ∷ []) [] [] false) line_feed rest
        (line_feed_lem (head? rest) rows (init x xs) (last x xs))
    ∙ ap (λ l. scan (st (rows ++ l ∷ []) [] [] false) rest) (init-last x xs)
    ∙ scan_lines (rows ++ (x ∷ xs) ∷ []) next more (all.1) h
    ∙ append_assoc rows ((x ∷ xs) ∷ []) (next ∷ more)

-- The import reads back the table that the export wrote, with the quotes, commas and line ends in
-- its cells, where every line has a cell and the last line is not one empty cell.
pub parse_csv-to_csv :
    (headers : List Text) (rows : List (List Text))
    → All (λ l. l ≢ []) (headers ∷ rows)
    → EndsWell headers rows
    → parse_csv (to_csv headers rows) ≡ headers ∷ rows
unfolding parse_csv to_csv
parse_csv-to_csv headers rows all h = scan_lines [] headers rows all h
