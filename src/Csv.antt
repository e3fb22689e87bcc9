-- ===== src/Csv.antt =====
-- CSV text: `parseCsv` of src/interfaces/import/import.service.ts, and `escapeCsvField` and `toCsv` of
-- src/interfaces/export/export.service.ts. A text is the list of its code units.
mod Tests
pub mod RoundTrip
pub mod Export
use node_b2b_orders.Base.{
  ℕ, Bool, true, false, ◌||◌, ◌&&◌, not, Option, none, some, List, [], ◌∷◌, ◌++◌, map, any, ◌==◌,
  if◌then◌else◌,
}

abbrev pub Text : Type 0
Text = List ℕ

abbrev pub quote : ℕ
quote = b'"'

abbrev pub comma : ℕ
comma = b','

abbrev pub carriage_return : ℕ
carriage_return = 13

abbrev pub line_feed : ℕ
line_feed = 10

-- The variables of the loop of `parseCsv`.
pub record Scan : Type 0 where
  pub rows : List (List Text)
  pub row : List Text
  pub field : Text
  pub in_quotes : Bool

-- A round goes one character on, or two.
pub data Move : Type 0 where
  one two : Scan → Move

abbrev pub push : ℕ → Scan → Scan
push c s = record s { field = s.field ++ c ∷ [] }

abbrev pub end_field : Scan → Scan
end_field s = record s { row = s.row ++ s.field ∷ []; field = [] }

abbrev pub end_row : Scan → Scan
end_row s = record s { rows = s.rows ++ (s.row ++ s.field ∷ []) ∷ []; row = []; field = [] }

-- `i + 1 < content.length && content[i + 1] === c`
abbrev pub next_is : ℕ → Option ℕ → Bool
next_is c none = false
next_is c (some d) = d == c

unfoldable pub advance : Bool → ℕ → Option ℕ → Scan → Move
advance true c next s =
    if c == quote
    then (if next_is quote next then two (push quote s) else one (record s { in_quotes = false }))
    else one (push c s)
advance false c next s =
    if c == quote
    then one (record s { in_quotes = true })
    else if c == comma
    then one (end_field s)
    else if c == carriage_return
    then (if next_is line_feed next then two (end_row s) else one (end_row s))
    else if c == line_feed
    then one (end_row s)
    else one (push c s)

-- `if (currentField !== '' || currentRow.length > 0)`
abbrev pub finish_row : List (List Text) → List Text → Text → List (List Text)
finish_row rows [] [] = rows
finish_row rows [] (c ∷ field) = rows ++ ((c ∷ field) ∷ []) ∷ []
finish_row rows (f ∷ row) field = rows ++ ((f ∷ row) ++ field ∷ []) ∷ []

unfoldable pub finish : Scan → List (List Text)
finish s = finish_row s.rows s.row s.field

-- The `while` loop.
unfoldable pub scan : Scan → Text → List (List Text)
unfolding advance finish
scan s [] = finish s
scan s (c ∷ []) = elim (advance s.in_quotes c none s) [ one s' ↦ finish s' | two s' ↦ finish s' ]
scan s (c ∷ d ∷ rest) = elim (advance s.in_quotes c (some d) s) [
  | one s' ↦ scan s' (d ∷ rest)
  | two s' ↦ scan s' rest
]

abbrev pub start : Scan
start = record { rows = []; row = []; field = []; in_quotes = false }

unfoldable pub parse_csv : Text → List (List Text)
unfolding scan
parse_csv content = scan start content

abbrev pub is_special : ℕ → Bool
is_special c = c == quote || (c == comma || (c == line_feed || c == carriage_return))

-- `val.replace(/"/g, '""')`
unfoldable pub double_quotes : Text → Text
double_quotes [] = []
double_quotes (c ∷ rest) =
    if c == quote then quote ∷ quote ∷ double_quotes rest else c ∷ double_quotes rest

unfoldable pub escape_csv_field : Text → Text
unfolding double_quotes
escape_csv_field val = if any is_special val then quote ∷ double_quotes val ++ quote ∷ [] else val

-- `parts.join(separator)`
unfoldable pub join : ℕ → List Text → Text
join separator [] = []
join separator (x ∷ []) = x
join separator (x ∷ y ∷ rest) = x ++ separator ∷ join separator (y ∷ rest)

unfoldable pub csv_line : List Text → Text
unfolding join escape_csv_field
csv_line cells = join comma (map escape_csv_field cells)

unfoldable pub to_csv : List Text → List (List Text) → Text
unfolding csv_line
to_csv headers rows = join line_feed (map csv_line (headers ∷ rows))
