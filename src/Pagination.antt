-- ===== src/Pagination.antt =====
-- The pages of a listing: src/shared/pagination/cursor.ts, and the end of `findAll` of
-- src/interfaces/products/products.service.ts, which the listings of the orders and of the inventory
-- repeat. The text of a cursor (base64url of JSON) is a parameter.
pub mod Tests
pub mod Follow
use node_b2b_orders.Base.{
  ℕ, zero, suc, ◌+◌, String, ◌≡◌, Bool, true, false, Option, none, some, List, [], ◌∷◌, ◌++◌,
  length, take, drop, ltb, min, str_eq, if◌then◌else◌,
}
use node_b2b_orders.Base.Int.{ℤ, pos, negsuc}

pub record DecodedCursor : Type 0 where
  pub id : String
  pub created_at : String

-- `encodeCursor` and `decodeCursor`: what was encoded decodes, and is not empty.
pub record CursorText : Type 1 where
  pub Cursor : Type 0
  pub is_empty : Cursor → Bool
  pub encode_cursor : (id created_at : String) → Cursor
  pub decode_cursor : Cursor → Option DecodedCursor
  pub decode-encode :
      (id created_at : String)
      → decode_cursor (encode_cursor id created_at)
        ≡ some (record { id = id; created_at = created_at })
  pub encode-not_empty : (id created_at : String) → is_empty (encode_cursor id created_at) ≡ false

pub record PaginatedResponse (C A : Type 0) : Type 0 where
  pub data_rows : List A
  pub next_cursor : Option C
  pub has_more : Bool

-- `!raw || raw < 1`, the default 20 and the maximum 100.
unfoldable pub resolve_limit : Option ℤ → ℕ
resolve_limit none = 20
resolve_limit (some (negsuc n)) = 20
resolve_limit (some (pos zero)) = 20
resolve_limit (some (pos (suc n))) = min (suc n) 100

-- `data[data.length - 1]`
abbrev pub last : {A : Type 0} → List A → Option A
last [] = none
last (x ∷ []) = some x
last (x ∷ y ∷ xs) = last (y ∷ xs)

module _ {A : Type 0} (text : CursorText) (id_of created_at : A → String) where
  -- `cursor: { id }` of the query: the rows from that row on, none where there is no such row.
  abbrev pub from_id : String → List A → List A
  from_id id [] = []
  from_id id (x ∷ xs) = let rest = from_id id xs in if str_eq (id_of x) id then x ∷ xs else rest

  -- The rows that the query finds, before `take`: `if (cursor) { ... if (decoded) { ... skip: 1 } }`
  unfoldable pub window : Option text.Cursor → List A → List A
  window none rows = rows
  window (some cursor) rows =
      if text.is_empty cursor then rows else elim (text.decode_cursor cursor) [
        | none ↦ rows
        | some decoded ↦ drop 1 (from_id decoded.id rows)
      ]

  abbrev cursor_after : Option A → Option text.Cursor
  cursor_after none = none
  cursor_after (some x) = some (text.encode_cursor (id_of x) (created_at x))

  -- What is made of the rows found, one more than the limit at most.
  unfoldable pub paginate : (limit : ℕ) → List A → PaginatedResponse text.Cursor A
  paginate limit rows =
      let has_more = ltb limit (length rows) in
      let shown = if has_more then take limit rows else rows in
      record {
        data_rows = shown;
        next_cursor = if has_more then cursor_after (last shown) else none;
        has_more = has_more;
      }

  unfoldable pub list_page :
      (raw_limit : Option ℤ) (cursor : Option text.Cursor) (rows : List A)
      → PaginatedResponse text.Cursor A
  unfolding window paginate resolve_limit
  list_page raw_limit cursor rows =
      let limit = resolve_limit raw_limit in paginate limit (take (suc limit) (window cursor rows))
