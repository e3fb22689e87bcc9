-- ===== src/Pagination/Follow.antt =====
-- A client that asks for page after page.
use node_b2b_orders.Base.{
  append_assoc, ℕ, zero, suc, ◌-◌, ◌≤◌, ◌<◌, String, ◌≡◌, ◌≢◌, refl, sym, ap, subst, ◌∙◌, true,
  false, Option, none, some, List, [], ◌∷◌, ◌++◌, length, length-take, take, drop, All, arith, ltb,
  str_eq, eq_iff, eq_refl, Bool-cases, inl, inr,
}
use node_b2b_orders.Base.Int.{ℤ, pos, negsuc}
use node_b2b_orders.Pagination.{
  CursorText, PaginatedResponse, resolve_limit, last, from_id, window, paginate, list_page,
}

pub resolve_limit_bounds : (raw : Option ℤ) → (1 ≤ resolve_limit raw) × (resolve_limit raw ≤ 100)
unfolding resolve_limit
resolve_limit_bounds none = ground arith
resolve_limit_bounds (some (negsuc n)) = ground arith
resolve_limit_bounds (some (pos zero)) = ground arith
resolve_limit_bounds (some (pos (suc n))) = ground arith

-- The identifiers differ from one another.
abbrev pub HasDistinctIds : {A : Type 0} → (A → String) → List A → Type 0
HasDistinctIds id_of [] = Unit
HasDistinctIds id_of (x ∷ xs) = All (λ y. id_of x ≢ id_of y) xs × HasDistinctIds id_of xs

last_append :
    {A : Type 0} (x : A) (xs : List A)
    → (front : List A) × (y : A) × (x ∷ xs ≡ front ++ y ∷ []) × (last (x ∷ xs) ≡ some y)
last_append x [] = ([], x, refl, refl)
last_append x (y ∷ xs) =
    let (front, z, e, l) = last_append y xs in (x ∷ front, z, ap (λ t. x ∷ t) e, l)

last_exists :
    {A : Type 0} (xs : List A)
    → 1 ≤ length xs
    → (front : List A) × (y : A) × (xs ≡ front ++ y ∷ []) × (last xs ≡ some y)
last_exists [] h = absurd (omega (arith, h))
last_exists (x ∷ xs) h = last_append x xs

take-drop {ℓ} : {A : Type ℓ} (n : ℕ) (xs : List A) → xs ≡ take n xs ++ drop n xs
take-drop zero xs = refl
take-drop (suc n) [] = refl
take-drop (suc n) (x ∷ xs) = ap (λ l. x ∷ l) (take-drop n xs)

take-take {ℓ} : {A : Type ℓ} (n : ℕ) (xs : List A) → take n (take (suc n) xs) ≡ take n xs
take-take zero xs = refl
take-take (suc n) [] = refl
take-take (suc n) (x ∷ xs) = ap (λ l. x ∷ l) (take-take n xs)

length_shown {ℓ} :
    {A : Type ℓ} (n : ℕ) (xs : List A) → 1 ≤ n → n < length xs → 1 ≤ length (take n xs)
length_shown n xs h more = omega (arith, length-take n xs)

take_all {ℓ} : {A : Type ℓ} (n : ℕ) (xs : List A) → length xs ≤ n → take n xs ≡ xs
take_all zero [] h = refl
take_all zero (x ∷ xs) h = absurd (omega (arith, h))
take_all (suc n) [] h = refl
take_all (suc n) (x ∷ xs) h = ap (λ l. x ∷ l) (take_all n xs (omega arith))

length-drop {ℓ} : {A : Type ℓ} (n : ℕ) (xs : List A) → length (drop n xs) ≡ length xs - n
length-drop zero xs = omega arith
length-drop (suc n) [] = omega arith
length-drop (suc n) (x ∷ xs) = omega (arith, length-drop n xs)

module _ {A : Type 0} (text : CursorText) (id_of created_at : A → String) where
  All_middle {κ} :
      (P : A → Type κ) (pre : List A) (x : A) (rest : List A) → All P (pre ++ x ∷ rest) → P x
  All_middle P [] x rest h = h.0
  All_middle P (p ∷ pre) x rest h = All_middle P pre x rest h.1

  from_id_middle :
      (pre : List A) (x : A) (rest : List A)
      → HasDistinctIds id_of (pre ++ x ∷ rest)
      → from_id text id_of created_at (id_of x) (pre ++ x ∷ rest) ≡ x ∷ rest
  from_id_middle [] x rest h = rw (eq_refl (id_of x)) refl
  from_id_middle (p ∷ pre) x rest h =
      let other = All_middle (λ y. id_of p ≢ id_of y) pre x rest h.0 in
      let differs : str_eq (id_of p) (id_of x) ≡ false =
        ground (arith, other, eq_iff (id_of p) (id_of x)) in
      rw differs (from_id_middle pre x rest h.1)

  -- The last page, and a page before it.
  page_last :
      (limit : ℕ) (found : List A)
      → length found ≤ limit
      → paginate text id_of created_at limit (take (suc limit) found)
        ≡ record { data_rows = found; next_cursor = none; has_more = false }
  unfolding paginate
  page_last limit found h =
      let e : ltb limit (length found) ≡ false = ground arith in
      rw (take_all (suc limit) found (omega arith), e) refl

  page_more :
      (limit : ℕ) (found front : List A) (y : A)
      → limit < length found
      → last (take limit found) ≡ some y
      → paginate text id_of created_at limit (take (suc limit) found) ≡ record {
        data_rows = take limit found;
        next_cursor = some (text.encode_cursor (id_of y) (created_at y));
        has_more = true;
      }
  unfolding paginate
  page_more limit found front y h l =
      let e : ltb limit (length (take (suc limit) found)) ≡ true =
        rw (length-take (suc limit) found) (ground arith) in
      rw (e, take-take limit found, l) refl

  window-encode :
      (pre : List A) (y : A) (rest : List A)
      → HasDistinctIds id_of (pre ++ y ∷ rest)
      → window text id_of created_at
          (some (text.encode_cursor (id_of y) (created_at y)))
          (pre ++ y ∷ rest)
        ≡ rest
  unfolding window
  window-encode pre y rest h =
      rw
        (
          text.encode-not_empty (id_of y) (created_at y),
          text.decode-encode (id_of y) (created_at y),
          from_id_middle pre y rest h,
        )
        refl

  module _ (raw_limit : Option ℤ) (rows : List A) where
    -- The rows that a client collects that asks for at most `fuel` pages, from a cursor on.
    abbrev pub follow : (fuel : ℕ) (cursor : Option text.Cursor) → List A
    follow zero cursor = []
    follow (suc fuel) cursor =
        let p = list_page text id_of created_at raw_limit cursor rows in
        elim p.next_cursor [
          | none ↦ p.data_rows
          | some next ↦ p.data_rows ++ follow fuel (some next)
        ]

    list_page-last :
        (rest : List A) (cursor : Option text.Cursor)
        → window text id_of created_at cursor rows ≡ rest
        → length rest ≤ resolve_limit raw_limit
        → list_page text id_of created_at raw_limit cursor rows
          ≡ record { data_rows = rest; next_cursor = none; has_more = false }
    unfolding list_page
    list_page-last rest cursor w h = rw w (page_last (resolve_limit raw_limit) rest h)

    list_page-more :
        (rest : List A) (cursor : Option text.Cursor)
        → window text id_of created_at cursor rows ≡ rest
        → resolve_limit raw_limit < length rest
        → (front : List A) × (y : A) × (take (resolve_limit raw_limit) rest ≡ front ++ y ∷ [])
          × (list_page text id_of created_at raw_limit cursor rows ≡ record {
            data_rows = take (resolve_limit raw_limit) rest;
            next_cursor = some (text.encode_cursor (id_of y) (created_at y));
            has_more = true;
          })
    unfolding list_page
    list_page-more rest cursor w more =
        let limit = resolve_limit raw_limit in
        let bounds = resolve_limit_bounds raw_limit in
        let (front, y, split, l) =
          last_exists (take limit rest) (length_shown limit rest bounds.0 more) in
        (front, y, split, rw w (page_more limit rest front y more l))

    split_at :
        (pre rest front : List A) (y : A) (n : ℕ)
        → rows ≡ pre ++ rest
        → take n rest ≡ front ++ y ∷ []
        → rows ≡ (pre ++ front) ++ y ∷ drop n rest
    split_at pre rest front y n e split =
        e
        ∙ ap (λ t. pre ++ t) (take-drop n rest)
        ∙ ap (λ t. pre ++ (t ++ drop n rest)) split
        ∙ ap (λ t. pre ++ t) (append_assoc front (y ∷ []) (drop n rest))
        ∙ sym (append_assoc pre front (y ∷ drop n rest))

    split_rest :
        (pre rest : List A) (n : ℕ)
        → rows ≡ pre ++ rest
        → rows ≡ (pre ++ take n rest) ++ drop n rest
    split_rest pre rest n e =
        e
        ∙ ap (λ t. pre ++ t) (take-drop n rest)
        ∙ sym (append_assoc pre (take n rest) (drop n rest))

    window-next :
        (pre rest front : List A) (y : A) (n : ℕ)
        → HasDistinctIds id_of rows
        → rows ≡ pre ++ rest
        → take n rest ≡ front ++ y ∷ []
        → window text id_of created_at (some (text.encode_cursor (id_of y) (created_at y))) rows
          ≡ drop n rest
    window-next pre rest front y n d e split =
        let at = split_at pre rest front y n e split in
        rw at (window-encode (pre ++ front) y (drop n rest) (subst (HasDistinctIds id_of) at d))

    abbrev continued : ℕ → PaginatedResponse text.Cursor A → List A
    continued fuel p = elim p.next_cursor [
      | none ↦ p.data_rows
      | some next ↦ p.data_rows ++ follow fuel (some next)
    ]

    follow_page :
        (fuel : ℕ) (cursor : Option text.Cursor) (p : PaginatedResponse text.Cursor A)
        → list_page text id_of created_at raw_limit cursor rows ≡ p
        → follow (suc fuel) cursor ≡ continued fuel p
    follow_page fuel cursor p e = ap (λ p. continued fuel p) e

    follow_rest :
        (fuel : ℕ) (pre rest : List A) (cursor : Option text.Cursor)
        → rows ≡ pre ++ rest
        → HasDistinctIds id_of rows
        → length rest ≤ fuel
        → window text id_of created_at cursor rows ≡ rest
        → follow (suc fuel) cursor ≡ rest
    follow_rest zero pre rest cursor e d h w =
        follow_page zero cursor _ (list_page-last rest cursor w (omega (arith, h)))
    follow_rest (suc fuel) pre rest cursor e d h w =
        elim (Bool-cases (ltb (resolve_limit raw_limit) (length rest))) [
          | inr last_page ↦
              follow_page (suc fuel) cursor _ (list_page-last rest cursor w (ground arith))
          | inl longer ↦
              let n = resolve_limit raw_limit in
              let (front, y, split, shown) = list_page-more rest cursor w (ground arith) in
              let next = window-next pre rest front y n d e split in
              let less : length (drop n rest) ≤ fuel =
                omega (arith, resolve_limit_bounds raw_limit, length-drop n rest) in
              let tail =
                follow_rest fuel (pre ++ take n rest) (drop n rest) _ (split_rest pre rest n e) d
                  less next in
              follow_page (suc fuel) cursor _ shown
              ∙ ap (λ t. take n rest ++ t) tail
              ∙ sym (take-drop n rest)
        ]

    -- A client that starts without a cursor, follows `nextCursor` to the end and needs at most one page
    -- more than there are rows, collects exactly the rows of the listing, each once and in their order,
    -- where the identifiers of the rows differ and the rows stay the same, whatever limit it sends.
    pub follow-rows : HasDistinctIds id_of rows → follow (suc (length rows)) none ≡ rows
    unfolding window
    follow-rows d = follow_rest (length rows) [] rows none refl d (omega arith) refl
