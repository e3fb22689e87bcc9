-- ===== src/Products/Controller/Isolation.antt =====
-- The routes of the products touch the products of one tenant only.
use node_b2b_orders.Base.{
  String, ◌≡◌, inl, inr, refl, sym, ap, ◌∙◌, Bool, true, false, not, Option, none, some, List, [],
  ◌∷◌, ◌++◌, All, arith, str_eq, eq_iff, eq_refl, Result, subst, ok, err, Result-cases,
  Option-cases, Bool-cases, if◌then◌else◌,
}
use node_b2b_orders.Queries.{find_many, find_first}
use node_b2b_orders.Pagination.{CursorText}
use node_b2b_orders.Sorting.{Sort}
use node_b2b_orders.Guards.{Request, Policy, User, non_empty}
use node_b2b_orders.Guards.Access.{granted, guards-granted}
use node_b2b_orders.Products.{
  ProductRow, ProductUpdate, has_id, create, find_one, update_row, with_update, deactivated, update,
  soft_delete,
}
use node_b2b_orders.Products.Controller.{
  ProductCall, get_categories, get_price_range, list, get_one, post, patch, remove, permission_of,
  answered, header_of, call_method, serve,
}

abbrev is_other : String → ProductRow → Bool
is_other own p = not (str_eq p.tenant_id own)

-- The rows of the other tenants.
abbrev pub others : String → List ProductRow → List ProductRow
others own rows = find_many (is_other own) rows

-- No row has the identifier.
abbrev Lacks : String → List ProductRow → Type 0
Lacks id rows = All (λ p. str_eq p.id id ≡ false) rows

-- The identifiers differ: they are the primary key.
abbrev pub HasDistinctIds : List ProductRow → Type 0
HasDistinctIds [] = Unit
HasDistinctIds (p ∷ rows) = Lacks p.id rows × HasDistinctIds rows

update_row-Lacks :
    (id : String) (change : ProductRow → ProductRow) (rows : List ProductRow)
    → Lacks id rows
    → update_row id change rows ≡ rows
unfolding update_row
update_row-Lacks id change [] h = refl
update_row-Lacks id change (p ∷ rows) (h, rest) =
    rw h (ap (λ l. p ∷ l) (update_row-Lacks id change rows rest))

find_first-Lacks :
    (own id : String) (rows : List ProductRow)
    → Lacks id rows
    → find_first (has_id own id) rows ≡ none
find_first-Lacks own id [] h = refl
find_first-Lacks own id (p ∷ rows) (h, rest) = rw h (find_first-Lacks own id rows rest)

-- The change of a row of the tenant.
others-update_row :
    (own id : String) (change : ProductRow → ProductRow) (rows : List ProductRow) (p : ProductRow)
    → str_eq own "*" ≡ false
    → ((r : ProductRow) → (change r).tenant_id ≡ r.tenant_id)
    → HasDistinctIds rows
    → find_first (has_id own id) rows ≡ some p
    → others own (update_row id change rows) ≡ others own rows
unfolding update_row
others-update_row own id change [] p star keep distinct found = refl
others-update_row own id change (r ∷ rows) p star keep (lacks, distinct) found =
    elim (Bool-cases (str_eq r.id id)) [
      | inr other ↦
          let later : find_first (has_id own id) rows ≡ some p = ground (arith, found, other) in
          rw other (
            ap (λ l. if is_other own r then r ∷ l else l)
              (others-update_row own id change rows p star keep distinct later))
      | inl here ↦
          let none_left : Lacks id rows =
            subst (λ k. Lacks k rows) ((eq_iff r.id id).0 here) lacks in
          let mine : str_eq r.tenant_id own ≡ true =
            ground (arith, found, here, star, find_first-Lacks own id rows none_left) in
          rw (here, update_row-Lacks id change rows none_left, keep r, mine) refl
    ]

find_one-ok :
    (own id : String) (rows : List ProductRow) (p : ProductRow)
    → find_one own id rows ≡ ok p
    → find_first (has_id own id) rows ≡ some p
unfolding find_one
find_one-ok own id rows p h = elim (Option-cases (find_first (has_id own id) rows)) [
  | inl e ↦ ground (arith, e, h)
  | inr (q, e) ↦ ground (arith, e, h)
]

others-update :
    (own id : String) (u : ProductUpdate) (rows : List ProductRow)
    → str_eq own "*" ≡ false
    → HasDistinctIds rows
    → others own (update own id u rows).1 ≡ others own rows
unfolding update
others-update own id u rows star distinct = elim (Result-cases (find_one own id rows)) [
  | inl (p, e) ↦
      rw (update, e)
        (others-update_row own id (with_update u) rows p star (λ r. refl) distinct
          (find_one-ok own id rows p e))
  | inr (x, e) ↦ rw (update, e) refl
]

others-soft_delete :
    (own id : String) (rows : List ProductRow)
    → str_eq own "*" ≡ false
    → HasDistinctIds rows
    → others own (soft_delete own id rows).1 ≡ others own rows
unfolding soft_delete
others-soft_delete own id rows star distinct = elim (Result-cases (find_one own id rows)) [
  | inl (p, e) ↦
      rw (soft_delete, e)
        (others-update_row own id deactivated rows p star (λ r. refl) distinct
          (find_one-ok own id rows p e))
  | inr (x, e) ↦ rw (soft_delete, e) refl
]

others-append :
    (own : String) (p : ProductRow) (rows : List ProductRow)
    → str_eq p.tenant_id own ≡ true
    → others own (rows ++ p ∷ []) ≡ others own rows
others-append own p [] h = rw h refl
others-append own p (r ∷ rows) h =
    ap (λ l. if is_other own r then r ∷ l else l) (others-append own p rows h)

module _ (order_by : Sort → List ProductRow → List ProductRow) (contains : String → String → Bool)
    (text : CursorText) (is_uuid : String → Bool) (new_id created_at : String) where
  answered_table :
      (r : Result ProductRow) (table : List ProductRow)
      → (answered order_by contains text is_uuid new_id created_at r table).1 ≡ table
  answered_table (ok p) table = refl
  answered_table (err e) table = refl

  others-call_method :
      (own : String) (call : ProductCall text.Cursor) (rows : List ProductRow)
      → str_eq own "*" ≡ false
      → HasDistinctIds rows
      → others own (call_method order_by contains text is_uuid new_id created_at own call rows).1
        ≡ others own rows
  unfolding call_method create
  others-call_method own get_categories rows star distinct = refl
  others-call_method own get_price_range rows star distinct = refl
  others-call_method own (list f cursor sort_by order limit) rows star distinct = refl
  others-call_method own (get_one id) rows star distinct = elim (Bool-cases (is_uuid id)) [
    | inl e ↦ rw (call_method, e) (ap (others own) (answered_table (find_one own id rows) rows))
    | inr e ↦ rw (call_method, e) refl
  ]
  others-call_method own (post d) rows star distinct = others-append own _ rows (eq_refl own)
  others-call_method own (patch id u) rows star distinct = elim (Bool-cases (is_uuid id)) [
    | inl e ↦
        let r = update own id u rows in
        rw (call_method, e)
          (ap (others own) (answered_table r.0 r.1) ∙ others-update own id u rows star distinct)
    | inr e ↦ rw (call_method, e) refl
  ]
  others-call_method own (remove id) rows star distinct = elim (Bool-cases (is_uuid id)) [
    | inl e ↦
        let r = soft_delete own id rows in
        rw (call_method, e)
          (ap (others own) (answered_table r.0 r.1) ∙ others-soft_delete own id rows star distinct)
    | inr e ↦ rw (call_method, e) refl
  ]

  module _ (normal upper : String → String) (parse_array : String → Option (List String))
      (policy : String → Option Policy) where
    header_own :
        (permission : String) (header : Option String) (u : User)
        → str_eq u.tid "*" ≡ false
        → granted normal upper parse_array
            (policy permission)
            permission
            (non_empty header)
            (some u)
          ≡ true
        → elim header [ none ↦ "" | some tenant ↦ tenant ] ≡ u.tid
    header_own permission none u star g = cc
    header_own permission (some tenant) u star g = elim (Bool-cases (str_eq tenant "")) [
      | inl empty ↦ ground (arith, g, empty)
      | inr named ↦ elim (Bool-cases (str_eq u.tid tenant)) [
        | inl same ↦ sym ((eq_iff u.tid tenant).0 same)
        | inr other ↦ ground (arith, g, named, star, other)
      ]
    ]

    -- A request of a user of one tenant, which is not `*`, to any route of the products, with any
    -- header, leaves the products of all other tenants as they are. The condition: the identifiers of
    -- the products differ.
    pub serve-others :
        (req : Request) (u : User) (call : ProductCall text.Cursor) (rows : List ProductRow)
        → req.user ≡ some u
        → str_eq u.tid "*" ≡ false
        → HasDistinctIds rows
        → others u.tid
            (serve order_by contains text is_uuid new_id created_at normal upper parse_array policy
              req call rows).1
          ≡ others u.tid rows
    unfolding serve
    serve-others req u call rows user star distinct =
        elim (guards-granted normal upper parse_array policy (permission_of call) req) [
          | inl (g, e) ↦
              let own : header_of req ≡ u.tid =
                header_own (permission_of call) req.x_tenant_id u star (rw user at g) in
              rw (serve, e, own) (others-call_method u.tid call rows star distinct)
          | inr (g, why, d, e) ↦ rw (serve, e) refl
        ]
