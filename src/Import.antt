-- ===== src/Import.antt =====
-- The bulk imports of src/interfaces/import/import.service.ts: the values of a row, the loop that
-- checks the rows, and what the three imports share; their rows are in the children. A number is
-- counted in hundredths: more than two decimals and the infinite values are not represented.
mod Tests
pub mod Parse
pub mod Products
pub mod Stock
pub mod Orders
pub mod Outcome
pub mod Covered
pub mod Imported
pub mod Agreement
pub mod Groups
use node_b2b_orders.Base.{
  ℕ, ◌+◌, ◌/◌, ◌%◌, String, ◌≡◌, Bool, true, false, ◌&&◌, ◌||◌, not, Option, none, some, List, [],
  ◌∷◌, ◌++◌, length, leb, ltb, ◌==◌, str_eq, Error, Result, ok, err, bad_request, if◌then◌else◌,
}
use node_b2b_orders.Csv.{Text}
use node_b2b_orders.Maps.{get}
use node_b2b_orders.Database.{Database}
use node_b2b_orders.World.{
  World, Exec, ◌>>=◌, ◌>>◌, pure, throw, throw_if, gets, modify, transaction,
}
use node_b2b_orders.Services.{template, audit_log}

-- `below n` is -(n + 1) hundredths.
pub data Number : Type 0 where
  nan : Number
  below hundredths : ℕ → Number

-- A value of a parsed row, and a row: its fields by name.
pub data Value : Type 0 where
  text : String → Value
  number : Number → Value
  flag : Bool → Value

abbrev pub Fields : Type 0
Fields = List (String × Value)

-- `trim`, the changes of case, `Number`, `parseInt`, `parseFloat` and the text of an index.
pub record Runtime : Type 0 where
  pub trim : Text → String
  pub to_lower_case : String → String
  pub to_upper_case : String → String
  pub to_number : String → Number
  pub parse_int : String → Number
  pub parse_float : String → Number
  pub index_text : ℕ → String

pub record ImportError : Type 0 where
  pub row : ℕ
  pub message : String

pub record ImportResult : Type 0 where
  pub total : ℕ
  pub imported : ℕ
  pub errors : List ImportError

-- `Number(value)`
abbrev pub number_of : Runtime → Option Value → Number
number_of js none = nan
number_of js (some (text s)) = js.to_number s
number_of js (some (number n)) = n
number_of js (some (flag true)) = hundredths 100
number_of js (some (flag false)) = hundredths 0

-- `value && typeof value === 'string'`
abbrev pub non_empty_text : Option Value → Option String
non_empty_text (some (text s)) = if str_eq s "" then none else some s
non_empty_text _ = none

-- `isNaN(n) || n < 0` is the test of `none`.
abbrev pub non_negative : Number → Option ℕ
non_negative (hundredths n) = some n
non_negative _ = none

-- `isNaN(n) || n < 1 || !Number.isInteger(n)` is the test of `none`.
abbrev pub positive_integer : Number → Option ℕ
positive_integer (hundredths n) = if leb 100 n && n % 100 == 0 then some (n / 100) else none
positive_integer _ = none

-- `if (test) rowErrors.push(message)`
abbrev pub error_unless {ℓ} : {A : Type ℓ} → Option A → String → List String
error_unless none message = message ∷ []
error_unless (some a) message = []

-- `rowErrors.join('; ')`
abbrev pub join_errors : List String → List String
join_errors [] = []
join_errors (e ∷ []) = e ∷ []
join_errors (e ∷ f ∷ rest) = e ∷ "; " ∷ join_errors (f ∷ rest)

-- What the checks of a row find.
pub data Check (A : Type 0) : Type 0 where
  refused : List String → Check A
  accepted : A → Check A

pub record Checked (A : Type 0) : Type 0 where
  pub errors : List ImportError
  pub valid : List A

-- The loop on the rows, from index `i`.
unfoldable pub check_rows : {R A : Type 0} (check : R → Check A) (i : ℕ) → List R → Checked A
check_rows check i [] = record { errors = []; valid = [] }
check_rows check i (r ∷ rows) =
    let rest = check_rows check (i + 1) rows in
    elim (check r) [
      | refused messages ↦ record rest {
        errors = record { row = i + 1; message = template (join_errors messages) } ∷ rest.errors;
      }
      | accepted a ↦ record rest { valid = a ∷ rest.valid }
    ]

-- Who imports, and what the audit log gets.
pub record Caller : Type 0 where
  pub tenant_id : String
  pub actor_sub : String
  pub correlation_id : String

abbrev pub failed : (Error → String) → Error → ImportError
failed message e = record { row = 0; message = template ("Transaction failed: " ∷ message e ∷ []) }

module _ {db : Database} where
  -- `for (const { row } of validRows) { ... }`
  unfoldable pub for_each : {A : Type 0} → (A → Exec db (Unit {0})) → List A → Exec db (Unit {0})
  for_each apply [] = pure tt
  for_each apply (a ∷ rows) = apply a >> for_each apply rows

  -- `try { ... } catch`: what was thrown is a value.
  abbrev pub catch : {A : Type 0} → Exec db A → Exec db (Result A)
  catch m w = let (r, w') = m w in (ok r, w')

  -- The transaction on the valid rows: how many it imported, and its failure.
  unfoldable pub attempt :
      {A : Type 0} (message : Error → String) (apply : A → Exec db (Unit {0}))
      → List A
      → Exec db (ℕ × List ImportError)
  unfolding for_each
  attempt message apply [] = pure (0, [])
  attempt message apply (a ∷ valid) = do
    r ← catch (transaction (for_each apply (a ∷ valid)))
    pure (elim r [ ok _ ↦ (length (a ∷ valid), []) | err e ↦ (0, failed message e ∷ []) ])

  unfoldable pub import_rows :
      {R A : Type 0} (message : Error → String) (caller : Caller) (action target what : String)
      (check : R → Check A) (apply : A → Exec db (Unit {0}))
      → List R
      → Exec db ImportResult
  unfolding check_rows attempt
  import_rows message caller action target what check apply rows = do
    throw_if (ltb 1000 (length rows))
        (bad_request (template ("Maximum 1000 " ∷ what ∷ " per import" ∷ [])))
    let checked = check_rows check 0 rows
    done ← attempt message apply checked.valid
    audit_log caller.tenant_id caller.actor_sub action
        (template (target ∷ ":" ∷ caller.tenant_id ∷ [])) caller.correlation_id
    pure (record { total = length rows; imported = done.0; errors = checked.errors ++ done.1 })
