-- ===== src/Import/Outcome.antt =====
-- What an import does to the database, and what it reports.
use node_b2b_orders.Base.{
  ℕ, ◌+◌, ◌≤◌, String, ◌≡◌, refl, false, List, [], ◌∷◌, ◌++◌, length, arith, Error, Result, ok, err,
  ltb, Bool-cases, inl, inr,
}
use node_b2b_orders.Database.{Database}
use node_b2b_orders.World.{World, Exec, ◌>>◌}
use node_b2b_orders.Services.{template}
use node_b2b_orders.Import.{
  ImportError, ImportResult, Check, Checked, check_rows, Caller, for_each, failed, attempt,
  import_rows,
}

check_rows-length :
    {R A : Type 0} (check : R → Check A) (i : ℕ) (rows : List R)
    → length (check_rows check i rows).valid + length (check_rows check i rows).errors ≡ length rows
unfolding check_rows
check_rows-length check i [] = omega arith
check_rows-length check i (r ∷ rows) = ground (arith, check_rows-length check (i + 1) rows)

module _ {db : Database} where
  abbrev pub audited : Caller → (action target : String) → World db → World db
  audited caller action target w = record w {
    audit =
        w.audit
        ++ record {
          tenant_id = caller.tenant_id;
          actor_sub = caller.actor_sub;
          action = action;
          target = template (target ∷ ":" ∷ caller.tenant_id ∷ []);
          correlation_id = caller.correlation_id;
        }
          ∷ [];
  }

  -- What `attempt` gives, from the run of all valid rows.
  abbrev pub attempted :
      (message : Error → String) (valid : ℕ)
      → World db
      → Result (Unit {0}) × World db
      → Result (ℕ × List ImportError) × World db
  attempted message valid w (ok _, w') = (ok (valid, []), w')
  attempted message valid w (err e, w') = (ok (0, failed message e ∷ []), w)

  attempt_lem :
      {A : Type 0} (message : Error → String) (apply : A → Exec db (Unit {0})) (valid : List A)
      (w : World db)
      → attempt message apply valid w ≡ attempted message (length valid) w (for_each apply valid w)
  unfolding attempt for_each
  attempt_lem message apply [] w = refl
  attempt_lem message apply (a ∷ valid) w = ground arith

  -- What the import gives, from what `attempt` gave.
  abbrev finished :
      (caller : Caller) (action target : String) (total : ℕ) (errors : List ImportError)
      → Result (ℕ × List ImportError) × World db
      → Result ImportResult × World db
  finished caller action target total errors (ok (imported, failures), w) = (
    ok (record { total = total; imported = imported; errors = errors ++ failures }),
    audited caller action target w,
  )
  finished caller action target total errors (err e, w) = (err e, w)

  import_rows-few :
      {R A : Type 0} (message : Error → String) (caller : Caller) (action target what : String)
      (check : R → Check A) (apply : A → Exec db (Unit {0})) (rows : List R) (w : World db)
      → ltb 1000 (length rows) ≡ false
      → let checked = check_rows check 0 rows in
        import_rows message caller action target what check apply rows w
        ≡ finished caller action target
            (length rows)
            checked.errors
            (attempted message (length checked.valid) w (for_each apply checked.valid w))
  unfolding import_rows
  import_rows-few message caller action target what check apply rows w few =
      let checked = check_rows check 0 rows in
      rw few (ground (arith, attempt_lem message apply checked.valid w))

  -- The run of the valid rows decides: where none throws, each is in the database and every row is
  -- counted as imported or has an error; where one throws, nothing is written but the audit log.
  abbrev pub IsOutcome :
      {A : Type 0} (message : Error → String) (caller : Caller) (action target : String) (total : ℕ)
      (checked : Checked A)
      → World db
      → Result (Unit {0}) × World db
      → Result ImportResult × World db
      → Type 0
  IsOutcome message caller action target total checked w (ok _, w1) (r, w') =
      (r
        ≡ ok (record {
          total = total;
          imported = length checked.valid;
          errors = checked.errors ++ [];
        }))
      × (w' ≡ audited caller action target w1)
      × (length checked.valid + length checked.errors ≡ total)
  IsOutcome message caller action target total checked w (err e, w1) (r, w') =
      (r
        ≡ ok (record {
          total = total;
          imported = 0;
          errors = checked.errors ++ failed message e ∷ [];
        }))
      × (w' ≡ audited caller action target w)

  outcome :
      {A : Type 0} (message : Error → String) (caller : Caller) (action target : String) (total : ℕ)
      (checked : Checked A) (w : World db) (run : Result (Unit {0}) × World db)
      → length checked.valid + length checked.errors ≡ total
      → IsOutcome message caller action target total checked w run (
          finished caller action target total checked.errors
            (attempted message (length checked.valid) w run))
  outcome message caller action target total checked w (ok u, w1) n = (refl, refl, n)
  outcome message caller action target total checked w (err e, w1) n = (refl, refl)

  -- An import of at most 1000 rows is one of two things. Where no valid row throws, the database is as
  -- the valid rows left it, one after the other, with an audit entry, and valid rows and rows with an
  -- error together are the rows. Where one throws, nothing is imported and only the audit entry is
  -- written, and the errors end with that of the transaction.
  pub import_rows_lem :
      {R A : Type 0} (message : Error → String) (caller : Caller) (action target what : String)
      (check : R → Check A) (apply : A → Exec db (Unit {0})) (rows : List R) (w : World db)
      → length rows ≤ 1000
      → let checked = check_rows check 0 rows in
        IsOutcome message caller action target
          (length rows)
          checked
          w
          (for_each apply checked.valid w)
          (import_rows message caller action target what check apply rows w)
  unfolding import_rows
  import_rows_lem message caller action target what check apply rows w h =
      let checked = check_rows check 0 rows in
      rw (import_rows-few message caller action target what check apply rows w (ground arith)) (
        outcome message caller action target (length rows) checked w
          (for_each apply checked.valid w) (check_rows-length check 0 rows))

  then_invariant :
      (P : World db → Type 0) (rest : Exec db (Unit {0})) (run : Result (Unit {0}) × World db)
      → P run.1
      → ((w : World db) → P w → P (rest w).1)
      → P (((λ w. run) >> rest) run.1).1
  then_invariant P rest (ok u, w) h step = step w h
  then_invariant P rest (err e, w) h step = h

  for_each_invariant :
      {A : Type 0} (P : World db → Type 0) (apply : A → Exec db (Unit {0}))
      → ((a : A) (w : World db) → P w → P (apply a w).1)
      → (rows : List A) (w : World db) → P w
      → P (for_each apply rows w).1
  unfolding for_each
  for_each_invariant P apply step [] w h = h
  for_each_invariant P apply step (a ∷ rows) w h =
      then_invariant P (for_each apply rows) (apply a w) (step a w h)
        (λ w'. for_each_invariant P apply step rows w')

  attempted_invariant :
      (P : World db → Type 0) (message : Error → String) (valid : ℕ) (w : World db)
      (run : Result (Unit {0}) × World db)
      → P w
      → P run.1
      → P (attempted message valid w run).1
  attempted_invariant P message valid w (ok u, w') h h' = h'
  attempted_invariant P message valid w (err e, w') h h' = h

  finished_invariant :
      (P : World db → Type 0) (caller : Caller) (action target : String) (total : ℕ)
      (errors : List ImportError) (run : Result (ℕ × List ImportError) × World db)
      → ((w : World db) → P w → P (audited caller action target w))
      → P run.1
      → P (finished caller action target total errors run).1
  finished_invariant P caller action target total errors (ok done, w) log h = log w h
  finished_invariant P caller action target total errors (err e, w) log h = h

  -- A predicate that each row and the audit log keep is kept by an import.
  pub import_rows_invariant :
      {R A : Type 0} (P : World db → Type 0) (message : Error → String) (caller : Caller)
      (action target what : String) (check : R → Check A) (apply : A → Exec db (Unit {0}))
      → ((a : A) (w : World db) → P w → P (apply a w).1)
      → ((w : World db) → P w → P (audited caller action target w))
      → (rows : List R) (w : World db) → P w
      → P (import_rows message caller action target what check apply rows w).1
  unfolding import_rows
  import_rows_invariant P message caller action target what check apply step log rows w h =
      let checked = check_rows check 0 rows in
      elim (Bool-cases (ltb 1000 (length rows))) [
        | inl e ↦ rw e h
        | inr e ↦ rw (import_rows-few message caller action target what check apply rows w e) (
            finished_invariant P caller action target (length rows) checked.errors _ log (
              attempted_invariant P message (length checked.valid) w
                (for_each apply checked.valid w) h
                (for_each_invariant P apply step checked.valid w h)))
      ]
