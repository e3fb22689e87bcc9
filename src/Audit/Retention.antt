-- ===== src/Audit/Retention.antt =====
-- What the removal of old entries leaves to the queries.
use node_b2b_orders.Base.{
  ℕ, ◌+◌, ◌*◌, ◌≤◌, String, ◌≡◌, refl, ap, Bool, true, false, not, some, List, [], ◌∷◌, length, ltb,
  leb, ◌==◌, ◌<◌, All, Option, ok, arith, Bool-cases, inl, inr, if◌then◌else◌,
}
use node_b2b_orders.Base.Int.{ℤ, pos}
use node_b2b_orders.Queries.{find_many, find_many-All}
use node_b2b_orders.Audit.{
  AuditRow, AuditQuery, instant, retention_text, selects, query, page, day_ms, is_expired, is_kept,
  purge_expired_entries, cleanup_old_audit_logs,
}

find_many-kept :
    (test kept : AuditRow → Bool) (rows : List AuditRow)
    → ((r : AuditRow) → kept r ≡ false → test r ≡ false)
    → find_many test (find_many kept rows) ≡ find_many test rows
find_many-kept test kept [] h = refl
find_many-kept test kept (r ∷ rows) h = elim (Bool-cases (kept r)) [
  | inl e ↦ rw e (ap (λ rest. if test r then r ∷ rest else rest) (find_many-kept test kept rows h))
  | inr e ↦ rw (e, h r e) (find_many-kept test kept rows h)
]

early :
    (now start at keep : ℕ)
    → now ≤ start + keep
    → not (ltb (at + keep) now) ≡ false
    → leb start at ≡ false
early now start at keep recent old = ground arith

expired-selects :
    (now span start : ℕ) (tenant : String) (q : AuditQuery) (r : AuditRow)
    → q.start_date ≡ some (instant start)
    → now ≤ start + span
    → is_kept now span r ≡ false
    → selects tenant q r ≡ false
unfolding selects
expired-selects now span start tenant q r from recent old =
    rw (selects, from, early now start r.created_at span recent old) refl

-- The rows that a removal leaves, and their number: none is removed twice or counted wrongly.
counted :
    (test : AuditRow → Bool) (rows : List AuditRow)
    → length (find_many test rows) + length (find_many (λ r. not (test r)) rows) ≡ length rows
counted test [] = refl
counted test (r ∷ rows) = elim (Bool-cases (test r)) [
  | inl e ↦ rw e (omega (arith, counted test rows))
  | inr e ↦ rw e (omega (arith, counted test rows))
]

-- What the rows that are kept answer to a query that starts within the retention.
kept-query :
    (now span start : ℕ) (tenant : String) (q : AuditQuery) (rows : List AuditRow)
    → q.start_date ≡ some (instant start)
    → now ≤ start + span
    → query tenant q (find_many (is_kept now span) rows) ≡ query tenant q rows
unfolding query
kept-query now span start tenant q rows from recent = ap (page q) (
    find_many-kept (selects tenant q) (is_kept now span) rows
      (λ r old. expired-selects now span start tenant q r from recent old))

module _ (parse_int milliseconds : String → Option ℤ) (now days span start : ℕ)
    (variable : Option String) (api_reads : parse_int (retention_text variable) ≡ some (pos days))
    (worker_reads : milliseconds (retention_text variable) ≡ some (pos span)) where
  purged_none :
      (rows : List AuditRow)
      → (days == 0) ≡ true
      → purge_expired_entries parse_int now variable rows ≡ ok (0, rows)
  unfolding purge_expired_entries
  purged_none rows off = rw (purge_expired_entries, api_reads, off) refl

  purged :
      (rows : List AuditRow)
      → (days == 0) ≡ false
      → purge_expired_entries parse_int now variable rows
        ≡ ok (
          length (find_many (is_expired now (days * day_ms)) rows),
          find_many (is_kept now (days * day_ms)) rows,
        )
  unfolding purge_expired_entries
  purged rows on = rw (purge_expired_entries, api_reads, on) refl

  cleanup-query :
      (tenant : String) (q : AuditQuery) (rows : List AuditRow) (available : Bool)
      → q.start_date ≡ some (instant start)
      → now ≤ start + span
      → query tenant q (cleanup_old_audit_logs milliseconds now variable available rows)
        ≡ query tenant q rows
  unfolding cleanup_old_audit_logs
  cleanup-query tenant q rows false from recent = elim (Bool-cases (span == 0)) [
    | inl off ↦ rw (cleanup_old_audit_logs, worker_reads, off) refl
    | inr on ↦ rw (cleanup_old_audit_logs, worker_reads, on) refl
  ]
  cleanup-query tenant q rows true from recent = elim (Bool-cases (span == 0)) [
    | inl off ↦ rw (cleanup_old_audit_logs, worker_reads, off) refl
    | inr on ↦
        rw (cleanup_old_audit_logs, worker_reads, on)
          (kept-query now span start tenant q rows from recent)
  ]

  -- Where AUDIT_RETENTION_DAYS, or 90 if it is not set, reads as a number of days that is not negative
  -- for the API and as a number of milliseconds that is not negative for the worker: a query whose
  -- start date lies within the days of the API has the same answer after the removal by the API, and one
  -- whose start date lies within the milliseconds of the worker has the same answer after the removal
  -- by the worker, be the database available or not. The API reports the number of entries that are
  -- gone.
  pub purge-query :
      (tenant : String) (q : AuditQuery) (rows : List AuditRow) (available : Bool)
      → q.start_date ≡ some (instant start)
      → now ≤ start + days * day_ms
      → now ≤ start + span
      → (count : ℕ) × (kept : List AuditRow) × (purge_expired_entries parse_int now variable rows
          ≡ ok (count, kept))
        × (count + length kept ≡ length rows)
        × (query tenant q kept ≡ query tenant q rows)
        × (query tenant q (cleanup_old_audit_logs milliseconds now variable available rows)
            ≡ query tenant q rows)
  purge-query tenant q rows available from recent recent' =
      let worker = cleanup-query tenant q rows available from recent' in
      elim (Bool-cases (days == 0)) [
        | inl off ↦ (0, rows, purged_none rows off, omega arith, refl, worker)
        | inr on ↦ (
          length (find_many (is_expired now (days * day_ms)) rows),
          find_many (is_kept now (days * day_ms)) rows,
          purged rows on,
          counted (is_expired now (days * day_ms)) rows,
          kept-query now (days * day_ms) start tenant q rows from recent,
          worker,
        )
      ]

-- A variable that the API reads as 0 and the worker as some milliseconds, as the text 0.5 does: the API
-- removes nothing, and no row older than these milliseconds survives the worker.
pub purge_differs :
    (parse_int milliseconds : String → Option ℤ) (now span : ℕ) (variable : Option String)
    (rows : List AuditRow)
    → parse_int (retention_text variable) ≡ some (pos 0)
    → milliseconds (retention_text variable) ≡ some (pos span)
    → 0 < span
    → (purge_expired_entries parse_int now variable rows ≡ ok (0, rows))
      × All
          (λ r. is_kept now span r ≡ true)
          (cleanup_old_audit_logs milliseconds now variable true rows)
unfolding purge_expired_entries cleanup_old_audit_logs
purge_differs parse_int milliseconds now span variable rows api worker positive =
    let some_left : (span == 0) ≡ false = ground (arith, positive) in
    (
      rw (purge_expired_entries, api) refl,
      rw (cleanup_old_audit_logs, worker, some_left) (find_many-All (is_kept now span) rows),
    )
