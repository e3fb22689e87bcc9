-- ===== src/Audit/Tests.antt =====
-- A query after a removal.
use node_b2b_orders.Base.{
  ℕ, ◌+◌, ◌*◌, String, ◌≡◌, refl, Option, ok, str_eq, if◌then◌else◌, true, none, some, List, [],
  ◌∷◌, length, arith,
}
use node_b2b_orders.Base.Int.{ℤ, pos}
use node_b2b_orders.Audit.{
  AuditRow, AuditQuery, instant, retention_text, day_ms, query, purge_expired_entries,
  cleanup_old_audit_logs,
}
use node_b2b_orders.Audit.Retention.{purge-query}

abbrev entry : ℕ → AuditRow
entry at = record {
  tenant_id = some "acme";
  actor_sub = "ann";
  action = "order.created";
  target = "Order:o1";
  correlation_id = "x";
  created_at = at;
}

abbrev log : List AuditRow
log = entry 1000 ∷ entry 8000000000 ∷ entry 9000000000 ∷ []

abbrev recent : AuditQuery
recent = record {
  action = none;
  target = none;
  start_date = some (instant 7000000000);
  end_date = none;
  limit = none;
  offset = none;
}

-- The readings of the texts of these runs.
abbrev parse_int : String → Option ℤ
parse_int text = if str_eq text "90" then some (pos 90) else some (pos 0)

abbrev milliseconds : String → Option ℤ
milliseconds text = if str_eq text "90" then some (pos (90 * day_ms)) else some (pos 43200000)

purge-query_example :
    (count : ℕ) × (kept : List AuditRow) × (purge_expired_entries parse_int 9000000000 none log
      ≡ ok (count, kept))
    × (count + length kept ≡ length log)
    × (query "acme" recent kept ≡ query "acme" recent log)
    × (query "acme" recent (cleanup_old_audit_logs milliseconds 9000000000 none true log)
        ≡ query "acme" recent log)
unfolding retention_text
purge-query_example =
    purge-query parse_int milliseconds 9000000000 90 (90 * day_ms) 7000000000 none refl refl "acme"
      recent log true refl (omega arith) (omega arith)
