-- ===== src/Audit.antt =====
-- The audit log: AuditService.query of src/shared/audit, the routes of src/interfaces/audit, and the
-- removal of old entries there and in src/worker/main.ts. The rows are in the order of creation,
-- instants are in milliseconds.
pub mod Retention
mod Tests
use node_b2b_orders.Base.{
  ℕ, ◌+◌, ◌*◌, String, Bool, true, false, not, ◌&&◌, Option, none, some, List, [], ◌∷◌, length,
  take, drop, ltb, leb, str_eq, ◌==◌, Result, ok, err, invalid_value, if◌then◌else◌,
}
use node_b2b_orders.Base.Int.{ℤ, pos, negsuc}
use node_b2b_orders.Queries.{find_many, newest_first}
use node_b2b_orders.Guards.{non_empty}

pub record AuditRow : Type 0 where
  pub tenant_id : Option String
  pub actor_sub : String
  pub action : String
  pub target : String
  pub correlation_id : String
  pub created_at : ℕ

-- What `Number` gives: `other` is a fraction, an infinity or an integer that Prisma takes for no Int.
pub data JsNumber : Type 0 where
  nan other : JsNumber
  integer : ℤ → JsNumber

-- What `new Date` gives: an instant, or an invalid date.
pub data Moment : Type 0 where
  invalid : Moment
  instant : ℕ → Moment

pub record AuditQuery : Type 0 where
  pub action : Option String
  pub target : Option String
  pub start_date : Option Moment
  pub end_date : Option Moment
  pub limit : Option JsNumber
  pub offset : Option JsNumber

abbrev of_tenant : String → Option String → Bool
of_tenant tenant none = false
of_tenant tenant (some t) = str_eq t tenant

-- `if (value) where.column = value`
abbrev named : Option String → String → Bool
named none column = true
named (some value) column = str_eq column value

abbrev not_before : Option Moment → ℕ → Bool
not_before (some (instant start)) at = leb start at
not_before _ at = true

abbrev not_after : Option Moment → ℕ → Bool
not_after (some (instant end)) at = leb at end
not_after _ at = true

-- Prisma throws for an invalid date.
abbrev is_valid : Option Moment → Bool
is_valid (some invalid) = false
is_valid _ = true

-- The `where` of `query`.
unfoldable pub selects : String → AuditQuery → AuditRow → Bool
selects tenant q r =
    not_before q.start_date r.created_at
    && (not_after q.end_date r.created_at
        && (of_tenant tenant r.tenant_id
            && (named (non_empty q.action) r.action && named (non_empty q.target) r.target)))

-- `opts.limit || 50`, `none` where Prisma throws for it
abbrev take_of : Option JsNumber → Option ℤ
take_of none = some (pos 50)
take_of (some nan) = some (pos 50)
take_of (some other) = none
take_of (some (integer (pos n))) = some (pos (if n == 0 then 50 else n))
take_of (some (integer (negsuc n))) = some (negsuc n)

-- `opts.offset || 0`, `none` where Prisma throws for it: a negative `skip` among others
abbrev offset_of : Option JsNumber → Option ℕ
offset_of none = some 0
offset_of (some nan) = some 0
offset_of (some (integer (pos n))) = some n
offset_of (some _) = none

-- `orderBy`, `skip` and `take`. A negative `take` counts from the other end of the order.
abbrev paged : Option ℤ → Option ℕ → List AuditRow → Result (List AuditRow)
paged (some (pos n)) (some m) rows = ok (take n (drop m (newest_first rows)))
paged (some (negsuc n)) (some m) rows = ok (newest_first (take (n + 1) (drop m rows)))
paged _ _ rows = err invalid_value

abbrev pub page : AuditQuery → List AuditRow → Result (List AuditRow)
page q rows =
    if is_valid q.start_date && is_valid q.end_date
    then paged (take_of q.limit) (offset_of q.offset) rows
    else err invalid_value

-- `AuditService.query`
unfoldable pub query : String → AuditQuery → List AuditRow → Result (List AuditRow)
unfolding selects
query tenant q rows = page q (find_many (selects tenant q) rows)

-- What the two routes are given: `number` is `Number`, `date` is `new Date`.
pub record AuditRequest : Type 0 where
  pub action : Option String
  pub start_date : Option String
  pub end_date : Option String
  pub limit : Option String
  pub offset : Option String

module _ (number : String → JsNumber) (date : String → Moment) where
  abbrev date_of : Option String → Option Moment
  date_of text = elim (non_empty text) [ none ↦ none | some s ↦ some (date s) ]

  abbrev number_of : Option String → Option JsNumber
  number_of text = elim (non_empty text) [ none ↦ none | some s ↦ some (number s) ]

  -- `AuditController.list`
  unfoldable pub list_audit : String → AuditRequest → List AuditRow → Result (List AuditRow)
  unfolding query
  list_audit tenant req = query tenant (record {
    action = req.action;
    target = none;
    start_date = date_of req.start_date;
    end_date = date_of req.end_date;
    limit = number_of req.limit;
    offset = number_of req.offset;
  })

  -- `AuditController.export`, the rows that it writes
  unfoldable pub export_audit : String → AuditRequest → List AuditRow → Result (List AuditRow)
  unfolding query
  export_audit tenant req = query tenant (record {
    action = req.action;
    target = none;
    start_date = date_of req.start_date;
    end_date = date_of req.end_date;
    limit = some (integer (pos 10000));
    offset = some (integer (pos 0));
  })

abbrev pub day_ms : ℕ
day_ms = 24 * 60 * 60 * 1000

-- `process.env.AUDIT_RETENTION_DAYS || '90'`
unfoldable pub retention_text : Option String → String
retention_text variable = elim (non_empty variable) [ none ↦ "90" | some text ↦ text ]

-- `createdAt: { lt: cutoff }`, where the cutoff is `span` milliseconds before now
abbrev pub is_expired : (now span : ℕ) → AuditRow → Bool
is_expired now span r = ltb (r.created_at + span) now

abbrev pub is_kept : (now span : ℕ) → AuditRow → Bool
is_kept now span r = not (is_expired now span r)

-- `purgeExpiredEntries`: the number of the removed rows, and the rows that stay. `parse_int` is
-- `parseInt(text, 10)`, `none` where it is NaN or so many days that the cutoff is no date: the deletion
-- throws then.
unfoldable pub purge_expired_entries :
    (parse_int : String → Option ℤ) (now : ℕ) (variable : Option String)
    → List AuditRow
    → Result (ℕ × List AuditRow)
purge_expired_entries parse_int now variable rows = elim (parse_int (retention_text variable)) [
  | none ↦ err invalid_value
  | some (negsuc n) ↦ ok (0, rows)
  | some (pos days) ↦
      if days == 0
      then ok (0, rows)
      else ok (
        length (find_many (is_expired now (days * day_ms)) rows),
        find_many (is_kept now (days * day_ms)) rows,
      )
]

-- `cleanupOldAuditLogs` of the worker. `milliseconds` is `Number(text) * 24 * 60 * 60 * 1000`, rounded
-- up as the date of the cutoff is rounded down, `none` where it is NaN or the cutoff is no date: the
-- deletion throws then. A failure of the deletion, also of the database, is logged, and nothing is
-- removed.
unfoldable pub cleanup_old_audit_logs :
    (milliseconds : String → Option ℤ) (now : ℕ) (variable : Option String) (available : Bool)
    → List AuditRow
    → List AuditRow
cleanup_old_audit_logs milliseconds now variable available rows =
    elim (milliseconds (retention_text variable)) [
      | none ↦ rows
      | some (negsuc n) ↦ rows
      | some (pos span) ↦
          if span == 0 then rows else if available then find_many (is_kept now span) rows else rows
    ]
