-- ===== src/Outbox.antt =====
-- `dispatchOutbox` of src/worker/main.ts: the rows of the outbox, one round of the loop over a batch,
-- and the retries. The client of the message broker is the outcome of each publish; instants are in
-- milliseconds.
mod Tests
pub mod Retry
use text.Mathlib.Text.{starts_with}
use node_b2b_orders.Base.{
  ℕ, zero, suc, ◌+◌, ◌*◌, ◌-◌, ◌^◌, min, String, Bool, true, false, ◌&&◌, ◌||◌, Option, none, some,
  List, [], ◌∷◌, take, leb, ltb, ◌==◌, str_eq, if◌then◌else◌,
}

pub data OutboxStatus : Type 0 where
  pending sent dead : OutboxStatus

pub record OutboxRow : Type 0 where
  pub id : String
  pub event_type : String
  pub status : OutboxStatus
  pub attempts : ℕ
  pub available_at : ℕ
  pub locked_at : Option ℕ
  pub locked_by : Option String

abbrev pub is_pending : OutboxStatus → Bool
is_pending pending = true
is_pending _ = false

-- `OR: [{ lockedAt: null }, { lockedAt: { lt: stale } }]`
abbrev pub is_free : ℕ → Option ℕ → Bool
is_free stale none = true
is_free stale (some at) = ltb at stale

-- The `where` of the batch, with `stale = now - 60_000`.
unfoldable pub is_due : ℕ → OutboxRow → Bool
is_due now ev =
    is_pending ev.status && leb ev.available_at now && is_free (now - 60000) ev.locked_at

-- `Math.min(60, 2 ** Math.min(6, attempts))`
unfoldable pub backoff_seconds : ℕ → ℕ
backoff_seconds attempts = min 60 (2 ^ min 6 attempts)

abbrev pub max_attempts : ℕ
max_attempts = 7

-- The claim, `updateMany({ where: { id, lockedAt: ev.lockedAt } })`: it fails where another worker has
-- locked the row since the batch was read.
abbrev same_lock : Option ℕ → Option ℕ → Bool
same_lock none none = true
same_lock (some a) (some b) = a == b
same_lock _ _ = false

unfoldable pub claim : (worker : String) (now : ℕ) → (seen row : OutboxRow) → Option OutboxRow
claim worker now seen row =
    if same_lock row.locked_at seen.locked_at
    then some (record row { locked_at = some now; locked_by = some worker })
    else none

-- After the publish has returned.
unfoldable pub on_sent : OutboxRow → OutboxRow
on_sent row = record row { status = sent; locked_at = none; locked_by = none }

-- After the publish has thrown, at the instant `now`; the attempts are those of the row that was read.
unfoldable pub on_failed : ℕ → (seen row : OutboxRow) → OutboxRow
unfolding backoff_seconds
on_failed now seen row =
    let attempts = seen.attempts + 1 in
    record row {
      attempts = attempts;
      locked_at = none;
      locked_by = none;
      available_at = now + backoff_seconds attempts * 1000;
      status = if leb max_attempts attempts then dead else pending;
    }

-- One event of the batch: `published` is the outcome of the publish.
unfoldable pub dispatch :
    (worker : String) (now : ℕ) (published : Bool) → (seen row : OutboxRow) → OutboxRow
unfolding claim on_sent on_failed
dispatch worker now published seen row = elim (claim worker now seen row) [
  | none ↦ row
  | some claimed ↦ if published then on_sent claimed else on_failed now seen claimed
]

-- `ev.eventType.startsWith('payment.') ? PAYMENTS_EXCHANGE : EXCHANGE`
pub target_exchange : (exchange payments_exchange event_type : String) → String
target_exchange exchange payments_exchange event_type =
    if starts_with event_type "payment." then payments_exchange else exchange

-- A row over a list of rounds, each with its instant and the outcome of its publish; a round reads
-- the row only if it is due.
unfoldable pub rounds : (worker : String) → List (ℕ × Bool) → OutboxRow → OutboxRow
unfolding dispatch is_due
rounds worker [] row = row
rounds worker ((now, published) ∷ rest) row =
    rounds worker rest (if is_due now row then dispatch worker now published row row else row)
