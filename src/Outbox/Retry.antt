-- ===== src/Outbox/Retry.antt =====
-- Retries of an outbox row: the backoff, the end states, and what a late claim can undo.
use node_b2b_orders.Base.{
  if◌then◌else◌, ℕ, zero, suc, ◌+◌, ◌*◌, ◌≤◌, ◌<◌, min, String, ◌≡◌, ◌≢◌, inl, inr, refl, Bool,
  true, false, none, List, [], ◌∷◌, arith, Bool-cases,
}
use node_b2b_orders.Outbox.{
  OutboxRow, OutboxStatus, pending, sent, dead, is_pending, is_due, backoff_seconds, claim,
  on_failed, dispatch, rounds,
}

backoff_cap : (n : ℕ) → 6 ≤ n → backoff_seconds n ≡ 60
unfolding backoff_seconds
backoff_cap n h = let six : min 6 n ≡ 6 = omega arith in rw six

-- The wait after a failed attempt is at least two seconds and at most a minute, and it never shrinks
-- from one attempt to the next.
pub backoff_bounds :
    (n : ℕ)
    → (2 ≤ backoff_seconds (suc n))
      × (backoff_seconds (suc n) ≤ 60)
      × (backoff_seconds (suc n) ≤ backoff_seconds (suc (suc n)))
unfolding backoff_seconds
backoff_bounds zero = omega arith
backoff_bounds (suc zero) = omega arith
backoff_bounds (suc (suc zero)) = omega arith
backoff_bounds (suc (suc (suc zero))) = omega arith
backoff_bounds (suc (suc (suc (suc zero)))) = omega arith
backoff_bounds (suc (suc (suc (suc (suc n))))) =
    let now = backoff_cap (suc (suc (suc (suc (suc (suc n)))))) (omega arith) in
    let next = backoff_cap (suc (suc (suc (suc (suc (suc (suc n))))))) (omega arith) in
    omega (arith, now, next)

-- The status and the attempts of a row agree.
abbrev pub AttemptsFit : OutboxStatus → ℕ → Type 0
AttemptsFit pending n = n < 7
AttemptsFit sent n = n < 7
AttemptsFit dead n = n ≡ 7

abbrev pub IsValid : OutboxRow → Type 0
IsValid row = AttemptsFit row.status row.attempts

dispatch-IsValid :
    (worker : String) (now : ℕ) (published : Bool) (row : OutboxRow)
    → row.status ≡ pending
    → IsValid row
    → IsValid (dispatch worker now published row row)
unfolding dispatch
dispatch-IsValid worker now published row p v = ground arith

due_pending : (now : ℕ) (row : OutboxRow) → is_due now row ≡ true → row.status ≡ pending
unfolding is_due
due_pending now row h = ground arith

-- A row that is sent or dead is never touched again by a round that reads it then.
rounds_done :
    (worker : String) (events : List (ℕ × Bool)) (row : OutboxRow)
    → is_pending row.status ≡ false
    → rounds worker events row ≡ row
unfolding rounds
rounds_done worker [] row h = refl
rounds_done worker ((now, published) ∷ rest) row h = rw not_due (rounds_done worker rest row h)
  where
    not_due : is_due now row ≡ false
    not_due = unfold is_due in ground arith

round-IsValid :
    (worker : String) (now : ℕ) (published : Bool) (row : OutboxRow)
    → IsValid row
    → IsValid (if is_due now row then dispatch worker now published row row else row)
round-IsValid worker now published row v = elim (Bool-cases (is_due now row)) [
  | inl due ↦ rw due (dispatch-IsValid worker now published row (due_pending now row due) v)
  | inr idle ↦ rw idle v
]

-- A row that is pending or sent with less than seven attempts, or dead with seven, is so again after any
-- rounds, at any instants and with any outcomes of the publishes.
pub rounds-IsValid :
    (worker : String) (events : List (ℕ × Bool)) (row : OutboxRow)
    → IsValid row
    → IsValid (rounds worker events row)
unfolding rounds
rounds-IsValid worker [] row v = v
rounds-IsValid worker ((now, published) ∷ rest) row v =
    rounds-IsValid worker rest
      (if is_due now row then dispatch worker now published row row else row)
      (round-IsValid worker now published row v)

-- A publish that fails at the instant `now` leaves a pending row that is not due before the backoff of
-- its attempts is over, unless it was the seventh, after which it never is.
pub failed_waits :
    (worker : String) (now later : ℕ) (row : OutboxRow)
    → is_due later (dispatch worker now false row row) ≡ true
    → (now + backoff_seconds (row.attempts + 1) * 1000 ≤ later) × (row.attempts + 1 < 7)
unfolding dispatch is_due on_failed
failed_waits worker now later row due = ground arith

-- The claim tests the lock alone. A worker that read a free row, and claims it after another worker
-- has sent it, gets it, and publishes the event once more; if that publish fails, the sent row is
-- pending again, or dead.
pub sent_row_claimed_again :
    (first second : String) (sent_at now : ℕ) (row : OutboxRow)
    → row.locked_at ≡ none
    → ((dispatch first sent_at true row row).status ≡ sent)
      × (claim second now row (dispatch first sent_at true row row) ≢ none)
      × ((dispatch second now false row (dispatch first sent_at true row row)).status ≢ sent)
unfolding dispatch
sent_row_claimed_again first second sent_at now row free =
    (ground arith, ground arith, ground arith)
