-- ===== src/Outbox/Tests.antt =====
-- The theorems on the outbox at concrete rows.
use node_b2b_orders.Base.{◌+◌, ◌*◌, ◌≤◌, ◌<◌, ◌≡◌, ◌≢◌, refl, true, false, none, [], ◌∷◌, arith}
use node_b2b_orders.Outbox.{
  OutboxRow, pending, sent, rounds, dispatch, claim, is_due, backoff_seconds,
}
use node_b2b_orders.Outbox.Retry.{IsValid, rounds-IsValid, failed_waits, sent_row_claimed_again}

abbrev row : OutboxRow
row = record {
  id = "e1";
  event_type = "order.created";
  status = pending;
  attempts = 2;
  available_at = 0;
  locked_at = none;
  locked_by = none;
}

rounds-IsValid_example :
    IsValid (rounds "w" ((100000, false) ∷ (100500, false) ∷ (200000, true) ∷ []) row)
rounds-IsValid_example =
    rounds-IsValid "w" ((100000, false) ∷ (100500, false) ∷ (200000, true) ∷ []) row (omega arith)

failed_waits_example : (100000 + backoff_seconds 3 * 1000 ≤ 108000) × (3 < 7)
unfolding is_due dispatch backoff_seconds
failed_waits_example = failed_waits "w" 100000 108000 row refl

sent_row_claimed_again_example :
    ((dispatch "w" 100000 true row row).status ≡ sent)
    × (claim "v" 100001 row (dispatch "w" 100000 true row row) ≢ none)
    × ((dispatch "v" 100001 false row (dispatch "w" 100000 true row row)).status ≢ sent)
sent_row_claimed_again_example = sent_row_claimed_again "w" "v" 100000 100001 row refl
