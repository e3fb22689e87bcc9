-- ===== src/Connection/Retries.antt =====
-- How long the worker tries to connect.
use node_b2b_orders.Base.{
  ℕ, zero, suc, ◌+◌, ◌*◌, ◌^◌, ◌≤◌, ◌<◌, ◌≡◌, ◌≢◌, List, [], ◌∷◌, length, All, leb, min, arith,
  Bool-cases, inl, inr,
}
use node_b2b_orders.Connection.{Step, trying, connect, backoff_ms, max_retries}

abbrev IsShort : ℕ → Type 0
IsShort ms = (2000 ≤ ms) × (ms ≤ 30000)

pow_suc : (k : ℕ) → 2 ^ suc k ≡ 2 * 2 ^ k
pow_suc k = omega arith

pow_pos : (k : ℕ) → 1 ≤ 2 ^ k
pow_pos zero = omega arith
pow_pos (suc k) = let h = pow_pos k in omega (arith, pow_suc k)

backoff_ms-IsShort : (n : ℕ) → IsShort (backoff_ms (suc n))
unfolding backoff_ms
backoff_ms-IsShort n =
    let e : min (suc n) 14 ≡ suc (min n 13) = omega arith in
    let p = pow_pos (min n 13) in rw (e, pow_suc (min n 13)) (omega arith, omega arith)

connect_from :
    (attempt : ℕ) (steps : List Step)
    → attempt < max_retries
    → (length (connect attempt steps).1 + attempt < max_retries)
      × All IsShort (connect attempt steps).1
unfolding connect
connect_from attempt [] h = (omega arith, tt)
connect_from attempt (s ∷ rest) h = elim (Bool-cases (leb max_retries (suc attempt))) [
  | inl last ↦ ground arith
  | inr more ↦
      let ih = connect_from (suc attempt) rest (ground arith) in
      let b = backoff_ms-IsShort attempt in ground arith
]

-- The worker sleeps at most nine times while it connects, each time between two seconds and thirty.
pub connect_sleeps :
    (steps : List Step)
    → (length (connect 0 steps).1 ≤ 9) × All (λ ms. (2000 ≤ ms) × (ms ≤ 30000)) (connect 0 steps).1
connect_sleeps steps =
    let (n, short) = connect_from 0 steps (omega arith) in (omega (arith, n), short)

connect_ends :
    (attempt : ℕ) (steps : List Step)
    → max_retries ≤ length steps + attempt
    → attempt < max_retries
    → (connect attempt steps).0 ≢ trying
unfolding connect
connect_ends attempt [] h k = λ e. omega arith
connect_ends attempt (s ∷ rest) h k = elim (Bool-cases (leb max_retries (suc attempt))) [
  | inl last ↦ ground arith
  | inr more ↦ ground (arith, connect_ends (suc attempt) rest (ground arith) (ground arith))
]

-- Ten steps are enough: by then it is connected, or has given up or stopped.
pub connect_terminates : (steps : List Step) → 10 ≤ length steps → (connect 0 steps).0 ≢ trying
connect_terminates steps h = connect_ends 0 steps (omega arith) (omega arith)
