-- ===== src/Base/Decimal.antt =====
-- `String(n)` of a natural number.
use Prim.Native.Nat.{ℕ, zero, suc, ◌+◌, ◌/◌, ◌%◌, ◌<◌}
use Prim.Native.String.{String, ◌++◌, slice}
use mathlib.Core.Path.{◌≡◌, refl}
use mathlib.Core.Bool.{false}
use mathlib.Core.Logic.{inl, inr}
use native.Mathlib.Omega.{arith}
use node_b2b_orders.Base.Tests.{◌==◌, if◌then◌else◌, Bool-cases}

abbrev digit : ℕ → String
digit d = slice "0123456789" d (d + 1)

-- The digits of a number before the text; a number has at most as many digits as its value plus one.
unfoldable digits : (fuel n : ℕ) → String → String
digits zero n text = text
digits (suc fuel) n text =
    let longer = digit (n % 10) ++ text in
    let rest = digits fuel (n / 10) longer in if n / 10 == 0 then longer else rest

unfoldable pub decimal : ℕ → String
unfolding digits
decimal n = digits (suc n) n ""

smaller : (n f : ℕ) → n < suc f → (n / 10 == 0) ≡ false → n / 10 < f
smaller n f h e = ground arith

-- More fuel than the number changes nothing: `decimal` has enough.
digits_enough : (f g n : ℕ) (text : String) → n < f → n < g → digits f n text ≡ digits g n text
unfolding digits
digits_enough zero g n text h k = absurd (omega arith)
digits_enough (suc f) zero n text h k = absurd (omega arith)
digits_enough (suc f) (suc g) n text h k = elim (Bool-cases (n / 10 == 0)) [
  | inl e ↦ rw e refl
  | inr e ↦ rw e (digits_enough f g (n / 10) _ (smaller n f h e) (smaller n g k e))
]
