-- ===== src/Base/Slots.antt =====
-- The slot of a number in a ring: its remainder by the size of the ring.
use Prim.Native.Nat.{ℕ, ◌+◌, ◌/◌, ◌%◌, ◌≤◌, ◌<◌}
use mathlib.Core.Path.{◌≡◌, sym}
use mathlib.Core.Logic.{inl, inr}
use native.Mathlib.Omega.{arith}
use native.Mathlib.Nat.{mod-add-div, mul-le-mul_left, mul-add}
use numi_orderbook.Base.Tests.{ltb, leb, Bool-cases}

-- Two numbers less than `c` apart with one remainder are one.
same_slot-le : (n c a b : ℕ) → 0 < c → n ≤ a → a ≤ b → b < n + c → a % c ≡ b % c → a ≡ b
same_slot-le n c a b pos na ab bc e = elim (Bool-cases (ltb (a / c) (b / c))) [
  | inl lt ↦
      let above : a / c + 1 ≤ b / c = ground arith in
      absurd (
        omega (
          arith,
          mod-add-div a c,
          mod-add-div b c,
          e,
          mul-le-mul_left c above,
          mul-add c (a / c) 1,
        ))
  | inr ge ↦
      let below : b / c ≤ a / c = ground arith in
      omega (arith, mod-add-div a c, mod-add-div b c, e, mul-le-mul_left c below)
]

pub same_slot :
    (n c a b : ℕ) → 0 < c → n ≤ a → n ≤ b → a < n + c → b < n + c → a % c ≡ b % c → a ≡ b
same_slot n c a b pos na nb ac bc e = elim (Bool-cases (leb a b)) [
  | inl le ↦ same_slot-le n c a b pos na (ground arith) bc e
  | inr gt ↦ sym (same_slot-le n c b a pos nb (ground arith) ac (sym e))
]
