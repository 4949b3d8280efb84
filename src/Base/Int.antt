-- ===== src/Base/Int.antt =====
-- Signed integers over the native numbers, under the library's names (its ℤ stands on the unary ℕ),
-- and `i64` arithmetic: an `i64` is an integer in range, and every operation wraps.
use Prim.Native.Nat.{ℕ, suc, ◌+◌, ◌-◌, ◌*◌, ◌/◌, ◌%◌, ◌^◌, ◌≤◌, ◌<◌}
use mathlib.Core.Path.{◌≡◌}
use mathlib.Core.Bool.{Bool, true}
use native.Mathlib.Omega.{arith}
use numi_orderbook.Base.Tests.{ltb, leb, ◌==◌, if◌then◌else◌}

-- `negsuc n` is -(n + 1).
pub data ℤ : Type 0 where
  pos : ℕ → ℤ
  negsuc : ℕ → ℤ

abbrev pub pos_part : ℤ → ℕ
pos_part (pos n) = n
pos_part (negsuc n) = 0

abbrev pub neg_part : ℤ → ℕ
neg_part (pos n) = 0
neg_part (negsuc n) = suc n

-- a - b, as an integer.
abbrev pub sub_ℕ : ℕ → ℕ → ℤ
sub_ℕ a b = if leb b a then pos (a - b) else negsuc (b - a - 1)

infixl 65 ◌+ℤ◌ ◌-ℤ◌
infixl 70 ◌*ℤ◌
infix 50 ◌≤ℤ◌ ◌<ℤ◌
unfoldable pub ◌+ℤ◌ : ℤ → ℤ → ℤ
a +ℤ b = sub_ℕ (pos_part a + pos_part b) (neg_part a + neg_part b)

unfoldable pub ◌-ℤ◌ : ℤ → ℤ → ℤ
a -ℤ b = sub_ℕ (pos_part a + neg_part b) (neg_part a + pos_part b)

unfoldable pub ◌*ℤ◌ : ℤ → ℤ → ℤ
a *ℤ b =
    sub_ℕ (pos_part a * pos_part b + neg_part a * neg_part b)
      (pos_part a * neg_part b + neg_part a * pos_part b)

abbrev pub ◌≤ℤ◌ : ℤ → ℤ → Type 0
a ≤ℤ b = pos_part a + neg_part b ≤ pos_part b + neg_part a

abbrev pub ◌<ℤ◌ : ℤ → ℤ → Type 0
a <ℤ b = pos_part a + neg_part b < pos_part b + neg_part a

abbrev pub ltb_ℤ : ℤ → ℤ → Bool
ltb_ℤ a b = ltb (pos_part a + neg_part b) (pos_part b + neg_part a)

abbrev pub leb_ℤ : ℤ → ℤ → Bool
leb_ℤ a b = leb (pos_part a + neg_part b) (pos_part b + neg_part a)

abbrev pub eqb_ℤ : ℤ → ℤ → Bool
eqb_ℤ a b = (pos_part a + neg_part b) == (pos_part b + neg_part a)

-- One lemma for each operation lets `omega` work with the operations shut.
pub +ℤ_parts :
    (a b : ℤ)
    → pos_part (a +ℤ b) + neg_part a + neg_part b ≡ neg_part (a +ℤ b) + pos_part a + pos_part b
unfolding ◌+ℤ◌
+ℤ_parts a b = ground arith

pub -ℤ_parts :
    (a b : ℤ)
    → pos_part (a -ℤ b) + neg_part a + pos_part b ≡ neg_part (a -ℤ b) + pos_part a + neg_part b
unfolding ◌-ℤ◌
-ℤ_parts a b = ground arith

pub eq_of_parts : (a b : ℤ) → pos_part a + neg_part b ≡ pos_part b + neg_part a → a ≡ b
eq_of_parts a b h = ground arith

pub ruleset int_laws = (arith, +ℤ_parts, -ℤ_parts, eq_of_parts)

pub eqb_ℤ_eq : (a b : ℤ) → eqb_ℤ a b ≡ true → a ≡ b
eqb_ℤ_eq a b h = ground arith

pub eqb_ℤ_refl : (a : ℤ) → eqb_ℤ a a ≡ true
eqb_ℤ_refl a = ground arith

-- Rust's `%` (the remainder has the dividend's sign), `/` (towards zero) and `rem_euclid`. Rust
-- panics at a divisor 0.
abbrev pub abs : ℤ → ℕ
abs a = pos_part a + neg_part a

abbrev pub neg_ℕ : ℕ → ℤ
neg_ℕ n = sub_ℕ 0 n

unfoldable pub rem : ℤ → ℤ → ℤ
rem (pos n) b = pos (n % abs b)
rem (negsuc n) b = neg_ℕ (suc n % abs b)

unfoldable pub quot : ℤ → ℤ → ℤ
quot (pos n) (pos m) = pos (n / m)
quot (pos n) (negsuc m) = neg_ℕ (n / suc m)
quot (negsuc n) (pos m) = neg_ℕ (suc n / m)
quot (negsuc n) (negsuc m) = pos (suc n / suc m)

unfoldable pub rem_euclid : ℤ → ℤ → ℤ
unfolding rem
rem_euclid a b = let r = rem a b in if ltb_ℤ r (pos 0) then r +ℤ pos (abs b) else r

-- The bit pattern of an integer, modulo 2 ^ 64 (`as u64`), and the `i64` of a bit pattern.
unfoldable pub bits : ℤ → ℕ
bits (pos n) = n % 2 ^ 64
bits (negsuc n) = 2 ^ 64 - 1 - n % 2 ^ 64

unfoldable pub of_bits : ℕ → ℤ
of_bits w = if ltb w (2 ^ 63) then pos w else negsuc (2 ^ 64 - 1 - w)

-- The `i64` that a true result wraps to.
unfoldable pub wrap : ℤ → ℤ
unfolding bits of_bits
wrap a = of_bits (bits a)

abbrev pub IsI64 : ℤ → Type 0
IsI64 a = (pos_part a < 2 ^ 63) × (neg_part a ≤ 2 ^ 63)

unfoldable pub add_i64 : ℤ → ℤ → ℤ
unfolding wrap ◌+ℤ◌
add_i64 a b = wrap (a +ℤ b)

unfoldable pub sub_i64 : ℤ → ℤ → ℤ
unfolding wrap ◌-ℤ◌
sub_i64 a b = wrap (a -ℤ b)

unfoldable pub mul_i64 : ℤ → ℤ → ℤ
unfolding wrap ◌*ℤ◌
mul_i64 a b = wrap (a *ℤ b)

pub bits_lt : (a : ℤ) → bits a < 2 ^ 64
unfolding bits
bits_lt a = ground arith

pub wrap-IsI64 : (a : ℤ) → IsI64 (wrap a)
unfolding wrap
wrap-IsI64 a = ground arith

pub wrap_of_IsI64 : (a : ℤ) → IsI64 a → wrap a ≡ a
unfolding wrap
wrap_of_IsI64 a h = ground arith

pub bits-wrap : (a : ℤ) → bits (wrap a) ≡ bits a
unfolding wrap
bits-wrap a = ground arith

pub bits-add : (a b : ℤ) → bits (a +ℤ b) ≡ (bits a + bits b) % 2 ^ 64
unfolding bits ◌+ℤ◌
bits-add a b = ground arith

pub bits-sub : (a b : ℤ) → bits (a -ℤ b) ≡ (bits a + (2 ^ 64 - bits b)) % 2 ^ 64
unfolding bits ◌-ℤ◌
bits-sub a b = ground arith

pub eq_of_bits : (a b : ℤ) → IsI64 a → IsI64 b → bits a ≡ bits b → a ≡ b
unfolding bits
eq_of_bits a b ha hb h = ground arith
