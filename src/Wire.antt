-- ===== src/Wire.antt =====
-- Byte slices as the decoders read them: a slice or an index out of range panics.
pub mod Slices
pub mod Values
use mathlib.Core.List.{reverse}
use numi_orderbook.Base.{
  ◌/◌, ◌%◌, ℕ, zero, suc, ◌+◌, ◌-◌, ◌*◌, ◌<◌, Bool, true, false, ◌&&◌, Option, none, some, List, [],
  ◌∷◌, leb, if◌then◌else◌, length, get_elem?, take, drop,
}

-- `stuck` is no outcome of the program: a loop of the model ran out of fuel.
pub data Outcome {ℓ} (A : Type ℓ) : Type ℓ where
  ok : A → Outcome A
  panic : Outcome A
  stuck : Outcome A

infixl 5 ◌>>=◌
abbrev pub ◌>>=◌ {ℓ κ} : {A : Type ℓ} {B : Type κ} → Outcome A → (A → Outcome B) → Outcome B
ok a >>= f = f a
panic >>= f = panic
stuck >>= f = stuck

abbrev pub IsByte : ℕ → Type 0
IsByte b = b < 256

-- `&b[from..to]`
unfoldable pub slice : List ℕ → ℕ → ℕ → Outcome (List ℕ)
slice b from to =
    if leb from to && leb to (length b) then ok (take (to - from) (drop from b)) else panic

-- `b[i]`
unfoldable pub index : List ℕ → ℕ → Outcome ℕ
index b i = elim (get_elem? b i) [ none ↦ panic | some v ↦ ok v ]

-- `.unwrap()`
abbrev pub unwrap {ℓ} : {A : Type ℓ} → Option A → Outcome A
unwrap none = panic
unwrap (some a) = ok a

-- `from_le_bytes` and `from_be_bytes`; the second has the value of the bytes before as its start.
unfoldable pub le_value : List ℕ → ℕ
le_value [] = 0
le_value (b ∷ bs) = b + 256 * le_value bs

unfoldable pub be_from : ℕ → List ℕ → ℕ
be_from acc [] = acc
be_from acc (b ∷ bs) = be_from (acc * 256 + b) bs

unfoldable pub be_value : List ℕ → ℕ
unfolding be_from
be_value bs = be_from 0 bs

-- `to_le_bytes` and `to_be_bytes` of a number of so many bytes.
unfoldable pub le_bytes : ℕ → ℕ → List ℕ
le_bytes zero k = []
le_bytes (suc n) k = k % 256 ∷ le_bytes n (k / 256)

unfoldable pub be_bytes : ℕ → ℕ → List ℕ
unfolding le_bytes
be_bytes n k = reverse (le_bytes n k)
