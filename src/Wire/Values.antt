-- ===== src/Wire/Values.antt =====
-- Values of bytes: their bounds, and the bytes of a number.
use native.Mathlib.Nat.{pow-suc, add-zero, zero-add}
use mathlib.Core.List.{reverse, reverse-cons}
use mathlib.Core.Path.{subst}
use native.Mathlib.Numerals.{towards_suc}
use numi_orderbook.Base.{
  ℕ, zero, suc, ◌+◌, ◌*◌, ◌/◌, ◌^◌, ◌<◌, ◌≡◌, refl, ap, List, [], ◌∷◌, ◌++◌, ◌∙◌, arith, length,
  length-append, All,
}
use numi_orderbook.Wire.{IsByte, le_value, be_value, be_from, le_bytes, be_bytes}

pub le_value-lt : (bs : List ℕ) → All IsByte bs → le_value bs < 256 ^ length bs
unfolding le_value
le_value-lt [] h = omega arith
le_value-lt (b ∷ bs) h = omega (arith, le_value-lt bs h.1, h.0, pow-suc 256 (length bs))

pub be_from-lt :
    (bs : List ℕ) (acc k : ℕ)
    → All IsByte bs
    → acc < 256 ^ k
    → be_from acc bs < 256 ^ (k + length bs)
unfolding be_from
be_from-lt [] acc k h lt = rw add-zero lt
be_from-lt (b ∷ bs) acc k h lt =
    let e : k + 1 + length bs ≡ k + suc (length bs) = omega arith in
    subst (λ n. be_from (acc * 256 + b) bs < 256 ^ n) e
      (be_from-lt bs (acc * 256 + b) (k + 1) h.1
        (simp towards_suc (omega (arith, h.0, lt, pow-suc 256 k))))

pub be_value-lt : (bs : List ℕ) → All IsByte bs → be_value bs < 256 ^ length bs
unfolding be_value
be_value-lt bs h =
    subst (λ n. be_from 0 bs < 256 ^ n) (zero-add (length bs)) (be_from-lt bs 0 0 h (omega arith))

pub length-le_bytes : (n k : ℕ) → length (le_bytes n k) ≡ n
unfolding le_bytes
length-le_bytes zero k = refl
length-le_bytes (suc n) k = ap suc (length-le_bytes n (k / 256))

pub le_bytes-IsByte : (n k : ℕ) → All IsByte (le_bytes n k)
unfolding le_bytes
le_bytes-IsByte zero k = tt
le_bytes-IsByte (suc n) k = (omega arith, le_bytes-IsByte n (k / 256))

-- The bytes of a number that fits have its value.
pub le_value-le_bytes : (n k : ℕ) → k < 256 ^ n → le_value (le_bytes n k) ≡ k
unfolding le_bytes le_value
le_value-le_bytes zero k h = omega (arith, h)
le_value-le_bytes (suc n) k h =
    omega (arith, h, pow-suc 256 n, le_value-le_bytes n (k / 256) (omega (arith, h, pow-suc 256 n)))

pub be_from-append :
    (xs : List ℕ) (acc b : ℕ) → be_from acc (xs ++ (b ∷ [])) ≡ be_from acc xs * 256 + b
unfolding be_from
be_from-append [] acc b = refl
be_from-append (x ∷ xs) acc b = be_from-append xs (acc * 256 + x) b

pub be_value-reverse : (bs : List ℕ) → be_value (reverse bs) ≡ le_value bs
unfolding be_value be_from le_value
be_value-reverse [] = refl
be_value-reverse (b ∷ bs) =
    rw (reverse-cons b bs, be_from-append (reverse bs) 0 b) (omega (arith, be_value-reverse bs))

pub be_value-be_bytes : (n k : ℕ) → k < 256 ^ n → be_value (be_bytes n k) ≡ k
unfolding be_bytes
be_value-be_bytes n k h = be_value-reverse (le_bytes n k) ∙ le_value-le_bytes n k h

pub length-reverse : (bs : List ℕ) → length (reverse bs) ≡ length bs
length-reverse [] = refl
length-reverse (b ∷ bs) =
    rw (reverse-cons b bs) (omega (arith, length-append (reverse bs) (b ∷ []), length-reverse bs))

pub length-be_bytes : (n k : ℕ) → length (be_bytes n k) ≡ n
unfolding be_bytes
length-be_bytes n k = length-reverse (le_bytes n k) ∙ length-le_bytes n k
