-- ===== src/Wire/Slices.antt =====
-- Slices within the bytes do not panic, and what they hold.
use numi_orderbook.Base.{
  ℕ, zero, suc, ◌+◌, ◌-◌, ◌<◌, ◌≤◌, ◌≡◌, refl, ap, ◌∙◌, List, [], ◌∷◌, ◌++◌, arith, length, take,
  drop, length-append,
}
use numi_orderbook.Wire.{ok, slice, index}

pub slice-in :
    (b : List ℕ) (from to : ℕ)
    → from ≤ to
    → to ≤ length b
    → slice b from to ≡ ok (take (to - from) (drop from b))
unfolding slice
slice-in b from to h k = ground arith

pub index-in : (b : List ℕ) (i : ℕ) → i < length b → (v : ℕ) × (index b i ≡ ok v)
unfolding index
index-in [] i h = absurd (omega arith)
index-in (x ∷ b) zero h = (x, refl)
index-in (x ∷ b) (suc i) h = index-in b i (omega arith)

module _ {ℓ} {A : Type ℓ} where
  pub take_append : (xs ys : List A) (n : ℕ) → n ≡ length xs → take n (xs ++ ys) ≡ xs
  take_append [] ys zero e = refl
  take_append [] ys (suc n) e = absurd (omega arith)
  take_append (x ∷ xs) ys zero e = absurd (omega arith)
  take_append (x ∷ xs) ys (suc n) e = ap (◌∷◌ x) (take_append xs ys n (omega arith))

  pub drop_append : (xs ys : List A) (n : ℕ) → n ≡ length xs → drop n (xs ++ ys) ≡ ys
  drop_append [] ys zero e = refl
  drop_append [] ys (suc n) e = absurd (omega arith)
  drop_append (x ∷ xs) ys zero e = absurd (omega arith)
  drop_append (x ∷ xs) ys (suc n) e = drop_append xs ys n (omega arith)

-- The slice of the middle part of three.
pub slice_middle :
    (xs ys zs : List ℕ) (from to : ℕ)
    → from ≡ length xs
    → to ≡ length xs + length ys
    → slice (xs ++ (ys ++ zs)) from to ≡ ok ys
slice_middle xs ys zs from to h k =
    slice-in (xs ++ (ys ++ zs)) from to (omega arith)
      (omega (arith, length-append xs (ys ++ zs), length-append ys zs))
    ∙ ap ok (
        ap (take (to - from)) (drop_append xs (ys ++ zs) from h)
        ∙ take_append ys zs (to - from) (omega arith))
