-- ===== src/Book/Instrument/Improve.antt =====
-- `improve_best` at the end of `add` in src/orderbook.rs, on the best price of a side.
use mathlib.Core.Path.{subst}
use numi_orderbook.Base.{
  ℕ, ◌≡◌, ◌≢◌, refl, ap, sym, ◌∙◌, inl, inr, true, false, Option, none, some, List, [], arith,
  Bool-cases,
}
use numi_orderbook.Base.Int.{ℤ, eqb_ℤ, eqb_ℤ_eq, IsI64, wrap}
use numi_orderbook.Event.{Side, bid, ask, side_eq}
use numi_orderbook.Book.Instrument.{InstrumentBook, best, best_qty, beats, improve_best}
use numi_orderbook.Book.Instrument.Valid.{at}
use numi_orderbook.Book.Instrument.BestEntry.{at_least}
use numi_orderbook.Book.Instrument.Best.{at_least_trans}
use numi_orderbook.Book.Instrument.Recompute.{best-with_best}

at_least_refl : (s : Side) (p : ℤ) → at_least s p p ≡ true
at_least_refl bid p = ground arith
at_least_refl ask p = ground arith

at_least-beats : (s : Side) (p r : ℤ) → beats s p r ≡ true → at_least s p r ≡ true
unfolding beats
at_least-beats bid p r h = ground arith
at_least-beats ask p r h = ground arith

at_least_of_not_beats : (s : Side) (p r : ℤ) → beats s p r ≡ false → at_least s r p ≡ true
unfolding beats
at_least_of_not_beats bid p r h = ground arith
at_least_of_not_beats ask p r h = ground arith

pub at-other : (s : Side) (p r : ℤ) → eqb_ℤ p r ≡ false → at s p s r ≡ false
unfolding side_eq
at-other bid p r e = ground arith
at-other ask p r e = ground arith

-- A best price in terms of the sums of queues.
abbrev pub BestOf : Side → (ℤ → List ℕ) → (ℤ → ℤ) → Option ℤ → ℤ → Type 0
BestOf s hs sum none t = (p : ℤ) → IsI64 p → hs p ≡ []
BestOf s hs sum (some p) t =
    IsI64 p
    × (hs p ≢ [])
    × (t ≡ wrap (sum p))
    × ((r : ℤ) → IsI64 r → hs r ≢ [] → at_least s p r ≡ true)

-- The queue at `price` grows, the others stay.
module _ (s : Side) (hs hs' : ℤ → List ℕ) (sum sum' : ℤ → ℤ) (price total : ℤ) (range : IsI64 price)
    (grown : hs' price ≢ []) (total_of : total ≡ wrap (sum' price))
    (same : (r : ℤ) → eqb_ℤ price r ≡ false → hs' r ≡ hs r)
    (same_sum : (r : ℤ) → eqb_ℤ price r ≡ false → IsI64 r → sum' r ≡ sum r) where
  best_is_new :
      ((r : ℤ) → IsI64 r → hs r ≢ [] → at_least s price r ≡ true)
      → BestOf s hs' sum' (some price) total
  best_is_new h = (
    range,
    grown,
    total_of,
    λ r hr some_orders. elim (Bool-cases (eqb_ℤ price r)) [
      | inl e ↦ subst (λ x. at_least s price x ≡ true) (eqb_ℤ_eq price r e) (at_least_refl s price)
      | inr ne ↦ h r hr (λ empty. some_orders (same r ne ∙ empty))
    ],
  )

  best_stays :
      (p t : ℤ)
      → eqb_ℤ price p ≡ false
      → at_least s p price ≡ true
      → BestOf s hs sum (some p) t
      → BestOf s hs' sum' (some p) t
  best_stays p t ne better (hp, some_orders, total_is, top) = (
    hp,
    λ empty. some_orders (sym (same p ne) ∙ empty),
    total_is ∙ ap wrap (sym (same_sum p ne hp)),
    λ r hr some_r. elim (Bool-cases (eqb_ℤ price r)) [
      | inl e ↦ subst (λ x. at_least s p x ≡ true) (eqb_ℤ_eq price r e) better
      | inr other ↦ top r hr (λ empty. some_r (same r other ∙ empty))
    ],
  )

  pub improve-BestOf :
      (b : InstrumentBook) (p : Option ℤ)
      → best s b ≡ p
      → BestOf s hs sum p (best_qty s b)
      → BestOf s hs' sum'
          (best s (improve_best s price total b))
          (best_qty s (improve_best s price total b))
  unfolding improve_best
  improve-BestOf b none e top =
      let (cached, q) = best-with_best s (some price) total b in
      rw (e, improve_best, cached, q) (best_is_new (λ r hr f. absurd (f (top r hr))))
  improve-BestOf b (some p) e top = elim (Bool-cases (beats s price p)) [
    | inl better ↦
        let (cached, q) = best-with_best s (some price) total b in
        let ge = at_least-beats s price p better in
        rw (e, improve_best, better, cached, q)
          (best_is_new (λ r hr f. at_least_trans s price p r ge (top.3 r hr f)))
    | inr worse ↦ elim (Bool-cases (eqb_ℤ p price)) [
      | inl here ↦
          let (cached, q) = best-with_best s (some p) total b in
          rw (e, improve_best, worse, here, cached, q)
            (subst (λ x. BestOf s hs' sum' (some x) total) (sym (eqb_ℤ_eq p price here))
              (best_is_new (λ r hr f.
                subst (λ x. at_least s x r ≡ true) (eqb_ℤ_eq p price here) (top.3 r hr f))))
      | inr other ↦
          rw (improve_stays b p e worse other, e)
            (best_stays p (best_qty s b) (ground arith) (at_least_of_not_beats s price p worse) top)
    ]
  ]
    where
      improve_stays :
          (b : InstrumentBook) (p : ℤ)
          → best s b ≡ some p
          → beats s price p ≡ false
          → eqb_ℤ p price ≡ false
          → improve_best s price total b ≡ b
      improve_stays b p e worse other = rw (e, improve_best, worse, other) refl
