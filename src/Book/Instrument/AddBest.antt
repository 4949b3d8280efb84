-- ===== src/Book/Instrument/AddBest.antt =====
-- `add` of src/orderbook.rs and the cached best price of its side.
use mathlib.Core.Path.{subst}
use numi_orderbook.Base.{
  ℕ, ◌≡◌, refl, ap, sym, ◌∙◌, inl, inr, false, Option, none, some, [], ◌∷◌, ◌++◌, arith, ◌==◌,
  ==_eq, Bool-cases, length, length-append,
}
use numi_orderbook.Base.Int.{ℤ, eqb_ℤ, IsI64, wrap}
use numi_orderbook.Base.Dict.{lookup}
use numi_orderbook.Event.{Side}
use numi_orderbook.Book.Node.{Node}
use numi_orderbook.Book.Levels.{get_level}
use numi_orderbook.Book.Levels.Ensure.{Fits}
use numi_orderbook.Book.Queue.{order_of, qty_of, sum_qty}
use numi_orderbook.Book.Queue.Sums.{sum_qty-frame}
use numi_orderbook.Book.Instrument.{InstrumentBook, ladder, best, best_qty, improve_best, add}
use numi_orderbook.Book.Instrument.Fields.{improve_best-SameBook}
use numi_orderbook.Book.Instrument.Valid.{Queues, IsValid, at_refl, LevelIs-node, set_queue}
use numi_orderbook.Book.Instrument.Added.{HasRoom, Added, add-Added}
use numi_orderbook.Book.Instrument.Recompute.{BestIs}
use numi_orderbook.Book.Instrument.Improve.{at-other, BestOf, improve-BestOf}

BestOf-BestIs :
    (s : Side) (b : InstrumentBook) (q : Queues) (p : Option ℤ) (t : ℤ)
    → BestIs s b q p t
    → BestOf s (q s) (λ r. sum_qty b.orders (q s r)) p t
BestOf-BestIs s b q none t top = top
BestOf-BestIs s b q (some p) t top = top

BestIs-BestOf :
    (s : Side) (b : InstrumentBook) (q : Queues) (p : Option ℤ) (t : ℤ)
    → BestOf s (q s) (λ r. sum_qty b.orders (q s r)) p t
    → BestIs s b q p t
BestIs-BestOf s b q none t top = top
BestIs-BestOf s b q (some p) t top = top

pub qty_of-order_of : (m n : Option Node) → order_of m ≡ order_of n → qty_of m ≡ qty_of n
qty_of-order_of none none e = refl
qty_of-order_of none (some n) e = cc
qty_of-order_of (some m) none e = cc
qty_of-order_of (some m) (some n) e = ground arith

-- The sums of the other queues stay.
other_sum :
    (b : InstrumentBook) (q : Queues) (fresh : ℕ) (price qty : ℤ) (side : Side) (r : ℤ)
    → IsValid b q
    → lookup fresh b.orders ≡ none
    → IsI64 r
    → (a : Added b q fresh price qty side)
    → sum_qty a.b₁.orders (q side r) ≡ sum_qty b.orders (q side r)
other_sum b q fresh price qty side r v vacant hr a =
    sum_qty-frame b.orders a.b₁.orders (q side r) (λ k m.
      let (n, there, es, ep) =
        LevelIs-node b.orders side r (get_level (ladder side b) r) k (q side r) (v.levels side r hr)
          m in
      qty_of-order_of (lookup k a.b₁.orders) (lookup k b.orders) (
        a.node k ∙ elim (Bool-cases (fresh == k)) [
          | inl e ↦ absurd (ground (arith, ap (λ j. lookup j b.orders) (==_eq fresh k e)))
          | inr e ↦ rw e refl
        ]))

-- On a valid book whose side caches its best price with the total there (or none for a side without
-- orders), `add` under a vacant key, at an i64 price whose level can be had without moving another one
-- and has room, succeeds and leaves the best price of the side and its total cached.
pub add-BestIs :
    (b : InstrumentBook) (q : Queues) (fresh : ℕ) (price qty : ℤ) (side : Side)
    → IsValid b q
    → IsI64 price
    → lookup fresh b.orders ≡ none
    → Fits (ladder side b) price
    → HasRoom (ladder side b) price
    → BestIs side b q (best side b) (best_qty side b)
    → (b' : InstrumentBook) × (add fresh price qty side b ≡ some (fresh, b'))
      × BestIs side b'
          (set_queue side price (q side price ++ (fresh ∷ [])) q)
          (best side b')
          (best_qty side b')
add-BestIs b q fresh price qty side v range vacant fits room top =
    let a = add-Added b q fresh price qty side v range vacant fits room in
    let b' = improve_best side price a.total a.b₁ in
    let q' = set_queue side price (q side price ++ (fresh ∷ [])) q in
    let o = (improve_best-SameBook side price a.total a.b₁).orders in
    let here : q' side price ≡ q side price ++ (fresh ∷ []) = rw (at_refl side price) refl in
    let away = λ (r : ℤ) (ne : eqb_ℤ price r ≡ false). other_queue r ne in
    let (p_kept, t_kept) = a.best_kept side in
    let old =
      subst (λ t. BestOf side (q side) (λ r. sum_qty b.orders (q side r)) (best side b) t)
        (sym t_kept) (BestOf-BestIs side b q (best side b) (best_qty side b) top) in
    (
      b',
      a.ran,
      BestIs-BestOf side b' q' (best side b') (best_qty side b') (
          subst
            (λ os.
              BestOf side (q' side) (λ r. sum_qty os (q' side r)) (best side b') (best_qty side b'))
            (sym o)
            (improve-BestOf side (q side) (q' side) (λ r. sum_qty b.orders (q side r))
              (λ r. sum_qty a.b₁.orders (q' side r)) price a.total range
              (λ e.
                ground (arith, length-append (q side price) (fresh ∷ []), ap length (sym here ∙ e)))
              (a.total_of ∙ ap (λ hs. wrap (sum_qty a.b₁.orders hs)) (sym here)) away
              (λ r ne hr.
                ap (sum_qty a.b₁.orders) (away r ne)
                ∙ other_sum b q fresh price qty side r v vacant hr a)
              a.b₁ (best side b) p_kept old)),
    )
  where
    other_queue :
        (r : ℤ)
        → eqb_ℤ price r ≡ false
        → set_queue side price (q side price ++ (fresh ∷ [])) q side r ≡ q side r
    other_queue r ne = rw (at-other side price r ne) refl
