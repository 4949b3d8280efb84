-- ===== src/Book/Instrument/Settle.antt =====
-- `settle` of src/orderbook.rs and the best price that a side caches.
use mathlib.Core.Path.{subst}
use numi_orderbook.Base.{
  ◌≡◌, refl, ap, sym, ◌∙◌, inl, inr, true, false, Option, none, some, Bool-cases,
}
use numi_orderbook.Base.Int.{ℤ, pos}
use numi_orderbook.Event.{Side, bid, ask}
use numi_orderbook.Book.Node.{Level, Orders, is_empty}
use numi_orderbook.Book.Levels.{Ladder, remove_level_if_empty}
use numi_orderbook.Book.Instrument.{
  InstrumentBook, ladder, with_ladder, best, best_qty, is_best, pick, grid_candidate,
  overflow_candidate, recompute_best_after_removal, settle, refresh_best,
}
use numi_orderbook.Book.Instrument.Valid.{Queues}
use numi_orderbook.Book.Instrument.Rebuild.{with_orders}
use numi_orderbook.Book.Instrument.Recompute.{BestIs, best-with_best}

-- Two books cache the same best price and total of a side.
abbrev pub SameBest : Side → InstrumentBook → InstrumentBook → Type 0
SameBest s b c = (best s b ≡ best s c) × (best_qty s b ≡ best_qty s c)

pub best-with_orders : (s : Side) (o : Orders) (b : InstrumentBook) → SameBest s (with_orders o b) b
unfolding best best_qty
best-with_orders bid o b = (refl, refl)
best-with_orders ask o b = (refl, refl)

pub best-with_ladder :
    (s : Side) (l : Ladder) (b : InstrumentBook) → SameBest s (with_ladder s l b) b
unfolding best best_qty with_ladder
best-with_ladder bid l b = (refl, refl)
best-with_ladder ask l b = (refl, refl)

abbrev picked : Side → Ladder → Option (ℤ × ℤ)
picked s l = pick s (grid_candidate s l.grid) (overflow_candidate s l.overflow)

abbrev price_of : Option (ℤ × ℤ) → Option ℤ
price_of none = none
price_of (some c) = some c.0

abbrev total_of : Option (ℤ × ℤ) → ℤ
total_of none = pos 0
total_of (some c) = c.1

recompute-picked :
    (s : Side) (b : InstrumentBook) (o : Option (ℤ × ℤ))
    → picked s (ladder s b) ≡ o
    → (best s (recompute_best_after_removal s b) ≡ price_of o)
      × (best_qty s (recompute_best_after_removal s b) ≡ total_of o)
unfolding recompute_best_after_removal
recompute-picked s b none e = rw (e, recompute_best_after_removal) (best-with_best s none (pos 0) b)
recompute-picked s b (some (m, t)) e =
    rw (e, recompute_best_after_removal) (best-with_best s (some m) t b)

-- The search reads the ladder of its side only.
pub recompute-SameBest :
    (s : Side) (b c : InstrumentBook)
    → ladder s b ≡ ladder s c
    → SameBest s (recompute_best_after_removal s b) (recompute_best_after_removal s c)
recompute-SameBest s b c e =
    let (p, t) = recompute-picked s b (picked s (ladder s c)) (ap (picked s) e) in
    let (p', t') = recompute-picked s c (picked s (ladder s c)) refl in (p ∙ sym p', t ∙ sym t')

-- The three ways in which `settle` leaves the best price.
pub settle_elsewhere :
    (s : Side) (p : ℤ) (v : Level) (b : InstrumentBook)
    → is_best (best s b) p ≡ false
    → SameBest s (settle s p v b) b
unfolding settle refresh_best
settle_elsewhere s p v b low = elim (Bool-cases (is_empty v)) [
  | inl empty ↦ rw (empty, low) (best-with_ladder s (remove_level_if_empty (ladder s b) p).0 b)
  | inr full ↦ rw (full, low) (refl, refl)
]

pub settle_full :
    (s : Side) (p : ℤ) (v : Level) (b : InstrumentBook)
    → is_best (best s b) p ≡ true
    → is_empty v ≡ false
    → (best s (settle s p v b) ≡ best s b) × (best_qty s (settle s p v b) ≡ v.total_qty)
unfolding settle refresh_best
settle_full s p v b top full = rw (full, top) (best-with_best s (best s b) v.total_qty b)

pub settle_empty :
    (s : Side) (p : ℤ) (v : Level) (b : InstrumentBook)
    → is_best (best s b) p ≡ true
    → is_empty v ≡ true
    → settle s p v b
      ≡ recompute_best_after_removal s (with_ladder s (remove_level_if_empty (ladder s b) p).0 b)
unfolding settle
settle_empty s p v b top empty = rw (empty, top) refl

pub BestIs-move :
    (s : Side) (b : InstrumentBook) (q : Queues) (x y : Option ℤ) (t u : ℤ)
    → x ≡ y
    → t ≡ u
    → BestIs s b q x t
    → BestIs s b q y u
BestIs-move s b q x y t u e f top =
    subst (λ z. BestIs s b q y z) f (subst (λ z. BestIs s b q z t) e top)
