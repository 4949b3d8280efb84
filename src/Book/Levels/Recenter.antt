-- ===== src/Book/Levels/Recenter.antt =====
-- What a new window does to the levels of the overflow map that it covers.
use numi_orderbook.Base.{
  ℕ, suc, ◌<◌, ◌≡◌, refl, ap, ◌∙◌, inl, inr, true, Option, none, some, List, [], ◌∷◌, arith,
  Bool-cases, Option-cases, length,
}
use numi_orderbook.Base.Int.{ℤ}
use numi_orderbook.Base.Dict.{find, find-put_ne}
use numi_orderbook.Book.Node.{Level, empty_level, is_empty}
use numi_orderbook.Book.Grid.{PriceGrid, price_to_idx, slot_price, init_around}
use numi_orderbook.Book.Grid.Index.{slot_at-with_slot_self}
use numi_orderbook.Book.Levels.{
  Ladder, Overflow, slot, read, write, evict, or_insert, recenter_grid, ensure_level_mut_in_grid,
}
use numi_orderbook.Book.Levels.Found.{in_grid_new, ensure_in, recentered-NoSlots}

-- An entry of the overflow map survives.
or_insert-find :
    (price q : ℤ) (lvl v : Level) (o : Overflow)
    → find q o ≡ some v
    → find q (or_insert price lvl o) ≡ some v
unfolding or_insert
or_insert-find price q lvl v o e = elim (Option-cases (find price o)) [
  | inr (w, f) ↦ rw (f, or_insert) e
  | inl f ↦
      rw (f, or_insert)
        (find-put_ne price q lvl o (λ same. ground (arith, ap (λ r. find r o) same)) ∙ e)
]

evict-find :
    (g : PriceGrid) (i : ℕ) (slots : List (Option Level)) (o : Overflow) (q : ℤ) (v : Level)
    → find q o ≡ some v
    → find q (evict g i slots o) ≡ some v
unfolding evict
evict-find g i [] o q v e = e
evict-find g i (none ∷ slots) o q v e = evict-find g (suc i) slots o q v e
evict-find g i (some lvl ∷ slots) o q v e =
    evict-find g (suc i) slots _ q v (elim (Bool-cases (is_empty lvl)) [
      | inl f ↦ rw f e
      | inr f ↦ rw f (or_insert-find (slot_price g i) q lvl v o e)
    ])

initialized_recenter : (l : Ladder) (price : ℤ) → (recenter_grid l price).grid.initialized ≡ true
unfolding recenter_grid init_around
initialized_recenter l price = refl

overflow_kept :
    (l : Ladder) (price q : ℤ) (v : Level)
    → find q l.overflow ≡ some v
    → find q (recenter_grid l price).overflow ≡ some v
unfolding recenter_grid
overflow_kept l price q v e = evict-find l.grid 0 l.grid.slots l.overflow q v e

price_to_idx_lt : (g : PriceGrid) (q : ℤ) (i : ℕ) → price_to_idx g q ≡ some i → i < length g.slots
unfolding price_to_idx
price_to_idx_lt g q i e = ground arith

-- Where a new window covers the price of a level in the overflow map, the next order at that price
-- gets a new empty level in the grid while the old level stays in the overflow map: the price has two
-- levels.
pub recenter_splits :
    (l : Ladder) (price q : ℤ) (v : Level) (i : ℕ)
    → find q l.overflow ≡ some v
    → price_to_idx (recenter_grid l price).grid q ≡ some i
    → (l' : Ladder) × (ensure_level_mut_in_grid (recenter_grid l price) q ≡ some (l', slot i))
      × (read l' (slot i) ≡ some empty_level)
      × (find q l'.overflow ≡ some v)
unfolding read write
recenter_splits l price q v i old covered =
    let r = recenter_grid l price in
    let l' = write r (slot i) empty_level in
    (
      l',
      ensure_in r q i covered
          ∙ in_grid_new r q i (initialized_recenter l price) covered (recentered-NoSlots l price i),
      slot_at-with_slot_self r.grid i (some empty_level) (price_to_idx_lt r.grid q i covered),
      overflow_kept l price q v old,
    )
