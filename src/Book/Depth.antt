-- ===== src/Book/Depth.antt =====
-- The levels of a book of src/orderbook.rs in the order of their prices: `top_n` of `InstrumentBook`,
-- and the loops over the levels that the exports share.
use numi_orderbook.Base.{
  ℕ, zero, suc, Option, none, some, List, [], ◌∷◌, ◌++◌, if◌then◌else◌, leb, length,
}
use mathlib.Core.List.{reverse}
use numi_orderbook.Base.Int.{ℤ}
use numi_orderbook.Book.Node.{Level, is_empty}
use numi_orderbook.Book.Grid.{PriceGrid, slot_at, slot_price}
use numi_orderbook.Book.Instrument.{InstrumentBook, totals}

-- The non-empty level at index `i`, beside its price.
unfoldable pub occupied : PriceGrid → ℕ → Option (ℤ × Level)
occupied g i = elim (slot_at g i) [
  | none ↦ none
  | some l ↦ if is_empty l then none else some (slot_price g i, l)
]

-- The non-empty levels of the grid in the order of the loops: from the highest index below `n` down,
-- and `n` indices from `i` up.
unfoldable pub levels_down : PriceGrid → ℕ → List (ℤ × Level)
levels_down g zero = []
levels_down g (suc n) =
    let rest = levels_down g n in elim (occupied g n) [ none ↦ rest | some c ↦ c ∷ rest ]

unfoldable pub levels_up : PriceGrid → ℕ → ℕ → List (ℤ × Level)
levels_up g i zero = []
levels_up g i (suc n) =
    let rest = levels_up g (suc i) n in elim (occupied g i) [ none ↦ rest | some c ↦ c ∷ rest ]

-- A push, and a break once `n` levels are out.
unfoldable pub push_levels : ℕ → List (ℤ × ℤ) → List (ℤ × ℤ) → List (ℤ × ℤ)
push_levels n out [] = out
push_levels n out (c ∷ cs) =
    let out' = out ++ (c ∷ []) in
    let rest = push_levels n out' cs in if leb n (length out') then out' else rest

-- The loop over the grid, then the loop over the overflow map if fewer than `n` levels are out.
unfoldable pub depth : ℕ → List (ℤ × ℤ) → List (ℤ × ℤ) → List (ℤ × ℤ)
depth n in_grid in_overflow =
    let out = push_levels n [] in_grid in
    if leb n (length out) then out else push_levels n out in_overflow

unfoldable pub top_n : ℕ → InstrumentBook → List (ℤ × ℤ) × List (ℤ × ℤ)
top_n n b = (
  depth n (totals (levels_down b.bids_grid (length b.bids_grid.slots)))
      (totals (reverse b.bids_overflow)),
  depth n (totals (levels_up b.asks_grid 0 (length b.asks_grid.slots))) (totals b.asks_overflow),
)
