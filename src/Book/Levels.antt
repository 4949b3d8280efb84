-- ===== src/Book/Levels.antt =====
-- src/orderbook.rs: one side's levels, in the grid or in the overflow map.
pub mod Store
pub mod Removal
pub mod Found
pub mod Ensure
pub mod Recenter
use numi_orderbook.Base.{
  ℕ, zero, suc, ◌+◌, Bool, true, false, not, ◌||◌, Option, none, some, List, [], ◌∷◌, ◌>>=◌,
  if◌then◌else◌, set,
}
use mathlib.Core.List.{map}
use numi_orderbook.Base.Int.{ℤ, pos, rem_euclid, eqb_ℤ}
use numi_orderbook.Base.Dict
use numi_orderbook.Base.Dict.{find, put}
use numi_orderbook.Book.Node.{Level, empty_level, is_empty}
use numi_orderbook.Book.Grid
use numi_orderbook.Book.Grid.{
  PriceGrid, price_to_idx, get_mut_or_create, slot_at, slot_price, init_around,
}

-- `BTreeMap<i64, Level>`
abbrev pub Overflow : Type 0
Overflow = List (ℤ × Level)

-- The grid and the overflow map of one side, which the code hands on together.
pub record Ladder : Type 0 where
  pub grid : PriceGrid
  pub overflow : Overflow

-- Where the level is that a `&mut Level` refers to.
pub data Place : Type 0 where
  slot : ℕ → Place
  entry : ℤ → Place

unfoldable pub read : Ladder → Place → Option Level
read l (slot i) = slot_at l.grid i
read l (entry p) = find p l.overflow

unfoldable pub write : Ladder → Place → Level → Ladder
write l (slot i) v = record l { grid = record l.grid { slots = set l.grid.slots i (some v) } }
write l (entry p) v = record l { overflow = put p v l.overflow }

-- `overflow.entry(price).or_insert(lvl)`
unfoldable pub or_insert : ℤ → Level → Overflow → Overflow
or_insert price lvl o = elim (find price o) [ some l ↦ o | none ↦ put price lvl o ]

-- The loop of `recenter_grid` over the slots from index `i` on.
unfoldable pub evict : PriceGrid → ℕ → List (Option Level) → Overflow → Overflow
evict g i [] o = o
evict g i (none ∷ slots) o = evict g (suc i) slots o
evict g i (some lvl ∷ slots) o =
    evict g (suc i) slots (if is_empty lvl then o else or_insert (slot_price g i) lvl o)

-- Every slot is taken, so the new window starts empty.
unfoldable pub recenter_grid : Ladder → ℤ → Ladder
recenter_grid l around_price = record {
  grid = init_around (record l.grid { slots = map (λ _. none) l.grid.slots }) around_price;
  overflow = evict l.grid 0 l.grid.slots l.overflow;
}

-- `none` is the panic of `expect`.
unfoldable pub in_grid : Ladder → ℤ → Option (Ladder × Place)
in_grid l price =
    let (g, found) = get_mut_or_create l.grid price in
    elim found [ none ↦ none | some i ↦ some (record l { grid = g }, slot i) ]

-- `overflow.entry(price).or_default()`
unfoldable pub in_overflow : Ladder → ℤ → Option (Ladder × Place)
in_overflow l price =
    some (record l { overflow = or_insert price empty_level l.overflow }, entry price)

-- The tick is 0, or the price is no multiple of it.
unfoldable pub off_tick : PriceGrid → ℤ → Bool
off_tick g price = eqb_ℤ g.tick (pos 0) || not (eqb_ℤ (rem_euclid price g.tick) (pos 0))

unfoldable pub ensure_level_mut_in_grid : Ladder → ℤ → Option (Ladder × Place)
ensure_level_mut_in_grid l price = elim (price_to_idx l.grid price) [
  | some i ↦ in_grid l price
  | none ↦
      if off_tick l.grid price
      then in_overflow l price
      else (let l' = recenter_grid l price in
          elim (price_to_idx l'.grid price) [
            | some i ↦ in_grid l' price
            | none ↦ in_overflow l' price
          ])
]

-- `get_level_mut` on the ladder of its side.
unfoldable pub get_level_mut : Ladder → ℤ → Option Place
get_level_mut l price = elim (Grid.get_mut l.grid price) [
  | some i ↦ some (slot i)
  | none ↦ elim (find price l.overflow) [ none ↦ none | some _ ↦ some (entry price) ]
]

unfoldable pub get_level : Ladder → ℤ → Option Level
get_level l price = elim (Grid.get l.grid price) [ some v ↦ some v | none ↦ find price l.overflow ]

unfoldable pub remove_level_if_empty : Ladder → ℤ → Ladder × Bool
remove_level_if_empty l price =
    let (g, removed) = Grid.remove l.grid price in
    let l' = record l { grid = g } in
    if removed then (l', true) else elim (find price l.overflow) [
      | none ↦ (l', false)
      | some v ↦
          if is_empty v
          then (record l' { overflow = Dict.remove price l.overflow }, true)
          else (l', false)
    ]
