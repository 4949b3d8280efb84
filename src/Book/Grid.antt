-- ===== src/Book/Grid.antt =====
-- src/orderbook.rs: `PriceGrid`, a window of price levels that are found by index.
pub mod Index
pub mod Scan
use numi_orderbook.Base.{
  ℕ, zero, suc, ◌+◌, ◌/◌, Bool, true, false, not, Option, none, some, List, [], ◌∷◌, ltb,
  if◌then◌else◌, length, get_elem?, set, replicate,
}
use numi_orderbook.Base.Int.{
  ℤ, pos, add_i64, sub_i64, mul_i64, rem, quot, rem_euclid, bits, ltb_ℤ, eqb_ℤ,
}
use numi_orderbook.Book.Node.{Level, empty_level, is_empty}

pub record PriceGrid : Type 0 where
  pub initialized : Bool
  pub start_price : ℤ
  pub tick : ℤ
  pub slots : List (Option Level)

-- `PriceGrid::new`
unfoldable pub new_grid : ℤ → ℕ → PriceGrid
new_grid tick span = record {
  initialized = false;
  start_price = pos 0;
  tick = tick;
  slots = replicate span none;
}

unfoldable pub init_around : PriceGrid → ℤ → PriceGrid
init_around g price =
    let half = pos (length g.slots / 2) in
    let aligned = sub_i64 price (rem_euclid price g.tick) in
    record g { start_price = sub_i64 aligned (mul_i64 half g.tick); initialized = true }

-- The slot that is read through an index, with no level where the index is out of range.
abbrev pub slot_at : PriceGrid → ℕ → Option Level
slot_at g i = elim (get_elem? g.slots i) [ none ↦ none | some s ↦ s ]

-- `self.start_price + (i as i64) * self.tick`
unfoldable pub slot_price : PriceGrid → ℕ → ℤ
slot_price g i = add_i64 g.start_price (mul_i64 (pos i) g.tick)

-- The code's `%` would panic at tick 0; no grid with tick 0 is ever initialized (see the invariant).
unfoldable pub price_to_idx : PriceGrid → ℤ → Option ℕ
price_to_idx g price =
    let d = sub_i64 price g.start_price in
    if not g.initialized
    then none
    else if ltb_ℤ d (pos 0)
    then none
    else if not (eqb_ℤ (rem d g.tick) (pos 0))
    then none
    else (let idx = bits (quot d g.tick) in if ltb idx (length g.slots) then some idx else none)

unfoldable pub get : PriceGrid → ℤ → Option Level
get g price = elim (price_to_idx g price) [ none ↦ none | some i ↦ slot_at g i ]

-- The index of the level that the `&mut` refers to.
unfoldable pub get_mut : PriceGrid → ℤ → Option ℕ
get_mut g price = elim (price_to_idx g price) [
  | none ↦ none
  | some i ↦ elim (slot_at g i) [ none ↦ none | some l ↦ some i ]
]

unfoldable pub get_mut_or_create : PriceGrid → ℤ → PriceGrid × Option ℕ
get_mut_or_create g₀ price =
    let g = if g₀.initialized then g₀ else init_around g₀ price in
    elim (price_to_idx g price) [
      | none ↦ (g, none)
      | some i ↦ elim (slot_at g i) [
        | none ↦ (record g { slots = set g.slots i (some empty_level) }, some i)
        | some l ↦ (g, some i)
      ]
    ]

-- Empties the slot of an empty level, and says whether it did.
unfoldable pub remove : PriceGrid → ℤ → PriceGrid × Bool
remove g price = elim (price_to_idx g price) [
  | none ↦ (g, false)
  | some i ↦ elim (slot_at g i) [
    | none ↦ (g, false)
    | some l ↦ if is_empty l then (record g { slots = set g.slots i none }, true) else (g, false)
  ]
]

-- What the candidate loops return at index `i`, if its slot holds a non-empty level.
unfoldable pub candidate : PriceGrid → ℕ → Option (ℤ × ℤ)
candidate g i = elim (slot_at g i) [
  | none ↦ none
  | some l ↦ if is_empty l then none else some (slot_price g i, l.total_qty)
]

-- The indices below `n`, highest first.
unfoldable pub scan_down : PriceGrid → ℕ → Option (ℤ × ℤ)
scan_down g zero = none
scan_down g (suc n) = elim (candidate g n) [ some c ↦ some c | none ↦ scan_down g n ]

-- `n` indices from `i` on, lowest first.
unfoldable pub scan_up : PriceGrid → ℕ → ℕ → Option (ℤ × ℤ)
scan_up g i zero = none
scan_up g i (suc n) = elim (candidate g i) [ some c ↦ some c | none ↦ scan_up g (suc i) n ]

unfoldable pub best_bid_candidate : PriceGrid → Option (ℤ × ℤ)
best_bid_candidate g = scan_down g (length g.slots)

unfoldable pub best_ask_candidate : PriceGrid → Option (ℤ × ℤ)
best_ask_candidate g = scan_up g 0 (length g.slots)
