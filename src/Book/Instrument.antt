-- ===== src/Book/Instrument.antt =====
-- src/orderbook.rs: `InstrumentBook`, the orders and levels of one instrument with its cached best
-- prices. An operation returns `none` where the code panics. The key that the slab hands out for a
-- new node is an argument, `fresh`.
pub mod Fields
pub mod Valid
pub mod Rebuild
pub mod SetQty
pub mod Unlink
pub mod Leave
pub mod Cancel
pub mod BestEntry
pub mod BestSlot
pub mod Best
pub mod Recompute
pub mod Tidied
pub mod Begin
pub mod Enqueue
pub mod Added
pub mod Add
pub mod Improve
pub mod AddBest
pub mod Settle
pub mod CancelBest
use numi_orderbook.Base.{
  ℕ, zero, suc, ◌+◌, ◌-◌, ◌%◌, ◌^◌, Bool, true, false, not, ◌&&◌, Option, none, some, List, [], ◌∷◌,
  ◌++◌, ◌>>=◌, if◌then◌else◌, leb, length,
}
use mathlib.Core.List.{map, reverse, head?}
use numi_orderbook.Base.Int.{ℤ, pos, add_i64, sub_i64, ltb_ℤ, leb_ℤ, eqb_ℤ}
use numi_orderbook.Base.Dict
use numi_orderbook.Base.Dict.{lookup, insert}
use numi_orderbook.Event.{Side, bid, ask}
use numi_orderbook.Book.Node.{
  Node, new_node, Level, is_empty, Orders, modify, set_next, set_prev, to_nz,
}
use numi_orderbook.Book.Grid.{
  PriceGrid, new_grid, slot_at, slot_price, best_bid_candidate, best_ask_candidate,
}
use numi_orderbook.Book.Levels.{
  Overflow, Ladder, Place, read, write, ensure_level_mut_in_grid, get_level_mut, get_level,
  remove_level_if_empty,
}

pub record InstrumentBook : Type 0 where
  pub bids_grid : PriceGrid
  pub asks_grid : PriceGrid
  pub bids_overflow : Overflow
  pub asks_overflow : Overflow
  pub orders : Orders
  pub best_bid : Option ℤ
  pub best_ask : Option ℤ
  pub best_bid_qty : ℤ
  pub best_ask_qty : ℤ

-- The capacity of the slab only reserves memory.
unfoldable pub with_params : ℕ → ℤ → ℕ → InstrumentBook
with_params order_slab_capacity tick span = record {
  bids_grid = new_grid tick span;
  asks_grid = new_grid tick span;
  bids_overflow = [];
  asks_overflow = [];
  orders = [];
  best_bid = none;
  best_ask = none;
  best_bid_qty = pos 0;
  best_ask_qty = pos 0;
}

-- The two fields that `match side` selects.
unfoldable pub ladder : Side → InstrumentBook → Ladder
ladder bid b = record { grid = b.bids_grid; overflow = b.bids_overflow }
ladder ask b = record { grid = b.asks_grid; overflow = b.asks_overflow }

unfoldable pub with_ladder : Side → Ladder → InstrumentBook → InstrumentBook
with_ladder bid l b = record b { bids_grid = l.grid; bids_overflow = l.overflow }
with_ladder ask l b = record b { asks_grid = l.grid; asks_overflow = l.overflow }

-- The cached best price and quantity of a side.
unfoldable pub best : Side → InstrumentBook → Option ℤ
best bid b = b.best_bid
best ask b = b.best_ask

unfoldable pub best_qty : Side → InstrumentBook → ℤ
best_qty bid b = b.best_bid_qty
best_qty ask b = b.best_ask_qty

unfoldable pub with_best : Side → Option ℤ → ℤ → InstrumentBook → InstrumentBook
with_best bid p q b = record b { best_bid = p; best_bid_qty = q }
with_best ask p q b = record b { best_ask = p; best_ask_qty = q }

-- `price > b` on the bid side, `price < a` on the ask side.
unfoldable pub beats : Side → ℤ → ℤ → Bool
beats bid price b = ltb_ℤ b price
beats ask price a = ltb_ℤ price a

abbrev pub is_best : Option ℤ → ℤ → Bool
is_best none price = false
is_best (some p) price = eqb_ℤ p price

-- The candidates of grid and overflow map: of two, the grid's if it is at least as good.
unfoldable pub pick : Side → Option (ℤ × ℤ) → Option (ℤ × ℤ) → Option (ℤ × ℤ)
pick side none o = o
pick side (some g) none = some g
pick bid (some g) (some o) = if leb_ℤ o.0 g.0 then some g else some o
pick ask (some g) (some o) = if leb_ℤ g.0 o.0 then some g else some o

-- Each level as its price and total quantity.
unfoldable pub totals : List (ℤ × Level) → List (ℤ × ℤ)
totals o = map (λ e. (e.0, e.1.total_qty)) o

-- `iter().next_back()` on the bid side, `iter().next()` on the ask side.
unfoldable pub overflow_candidate : Side → Overflow → Option (ℤ × ℤ)
overflow_candidate bid o = head? (totals (reverse o))
overflow_candidate ask o = head? (totals o)

unfoldable pub grid_candidate : Side → PriceGrid → Option (ℤ × ℤ)
grid_candidate bid g = best_bid_candidate g
grid_candidate ask g = best_ask_candidate g

unfoldable pub recompute_best_after_removal : Side → InstrumentBook → InstrumentBook
recompute_best_after_removal side b =
    let l = ladder side b in
    elim (pick side (grid_candidate side l.grid) (overflow_candidate side l.overflow)) [
      | some (p, q) ↦ with_best side (some p) q b
      | none ↦ with_best side none (pos 0) b
    ]

-- The end of `add`: a better price, or a new total at the best price.
unfoldable pub improve_best : Side → ℤ → ℤ → InstrumentBook → InstrumentBook
improve_best side price new_total b = elim (best side b) [
  | none ↦ with_best side (some price) new_total b
  | some p ↦
      if beats side price p
      then with_best side (some price) new_total b
      else if eqb_ℤ p price
      then with_best side (some p) new_total b
      else b
]

-- The level after the new node is linked behind its tail.
unfoldable pub push_back : ℕ → ℤ → Option ℕ → Level → Level
push_back h qty prev_tail l = record {
  head = elim prev_tail [ none ↦ some (to_nz h) | some _ ↦ l.head ];
  tail = some (to_nz h);
  total_qty = add_i64 l.total_qty qty;
  count = (l.count + 1) % 2 ^ 64;
}

unfoldable pub add : ℕ → ℤ → ℤ → Side → InstrumentBook → Option (ℕ × InstrumentBook)
add fresh price qty side b = do
  let orders₀ = insert fresh (new_node price qty side) b.orders
  (l₁, place₁) ← ensure_level_mut_in_grid (ladder side b) price
  lvl₁ ← read l₁ place₁
  let prev_tail = lvl₁.tail
  orders₁ ← set_next prev_tail (some (to_nz fresh)) orders₀
  orders₂ ← modify fresh (λ n. record n { prev = prev_tail; next = none }) orders₁
  (l₂, place₂) ← ensure_level_mut_in_grid l₁ price
  lvl₂ ← read l₂ place₂
  let lvl = push_back fresh qty prev_tail lvl₂
  let b' = record (with_ladder side (write l₂ place₂ lvl) b) { orders = orders₂ }
  some (fresh, improve_best side price lvl.total_qty b')

-- A new total of the level at the best price is cached.
unfoldable pub refresh_best : Side → ℤ → ℤ → InstrumentBook → InstrumentBook
refresh_best side price q b =
    if is_best (best side b) price then with_best side (best side b) q b else b

unfoldable pub set_qty : ℕ → ℤ → InstrumentBook → Option InstrumentBook
set_qty h new_qty b = do
  n ← lookup h b.orders
  let b' = record b { orders = insert h (record n { qty = new_qty }) b.orders }
  elim (get_level_mut (ladder n.side b') n.price) [
    | none ↦ some b'
    | some place ↦ do
      lvl ← read (ladder n.side b') place
      let total = add_i64 lvl.total_qty (sub_i64 new_qty n.qty)
      let l = write (ladder n.side b') place (record lvl { total_qty = total })
      some (refresh_best n.side n.price total (with_ladder n.side l b'))
  ]

-- The level after a node between `prev` and `next` is unlinked.
unfoldable pub unlink : Option ℕ → Option ℕ → ℤ → Level → Level
unlink prev next qty l = record {
  head = elim prev [ none ↦ next | some _ ↦ l.head ];
  tail = elim next [ none ↦ prev | some _ ↦ l.tail ];
  total_qty = sub_i64 l.total_qty qty;
  count = l.count - 1;
}

-- The part of `cancel` after the levels are changed: an empty level goes, and the best is renewed.
unfoldable pub settle : Side → ℤ → Level → InstrumentBook → InstrumentBook
settle side price lvl b =
    if is_empty lvl
    then (let b' = with_ladder side (remove_level_if_empty (ladder side b) price).0 b in
        if is_best (best side b) price then recompute_best_after_removal side b' else b')
    else refresh_best side price lvl.total_qty b

unfoldable pub cancel : ℕ → InstrumentBook → Option InstrumentBook
cancel h b = do
  n ← lookup h b.orders
  orders₁ ← set_next n.prev n.next b.orders
  orders₂ ← set_prev n.next n.prev orders₁
  let b₁ = record b { orders = orders₂ }
  b₂ ← elim (get_level_mut (ladder n.side b₁) n.price) [
    | none ↦ some b₁
    | some place ↦ do
      lvl₀ ← read (ladder n.side b₁) place
      let lvl = unlink n.prev n.next n.qty lvl₀
      some (settle n.side n.price lvl (with_ladder n.side (write (ladder n.side b₁) place lvl) b₁))
  ]
  some (record b₂ { orders = Dict.erase h b₂.orders })

unfoldable pub bbo : InstrumentBook → Option (ℤ × ℤ) × Option (ℤ × ℤ)
bbo b = (
  elim b.best_bid [ none ↦ none | some p ↦ some (p, b.best_bid_qty) ],
  elim b.best_ask [ none ↦ none | some p ↦ some (p, b.best_ask_qty) ],
)
