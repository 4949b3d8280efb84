-- ===== src/Book/Export.antt =====
-- src/orderbook.rs: the snapshot export and import. The order in which a hash map is walked is the
-- order of its association list here, which stands for any order.
use numi_orderbook.Base.{
  ℕ, Option, none, some, List, [], ◌∷◌, ◌++◌, ◌>>=◌, ◌&&◌, ◌==◌, if◌then◌else◌, length,
}
use mathlib.Core.List.{map, reverse}
use numi_orderbook.Base.Int.{ℤ}
use numi_orderbook.Base.Dict.{lookup}
use numi_orderbook.Event.{Side, bid, ask}
use numi_orderbook.Book.Node.{Level, Orders, iter_fifo}
use numi_orderbook.Book.Depth.{levels_down, levels_up, top_n}
use numi_orderbook.Book.Instrument.{InstrumentBook}
use numi_orderbook.Book.Orders.{OrderBook, new_book, add_order, with_last}

pub record OrderExport : Type 0 where
  pub order_id : ℕ
  pub price : ℤ
  pub qty : ℤ
  pub side : Side

pub record InstrumentExport : Type 0 where
  pub instr : ℕ
  pub orders : List OrderExport

pub record BookExport : Type 0 where
  pub version : ℕ
  pub instruments : List InstrumentExport

pub record InstrumentDepthExport : Type 0 where
  pub instr : ℕ
  pub bids : List (ℤ × ℤ)
  pub asks : List (ℤ × ℤ)

pub record DepthSnapshotExport : Type 0 where
  pub version : ℕ
  pub instruments : List InstrumentDepthExport

-- `handle_to_id.get(&(instr, h))`: the map is filled in the order of the index, so the last entry
-- with that value stands.
unfoldable pub handle_to_id : List (ℕ × (ℕ × ℕ)) → ℕ → ℕ → Option ℕ
handle_to_id [] instr h = none
handle_to_id ((oid, (ins, k)) ∷ index) instr h =
    let later = handle_to_id index instr h in
    elim later [ some o ↦ some o | none ↦ if (ins == instr) && (k == h) then some oid else none ]

-- One level's orders in FIFO order. A key that no order id maps to is passed over.
unfoldable pub export_keys :
    (List (ℕ × (ℕ × ℕ))) → ℕ → Orders → Side → ℤ → List ℕ → Option (List OrderExport)
export_keys index instr orders side price [] = some []
export_keys index instr orders side price (h ∷ hs) = do
  n ← lookup h orders
  rest ← export_keys index instr orders side price hs
  some (elim (handle_to_id index instr h) [
    | none ↦ rest
    | some oid ↦ record { order_id = oid; price = price; qty = n.qty; side = side } ∷ rest
  ])

-- The levels of a list in turn. `none` is a panic, or a level with more links than fuel.
unfoldable pub export_levels :
    ℕ → List (ℕ × (ℕ × ℕ)) → ℕ → Orders → Side → List (ℤ × Level) → Option (List OrderExport)
export_levels fuel index instr orders side [] = some []
export_levels fuel index instr orders side ((price, lvl) ∷ levels) = do
  hs ← iter_fifo fuel orders lvl
  here ← export_keys index instr orders side price hs
  rest ← export_levels fuel index instr orders side levels
  some (here ++ rest)

-- Bids, grid then overflow map, from the highest price of each down; then asks, from the lowest up.
unfoldable pub export_book : ℕ → List (ℕ × (ℕ × ℕ)) → ℕ → InstrumentBook → Option (List OrderExport)
export_book fuel index instr b = do
  let bids = levels_down b.bids_grid (length b.bids_grid.slots) ++ reverse b.bids_overflow
  let asks = levels_up b.asks_grid 0 (length b.asks_grid.slots) ++ b.asks_overflow
  bs ← export_levels fuel index instr b.orders bid bids
  as_ ← export_levels fuel index instr b.orders ask asks
  some (bs ++ as_)

unfoldable pub export_books :
    ℕ → List (ℕ × (ℕ × ℕ)) → List (ℕ × InstrumentBook) → Option (List InstrumentExport)
export_books fuel index [] = some []
export_books fuel index ((instr, b) ∷ books) = do
  orders ← export_book fuel index instr b
  rest ← export_books fuel index books
  some (record { instr = instr; orders = orders } ∷ rest)

unfoldable pub export : ℕ → OrderBook → Option BookExport
export fuel ob = do
  instruments ← export_books fuel ob.index ob.books
  some (record { version = 1; instruments = instruments })

-- The inner loop of `from_export`; `fresh` chooses the slab's key for each order in turn.
unfoldable pub import_orders :
    (OrderBook → ℕ → ℕ) → ℕ → List OrderExport → OrderBook → Option OrderBook
import_orders fresh instr [] ob = some ob
import_orders fresh instr (o ∷ os) ob = do
  ob' ← add_order (fresh ob instr) o.order_id instr o.price o.qty o.side ob
  import_orders fresh instr os ob'

unfoldable pub import_instruments :
    (OrderBook → ℕ → ℕ) → List InstrumentExport → OrderBook → Option OrderBook
import_instruments fresh [] ob = some ob
import_instruments fresh (ie ∷ ies) ob = do
  ob' ← import_orders fresh ie.instr ie.orders ob
  import_instruments fresh ies (with_last ie.instr ob')

unfoldable pub from_export : (OrderBook → ℕ → ℕ) → BookExport → Option OrderBook
from_export fresh exp = import_instruments fresh exp.instruments (new_book 10)

unfoldable pub export_depth : ℕ → OrderBook → DepthSnapshotExport
export_depth depth ob = record {
  version = 1;
  instruments =
      map (λ e. record { instr = e.0; bids = (top_n depth e.1).0; asks = (top_n depth e.1).1 })
        ob.books;
}
