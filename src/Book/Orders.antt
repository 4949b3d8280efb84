-- ===== src/Book/Orders.antt =====
-- src/orderbook.rs: `OrderBook`, the books of all instruments and the index from order ids to slab
-- keys. `fresh` is the key that the slab would hand out; an event that adds no order ignores it.
pub mod Batch
pub mod View
pub mod Step
pub mod Sound
pub mod Refine
pub mod Run
use numi_orderbook.Base.{
  ℕ, ◌≡◌, ◌^◌, Bool, true, false, Option, none, some, List, [], ◌∷◌, ◌>>=◌, if◌then◌else◌, length,
  ◌==◌,
}
use numi_orderbook.Base.Int.{ℤ, pos, sub_i64, ltb_ℤ}
use numi_orderbook.Base.Dict
use numi_orderbook.Base.Dict.{lookup, insert}
use numi_orderbook.Event.{Side, Event}
use numi_orderbook.Book.Instrument
use numi_orderbook.Book.Depth.{top_n}
use numi_orderbook.Book.Instrument.{InstrumentBook, with_params}

pub record OrderBook : Type 0 where
  pub depth_for_reporting : ℕ
  pub books : List (ℕ × InstrumentBook)
  pub index : List (ℕ × (ℕ × ℕ))
  pub last_instr : Option ℕ
  pub consume_trades : Bool
  pub default_slab_capacity : ℕ
  pub grid_tick : ℤ
  pub grid_span : ℕ

unfoldable pub new_with_grid : ℕ → Bool → ℕ → ℤ → ℕ → OrderBook
new_with_grid depth_for_reporting consume_trades default_slab_capacity grid_tick grid_span =
    record {
      depth_for_reporting = depth_for_reporting;
      books = [];
      index = [];
      last_instr = none;
      consume_trades = consume_trades;
      default_slab_capacity = default_slab_capacity;
      grid_tick = grid_tick;
      grid_span = grid_span;
    }

unfoldable pub new_with_options_and_capacity : ℕ → Bool → ℕ → OrderBook
new_with_options_and_capacity depth consume_trades capacity =
    new_with_grid depth consume_trades capacity (pos 1) 16384

unfoldable pub new_with_options : ℕ → Bool → OrderBook
new_with_options depth consume_trades = new_with_grid depth consume_trades (2 ^ 20) (pos 1) 16384

unfoldable pub new_book : ℕ → OrderBook
new_book depth = new_with_grid depth false (2 ^ 20) (pos 1) 16384

unfoldable pub set_consume_trades : Bool → OrderBook → OrderBook
set_consume_trades v ob = record ob { consume_trades = v }

-- The book that the `&mut` refers to: the instrument's, or a new one.
unfoldable pub book_mut : ℕ → OrderBook → InstrumentBook
book_mut instr ob = elim (lookup instr ob.books) [
  | some b ↦ b
  | none ↦ with_params ob.default_slab_capacity ob.grid_tick ob.grid_span
]

-- The order book after the book of `book_mut` has become `b`.
unfoldable pub with_book : ℕ → InstrumentBook → OrderBook → OrderBook
with_book instr b ob = record ob { books = insert instr b ob.books }

abbrev pub with_last : ℕ → OrderBook → OrderBook
with_last instr ob = record ob { last_instr = some instr }

abbrev pub index_insert : ℕ → ℕ × ℕ → OrderBook → OrderBook
index_insert order_id entry ob = record ob { index = insert order_id entry ob.index }

abbrev pub index_remove : ℕ → OrderBook → OrderBook
index_remove order_id ob = record ob { index = Dict.erase order_id ob.index }

-- `book.add` and the entry of the new order.
unfoldable pub add_order :
    ℕ → (order_id instr : ℕ) → (px qty : ℤ) → Side → OrderBook → Option OrderBook
add_order fresh order_id instr px qty side ob = do
  (h, b) ← Instrument.add fresh px qty side (book_mut instr ob)
  some (index_insert order_id (instr, h) (with_book instr b ob))

-- `book.set_qty` at a positive quantity, `book.cancel` and the removal of the entry otherwise.
unfoldable pub update_order : (order_id instr h : ℕ) → ℤ → OrderBook → Option OrderBook
update_order order_id instr h qty ob =
    if ltb_ℤ (pos 0) qty
    then (do b ← Instrument.set_qty h qty (book_mut instr ob); some (with_book instr b ob))
    else (do
      b ← Instrument.cancel h (book_mut instr ob)
      some (index_remove order_id (with_book instr b ob)))

-- `(n.qty - qty).max(0)`
unfoldable pub reduce_qty : ℤ → ℤ → ℤ
reduce_qty old qty = let d = sub_i64 old qty in if ltb_ℤ d (pos 0) then pos 0 else d

unfoldable pub consume_order : (order_id instr h : ℕ) → ℤ → OrderBook → Option OrderBook
consume_order order_id instr h qty ob = do
  n ← lookup h (book_mut instr ob).orders
  update_order order_id instr h (reduce_qty n.qty qty) ob

unfoldable pub cancel_order : (instr h : ℕ) → OrderBook → Option OrderBook
cancel_order instr h ob = do
  b ← Instrument.cancel h (book_mut instr ob)
  some (with_last instr (with_book instr b ob))

unfoldable pub apply : ℕ → Event → OrderBook → Option OrderBook
apply fresh (Event.add order_id instr px qty side) ob = do
  ob' ← add_order fresh order_id instr px qty side ob
  some (with_last instr ob')
apply fresh (Event.mod_qty order_id qty) ob = elim (lookup order_id ob.index) [
  | none ↦ some ob
  | some (instr, h) ↦ do ob' ← update_order order_id instr h qty ob; some (with_last instr ob')
]
apply fresh (Event.del order_id) ob = elim (lookup order_id ob.index) [
  | none ↦ some ob
  | some (instr, h) ↦ cancel_order instr h (index_remove order_id ob)
]
apply fresh (Event.trade instr px qty maker_order_id taker_side) ob =
    let ob' = with_last instr ob in
    if ob.consume_trades
    then elim maker_order_id [
      | none ↦ some ob'
      | some oid ↦ elim (lookup oid ob.index) [
        | none ↦ some ob'
        | some (mi, h) ↦ consume_order oid mi h qty ob'
      ]
    ]
    else some ob'
apply fresh Event.heartbeat ob = some ob

-- One event of `apply_many_for_instr`.
unfoldable pub apply_for_instr : ℕ → ℕ → Event → OrderBook → Option OrderBook
apply_for_instr instr fresh (Event.add order_id ev_instr px qty side) ob =
    if ev_instr == instr
    then (do ob' ← add_order fresh order_id instr px qty side ob; some (with_last instr ob'))
    else apply fresh (Event.add order_id ev_instr px qty side) ob
apply_for_instr instr fresh (Event.mod_qty order_id qty) ob = elim (lookup order_id ob.index) [
  | none ↦ some ob
  | some (mi, h) ↦
      if mi == instr
      then (do ob' ← update_order order_id instr h qty ob; some (with_last instr ob'))
      else apply fresh (Event.mod_qty order_id qty) ob
]
apply_for_instr instr fresh (Event.del order_id) ob = elim (lookup order_id ob.index) [
  | none ↦ some ob
  | some (mi, h) ↦
      if mi == instr
      then cancel_order instr h (index_remove order_id ob)
      else apply fresh (Event.del order_id)
          (index_insert order_id (mi, h) (index_remove order_id ob))
]
apply_for_instr instr fresh (Event.trade ev_instr px qty maker_order_id taker_side) ob =
    if ev_instr == instr
    then (let ob' = with_last instr ob in
        if ob.consume_trades
        then elim maker_order_id [
          | none ↦ some ob'
          | some oid ↦ elim (lookup oid ob.index) [
            | none ↦ some ob'
            | some (mi, h) ↦
                if mi == instr
                then consume_order oid instr h qty ob'
                else apply fresh (Event.trade ev_instr px qty (some oid) taker_side) ob'
          ]
        ]
        else some ob')
    else apply fresh (Event.trade ev_instr px qty maker_order_id taker_side) ob
apply_for_instr instr fresh Event.heartbeat ob = some ob

-- The loops over events, each with the slab's next key.
unfoldable pub apply_many_for_instr : ℕ → List (ℕ × Event) → OrderBook → Option OrderBook
apply_many_for_instr instr [] ob = some ob
apply_many_for_instr instr ((fresh, ev) ∷ evs) ob = do
  ob' ← apply_for_instr instr fresh ev ob
  apply_many_for_instr instr evs ob'

unfoldable pub apply_all : List (ℕ × Event) → OrderBook → Option OrderBook
apply_all [] ob = some ob
apply_all ((fresh, ev) ∷ evs) ob = do ob' ← apply fresh ev ob; apply_all evs ob'

unfoldable pub bbo : OrderBook → Option (ℤ × ℤ) × Option (ℤ × ℤ)
bbo ob = elim ob.last_instr [
  | none ↦ (none, none)
  | some instr ↦ elim (lookup instr ob.books) [ none ↦ (none, none) | some b ↦ Instrument.bbo b ]
]

unfoldable pub top_n_of : ℕ → ℕ → OrderBook → Option (List (ℤ × ℤ) × List (ℤ × ℤ))
top_n_of instr n ob = elim (lookup instr ob.books) [ none ↦ none | some b ↦ some (top_n n b) ]

unfoldable pub order_count : OrderBook → ℕ
order_count ob = length ob.index

unfoldable pub instrument_for_order : ℕ → OrderBook → Option ℕ
instrument_for_order order_id ob = elim (lookup order_id ob.index) [
  | none ↦ none
  | some (instr, _) ↦ some instr
]
