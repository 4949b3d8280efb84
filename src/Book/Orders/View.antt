-- ===== src/Book/Orders/View.antt =====
-- What `OrderBook` of src/orderbook.rs promises: a map from the ids of live orders to instrument,
-- side, price and quantity, and what an event does to that map.
use numi_orderbook.Base.{ℕ, ◌≡◌, ◌≢◌, Bool, Option, none, some, List, [], ◌∷◌, ◌==◌, if◌then◌else◌}
use numi_orderbook.Base.Int.{ℤ, pos, IsI64, ltb_ℤ, pos_part, neg_part, wrap, ◌-ℤ◌}
use numi_orderbook.Base.Dict.{lookup}
use numi_orderbook.Event.{Side, Event}
use numi_orderbook.Book.Levels.Ensure.{Fits}
use numi_orderbook.Book.Queue.{order_of}
use numi_orderbook.Book.Instrument.{ladder}
use numi_orderbook.Book.Instrument.Valid.{Queues, IsValid}
use numi_orderbook.Book.Instrument.Added.{HasRoom}
use numi_orderbook.Book.Orders.{OrderBook, book_mut, apply}

abbrev pub Order : Type 0
Order = Side × ℤ × ℤ

-- The live orders: instrument, side, price and quantity by id.
abbrev pub LiveOrders : Type 0
LiveOrders = ℕ → Option (ℕ × Order)

abbrev pub set_at : ℕ → Option (ℕ × Order) → LiveOrders → LiveOrders
set_at id o m = λ k. if id == k then o else m k

-- An order with a new quantity, which is gone at 0 and below.
abbrev pub with_quantity : ℤ → ℕ × Order → Option (ℕ × Order)
with_quantity qty (instr, (side, price, old)) =
    if ltb_ℤ (pos 0) qty then some (instr, (side, price, qty)) else none

abbrev pub quantity : ℕ × Order → ℤ
quantity (instr, (side, price, qty)) = qty

-- The order of `id`, if there is one, is given a new quantity.
abbrev pub requantify : ℕ → (ℕ × Order → ℤ) → LiveOrders → LiveOrders
requantify id qty m = elim (m id) [ none ↦ m | some o ↦ set_at id (with_quantity (qty o) o) m ]

-- What a trade leaves of a quantity: the difference, as an i64, where it is not below 0, or else 0.
abbrev pub remaining : ℤ → ℤ → ℤ
remaining old qty = pos (pos_part (wrap (old -ℤ qty)))

-- An event on the live orders: a trade takes its quantity from the maker's order, if trades are
-- consumed.
abbrev pub event_on : Bool → Event → LiveOrders → LiveOrders
event_on consume (Event.add id instr px qty side) m = set_at id (some (instr, (side, px, qty))) m
event_on consume (Event.mod_qty id qty) m = requantify id (λ _. qty) m
event_on consume (Event.del id) m = set_at id none m
event_on consume (Event.trade instr px qty none taker) m = m
event_on consume (Event.trade instr px qty (some id) taker) m =
    if consume then requantify id (λ o. remaining (quantity o) qty) m else m
event_on consume Event.heartbeat m = m

abbrev pub events_on : Bool → List (ℕ × Event) → LiveOrders → LiveOrders
events_on consume [] m = m
events_on consume ((fresh, ev) ∷ evs) m = events_on consume evs (event_on consume ev m)

-- The order stored under a key of an instrument's slab.
abbrev pub stored : OrderBook → ℕ → ℕ → Option Order
stored ob instr h = order_of (lookup h (book_mut instr ob).orders)

abbrev pub tag : ℕ → Option Order → Option (ℕ × Order)
tag instr none = none
tag instr (some o) = some (instr, o)

abbrev pub view_of : OrderBook → Option (ℕ × ℕ) → Option (ℕ × Order)
view_of ob none = none
view_of ob (some (instr, h)) = tag instr (stored ob instr h)

-- The live orders of an order book.
abbrev pub view : OrderBook → LiveOrders
view ob = λ id. view_of ob (lookup id ob.index)

-- Every instrument's book is valid, and the index leads from each id to a live key of its own.
pub record IsSound (ob : OrderBook) : Type 0 where
  pub tick : neg_part ob.grid_tick ≡ 0
  pub books : (instr : ℕ) → (q : Queues) × IsValid (book_mut instr ob) q
  pub live : (id instr h : ℕ) → lookup id ob.index ≡ some (instr, h) → stored ob instr h ≢ none
  pub unique :
      (id k : ℕ) (e : ℕ × ℕ) → lookup id ob.index ≡ some e → lookup k ob.index ≡ some e → id ≡ k

-- What an order to add must meet: an i64 price, a new id, a vacant key, and a level that can be had
-- without moving another one and has room. Other events need nothing.
abbrev pub Admissible : ℕ → Event → OrderBook → Type 0
Admissible fresh (Event.add id instr px qty side) ob =
    IsI64 px
    × (lookup id ob.index ≡ none)
    × (lookup fresh (book_mut instr ob).orders ≡ none)
    × Fits (ladder side (book_mut instr ob)) px
    × HasRoom (ladder side (book_mut instr ob)) px
Admissible fresh (Event.mod_qty id qty) ob = Unit {0}
Admissible fresh (Event.del id) ob = Unit {0}
Admissible fresh (Event.trade instr px qty maker taker) ob = Unit {0}
Admissible fresh Event.heartbeat ob = Unit {0}

abbrev pub AllAdmissible : List (ℕ × Event) → OrderBook → Type 0
AllAdmissible [] ob = Unit {0}
AllAdmissible ((fresh, ev) ∷ evs) ob =
    Admissible fresh ev ob
    × ((ob' : OrderBook) → apply fresh ev ob ≡ some ob' → AllAdmissible evs ob')
