-- ===== src/Book/Orders/Sound.antt =====
-- The operations of `OrderBook` in src/orderbook.rs on the invariant and the map of live orders.
use numi_orderbook.Base.{
  ℕ, ◌≡◌, refl, ap, inl, inr, Option, none, some, ◌++◌, arith, ◌==◌, ==_eq, if◌then◌else◌,
  Bool-cases, Option-cases,
}
use numi_orderbook.Base.Int.{ℤ, pos, ltb_ℤ}
use numi_orderbook.Base.Dict.{lookup, insert, lookup-insert, lookup-erase}
use numi_orderbook.Book.Node.{Node}
use numi_orderbook.Book.Queue.{order_of}
use numi_orderbook.Book.Instrument.{InstrumentBook, set_qty, cancel}
use numi_orderbook.Book.Instrument.Valid.{Queues, IsValid, set_queue}
use numi_orderbook.Book.Instrument.SetQty.{set_qty-IsValid}
use numi_orderbook.Book.Instrument.Cancel.{cancel-IsValid}
use numi_orderbook.Book.Orders.{
  OrderBook, book_mut, with_book, with_last, index_remove, update_order,
}
use numi_orderbook.Book.Orders.View.{Order, LiveOrders, set_at, with_quantity, tag, view, IsSound}
use numi_orderbook.Book.Orders.Step.{OneOrder, OneOrder-IsSound, OneOrder-view, entry_for}

-- The order book `ob'` is sound, and its live orders are `m`.
pub record Done (ob ob' : OrderBook) (m : LiveOrders) : Type 0 where
  pub sound : IsSound ob'
  pub orders : (k : ℕ) → view ob' k ≡ m k
  pub consume : ob'.consume_trades ≡ ob.consume_trades

-- The book of `instr` is replaced, under the options of `ob`.
pub record Replaced (ob : OrderBook) (instr : ℕ) (b' : InstrumentBook) (ob' : OrderBook)
    : Type 0 where
  pub books : ob'.books ≡ insert instr b' ob.books
  pub capacity : ob'.default_slab_capacity ≡ ob.default_slab_capacity
  pub tick : ob'.grid_tick ≡ ob.grid_tick
  pub span : ob'.grid_span ≡ ob.grid_span
  pub consume : ob'.consume_trades ≡ ob.consume_trades

pub book_mut-Replaced :
    (ob : OrderBook) (instr : ℕ) (b' : InstrumentBook) (ob' : OrderBook)
    → Replaced ob instr b' ob'
    → (i : ℕ) → book_mut i ob' ≡ (if instr == i then b' else book_mut i ob)
unfolding book_mut
book_mut-Replaced ob instr b' ob' r i = elim (Bool-cases (instr == i)) [
  | inl e ↦ ground (arith, r.books, lookup-insert instr i b' ob.books)
  | inr e ↦
      let found : lookup i ob'.books ≡ lookup i ob.books =
        ground (arith, r.books, lookup-insert instr i b' ob.books) in
      elim (Option-cases (lookup i ob.books)) [
        | inl new ↦ ground (arith, found, r.capacity, r.tick, r.span)
        | inr (b, old) ↦ ground (arith, found)
      ]
]

-- The node under the key of an entry.
pub entry_node :
    (ob : OrderBook) (id instr h : ℕ)
    → IsSound ob
    → lookup id ob.index ≡ some (instr, h)
    → (n : Node) × (lookup h (book_mut instr ob).orders ≡ some n)
entry_node ob id instr h sound e = elim (Option-cases (lookup h (book_mut instr ob).orders)) [
  | inl dead ↦ absurd (sound.live id instr h e (ap order_of dead))
  | inr found ↦ found
]

pub with_last-Done :
    (ob ob' : OrderBook) (m : LiveOrders) (i : ℕ) → Done ob ob' m → Done ob (with_last i ob') m
unfolding book_mut
with_last-Done ob ob' m i d = record {
  sound = record {
    tick = d.sound.tick;
    books = d.sound.books;
    live = d.sound.live;
    unique = d.sound.unique;
  };
  orders = d.orders;
  consume = d.consume;
}

module _ (ob : OrderBook) (id instr h : ℕ) (n : Node) (sound : IsSound ob)
    (entry : lookup id ob.index ≡ some (instr, h))
    (there : lookup h (book_mut instr ob).orders ≡ some n) where
  -- The order of `id` becomes `o`.
  entry_changed :
      (ob' : OrderBook) (b' : InstrumentBook) (q : Queues) (o : Option Order)
      → Replaced ob instr b' ob'
      → IsValid b' q
      → ((k : ℕ)
          → order_of (lookup k b'.orders)
            ≡ (if h == k then o else order_of (lookup k (book_mut instr ob).orders)))
      → ((k : ℕ)
          → lookup k ob'.index ≡ (if id == k then entry_for o (instr, h) else lookup k ob.index))
      → Done ob ob' (set_at id (tag instr o) (view ob))
  entry_changed ob' b' q o r v node index =
      let one : OneOrder ob id instr h b' o ob' = record {
        tick = r.tick;
        valid = (q, v);
        book = book_mut-Replaced ob instr b' ob' r;
        node = node;
        entry = index;
        owner = λ k e. sound.unique id k (instr, h) entry e;
      } in
      record {
        sound = OneOrder-IsSound ob id instr h b' o ob' sound one;
        orders = OneOrder-view ob id instr h b' o ob' sound one;
        consume = r.consume;
      }

  set_qty-Done :
      (qty : ℤ)
      → (b' : InstrumentBook) × (set_qty h qty (book_mut instr ob) ≡ some b')
        × Done ob
            (with_book instr b' ob)
            (set_at id (some (instr, (n.side, n.price, qty))) (view ob))
  unfolding with_book
  set_qty-Done qty =
      let (q, v) = sound.books instr in
      let (b', e, v', node) = set_qty-IsValid (book_mut instr ob) q h n qty v there in
      (
        b',
        e,
        entry_changed (with_book instr b' ob) b' q (some (n.side, n.price, qty))
            (record { books = refl; capacity = refl; tick = refl; span = refl; consume = refl }) v'
            node
            (λ k. elim (Bool-cases (id == k)) [
              | inl same ↦ ground (arith, ==_eq id k same, entry)
              | inr other ↦ ground arith
            ]),
      )

  pub cancel-Done :
      (b' : InstrumentBook) × (cancel h (book_mut instr ob) ≡ some b')
      × Done ob (index_remove id (with_book instr b' ob)) (set_at id none (view ob))
  unfolding with_book
  cancel-Done =
      let (q, v) = sound.books instr in
      let (xs, ys, b', queue, e, v', node) = cancel-IsValid (book_mut instr ob) q h n v there in
      (
        b',
        e,
        entry_changed (index_remove id (with_book instr b' ob)) b'
            (set_queue n.side n.price (xs ++ ys) q) none
            (record { books = refl; capacity = refl; tick = refl; span = refl; consume = refl }) v'
            node (λ k. lookup-erase id k ob.index),
      )

  -- A live order is given a quantity, or cancelled at 0 and below.
  pub update-Done :
      (qty : ℤ)
      → (ob' : OrderBook) × (update_order id instr h qty ob ≡ some ob')
        × Done ob ob' (set_at id (with_quantity qty (instr, (n.side, n.price, n.qty))) (view ob))
  unfolding update_order
  update-Done qty = elim (Bool-cases (ltb_ℤ (pos 0) qty)) [
    | inl positive ↦
        let (b', e, d) = set_qty-Done qty in
        (with_book instr b' ob, rw (positive, e) refl, rw positive d)
    | inr not_positive ↦
        let (b', e, d) = cancel-Done in
        (index_remove id (with_book instr b' ob), rw (not_positive, e) refl, rw not_positive d)
  ]

  pub view_entry : view ob id ≡ some (instr, (n.side, n.price, n.qty))
  view_entry = rw (entry, there) refl
