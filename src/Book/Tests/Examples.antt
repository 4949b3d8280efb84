-- ===== src/Book/Tests/Examples.antt =====
-- The properties of the order book at concrete inputs.
use mathlib.Core.Path.{subst}
use numi_orderbook.Base.{
  ℕ, ◌≡◌, refl, ap, sym, true, none, some, List, [], ◌∷◌, ◌++◌, arith, ◌==◌, if◌then◌else◌,
}
use numi_orderbook.Base.Int.{pos, IsI64}
use numi_orderbook.Base.Dict.{lookup, find}
use numi_orderbook.Event.{bid, Event, side_eq}
use numi_orderbook.Book.Node.{Node, Level, empty_level, iter_fifo}
use numi_orderbook.Book.Grid.{price_to_idx}
use numi_orderbook.Book.Levels.{
  Ladder, get_level, slot, recenter_grid, read, ensure_level_mut_in_grid,
}
use numi_orderbook.Book.Grid.Index.{price_to_idx-injective}
use numi_orderbook.Book.Levels.{Place, remove_level_if_empty}
use numi_orderbook.Book.Levels.Store.{LadderOk}
use numi_orderbook.Book.Levels.Removal.{Removed, remove_level-Removed}
use numi_orderbook.Book.Levels.Ensure.{Fits, new_window, Ensured, ensure-Ensured}
use numi_orderbook.Book.Levels.Recenter.{recenter_splits}
use numi_orderbook.Book.Queue.{order_of}
use numi_orderbook.Book.Instrument.{InstrumentBook, with_params, ladder, add, set_qty, cancel}
use numi_orderbook.Book.Instrument.Valid.{Queues, IsValid, set_queue}
use numi_orderbook.Book.Instrument.Begin.{with_params-IsValid, iter_fifo-IsValid, new_grid-slot_at}
use numi_orderbook.Book.Instrument.{best, best_qty}
use numi_orderbook.Book.Instrument.BestSlot.{Tidy}
use numi_orderbook.Book.Instrument.Recompute.{BestIs}
use numi_orderbook.Book.Instrument.CancelBest.{cancel-BestIs}
use numi_orderbook.Book.Instrument.Added.{HasRoom}
use numi_orderbook.Book.Instrument.AddBest.{add-BestIs}
use numi_orderbook.Book.Instrument.Add.{add-IsValid}
use numi_orderbook.Book.Instrument.SetQty.{set_qty-IsValid}
use numi_orderbook.Book.Instrument.Cancel.{cancel-IsValid}
use numi_orderbook.Book.Orders.{OrderBook, new_with_grid, apply, apply_all, apply_many_for_instr}
use numi_orderbook.Book.Orders.View.{IsSound, view, events_on, event_on, Admissible, AllAdmissible}
use numi_orderbook.Book.Orders.Sound.{Done}
use numi_orderbook.Book.Orders.Batch.{apply_many_for_instr-apply_all}
use numi_orderbook.Book.Orders.Refine.{apply-refines}
use numi_orderbook.Book.Orders.Run.{
  apply_all-refines, new_with_grid-IsSound, new_with_grid-apply_all,
}
use numi_orderbook.Book.Tests.{run, empty_book}

abbrev no_queues : Queues
no_queues s p = []

with_params-IsValid_example : IsValid (with_params 16 (pos 1) 8) no_queues
with_params-IsValid_example = with_params-IsValid 16 (pos 1) 8 refl

empty-IsValid : IsValid empty_book no_queues
empty-IsValid = with_params-IsValid 16 (pos 1) 8 refl

range100 : IsI64 (pos 100)
range100 = (omega arith, omega arith)

fits100 : Fits (ladder bid empty_book) (pos 100)
unfolding run
fits100 = new_window 4 refl refl (new_grid-slot_at (pos 1) 8) refl (λ p i hp e. refl)

vacant0 : lookup 0 empty_book.orders ≡ none
unfolding run
vacant0 = refl

room100 : HasRoom (ladder bid empty_book) (pos 100)
unfolding run
room100 = tt

add-IsValid_example :
    (b' : InstrumentBook) × (add 0 (pos 100) (pos 10) bid empty_book ≡ some (0, b'))
    × IsValid b' (set_queue bid (pos 100) (0 ∷ []) no_queues)
    × ((k : ℕ)
        → order_of (lookup k b'.orders)
          ≡ (if 0 == k then some (bid, pos 100, pos 10) else order_of (lookup k empty_book.orders)))
add-IsValid_example =
    add-IsValid empty_book no_queues 0 (pos 100) (pos 10) bid empty-IsValid range100 vacant0 fits100
      room100

empty-BestIs : BestIs bid empty_book no_queues (best bid empty_book) (best_qty bid empty_book)
unfolding run
empty-BestIs = λ p hp. refl

add-BestIs_example :
    (b' : InstrumentBook) × (add 0 (pos 100) (pos 10) bid empty_book ≡ some (0, b'))
    × BestIs bid b' (set_queue bid (pos 100) (0 ∷ []) no_queues) (best bid b') (best_qty bid b')
add-BestIs_example =
    add-BestIs empty_book no_queues 0 (pos 100) (pos 10) bid empty-IsValid range100 vacant0 fits100
      room100 empty-BestIs

-- A book with one order.
abbrev one_queue : Queues
one_queue = set_queue bid (pos 100) (0 ∷ []) no_queues

abbrev one_order : InstrumentBook
one_order = elim (add 0 (pos 100) (pos 10) bid empty_book) [ none ↦ empty_book | some (h, b) ↦ b ]

one_order-IsValid : IsValid one_order one_queue
one_order-IsValid =
    let (b', e, v, o) =
      add-IsValid empty_book no_queues 0 (pos 100) (pos 10) bid empty-IsValid range100 vacant0
        fits100 room100 in
    subst (λ b. IsValid b one_queue)
      (sym (ap (λ r. elim r [ none ↦ empty_book | some (h, b) ↦ b ]) e)) v

abbrev first_node : Node
first_node = record { price = pos 100; qty = pos 10; side = bid; prev = none; next = none }

first_there : lookup 0 one_order.orders ≡ some first_node
unfolding run
first_there = refl

abbrev level100 : Level
level100 = record { head = some 1; tail = some 1; total_qty = pos 10; count = 1 }

level100_there : get_level (ladder bid one_order) (pos 100) ≡ some level100
unfolding run
level100_there = refl

set_qty-IsValid_example :
    (b' : InstrumentBook) × (set_qty 0 (pos 4) one_order ≡ some b')
    × IsValid b' one_queue
    × ((k : ℕ)
        → order_of (lookup k b'.orders)
          ≡ (if 0 == k then some (bid, pos 100, pos 4) else order_of (lookup k one_order.orders)))
set_qty-IsValid_example =
    set_qty-IsValid one_order one_queue 0 first_node (pos 4) one_order-IsValid first_there

cancel-IsValid_example :
    (xs ys : List ℕ) × (b' : InstrumentBook) × (one_queue bid (pos 100) ≡ xs ++ (0 ∷ ys))
    × (cancel 0 one_order ≡ some b')
    × IsValid b' (set_queue bid (pos 100) (xs ++ ys) one_queue)
    × ((k : ℕ)
        → order_of (lookup k b'.orders)
          ≡ (if 0 == k then none else order_of (lookup k one_order.orders)))
cancel-IsValid_example =
    cancel-IsValid one_order one_queue 0 first_node one_order-IsValid first_there

iter_fifo-IsValid_example : iter_fifo 5 one_order.orders level100 ≡ some (one_queue bid (pos 100))
unfolding side_eq
iter_fifo-IsValid_example =
    iter_fifo-IsValid one_order one_queue bid (pos 100) level100 5 one_order-IsValid range100
      level100_there (omega arith)

one_order-Tidy : Tidy (ladder bid one_order)
unfolding run
one_order-Tidy = record {
  straight = record { short = omega arith; below = omega arith };
  ascending = tt;
  keys = λ p v e. cc;
  window = λ i v e. refl;
}

one_order-BestIs : BestIs bid one_order one_queue (best bid one_order) (best_qty bid one_order)
unfolding run
one_order-BestIs =
    let (b', e, top) =
      add-BestIs empty_book no_queues 0 (pos 100) (pos 10) bid empty-IsValid range100 vacant0
        fits100 room100 (λ p hp. refl) in
    subst (λ b. BestIs bid b one_queue (best bid b) (best_qty bid b))
      (sym (ap (λ r. elim r [ none ↦ empty_book | some (h, b) ↦ b ]) e)) top

cancel-BestIs_example :
    (xs ys : List ℕ) × (b' : InstrumentBook) × (one_queue bid (pos 100) ≡ xs ++ (0 ∷ ys))
    × (cancel 0 one_order ≡ some b')
    × BestIs bid b' (set_queue bid (pos 100) (xs ++ ys) one_queue) (best bid b') (best_qty bid b')
cancel-BestIs_example =
    cancel-BestIs one_order one_queue 0 first_node one_order-IsValid first_there one_order-Tidy
      one_order-BestIs

-- A window from 96 on, and a level at 120 outside it.
abbrev far_level : Level
far_level = record { head = some 3; tail = some 3; total_qty = pos 7; count = 1 }

abbrev drifted : Ladder
drifted = record {
  grid = record {
    initialized = true;
    start_price = pos 96;
    tick = pos 1;
    slots = none ∷ none ∷ none ∷ none ∷ [];
  };
  overflow = (pos 120, far_level) ∷ [];
}

far_there : find (pos 120) drifted.overflow ≡ some far_level
unfolding run
far_there = refl

far_covered : price_to_idx (recenter_grid drifted (pos 119)).grid (pos 120) ≡ some 3
unfolding run
far_covered = refl

recenter_splits_example :
    (l' : Ladder) × (ensure_level_mut_in_grid (recenter_grid drifted (pos 119)) (pos 120)
      ≡ some (l', slot 3))
    × (read l' (slot 3) ≡ some empty_level)
    × (find (pos 120) l'.overflow ≡ some far_level)
recenter_splits_example =
    recenter_splits drifted (pos 119) (pos 120) far_level 3 far_there far_covered

ensure-Ensured_example :
    (l' : Ladder) × (place : Place) × (ensure_level_mut_in_grid (ladder bid empty_book) (pos 100)
      ≡ some (l', place))
    × Ensured (ladder bid empty_book) (pos 100) l' place
ensure-Ensured_example =
    ensure-Ensured (ladder bid empty_book) (pos 100) (empty-IsValid.ladders bid) range100 fits100

-- A ladder with an empty level at 96.
abbrev emptied : Ladder
emptied = record {
  grid = record {
    initialized = true;
    start_price = pos 96;
    tick = pos 1;
    slots = some empty_level ∷ none ∷ [];
  };
  overflow = [];
}

range96 : IsI64 (pos 96)
range96 = (omega arith, omega arith)

emptied_ok : LadderOk emptied
unfolding run
emptied_ok = record {
  grid_ok = record { tick_nonneg = refl; tick_pos = λ e. omega arith; start_range = range96 };
  apart = λ p i hp e. refl;
}

emptied_there : get_level emptied (pos 96) ≡ some empty_level
unfolding run
emptied_there = refl

remove_level-Removed_example : Removed emptied (pos 96) (remove_level_if_empty emptied (pos 96)).0
remove_level-Removed_example =
    remove_level-Removed emptied (pos 96) empty_level emptied_ok range96 emptied_there refl

index96 : price_to_idx emptied.grid (pos 96) ≡ some 0
unfolding run
index96 = refl

price_to_idx-injective_example : pos 96 ≡ pos 96
price_to_idx-injective_example =
    price_to_idx-injective emptied.grid (pos 96) (pos 96) 0 emptied_ok.grid_ok range96 range96
      index96 index96

-- An order is added, reduced by a trade and cancelled.
abbrev empty_orders : OrderBook
empty_orders = new_with_grid 5 true 16 (pos 1) 8

abbrev day : List (ℕ × Event)
day =
    (0, Event.add 7 1 (pos 100) (pos 10) bid)
    ∷ (0, Event.trade 1 (pos 100) (pos 4) (some 7) none)
    ∷ (0, Event.mod_qty 7 (pos 3))
    ∷ (0, Event.del 7)
    ∷ []

empty-IsSound : IsSound empty_orders
empty-IsSound = (new_with_grid-IsSound 5 true 16 (pos 1) 8 refl).0

first-Admissible : Admissible 0 (Event.add 7 1 (pos 100) (pos 10) bid) empty_orders
unfolding run
first-Admissible = (range100, refl, refl, fits100, tt)

day-Admissible : AllAdmissible day empty_orders
day-Admissible = (first-Admissible, λ b₁ e₁. (tt, λ b₂ e₂. (tt, λ b₃ e₃. (tt, λ b₄ e₄. tt))))

apply-refines_example :
    (ob' : OrderBook) × (apply 0 (Event.add 7 1 (pos 100) (pos 10) bid) empty_orders ≡ some ob')
    × Done empty_orders ob'
        (event_on true (Event.add 7 1 (pos 100) (pos 10) bid) (view empty_orders))
unfolding run
apply-refines_example =
    apply-refines 0 (Event.add 7 1 (pos 100) (pos 10) bid) empty_orders empty-IsSound
      first-Admissible

apply_all-refines_example :
    (ob' : OrderBook) × (apply_all day empty_orders ≡ some ob')
    × Done empty_orders ob' (events_on true day (view empty_orders))
unfolding run
apply_all-refines_example = apply_all-refines day empty_orders empty-IsSound day-Admissible

apply_many_for_instr-apply_all_example :
    apply_many_for_instr 1 day empty_orders ≡ apply_all day empty_orders
apply_many_for_instr-apply_all_example = apply_many_for_instr-apply_all 1 day empty_orders

new_with_grid-apply_all_example :
    (ob : OrderBook) × (apply_all day (new_with_grid 5 true 16 (pos 1) 8) ≡ some ob)
    × IsSound ob
    × (ob.consume_trades ≡ true)
    × ((id : ℕ) → view ob id ≡ events_on true day (λ _. none) id)
new_with_grid-apply_all_example =
    new_with_grid-apply_all day 5 true 16 (pos 1) 8 refl day-Admissible
