-- ===== src/Book/Tests.antt =====
-- Runs of the order book, the source's own tests among them, and the properties at concrete inputs.
mod Examples
use numi_orderbook.Base.{ℕ, ◌≡◌, refl, Option, none, some, List, [], ◌∷◌, ◌>>=◌}
use numi_orderbook.Base.Int.{ℤ, pos, rem_euclid, sub_i64, mul_i64, quot, add_i64}
use numi_orderbook.Base.Dict.{lookup, insert, find, put}
use numi_orderbook.Base.Dict
use numi_orderbook.Event.{bid, ask}
use numi_orderbook.Book.Node
use numi_orderbook.Book.Grid
use numi_orderbook.Book.Levels
use numi_orderbook.Book.Instrument
use numi_orderbook.Book.Depth
use numi_orderbook.Book.Orders
use numi_orderbook.Book.Export
use numi_orderbook.Book.Node.{iter_fifo}
use numi_orderbook.Book.Levels.{get_level}
use numi_orderbook.Book.Depth.{top_n}
use numi_orderbook.Book.Instrument.{InstrumentBook, with_params, add, set_qty, cancel, ladder}

-- Everything that a run computes with.
unfoldable pub run : Unit {0}
unfolding lookup insert Dict.erase find put Dict.remove rem_euclid sub_i64 mul_i64 quot add_i64
    Node.set_next Node.set_prev Node.iter_from Node.iter_fifo Grid.new_grid Grid.init_around
    Grid.slot_price Grid.price_to_idx Grid.get Grid.get_mut Grid.get_mut_or_create Grid.remove
    Grid.candidate Grid.scan_down Grid.scan_up Grid.best_bid_candidate Grid.best_ask_candidate
    Levels.read Levels.write Levels.or_insert Levels.evict Levels.recenter_grid Levels.in_grid
    Levels.in_overflow Levels.off_tick Levels.ensure_level_mut_in_grid Levels.get_level_mut
    Levels.get_level Levels.remove_level_if_empty Instrument.with_params Instrument.ladder
    Instrument.with_ladder Instrument.best Instrument.best_qty Instrument.with_best Instrument.beats
    Instrument.pick Instrument.totals Instrument.overflow_candidate Instrument.grid_candidate
    Instrument.recompute_best_after_removal Instrument.improve_best Instrument.push_back
    Instrument.add Instrument.refresh_best Instrument.set_qty Instrument.unlink Instrument.settle
    Instrument.cancel Instrument.bbo Depth.occupied Depth.levels_down Depth.levels_up
    Depth.push_levels Depth.depth Depth.top_n Orders.new_with_grid
    Orders.new_with_options_and_capacity Orders.new_with_options Orders.new_book
    Orders.set_consume_trades Orders.book_mut Orders.with_book Orders.add_order Orders.update_order
    Orders.reduce_qty Orders.consume_order Orders.cancel_order Orders.apply Orders.apply_for_instr
    Orders.apply_many_for_instr Orders.apply_all Orders.bbo Orders.top_n_of Orders.order_count
    Orders.instrument_for_order Export.handle_to_id Export.export_keys Export.export_levels
    Export.export_book Export.export_books Export.export Export.import_orders
    Export.import_instruments Export.from_export Export.export_depth
run = tt

abbrev pub empty_book : InstrumentBook
empty_book = with_params 16 (pos 1) 8

-- `fifo_within_level_and_totals`
fifo_test : Option (Option (List ℕ) × ℤ × ℕ)
fifo_test = do
  (h1, b1) ← add 0 (pos 100) (pos 10) bid empty_book
  (h2, b2) ← add 1 (pos 100) (pos 20) bid b1
  b3 ← set_qty h1 (pos 5) b2
  l ← get_level (ladder bid b3) (pos 100)
  some (iter_fifo 8 b3.orders l, l.total_qty, l.count)

fifo_test_runs : fifo_test ≡ some (some (0 ∷ 1 ∷ []), pos 25, 2)
unfolding run fifo_test
fifo_test_runs = refl

-- best price over three additions, and after a cancel
best_test : Option (Option (ℤ × ℤ) × Option (ℤ × ℤ))
best_test = do
  (h1, b1) ← add 0 (pos 100) (pos 10) bid empty_book
  (h2, b2) ← add 1 (pos 101) (pos 20) bid b1
  (h3, b3) ← add 2 (pos 103) (pos 7) ask b2
  b4 ← cancel h2 b3
  some (Instrument.bbo b4)

best_test_runs : best_test ≡ some (some (pos 100, pos 10), some (pos 103, pos 7))
unfolding run best_test
best_test_runs = refl

-- drift to 110 and back to 103: the level at 103 splits
split_test : Option (Option (ℤ × ℤ) × List (ℤ × ℤ))
split_test = do
  (h1, b1) ← add 0 (pos 103) (pos 10) bid empty_book
  (h2, b2) ← add 1 (pos 105) (pos 20) bid b1
  (h2, b3) ← add 2 (pos 107) (pos 20) bid b2
  (h3, b4) ← add 3 (pos 105) (pos 5) bid b3
  some ((Instrument.bbo b4).0, (top_n 10 b4).0)
