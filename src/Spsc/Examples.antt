-- ===== src/Spsc/Examples.antt =====
-- src/spsc.rs: a queue of two slots, and the state after a push.
use numi_orderbook.Base.{ℕ, ◌+◌, ◌≤◌, ◌≡◌, refl, Option, some, [], ◌∷◌, length, get_elem?}
use numi_orderbook.Spsc.{
  System, Reach, start_system, new_queue, capacity_of, power_from, push, len, advance_head,
  write_slot,
}
use numi_orderbook.Spsc.Order.{reach_in_order}
use numi_orderbook.Spsc.Calls.{push_reach}

capacity_test : capacity_of 5 ≡ 8
unfolding capacity_of power_from
capacity_test = refl

-- A push into a new queue.
abbrev begun : System ℕ
begun = record (start_system ℕ 2) {
  queue = advance_head (write_slot 7 (new_queue ℕ 2));
  pushed = 7 ∷ [];
}

begun-Reach : Reach (start_system ℕ 2) begun
unfolding push new_queue capacity_of power_from len
begun-Reach =
    push_reach (start_system ℕ 2) 7 (advance_head (write_slot 7 (new_queue ℕ 2))) refl refl

reach_in_order_example :
    ((i : ℕ) (o : Option ℕ)
      → get_elem? begun.popped i ≡ some o
      → (a : ℕ) × (o ≡ some a) × (get_elem? begun.pushed i ≡ some a))
    × (length begun.popped ≤ length begun.pushed)
    × (length begun.pushed ≤ length begun.popped + capacity_of 2)
reach_in_order_example = reach_in_order ℕ 2 begun begun-Reach
