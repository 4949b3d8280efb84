-- ===== src/Event.antt =====
-- src/parser.rs: the events that every decoder produces and the order book consumes.
use numi_orderbook.Base.{ℕ, Option, Bool, true, false}
use numi_orderbook.Base.Int.{ℤ}

pub data Side : Type 0 where
  bid ask : Side

-- `order_id` is a u64, `instr` a u32, `px` and `qty` are i64.
pub data Event : Type 0 where
  add : (order_id instr : ℕ) → (px qty : ℤ) → Side → Event
  mod_qty : (order_id : ℕ) → (qty : ℤ) → Event
  del : (order_id : ℕ) → Event
  trade :
      (instr : ℕ) → (px qty : ℤ) → (maker_order_id : Option ℕ) → (taker_side : Option Side) → Event
  heartbeat : Event

-- The derived `PartialEq` of `Side`.
unfoldable pub side_eq : Side → Side → Bool
side_eq Side.bid Side.bid = true
side_eq Side.ask Side.ask = true
side_eq Side.bid Side.ask = false
side_eq Side.ask Side.bid = false
