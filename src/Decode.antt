-- ===== src/Decode.antt =====
-- src/decode.rs: one packet through the parser, the order book and the publisher. `clock n` is the time
-- at the n-th event, and `keys n` is the slab's next key for the n-th event of the packet.
-- Metrics, logs and the return of the buffer to its pool leave no trace.
pub mod Publish
pub mod Packet
pub mod Cancel
mod Examples
use numi_orderbook.Base.{
  ℕ, suc, ◌+◌, Bool, true, false, ◌||◌, Option, none, some, List, [], ◌∷◌, ◌++◌, length,
  if◌then◌else◌,
}
use numi_orderbook.Base.Int.{ℤ}
use numi_orderbook.Event.{Event}
use numi_orderbook.Wire.{Outcome, ok, ◌>>=◌, unwrap}
use numi_orderbook.Pool.{Pkt, payload}
use numi_orderbook.Parser.{Parser, decode_into}
use numi_orderbook.Obo.{OboEventV1, map_event_to_obo_parts, message_of, obo_l3}
use numi_orderbook.Pubsub.{Bus, publish_raw, next_seq_for_instrument}
use numi_orderbook.Book.Orders.{
  OrderBook, apply, instrument_for_order, new_book, set_consume_trades, order_count, bbo,
}
use numi_orderbook.Book.Export.{BookExport, export}

-- The options that the loop reads: `initial_book`, whether there are a channel for snapshots and a
-- publisher, and how the book is set up.
pub record DecodeConfig : Type 0 where
  pub max_depth : ℕ
  pub consume_trades : Bool
  pub has_snapshot_tx : Bool
  pub initial_book : Option OrderBook
  pub obo_publisher : Option Bus

pub record Decode : Type 0 where
  pub parser : Parser
  pub book : OrderBook
  pub bus : Option Bus
  pub processed_pkts : ℕ
  pub processed_msgs : ℕ
  pub reads : ℕ

abbrev pub book_or_new : ℕ → Option OrderBook → OrderBook
book_or_new max_depth none = new_book max_depth
book_or_new max_depth (some ob) = ob

unfoldable pub start_decode : Parser → DecodeConfig → Decode
start_decode parser cfg = record {
  parser = parser;
  book = set_consume_trades cfg.consume_trades (book_or_new cfg.max_depth cfg.initial_book);
  bus = cfg.obo_publisher;
  processed_pkts = 0;
  processed_msgs = 0;
  reads = 0;
}

-- What a snapshot sends to the writer and puts on the log.
pub record Report : Type 0 where
  pub live_orders : ℕ
  pub sent : Option BookExport
  pub best : Option (ℤ × ℤ) × Option (ℤ × ℤ)

-- After each packet: a snapshot, if its time has come or one was asked for.
unfoldable pub snapshot : ℕ → Bool → Bool → Bool → OrderBook → Outcome (Option Report)
snapshot fuel has_tx elapsed triggered ob =
    if elapsed || triggered
    then ((if has_tx then (unwrap (export fuel ob) >>= λ e. ok (some e)) else ok none) >>= λ sent.
        ok (some (record { live_orders = order_count ob; sent = sent; best = bbo ob })))
    else ok none

abbrev pub or_zero : Option ℕ → ℕ
or_zero none = 0
or_zero (some i) = i

-- The instrument where the mapping does not name it: that of the order in the book as it is now.
unfoldable pub instr_in_book : Event → OrderBook → Option ℕ
instr_in_book (Event.mod_qty order_id qty) ob = instrument_for_order order_id ob
instr_in_book (Event.del order_id) ob = instrument_for_order order_id ob
instr_in_book (Event.trade instr px qty maker taker) ob = some instr
instr_in_book (Event.add order_id instr px qty side) ob = none
instr_in_book Event.heartbeat ob = none

unfoldable pub instr_of : Option ℕ → Event → OrderBook → ℕ
instr_of (some i) ev ob = i
instr_of none ev ob = or_zero (instr_in_book ev ob)

unfoldable pub publish : ℕ → ℕ → OboEventV1 → Bus → Bus
publish now instr obo b =
    let (seq, seqs) = next_seq_for_instrument instr b.per_instr_seq in
    publish_raw now (message_of obo).0 obo_l3 instr seq (message_of obo).1
      (record b { per_instr_seq = seqs })

-- `ob` is the book after the event.
unfoldable pub publish_event : ℕ → Event → OrderBook → Bus → Bus
publish_event now ev ob b = elim (map_event_to_obo_parts ev).1 [
  | none ↦ b
  | some obo ↦ publish now (instr_of (map_event_to_obo_parts ev).0 ev ob) obo b
]

abbrev pub with_bus : (Bus → Bus) → Option Bus → Option Bus
with_bus f none = none
with_bus f (some b) = some (f b)

abbrev pub with_keys : (ℕ → ℕ) → ℕ → List Event → List (ℕ × Event)
with_keys keys n [] = []
with_keys keys n (ev ∷ evs) = (keys n, ev) ∷ with_keys keys (n + 1) evs

module _ (clock : ℕ → ℕ) where
  -- The loop over the events; each event takes one reading of the clock, as its time of publication.
  unfoldable pub on_events :
      List (ℕ × Event) → ℕ → OrderBook → Option Bus → Outcome (ℕ × OrderBook × Option Bus)
  on_events [] reads ob bus = ok (reads, ob, bus)
  on_events ((fresh, ev) ∷ evs) reads ob bus = unwrap (apply fresh ev ob) >>= λ ob'.
      on_events evs (suc reads) ob' (with_bus (publish_event (clock reads) ev ob') bus)

  unfoldable pub on_packet : (ℕ → ℕ) → Pkt → Decode → Outcome Decode
  on_packet keys pkt d = payload pkt >>= λ bytes. decode_into d.parser bytes [] >>= λ r.
      on_events (with_keys keys 0 r.1) d.reads d.book d.bus >>= λ s. ok (record {
        parser = r.0;
        book = s.1;
        bus = s.2;
        processed_pkts = d.processed_pkts + 1;
        processed_msgs = d.processed_msgs + length r.1;
        reads = s.0;
      })
