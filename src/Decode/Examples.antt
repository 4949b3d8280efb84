-- ===== src/Decode/Examples.antt =====
-- src/decode.rs: the theorems at a packet that cancels an order, on a book with that order.
use mathlib.Core.Path.{subst}
use numi_orderbook.Base.{
  ap, sym, ℕ, ◌+◌, ◌≡◌, refl, false, Option, none, some, List, [], ◌∷◌, arith,
}
use numi_orderbook.Base.Int.{pos}
use numi_orderbook.Event.{Event, bid}
use numi_orderbook.Wire.{ok, slice}
use numi_orderbook.Pool.{Pkt, PktBuf, TsKind, payload}
use numi_orderbook.Settings.{Endian}
use numi_orderbook.Parser.{Parser, DecoderImpl, decode_into}
use numi_orderbook.Eobi
use numi_orderbook.Pubsub.{Bus, new_bus}
use numi_orderbook.Pubsub.Session.{new_bus-IsLog}
use numi_orderbook.Book.Orders.{OrderBook, apply, apply_all, new_with_grid}
use numi_orderbook.Book.Orders.View.{events_on, view, Admissible, IsSound}
use numi_orderbook.Book.Orders.Refine.{apply-refines}
use numi_orderbook.Book.Levels.Ensure.{new_window}
use numi_orderbook.Book.Instrument.Begin.{new_grid-slot_at}
use numi_orderbook.Book.Orders.Sound.{Done}
use numi_orderbook.Book.Orders.Run.{new_with_grid-IsSound}
use numi_orderbook.Book.Tests.{run}
use numi_orderbook.Decode.{Decode, on_events, on_packet, with_keys}
use numi_orderbook.Decode.Publish.{on_events-Sent, del_instr, Sent}
use numi_orderbook.Decode.Cancel.{CancelSent, on_events-cancel}
use numi_orderbook.Decode.Packet.{on_packet-refines}

abbrev clock : ℕ → ℕ
clock n = n + 1000

abbrev keys : ℕ → ℕ
keys n = n

-- An SBE message that cancels order 7.
abbrev bytes : List ℕ
bytes = 8 ∷ 0 ∷ 0xeb ∷ 3 ∷ 0 ∷ 0 ∷ 0 ∷ 0 ∷ 7 ∷ 0 ∷ 0 ∷ 0 ∷ 0 ∷ 0 ∷ 0 ∷ 0 ∷ []

abbrev packet : Pkt
packet = record {
  buf = PktBuf.bytes bytes;
  len = 16;
  seq = 1;
  ts_nanos = 5;
  chan = b'A';
  ts_kind = TsKind.sw;
  merge_emit_ns = 9;
}

abbrev parser : Parser
parser = record {
  seq = record { offset = 0; len = 8; endian = Endian.be };
  dec = DecoderImpl.fixed;
  max_messages_per_packet = 64;
}

abbrev new_one : OrderBook
new_one = new_with_grid 10 false 16 (pos 1) 8

abbrev or_new : Option OrderBook → OrderBook
or_new none = new_one
or_new (some ob) = ob

-- Order 7 of instrument 3, and the book after its cancel.
abbrev listed : OrderBook
listed = or_new (apply 0 (Event.add 7 3 (pos 100) (pos 5) bid) new_one)

abbrev cancelled : OrderBook
cancelled = or_new (apply 0 (Event.del 7) listed)

listed_first : Admissible 0 (Event.add 7 3 (pos 100) (pos 5) bid) new_one
unfolding run
listed_first = (
  (omega arith, omega arith),
  refl,
  refl,
  new_window 4 refl refl (new_grid-slot_at (pos 1) 8) refl (λ p i hp e. refl),
  tt,
)

listed-IsSound : IsSound listed
listed-IsSound =
    let (ob', e, d) =
      apply-refines 0 (Event.add 7 3 (pos 100) (pos 5) bid) new_one
        (new_with_grid-IsSound 10 false 16 (pos 1) 8 refl).0 listed_first in
    subst IsSound (sym (ap or_new e)) d.sound

abbrev state : Decode
state = record {
  parser = parser;
  book = listed;
  bus = some (new_bus 4);
  processed_pkts = 0;
  processed_msgs = 0;
  reads = 0;
}

abbrev evs : List Event
evs = Event.del 7 ∷ []

on_packet-refines_example :
    (d' : Decode) × (on_packet clock keys packet state ≡ ok d')
    × Done listed d'.book (events_on false (with_keys keys 0 evs) (view listed))
    × (d'.processed_pkts ≡ 1)
    × (d'.processed_msgs ≡ 1)
unfolding payload slice decode_into Eobi.decode_messages
on_packet-refines_example =
    on_packet-refines clock keys packet state bytes parser evs refl refl listed-IsSound
      (tt, λ ob' e. tt)

on_events-Sent_example :
    (n : ℕ) × (b' : Bus) × (on_events clock (with_keys keys 0 evs) 0 listed (some (new_bus 4))
      ≡ ok (n, cancelled, some b'))
    × Sent [] 1 b'
unfolding run apply_all
on_events-Sent_example =
    on_events-Sent clock (with_keys keys 0 evs) 0 listed cancelled (new_bus 4) [] refl
      (new_bus-IsLog 4 (omega arith)) (omega arith)

on_events-cancel_example :
    (b' : Bus) × (on_events clock ((0, Event.del 7) ∷ []) 0 listed (some (new_bus 4))
      ≡ ok (1, cancelled, some b'))
    × CancelSent 1000 0 7 [] (new_bus 4) b'
    × (del_instr 7 listed ≡ 3)
unfolding run new_bus
on_events-cancel_example =
    on_events-cancel clock 0 7 3 0 0 listed cancelled (new_bus 4) [] refl refl
      (new_bus-IsLog 4 (omega arith)) (omega arith) (omega arith) (omega arith)
