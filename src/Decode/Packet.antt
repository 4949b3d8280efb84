-- ===== src/Decode/Packet.antt =====
-- src/decode.rs: a packet from its bytes to the live orders of the book.
use numi_orderbook.Base.{ℕ, ◌+◌, ◌≡◌, refl, ◌∙◌, ap, Option, List, [], length}
use numi_orderbook.Event.{Event}
use numi_orderbook.Wire.{Outcome, ok, panic, stuck, unwrap}
use numi_orderbook.Pool.{Pkt, payload}
use numi_orderbook.Parser.{Parser, decode_into}
use numi_orderbook.Pubsub.{Bus}
use numi_orderbook.Book.Orders.{OrderBook}
use numi_orderbook.Book.Orders.View.{IsSound, AllAdmissible, events_on, view}
use numi_orderbook.Book.Orders.Sound.{Done}
use numi_orderbook.Book.Orders.Run.{apply_all-refines}
use numi_orderbook.Decode.{Decode, on_events, on_packet, with_keys}
use numi_orderbook.Decode.Publish.{book_of, on_events-apply_all}

returned :
    (r : Outcome (ℕ × OrderBook × Option Bus)) (ob : OrderBook)
    → book_of r ≡ ok ob
    → (n : ℕ) × (bus : Option Bus) × (r ≡ ok (n, ob, bus))
returned (ok (n, o, bus)) ob e = (n, bus, cc e)
returned panic ob e = cc e
returned stuck ob e = cc e

-- From a sound book, a packet whose bytes decode to events that are admissible in turn is processed
-- without a panic, leaves a sound book, does to the live orders what its events say, and counts one
-- packet and its events.
pub on_packet-refines :
    (clock keys : ℕ → ℕ) (pkt : Pkt) (d : Decode) (bytes : List ℕ) (parser : Parser)
    (evs : List Event)
    → payload pkt ≡ ok bytes
    → decode_into d.parser bytes [] ≡ ok (parser, evs)
    → IsSound d.book
    → AllAdmissible (with_keys keys 0 evs) d.book
    → (d' : Decode) × (on_packet clock keys pkt d ≡ ok d')
      × Done d.book d'.book (events_on d.book.consume_trades (with_keys keys 0 evs) (view d.book))
      × (d'.processed_pkts ≡ d.processed_pkts + 1)
      × (d'.processed_msgs ≡ d.processed_msgs + length evs)
unfolding on_packet
on_packet-refines clock keys pkt d bytes parser evs body decoded sound adm =
    let (ob', run, done) = apply_all-refines (with_keys keys 0 evs) d.book sound adm in
    let (n, bus, e) =
      returned (on_events clock (with_keys keys 0 evs) d.reads d.book d.bus) ob'
        (on_events-apply_all clock (with_keys keys 0 evs) d.reads d.book d.bus ∙ ap unwrap run) in
    let after : Decode = record {
      parser = parser;
      book = ob';
      bus = bus;
      processed_pkts = d.processed_pkts + 1;
      processed_msgs = d.processed_msgs + length evs;
      reads = n;
    } in
    (after, rw (body, decoded, e) refl, done, refl, refl)
