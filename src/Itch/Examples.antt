-- ===== src/Itch/Examples.antt =====
-- The properties of the ITCH decoder at concrete inputs.
use numi_orderbook.Base.{ℕ, ◌≡◌, List, [], ◌∷◌, ◌++◌}
use numi_orderbook.Base.Int.{pos}
use numi_orderbook.Event.{Event, bid}
use numi_orderbook.Wire.{ok}
use numi_orderbook.Itch.{Inner, decode_messages}
use numi_orderbook.Itch.Track.{tracked, replay}
use numi_orderbook.Itch.Total.{decode_messages_tracks}

-- A delete of order 7, which is tracked.
abbrev del_packet : List ℕ
del_packet =
    0 ∷ 19 ∷ b'D' ∷ 0 ∷ 1 ∷ 0 ∷ 0 ∷ 0 ∷ 0 ∷ 0 ∷ 0 ∷ 0 ∷ 0 ∷ 0 ∷ 0 ∷ 0 ∷ 0 ∷ 0 ∷ 0 ∷ 0 ∷ 7 ∷ []

abbrev one_order : Inner
one_order = record {
  orders = (7, record { instr = 1; qty = pos 10; px = pos 100; side = bid }) ∷ [];
  last_symbol_by_locate = [];
}

decode_messages_tracks_example :
    (st' : Inner) × (evs : List Event) × (decode_messages del_packet (one_order, [])
      ≡ ok (st', [] ++ evs))
    × ((k : ℕ) → tracked st' k ≡ replay evs k (tracked one_order k))
decode_messages_tracks_example = decode_messages_tracks del_packet one_order []
