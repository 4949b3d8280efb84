-- ===== src/Eobi/Examples.antt =====
-- The properties of the SBE decoder at concrete inputs.
use numi_orderbook.Base.{ℕ, ◌*◌, ◌≤◌, ◌≡◌, List, [], ◌∷◌, ◌++◌, length}
use numi_orderbook.Event.{Event}
use numi_orderbook.Wire.{ok}
use numi_orderbook.Eobi.{decode_messages}
use numi_orderbook.Eobi.Total.{decode_messages_total}

-- A cancel of order 7, and the start of a message that is cut.
abbrev del_packet : List ℕ
del_packet = 8 ∷ 0 ∷ 0xeb ∷ 3 ∷ 0 ∷ 0 ∷ 0 ∷ 0 ∷ 7 ∷ 0 ∷ 0 ∷ 0 ∷ 0 ∷ 0 ∷ 0 ∷ 0 ∷ 1 ∷ 0 ∷ []

decode_messages_total_example :
    (evs : List Event) × (decode_messages del_packet [] ≡ ok ([] ++ evs))
    × (8 * length evs ≤ length del_packet)
decode_messages_total_example = decode_messages_total del_packet []
