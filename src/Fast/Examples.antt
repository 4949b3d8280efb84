-- ===== src/Fast/Examples.antt =====
-- The properties of the FAST decoder at concrete inputs.
use numi_orderbook.Base.{ℕ, ◌≤◌, ◌≡◌, ◌⊎◌, refl, some, List, [], ◌∷◌, ◌++◌, length, arith}
use numi_orderbook.Event.{Event}
use numi_orderbook.Wire.{ok, panic}
use numi_orderbook.Fast.{read_header, decode_messages}
use numi_orderbook.Fast.Loop.{Wraps, decode_messages_ends, decode_messages_wraps}

-- A cancel of order 5: presence map, template 3, length 1, the id.
abbrev del_packet : List ℕ
del_packet = 0x00 ∷ 0x03 ∷ 0x01 ∷ 0x05 ∷ []

decode_messages_ends_example :
    ((evs : List Event) × (decode_messages del_packet [] ≡ ok ([] ++ evs))
      × (length evs ≤ length del_packet))
    ⊎ ((decode_messages del_packet [] ≡ panic) × Wraps del_packet)
decode_messages_ends_example = decode_messages_ends del_packet []

-- The length 2^64 - 1 in ten bytes.
abbrev long_packet : List ℕ
long_packet = 0x00 ∷ 0x03 ∷ 0xff ∷ 0xff ∷ 0xff ∷ 0xff ∷ 0xff ∷ 0xff ∷ 0xff ∷ 0xff ∷ 0xff ∷ 0x01 ∷ []

long_header : read_header long_packet 0 ≡ some (0, 3, 18446744073709551615, 12)
unfolding read_header
long_header = refl

decode_messages_wraps_example : decode_messages long_packet [] ≡ panic
decode_messages_wraps_example =
    decode_messages_wraps long_packet [] 0 3 18446744073709551615 12 (omega arith) long_header
      (omega arith)
