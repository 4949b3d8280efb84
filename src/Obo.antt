-- ===== src/Obo.antt =====
-- src/codec_raw.rs and src/obo.rs: the wire format of the publisher, packed structs in little-endian
-- order, and the messages that the events of the book become.
use numi_orderbook.Base.{ℕ, ◌-◌, ◌%◌, ◌^◌, Option, none, some, List, [], ◌∷◌, ◌++◌}
use numi_orderbook.Base.Int.{ℤ, pos, negsuc}
use numi_orderbook.Event.{Side, bid, ask, Event}
use numi_orderbook.Wire.{le_bytes}

abbrev pub magic : List ℕ
magic = b'O' ∷ b'B' ∷ b'v' ∷ b'1' ∷ []

abbrev pub version_v1 : ℕ
version_v1 = 1

-- `codec::RAW_V1` and `channel_id::OBO_L3`.
abbrev pub raw_v1 : ℕ
raw_v1 = 0

abbrev pub obo_l3 : ℕ
obo_l3 = 0

abbrev pub obo_add : ℕ
obo_add = 100

abbrev pub obo_modify : ℕ
obo_modify = 101

abbrev pub obo_cancel : ℕ
obo_cancel = 102

abbrev pub obo_execute : ℕ
obo_execute = 103

pub record FrameHeaderV1 : Type 0 where
  pub header_magic : List ℕ
  pub version : ℕ
  pub codec : ℕ
  pub message_type : ℕ
  pub channel_id : ℕ
  pub instrument_id : ℕ
  pub sequence : ℕ
  pub send_time_ns : ℕ
  pub payload_len : ℕ

pub record OboAddV1 : Type 0 where
  pub order_id : ℕ
  pub price_e8 : ℤ
  pub qty : ℕ
  pub side : ℕ
  pub flags : ℕ

pub record OboModifyV1 : Type 0 where
  pub order_id : ℕ
  pub new_price_e8 : ℤ
  pub new_qty : ℕ
  pub flags : ℕ

pub record OboCancelV1 : Type 0 where
  pub order_id : ℕ
  pub qty_cxl : ℕ
  pub reason : ℕ

pub record OboExecuteV1 : Type 0 where
  pub maker_order_id : ℕ
  pub trade_qty : ℕ
  pub trade_price_e8 : ℤ
  pub aggressor_side : ℕ
  pub match_id : ℕ

pub data OboEventV1 : Type 0 where
  add : OboAddV1 → OboEventV1
  modify : OboModifyV1 → OboEventV1
  cancel : OboCancelV1 → OboEventV1
  execute : OboExecuteV1 → OboEventV1

-- An i64 as the u64 of its two's complement, also `as u64`.
unfoldable pub bits64 : ℤ → ℕ
bits64 (pos n) = n % 2 ^ 64
bits64 (negsuc n) = 2 ^ 64 - 1 - n % 2 ^ 64

-- `as_bytes` of the packed structs.
unfoldable pub header_bytes : FrameHeaderV1 → List ℕ
header_bytes h =
    h.header_magic
    ++ (le_bytes 1 h.version
        ++ (le_bytes 1 h.codec
            ++ (le_bytes 2 h.message_type
                ++ (le_bytes 4 h.channel_id
                    ++ (le_bytes 8 h.instrument_id
                        ++ (le_bytes 8 h.sequence
                            ++ (le_bytes 8 h.send_time_ns ++ le_bytes 4 h.payload_len)))))))

unfoldable pub add_bytes : OboAddV1 → List ℕ
unfolding bits64
add_bytes p =
    le_bytes 8 p.order_id
    ++ (le_bytes 8 (bits64 p.price_e8)
        ++ (le_bytes 8 p.qty ++ (le_bytes 1 p.side ++ le_bytes 1 p.flags)))

unfoldable pub modify_bytes : OboModifyV1 → List ℕ
modify_bytes p =
    le_bytes 8 p.order_id
    ++ (le_bytes 8 (bits64 p.new_price_e8) ++ (le_bytes 8 p.new_qty ++ le_bytes 1 p.flags))

unfoldable pub cancel_bytes : OboCancelV1 → List ℕ
cancel_bytes p = le_bytes 8 p.order_id ++ (le_bytes 8 p.qty_cxl ++ le_bytes 1 p.reason)

unfoldable pub execute_bytes : OboExecuteV1 → List ℕ
execute_bytes p =
    le_bytes 8 p.maker_order_id
    ++ (le_bytes 8 p.trade_qty
        ++ (le_bytes 8 (bits64 p.trade_price_e8)
            ++ (le_bytes 1 p.aggressor_side ++ le_bytes 8 p.match_id)))

-- The message type of an event and its payload, as the decode loop picks them.
unfoldable pub message_of : OboEventV1 → ℕ × List ℕ
unfolding add_bytes modify_bytes cancel_bytes execute_bytes
message_of (OboEventV1.add p) = (obo_add, add_bytes p)
message_of (OboEventV1.modify p) = (obo_modify, modify_bytes p)
message_of (OboEventV1.cancel p) = (obo_cancel, cancel_bytes p)
message_of (OboEventV1.execute p) = (obo_execute, execute_bytes p)

unfoldable pub side_to_u8 : Side → ℕ
side_to_u8 bid = 0
side_to_u8 ask = 1

abbrev pub side_or_bid : Option Side → ℕ
side_or_bid none = 0
side_or_bid (some s) = side_to_u8 s

-- The instrument, where the event names it, and the message, where there is one.
unfoldable pub map_event_to_obo_parts : Event → Option ℕ × Option OboEventV1
unfolding side_to_u8 bits64
map_event_to_obo_parts (Event.add order_id instr px qty side) = (
  some instr,
  some (
      OboEventV1.add (record {
        order_id = order_id;
        price_e8 = px;
        qty = bits64 qty;
        side = side_to_u8 side;
        flags = 0;
      })),
)
map_event_to_obo_parts (Event.mod_qty order_id qty) = (
  none,
  some (
      OboEventV1.modify
        (record { order_id = order_id; new_price_e8 = pos 0; new_qty = bits64 qty; flags = 1 })),
)
map_event_to_obo_parts (Event.del order_id) =
    (none, some (OboEventV1.cancel (record { order_id = order_id; qty_cxl = 0; reason = 0 })))
map_event_to_obo_parts (Event.trade instr px qty none taker_side) = (some instr, none)
map_event_to_obo_parts (Event.trade instr px qty (some maker) taker_side) = (
  some instr,
  some (
      OboEventV1.execute (record {
        maker_order_id = maker;
        trade_qty = bits64 qty;
        trade_price_e8 = px;
        aggressor_side = side_or_bid taker_side;
        match_id = 0;
      })),
)
map_event_to_obo_parts Event.heartbeat = (none, none)
