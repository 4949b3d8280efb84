-- ===== src/Eobi.antt =====
-- src/decoder_eobi.rs: SBE messages, each a little-endian header of eight bytes and a body of fixed
-- offsets.
pub mod Total
mod Examples
use numi_orderbook.Base.{
  ℕ, zero, suc, ◌+◌, Bool, Option, none, some, List, [], ◌∷◌, ◌++◌, ltb, leb, ◌==◌, if◌then◌else◌,
  length, get_elem?, take, drop,
}
use numi_orderbook.Base
use numi_orderbook.Base.Int.{of_bits}
use numi_orderbook.Event.{Side, bid, ask, Event}
use numi_orderbook.Wire.{Outcome, ok, stuck, ◌>>=◌, slice, le_value}

-- `le_u16` of a slice of the payload.
unfoldable pub le_u16_at : List ℕ → ℕ → Outcome ℕ
unfolding slice le_value
le_u16_at payload off = do b ← slice payload off (off + 2); ok (le_value b)

-- `read_le_u32_checked`, `read_le_u64_checked`
unfoldable pub read_le : ℕ → List ℕ → ℕ → Option ℕ
unfolding le_value
read_le n b off = if leb (off + n) (length b) then some (le_value (take n (drop off b))) else none

-- `body.get(i).copied().unwrap_or(d)`
abbrev pub byte_or : List ℕ → ℕ → ℕ → ℕ
byte_or b i d = elim (get_elem? b i) [ none ↦ d | some v ↦ v ]

-- `out.push(ev)` unless a read returned early.
abbrev pub push : List Event → Option Event → List Event
push out none = out
push out (some ev) = out ++ (ev ∷ [])

module _ (body : List ℕ) where
  unfoldable pub parse_add : Option Event
  unfolding read_le of_bits
  parse_add =
      if ltb (length body) 29
      then none
      else Base.◌>>=◌ (read_le 8 body 0) λ order_id. Base.◌>>=◌ (read_le 4 body 8) λ instr.
        let side = if byte_or body 12 0 == 0 then bid else ask in
        Base.◌>>=◌ (read_le 8 body 13) λ px.
          Base.◌>>=◌ (read_le 8 body 21)
            λ qty. some (Event.add order_id instr (of_bits px) (of_bits qty) side)

  unfoldable pub parse_mod : Option Event
  unfolding read_le of_bits
  parse_mod =
      if ltb (length body) 16
      then none
      else Base.◌>>=◌ (read_le 8 body 0) λ order_id.
        Base.◌>>=◌ (read_le 8 body 8) λ qty. some (Event.mod_qty order_id (of_bits qty))

  unfoldable pub parse_del : Option Event
  unfolding read_le
  parse_del =
      if ltb (length body) 8
      then none
      else Base.◌>>=◌ (read_le 8 body 0) λ order_id. some (Event.del order_id)

  unfoldable pub parse_trade : Option Event
  unfolding read_le of_bits
  parse_trade =
      if ltb (length body) 29
      then none
      else Base.◌>>=◌ (read_le 4 body 0) λ instr. Base.◌>>=◌ (read_le 8 body 4) λ px.
        Base.◌>>=◌ (read_le 8 body 12) λ qty. Base.◌>>=◌ (read_le 8 body 20) λ maker_order_id.
          let b = byte_or body 28 2 in
          let taker_side = if b == 0 then some bid else if b == 1 then some ask else none in
          some (Event.trade instr (of_bits px) (of_bits qty) (some maker_order_id) taker_side)

-- The `match template_id`.
unfoldable pub on_template : ℕ → List ℕ → List Event → List Event
unfolding parse_add parse_mod parse_del parse_trade
on_template template_id body out =
    if template_id == 1001
    then push out (parse_add body)
    else if template_id == 1002
    then push out (parse_mod body)
    else if template_id == 1003
    then push out (parse_del body)
    else if template_id == 1004
    then push out (parse_trade body)
    else out

-- The block length and the template of the header at `off`; schema and version are read and ignored.
unfoldable pub read_header : List ℕ → ℕ → Outcome (ℕ × ℕ)
unfolding le_u16_at
read_header payload off = do
  block_len ← le_u16_at payload off
  template_id ← le_u16_at payload (off + 2)
  schema_id ← le_u16_at payload (off + 4)
  version ← le_u16_at payload (off + 6)
  ok (block_len, template_id)

-- The loop from offset `off` on. A message takes eight bytes at least.
unfoldable pub decode_from : ℕ → List ℕ → ℕ → List Event → Outcome (List Event)
unfolding read_header slice on_template
decode_from zero payload off out = stuck
decode_from (suc fuel) payload off out =
    let rest : Outcome (List Event) = (do
      (block_len, template_id) ← read_header payload off
      let start = off + 8
      if ltb (length payload) (start + block_len) then ok out else (do
        body ← slice payload start (start + block_len)
        decode_from fuel payload (start + block_len) (on_template template_id body out))) in
    if leb (off + 8) (length payload) then rest else ok out

unfoldable pub decode_messages : List ℕ → List Event → Outcome (List Event)
unfolding decode_from
decode_messages payload out = decode_from (suc (length payload)) payload 0 out
