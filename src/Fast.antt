-- ===== src/Fast.antt =====
-- src/decoder_fast.rs: messages of stop-bit integers behind a presence map, a template and a length.
pub mod Total
pub mod Loop
mod Examples
use Prim.Native.Nat.{bit_and, bit_or, bit_xor}
use numi_orderbook.Base.{
  ℕ, zero, suc, ◌+◌, ◌*◌, ◌/◌, ◌%◌, ◌^◌, not, ◌&&◌, Option, none, some, List, [], ◌∷◌, ◌++◌, ltb,
  leb, ◌==◌, if◌then◌else◌, length,
}
use numi_orderbook.Base.Int.{ℤ, bits, of_bits, neg_ℕ}
use numi_orderbook.Event.{Side, bid, ask, Event}
use numi_orderbook.Wire.{Outcome, ok, stuck, ◌>>=◌, slice, index}

-- The loop of `read_pmap` and `read_sbi_u64`, which differ in the last shift that they allow: the
-- value and the number of bytes taken, from the state `v`, `shift` and `consumed` on.
unfoldable pub read_groups : ℕ → List ℕ → (v shift consumed : ℕ) → ℕ × ℕ
read_groups max_shift [] v shift consumed = (v, consumed)
read_groups max_shift (byte ∷ b) v shift consumed =
    let v' = bit_or v (bit_and byte 0x7f * 2 ^ shift % 2 ^ 64) in
    let more = read_groups max_shift b v' (shift + 7) (consumed + 1) in
    if bit_and byte 0x80 == 0
    then (v', consumed + 1)
    else if ltb max_shift (shift + 7)
    then (v', consumed + 1)
    else more

abbrev pub from_off : List ℕ → ℕ → List ℕ
from_off b zero = b
from_off [] (suc n) = []
from_off (x ∷ xs) (suc n) = from_off xs n

unfoldable pub read_pmap : List ℕ → ℕ → ℕ × ℕ
unfolding read_groups
read_pmap b off = read_groups 56 (from_off b off) 0 0 0

unfoldable pub read_sbi_u64 : List ℕ → ℕ → ℕ × ℕ
unfolding read_groups
read_sbi_u64 b off = read_groups 63 (from_off b off) 0 0 0

-- `((uv >> 1) as i64) ^ (-((uv & 1) as i64))`
unfoldable pub zigzag : ℕ → ℤ
unfolding bits of_bits
zigzag uv = of_bits (bit_xor (uv / 2) (bits (neg_ℕ (bit_and uv 1))))

abbrev pub side_of : ℕ → Side
side_of b = if b == 0 then bid else ask

module _ (body : List ℕ) (out : List Event) where
  unfoldable pub on_add : Outcome (List Event)
  unfolding read_sbi_u64 zigzag index
  on_add =
      let (order_id, n1) = read_sbi_u64 body 0 in
      let (instr, n2) = read_sbi_u64 body n1 in
      let o = n1 + n2 in
      if n1 == 0
      then ok out
      else if n2 == 0
      then ok out
      else if leb (length body) o
      then ok out
      else (do
        side ← index body o
        let (uv_px, n3) = read_sbi_u64 body (o + 1)
        let (uv_qty, n4) = read_sbi_u64 body (o + 1 + n3)
        let ev = Event.add order_id (instr % 2 ^ 32) (zigzag uv_px) (zigzag uv_qty) (side_of side)
        if n3 == 0 then ok out else if n4 == 0 then ok out else ok (out ++ (ev ∷ [])))

  unfoldable pub on_mod : Outcome (List Event)
  unfolding read_sbi_u64 zigzag
  on_mod =
      let (order_id, n1) = read_sbi_u64 body 0 in
      let (uv_qty, n2) = read_sbi_u64 body n1 in
      if n1 == 0 then ok out else ok (out ++ (Event.mod_qty order_id (zigzag uv_qty) ∷ []))

  unfoldable pub on_del : Outcome (List Event)
  unfolding read_sbi_u64
  on_del = let (order_id, n1) = read_sbi_u64 body 0 in ok (out ++ (Event.del order_id ∷ []))

  -- The two optional fields at offset `o`, as the presence map has them, and the event.
  unfoldable pub push_trade : (pmap instr : ℕ) → (px qty : ℤ) → ℕ → Outcome (List Event)
  unfolding read_sbi_u64 index
  push_trade pmap instr px qty o =
      let has_maker = not (bit_and pmap 1 == 0) in
      let (oid, n4) = read_sbi_u64 body o in
      let maker = if has_maker then some oid else none in
      let o' = if has_maker then o + n4 else o in
      if has_maker && n4 == 0
      then ok out
      else if not (bit_and pmap 2 == 0) && ltb o' (length body)
      then (do
        b ← index body o'
        ok (out ++ (Event.trade instr px qty maker (some (side_of b)) ∷ [])))
      else ok (out ++ (Event.trade instr px qty maker none ∷ []))

  unfoldable pub on_trade : ℕ → Outcome (List Event)
  unfolding read_sbi_u64 zigzag push_trade
  on_trade pmap =
      let (instr, n1) = read_sbi_u64 body 0 in
      let (uv_px, n2) = read_sbi_u64 body n1 in
      let (uv_qty, n3) = read_sbi_u64 body (n1 + n2) in
      if n1 == 0
      then ok out
      else if n2 == 0
      then ok out
      else if n3 == 0
      then ok out
      else push_trade pmap (instr % 2 ^ 32) (zigzag uv_px) (zigzag uv_qty) (n1 + n2 + n3)

-- The `match tmpl`.
unfoldable pub on_template : ℕ → ℕ → List ℕ → List Event → Outcome (List Event)
unfolding on_add on_mod on_del on_trade
on_template tmpl pmap body out =
    if tmpl == 1
    then on_add body out
    else if tmpl == 2
    then on_mod body out
    else if tmpl == 3
    then on_del body out
    else if tmpl == 4
    then on_trade body out pmap
    else ok out

-- What one round of the loop reads before the body: the presence map, the template, the body's length
-- and its offset; `none` is a `break`.
unfoldable pub read_header : List ℕ → ℕ → Option (ℕ × ℕ × ℕ × ℕ)
unfolding read_pmap read_sbi_u64
read_header payload off =
    let (pmap, n) = read_pmap payload off in
    let (tmpl, n2) = read_sbi_u64 payload (off + n) in
    let (body_len, n3) = read_sbi_u64 payload (off + n + n2) in
    if n == 0
    then none
    else if n2 == 0
    then none
    else if n3 == 0
    then none
    else some (pmap, tmpl, body_len, off + n + n2 + n3)

-- The loop from offset `off` on. `off + body_len` wraps in a release build.
unfoldable pub decode_from : ℕ → List ℕ → ℕ → List Event → Outcome (List Event)
unfolding read_header slice on_template
decode_from zero payload off out = stuck
decode_from (suc fuel) payload off out =
    let rest : Outcome (List Event) = elim (read_header payload off) [
      | none ↦ ok out
      | some (pmap, tmpl, body_len, start) ↦
          let end = (start + body_len) % 2 ^ 64 in
          if ltb (length payload) end then ok out else (do
            body ← slice payload start end
            out' ← on_template tmpl pmap body out
            decode_from fuel payload end out')
    ] in
    if ltb off (length payload) then rest else ok out

unfoldable pub decode_messages : List ℕ → List Event → Outcome (List Event)
unfolding decode_from
decode_messages payload out = decode_from (suc (length payload)) payload 0 out
