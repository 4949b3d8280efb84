-- ===== src/Itch.antt =====
-- src/decoder_itch.rs: ITCH 5.0 messages, each a big-endian length, a type byte and a body, and the
-- orders that the decoder tracks to turn executions and cancels into absolute quantities.
pub mod Track
pub mod Known
pub mod Handlers
pub mod Total
mod Examples
use numi_orderbook.Base.{
  ℕ, zero, suc, ◌+◌, ◌-◌, Bool, true, false, Option, none, some, List, [], ◌∷◌, ◌++◌, ltb, leb,
  ◌==◌, if◌then◌else◌, length, take, drop,
}
use numi_orderbook.Base.Int.{ℤ, pos, sub_i64, ltb_ℤ}
use numi_orderbook.Base.Dict.{lookup, insert, erase}
use numi_orderbook.Event.{Side, bid, ask, Event}
use numi_orderbook.Wire.{Outcome, ok, stuck, ◌>>=◌, slice, index, unwrap, be_value}

pub record OrderState : Type 0 where
  pub instr : ℕ
  pub qty : ℤ
  pub px : ℤ
  pub side : Side

-- `Inner`: the tracked orders by order reference, and the symbols seen.
pub record Inner : Type 0 where
  pub orders : List (ℕ × OrderState)
  pub last_symbol_by_locate : List (ℕ × List ℕ)

-- `Inner::default()`
abbrev pub new_inner : Inner
new_inner = record { orders = []; last_symbol_by_locate = [] }

abbrev pub State : Type 0
State = Inner × List Event

-- `read_fixed::<N>`: the bytes and the new offset.
unfoldable pub read_fixed : ℕ → List ℕ → ℕ → Option (List ℕ × ℕ)
read_fixed n b off = if leb (off + n) (length b) then some (take n (drop off b), off + n) else none

-- `read_u16`, `read_u32` and `read_u64` (at 2, 4 and 8 bytes), with the `unwrap` of their callers.
unfoldable pub read_uint : ℕ → List ℕ → ℕ → Outcome (ℕ × ℕ)
unfolding read_fixed be_value
read_uint n b off = do (v, off') ← unwrap (read_fixed n b off); ok (be_value v, off')

unfoldable pub opposite : Side → Side
opposite bid = ask
opposite ask = bid

-- The byte 'B' is a bid.
abbrev pub side_of : ℕ → Side
side_of b = if b == b'B' then bid else ask

abbrev pub track : ℕ → OrderState → Inner → Inner
track order_ref s st = record st { orders = insert order_ref s st.orders }

abbrev pub forget : ℕ → Inner → Inner
forget order_ref st = record st { orders = erase order_ref st.orders }

-- `(qty - shares).max(0)`
unfoldable pub reduce_qty : ℤ → ℤ → ℤ
reduce_qty qty shares = let d = sub_i64 qty shares in if ltb_ℤ d (pos 0) then pos 0 else d

-- What an execution, a cancel and a trade do to a tracked order `s`, with the price it has afterwards.
unfoldable pub reduce_order : ℕ → OrderState → ℤ → ℤ → State → State
unfolding reduce_qty
reduce_order order_ref s shares px (st, out) =
    let new_qty = reduce_qty s.qty shares in
    if ltb_ℤ (pos 0) new_qty
    then (
      track order_ref (record s { qty = new_qty; px = px }) st,
      out ++ (Event.mod_qty order_ref new_qty ∷ []),
    )
    else (forget order_ref st, out ++ (Event.del order_ref ∷ []))

module _ (body : List ℕ) where
  unfoldable pub on_stock_directory : Inner → Outcome Inner
  unfolding read_uint read_fixed
  on_stock_directory st = if ltb (length body) 18 then ok st else (do
    (locate, o) ← read_uint 2 body 0
    elim (read_fixed 8 body (o + 8)) [
      | none ↦ ok st
      | some (sym, _) ↦
          ok (record st { last_symbol_by_locate = insert locate sym st.last_symbol_by_locate })
    ])

  unfoldable pub on_add : Bool → State → Outcome State
  unfolding read_uint read_fixed index
  on_add with_mpid (st, out) =
      if ltb (length body) (35 + (if with_mpid then 4 else 0)) then ok (st, out) else (do
        (locate, o₁) ← read_uint 2 body 0
        (order_ref, o₂) ← read_uint 8 body (o₁ + 8)
        side_ch ← index body o₂
        (shares, o₃) ← read_uint 4 body (o₂ + 1)
        (stock, o₄) ← unwrap (read_fixed 8 body o₃)
        (price, o₅) ← read_uint 4 body o₄
        let s : OrderState = record {
          instr = locate;
          qty = pos shares;
          px = pos price;
          side = side_of side_ch;
        }
        ok (track order_ref s st, out ++ (Event.add order_ref s.instr s.px s.qty s.side ∷ [])))

  unfoldable pub on_exec : State → Outcome State
  unfolding read_uint reduce_order opposite
  on_exec (st, out) = if ltb (length body) 30 then ok (st, out) else (do
    (locate, o₁) ← read_uint 2 body 0
    (order_ref, o₂) ← read_uint 8 body (o₁ + 8)
    (executed, o₃) ← read_uint 4 body o₂
    elim (lookup order_ref st.orders) [
      | none ↦ ok (st, out)
      | some s ↦
          let (st', out') = reduce_order order_ref s (pos executed) s.px (st, out) in
          let ev =
            Event.trade s.instr s.px (pos executed) (some order_ref) (some (opposite s.side)) in
          ok (st', out' ++ (ev ∷ []))
    ])

  unfoldable pub on_cancel : State → Outcome State
  unfolding read_uint reduce_order
  on_cancel (st, out) = if ltb (length body) 22 then ok (st, out) else (do
    (locate, o₁) ← read_uint 2 body 0
    (order_ref, o₂) ← read_uint 8 body (o₁ + 8)
    (canceled, o₃) ← read_uint 4 body o₂
    elim (lookup order_ref st.orders) [
      | none ↦ ok (st, out)
      | some s ↦ ok (reduce_order order_ref s (pos canceled) s.px (st, out))
    ])

  unfoldable pub on_delete : State → Outcome State
  unfolding read_uint
  on_delete (st, out) = if ltb (length body) 18 then ok (st, out) else (do
    (locate, o₁) ← read_uint 2 body 0
    (order_ref, o₂) ← read_uint 8 body (o₁ + 8)
    elim (lookup order_ref st.orders) [
      | none ↦ ok (st, out)
      | some s ↦ ok (forget order_ref st, out ++ (Event.del order_ref ∷ []))
    ])

  unfoldable pub on_replace : State → Outcome State
  unfolding read_uint
  on_replace (st, out) = if ltb (length body) 34 then ok (st, out) else (do
    (locate, o₁) ← read_uint 2 body 0
    (orig_ref, o₂) ← read_uint 8 body (o₁ + 8)
    (new_ref, o₃) ← read_uint 8 body o₂
    (shares, o₄) ← read_uint 4 body o₃
    (price, o₅) ← read_uint 4 body o₄
    let old = lookup orig_ref st.orders
    let side : Side = elim old [ none ↦ bid | some s ↦ s.side ]
    let out' : List Event = elim old [ none ↦ out | some s ↦ out ++ (Event.del orig_ref ∷ []) ]
    let s : OrderState = record { instr = locate; qty = pos shares; px = pos price; side = side }
    ok (
      track new_ref s (forget orig_ref st),
      out' ++ (Event.add new_ref s.instr s.px s.qty s.side ∷ []),
    ))

  unfoldable pub on_trade : State → Outcome State
  unfolding read_uint read_fixed index reduce_order opposite
  on_trade (st, out) = if ltb (length body) 43 then ok (st, out) else (do
    (locate, o₁) ← read_uint 2 body 0
    (order_ref, o₂) ← read_uint 8 body (o₁ + 8)
    side_ch ← index body o₂
    (shares, o₃) ← read_uint 4 body (o₂ + 1)
    (stock, o₄) ← unwrap (read_fixed 8 body o₃)
    (price, o₅) ← read_uint 4 body o₄
    (match_, o₆) ← read_uint 8 body o₅
    let px = pos price
    let traded = λ (instr : ℕ) (taker : Side).
        Event.trade instr px (pos shares) (some order_ref) (some taker)
    elim (lookup order_ref st.orders) [
      | none ↦ ok (st, out ++ (traded locate (side_of side_ch) ∷ []))
      | some s ↦
          let (st', out') = reduce_order order_ref s (pos shares) px (st, out) in
          ok (st', out' ++ (traded s.instr (opposite s.side) ∷ []))
    ])

-- The `match typ`.
unfoldable pub on_message : ℕ → List ℕ → State → Outcome State
unfolding on_add on_exec on_cancel on_delete on_replace on_trade on_stock_directory
on_message typ body (st, out) =
    if typ == b'A'
    then on_add body false (st, out)
    else if typ == b'F'
    then on_add body true (st, out)
    else if typ == b'E'
    then on_exec body (st, out)
    else if typ == b'C'
    then on_exec body (st, out)
    else if typ == b'X'
    then on_cancel body (st, out)
    else if typ == b'D'
    then on_delete body (st, out)
    else if typ == b'U'
    then on_replace body (st, out)
    else if typ == b'P'
    then on_trade body (st, out)
    else if typ == b'R'
    then (do st' ← on_stock_directory body st; ok (st', out))
    else ok (st, out)

-- The loop from offset `off` on. A message takes three bytes at least.
unfoldable pub decode_from : ℕ → List ℕ → ℕ → State → Outcome State
unfolding slice index be_value on_message
decode_from zero payload off s = stuck
decode_from (suc fuel) payload off s =
    let rest : Outcome State = (do
      len ← slice payload off (off + 2)
      let msg_len = be_value len
      let start = off + 2
      if msg_len == 0 then ok s else if ltb (length payload) (start + msg_len) then ok s else (do
        typ ← index payload start
        body ← slice payload (start + 1) (start + 1 + (msg_len - 1))
        s' ← on_message typ body s
        decode_from fuel payload (start + 1 + (msg_len - 1)) s')) in
    if leb (off + 3) (length payload) then rest else ok s

unfoldable pub decode_messages : List ℕ → State → Outcome State
unfolding decode_from
decode_messages payload s = decode_from (suc (length payload)) payload 0 s
