-- ===== src/Itch/Total.antt =====
-- The ITCH decoder on arbitrary bytes.
use mathlib.Core.List.{append-nil}
use numi_orderbook.Base.{
  ℕ, zero, suc, ◌+◌, ◌-◌, ◌≤◌, ◌<◌, ◌≡◌, refl, ap, sym, ◌∙◌, inl, inr, true, false, none, some,
  List, [], ◌++◌, arith, ◌==◌, Bool-cases, Option-cases, length, take, drop, ltb, leb,
}
use numi_orderbook.Base.Dict.{lookup, insert}
use numi_orderbook.Event.{Event}
use numi_orderbook.Wire.{Outcome, ok, ◌>>=◌, be_value}
use numi_orderbook.Wire.Slices.{slice-in, index-in}
use numi_orderbook.Itch.{
  Inner, State, read_fixed, on_stock_directory, on_message, decode_from, decode_messages,
}
use numi_orderbook.Itch.Track.{Steps, Steps-trans, tracked, seen, replay, read_uint-in}
use numi_orderbook.Itch.Handlers.{
  on_add-Handled, on_exec-Handled, on_cancel-Handled, on_delete-Handled, on_replace-Handled,
  on_trade-Handled,
}
use numi_orderbook.Itch.Known.{Handled, Handled-nothing}

-- A symbol is stored, and no order changes.
symbol_stored :
    (body : List ℕ) (st : Inner) (o locate : ℕ)
    → (st' : Inner) × (elim (read_fixed 8 body o) [
      | none ↦ ok st
      | some r ↦
          ok (record st { last_symbol_by_locate = insert locate r.0 st.last_symbol_by_locate })
    ]
        ≡ ok st')
      × (st'.orders ≡ st.orders)
symbol_stored body st o locate = elim (Option-cases (read_fixed 8 body o)) [
  | inl cut ↦ rw cut (st, refl, refl)
  | inr (r, e) ↦ rw e (_, refl, refl)
]

on_stock_directory-orders :
    (body : List ℕ) (st : Inner)
    → (st' : Inner) × (on_stock_directory body st ≡ ok st') × (st'.orders ≡ st.orders)
unfolding on_stock_directory
on_stock_directory-orders body st = elim (Bool-cases (ltb (length body) 18)) [
  | inl short ↦ rw short (st, refl, refl)
  | inr long ↦
      rw (long, read_uint-in 2 body 0 (ground arith))
        (symbol_stored body st 10 (be_value (take 2 (drop 0 body))))
]

Steps-same_orders :
    (st st' : Inner) (out : List Event) → st'.orders ≡ st.orders → Steps (st, out) (st', out)
Steps-same_orders st st' out e = record {
  evs = [];
  appended = sym (append-nil out);
  agree = λ k. ap (λ o. seen (lookup k o)) e;
}

stock-Handled :
    (body : List ℕ) (st : Inner) (out : List Event)
    → Handled (st, out) (do st' ← on_stock_directory body st; ok (st', out))
stock-Handled body st out =
    let (st', e, same) = on_stock_directory-orders body st in
    rw e ((st', out), refl, Steps-same_orders st st' out same)

on_message-Handled :
    (typ : ℕ) (body : List ℕ) (st : Inner) (out : List Event)
    → Handled (st, out) (on_message typ body (st, out))
unfolding on_message
on_message-Handled typ body st out = elim (Bool-cases (typ == b'A')) [
  | inl a ↦ rw a (on_add-Handled body st out false)
  | inr a ↦ rw a (elim (Bool-cases (typ == b'F')) [
    | inl b ↦ rw b (on_add-Handled body st out true)
    | inr b ↦ rw b (elim (Bool-cases (typ == b'E')) [
      | inl c ↦ rw c (on_exec-Handled body st out)
      | inr c ↦ rw c (elim (Bool-cases (typ == b'C')) [
        | inl d ↦ rw d (on_exec-Handled body st out)
        | inr d ↦ rw d (elim (Bool-cases (typ == b'X')) [
          | inl e ↦ rw e (on_cancel-Handled body st out)
          | inr e ↦ rw e (elim (Bool-cases (typ == b'D')) [
            | inl f ↦ rw f (on_delete-Handled body st out)
            | inr f ↦ rw f (elim (Bool-cases (typ == b'U')) [
              | inl g ↦ rw g (on_replace-Handled body st out)
              | inr g ↦ rw g (elim (Bool-cases (typ == b'P')) [
                | inl h ↦ rw h (on_trade-Handled body st out)
                | inr h ↦ rw h (elim (Bool-cases (typ == b'R')) [
                  | inl i ↦ rw i (stock-Handled body st out)
                  | inr i ↦ rw i (Handled-nothing (st, out))
                ])
              ])
            ])
          ])
        ])
      ])
    ])
  ])
]

Handled-then : (s t : State) (r : Outcome State) → Steps s t → Handled t r → Handled s r
Handled-then s t r a (s', e, b) = (s', e, Steps-trans s t s' a b)

decode_from-Handled :
    (fuel : ℕ) (payload : List ℕ) (off : ℕ) (s : State)
    → off ≤ length payload
    → length payload < fuel + off
    → Handled s (decode_from fuel payload off s)
unfolding decode_from
decode_from-Handled zero payload off s h f = absurd (omega arith)
decode_from-Handled (suc fuel) payload off s h f =
    elim (Bool-cases (leb (off + 3) (length payload))) [
      | inr short ↦ rw short (Handled-nothing s)
      | inl long ↦
          let len = take (off + 2 - off) (drop off payload) in
          rw (long, slice-in payload off (off + 2) (omega arith) (ground arith))
            (elim (Bool-cases (be_value len == 0)) [
              | inl no_type ↦ rw no_type (Handled-nothing s)
              | inr typed ↦
                  rw typed (elim (Bool-cases (ltb (length payload) (off + 2 + be_value len))) [
                    | inl cut ↦ rw cut (Handled-nothing s)
                    | inr whole ↦
                        let n = be_value len in
                        let start = off + 2 in
                        let end = start + 1 + (n - 1) in
                        let (typ, et) = index-in payload start (ground arith) in
                        let body = take (end - (start + 1)) (drop (start + 1) payload) in
                        let (s', em, steps) = on_message-Handled typ body s.0 s.1 in
                        rw
                          (
                            whole,
                            et,
                            slice-in payload (start + 1) end (omega arith) (ground arith),
                            em,
                          )
                          (Handled-then s s' _ steps
                            (decode_from-Handled fuel payload end s' (ground arith) (ground arith)))
                  ])
            ])
    ]

-- On any bytes and any tracked orders the decoder ends without a panic, its fuel is enough, it appends
-- events to `out`, and the tracked orders (instrument, side and quantity by reference) change exactly
-- as the appended events say.
pub decode_messages_tracks :
    (payload : List ℕ) (st : Inner) (out : List Event)
    → (st' : Inner) × (evs : List Event) × (decode_messages payload (st, out)
        ≡ ok (st', out ++ evs))
      × ((k : ℕ) → tracked st' k ≡ replay evs k (tracked st k))
unfolding decode_messages
decode_messages_tracks payload st out =
    let (s', e, steps) =
      decode_from-Handled (suc (length payload)) payload 0 (st, out) (omega arith) (omega arith) in
    (s'.0, steps.evs, e ∙ ap (λ o. ok (s'.0, o)) steps.appended, steps.agree)
