-- ===== src/Itch/Handlers.antt =====
-- The handlers of src/decoder_itch.rs on any body.
use numi_orderbook.Base.{
  ℕ, ◌+◌, refl, inl, inr, Bool, List, arith, if◌then◌else◌, Bool-cases, length, take, drop, ltb,
}
use numi_orderbook.Base.Int.{pos}
use numi_orderbook.Event.{Event}
use numi_orderbook.Wire.{be_value}
use numi_orderbook.Wire.Slices.{index-in}
use numi_orderbook.Itch.{
  Inner, side_of, on_add, on_exec, on_cancel, on_delete, on_replace, on_trade,
}
use numi_orderbook.Itch.Track.{Steps-add, read_fixed-in, read_uint-in}
use numi_orderbook.Itch.Known.{
  Handled, Handled-nothing, known_delete, known_cancel, known_exec, known_trade, known_replace,
}

abbrev u : ℕ → List ℕ → ℕ → ℕ
u n b off = be_value (take n (drop off b))

module _ (body : List ℕ) (st : Inner) (out : List Event) where
  pub on_delete-Handled : Handled (st, out) (on_delete body (st, out))
  unfolding on_delete
  on_delete-Handled = elim (Bool-cases (ltb (length body) 18)) [
    | inl short ↦ rw short (Handled-nothing (st, out))
    | inr long ↦
        rw (long, read_uint-in 2 body 0 (ground arith), read_uint-in 8 body 10 (ground arith))
          (known_delete st out (u 8 body 10))
  ]

  pub on_cancel-Handled : Handled (st, out) (on_cancel body (st, out))
  unfolding on_cancel
  on_cancel-Handled = elim (Bool-cases (ltb (length body) 22)) [
    | inl short ↦ rw short (Handled-nothing (st, out))
    | inr long ↦
        rw
          (
            long,
            read_uint-in 2 body 0 (ground arith),
            read_uint-in 8 body 10 (ground arith),
            read_uint-in 4 body 18 (ground arith),
          )
          (known_cancel st out (u 8 body 10) (pos (u 4 body 18)))
  ]

  pub on_exec-Handled : Handled (st, out) (on_exec body (st, out))
  unfolding on_exec
  on_exec-Handled = elim (Bool-cases (ltb (length body) 30)) [
    | inl short ↦ rw short (Handled-nothing (st, out))
    | inr long ↦
        rw
          (
            long,
            read_uint-in 2 body 0 (ground arith),
            read_uint-in 8 body 10 (ground arith),
            read_uint-in 4 body 18 (ground arith),
          )
          (known_exec st out (u 8 body 10) (pos (u 4 body 18)))
  ]

  pub on_replace-Handled : Handled (st, out) (on_replace body (st, out))
  unfolding on_replace
  on_replace-Handled = elim (Bool-cases (ltb (length body) 34)) [
    | inl short ↦ rw short (Handled-nothing (st, out))
    | inr long ↦
        rw
          (
            long,
            read_uint-in 2 body 0 (ground arith),
            read_uint-in 8 body 10 (ground arith),
            read_uint-in 8 body 18 (ground arith),
            read_uint-in 4 body 26 (ground arith),
            read_uint-in 4 body 30 (ground arith),
          )
          (known_replace st out (u 8 body 10) (u 8 body 18) (u 2 body 0) (pos (u 4 body 26))
            (pos (u 4 body 30)))
  ]

  pub on_add-Handled : (with_mpid : Bool) → Handled (st, out) (on_add body with_mpid (st, out))
  unfolding on_add
  on_add-Handled with_mpid =
      elim (Bool-cases (ltb (length body) (35 + (if with_mpid then 4 else 0)))) [
        | inl short ↦ rw short (Handled-nothing (st, out))
        | inr long ↦
            let (side_ch, e) = index-in body 18 (ground arith) in
            rw
              (
                long,
                read_uint-in 2 body 0 (ground arith),
                read_uint-in 8 body 10 (ground arith),
                e,
                read_uint-in 4 body 19 (ground arith),
                read_fixed-in 8 body 23 (ground arith),
                read_uint-in 4 body 31 (ground arith),
              )
              (
                _,
                refl,
                Steps-add st out (u 8 body 10) (record {
                  instr = u 2 body 0;
                  qty = pos (u 4 body 19);
                  px = pos (u 4 body 31);
                  side = side_of side_ch;
                }),
              )
      ]

  pub on_trade-Handled : Handled (st, out) (on_trade body (st, out))
  unfolding on_trade
  on_trade-Handled = elim (Bool-cases (ltb (length body) 43)) [
    | inl short ↦ rw short (Handled-nothing (st, out))
    | inr long ↦
        let (side_ch, e) = index-in body 18 (ground arith) in
        rw
          (
            long,
            read_uint-in 2 body 0 (ground arith),
            read_uint-in 8 body 10 (ground arith),
            e,
            read_uint-in 4 body 19 (ground arith),
            read_fixed-in 8 body 23 (ground arith),
            read_uint-in 4 body 31 (ground arith),
            read_uint-in 8 body 35 (ground arith),
          )
          (known_trade st out (u 8 body 10) (pos (u 4 body 19)) (pos (u 4 body 31)) (u 2 body 0)
            (side_of side_ch))
  ]
