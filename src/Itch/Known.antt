-- ===== src/Itch/Known.antt =====
-- What the handlers of src/decoder_itch.rs do to an order reference that is read.
use numi_orderbook.Base.{ℕ, ◌≡◌, refl, inl, inr, none, some, List, [], ◌∷◌, ◌++◌, Option-cases}
use numi_orderbook.Base.Int.{ℤ}
use numi_orderbook.Base.Dict.{lookup}
use numi_orderbook.Event.{Side, bid, Event}
use numi_orderbook.Wire.{Outcome, ok}
use numi_orderbook.Itch.{OrderState, Inner, State, track, forget, reduce_order, opposite}
use numi_orderbook.Itch.Track.{
  Steps, Steps-refl, Steps-trans, Steps-trade, Steps-add, Steps-del, Steps-forget_missing,
  Steps-reduce,
}

-- The handler ends in a state to which its events lead.
abbrev pub Handled : State → Outcome State → Type 0
Handled s r = (s' : State) × (r ≡ ok s') × Steps s s'

pub Handled-nothing : (s : State) → Handled s (ok s)
Handled-nothing s = (s, refl, Steps-refl s)

-- What the handlers do once the order reference is read.
module _ (st : Inner) (out : List Event) (id : ℕ) where
  pub known_delete :
      Handled
        (st, out)
        (elim (lookup id st.orders) [
          | none ↦ ok (st, out)
          | some s ↦ ok (forget id st, out ++ (Event.del id ∷ []))
        ])
  known_delete = elim (Option-cases (lookup id st.orders)) [
    | inl missing ↦ rw missing (Handled-nothing (st, out))
    | inr (s, there) ↦ rw there (_, refl, Steps-del st out id)
  ]

  pub known_cancel :
      (shares : ℤ)
      → Handled
          (st, out)
          (elim (lookup id st.orders) [
            | none ↦ ok (st, out)
            | some s ↦ ok (reduce_order id s shares s.px (st, out))
          ])
  known_cancel shares = elim (Option-cases (lookup id st.orders)) [
    | inl missing ↦ rw missing (Handled-nothing (st, out))
    | inr (s, there) ↦ rw there (_, refl, Steps-reduce st out id s shares s.px there)
  ]

  -- The order is reduced, and a trade of `instr` at `px` follows.
  pub reduce_and_trade :
      (s : OrderState) (shares new_px : ℤ) (instr : ℕ) (px : ℤ) (taker : Side)
      → lookup id st.orders ≡ some s
      → let r = reduce_order id s shares new_px (st, out) in
        Handled
          (st, out)
          (ok (r.0, r.1 ++ (Event.trade instr px shares (some id) (some taker) ∷ [])))
  reduce_and_trade s shares new_px instr px taker there =
      let r = reduce_order id s shares new_px (st, out) in
      (
        _,
        refl,
        Steps-trans (st, out) r _ (Steps-reduce st out id s shares new_px there)
            (Steps-trade r.0 r.1 instr px shares (some id) (some taker)),
      )

  pub known_exec :
      (shares : ℤ)
      → Handled
          (st, out)
          (elim (lookup id st.orders) [
            | none ↦ ok (st, out)
            | some s ↦
                let r = reduce_order id s shares s.px (st, out) in
                let ev = Event.trade s.instr s.px shares (some id) (some (opposite s.side)) in
                ok (r.0, r.1 ++ (ev ∷ []))
          ])
  known_exec shares = elim (Option-cases (lookup id st.orders)) [
    | inl missing ↦ rw missing (Handled-nothing (st, out))
    | inr (s, there) ↦
        rw there (reduce_and_trade s shares s.px s.instr s.px (opposite s.side) there)
  ]

  pub known_trade :
      (shares px : ℤ) (locate : ℕ) (taker : Side)
      → Handled
          (st, out)
          (elim (lookup id st.orders) [
            | none ↦ ok (st, out ++ (Event.trade locate px shares (some id) (some taker) ∷ []))
            | some s ↦
                let r = reduce_order id s shares px (st, out) in
                let ev = Event.trade s.instr px shares (some id) (some (opposite s.side)) in
                ok (r.0, r.1 ++ (ev ∷ []))
          ])
  known_trade shares px locate taker = elim (Option-cases (lookup id st.orders)) [
    | inl missing ↦ rw missing (_, refl, Steps-trade st out locate px shares (some id) (some taker))
    | inr (s, there) ↦ rw there (reduce_and_trade s shares px s.instr px (opposite s.side) there)
  ]

  pub known_replace :
      (new_ref locate : ℕ) (shares px : ℤ)
      → let old = lookup id st.orders in
        let side : Side = elim old [ none ↦ bid | some s ↦ s.side ] in
        let out' : List Event = elim old [ none ↦ out | some s ↦ out ++ (Event.del id ∷ []) ] in
        let s : OrderState = record { instr = locate; qty = shares; px = px; side = side } in
        Handled
          (st, out)
          (ok (
            track new_ref s (forget id st),
            out' ++ (Event.add new_ref s.instr s.px s.qty s.side ∷ []),
          ))
  known_replace new_ref locate shares px = elim (Option-cases (lookup id st.orders)) [
    | inl missing ↦ rw missing (
      _,
      refl,
      Steps-trans (st, out) (forget id st, out) _ (Steps-forget_missing st out id missing)
          (Steps-add (forget id st) out new_ref
            (record { instr = locate; qty = shares; px = px; side = bid })),
    )
    | inr (s, there) ↦ rw there (
      _,
      refl,
      Steps-trans (st, out) (forget id st, out ++ (Event.del id ∷ [])) _ (Steps-del st out id)
          (Steps-add (forget id st) (out ++ (Event.del id ∷ [])) new_ref
            (record { instr = locate; qty = shares; px = px; side = s.side })),
    )
  ]
