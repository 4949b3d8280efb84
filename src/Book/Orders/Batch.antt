-- ===== src/Book/Orders/Batch.antt =====
-- `apply_many_for_instr` of src/orderbook.rs, the batch path, against `apply`.
use numi_orderbook.Base.{
  ℕ, ◌≡◌, refl, ap, sym, inl, inr, true, Option, none, some, List, [], ◌∷◌, ◌>>=◌, arith,
  Bool-cases, Option-cases, ◌==◌, ==_eq,
}
use numi_orderbook.Base.Int.{ℤ}
use numi_orderbook.Base.Dict
use numi_orderbook.Base.Dict.{lookup, insert, lookup-insert_self, erase-insert_erased}
use numi_orderbook.Event.{Side, Event}
use numi_orderbook.Book.Orders.{
  OrderBook, with_last, index_insert, index_remove, add_order, cancel_order, apply, apply_for_instr,
  apply_many_for_instr, apply_all,
}

apply_for_instr-add :
    (instr fresh order_id ev_instr : ℕ) (px qty : ℤ) (side : Side) (ob : OrderBook)
    → apply_for_instr instr fresh (Event.add order_id ev_instr px qty side) ob
      ≡ apply fresh (Event.add order_id ev_instr px qty side) ob
unfolding apply_for_instr apply
apply_for_instr-add instr fresh order_id ev_instr px qty side ob =
    elim (Bool-cases (ev_instr == instr)) [
      | inl e ↦ rw e (
          ap (λ i. do ob' ← add_order fresh order_id i px qty side ob; some (with_last i ob'))
            (sym (==_eq ev_instr instr e)))
      | inr e ↦ rw e refl
    ]

apply_for_instr-mod :
    (instr fresh order_id : ℕ) (qty : ℤ) (ob : OrderBook)
    → apply_for_instr instr fresh (Event.mod_qty order_id qty) ob
      ≡ apply fresh (Event.mod_qty order_id qty) ob
unfolding apply_for_instr apply
apply_for_instr-mod instr fresh order_id qty ob = elim (Option-cases (lookup order_id ob.index)) [
  | inl e ↦ ground (arith, e)
  | inr ((mi, h), e) ↦ elim (Bool-cases (mi == instr)) [
    | inl same ↦ ground (arith, e, ==_eq mi instr same)
    | inr other ↦ ground (arith, e, other)
  ]
]

index_put_back :
    (order_id : ℕ) (v : ℕ × ℕ) (ob : OrderBook)
    → index_remove order_id (index_insert order_id v (index_remove order_id ob))
      ≡ index_remove order_id ob
index_put_back order_id v ob =
    ap (λ m. record ob { index = m }) (erase-insert_erased order_id v ob.index)

apply_for_instr-del :
    (instr fresh order_id : ℕ) (ob : OrderBook)
    → apply_for_instr instr fresh (Event.del order_id) ob ≡ apply fresh (Event.del order_id) ob
unfolding apply_for_instr apply
apply_for_instr-del instr fresh order_id ob = elim (Option-cases (lookup order_id ob.index)) [
  | inl e ↦ ground (arith, e)
  | inr ((mi, h), e) ↦ elim (Bool-cases (mi == instr)) [
    | inl same ↦ ground (arith, e, ==_eq mi instr same)
    | inr other ↦ ground (
      arith,
      e,
      lookup-insert_self order_id (mi, h) (Dict.erase order_id ob.index),
      ap (cancel_order mi h) (index_put_back order_id (mi, h) ob),
    )
  ]
]

apply_for_instr-maker :
    (instr fresh ev_instr oid : ℕ) (px qty : ℤ) (taker : Option Side) (ob : OrderBook)
    → (ev_instr == instr) ≡ true
    → ob.consume_trades ≡ true
    → apply_for_instr instr fresh (Event.trade ev_instr px qty (some oid) taker) ob
      ≡ apply fresh (Event.trade ev_instr px qty (some oid) taker) ob
unfolding apply_for_instr apply
apply_for_instr-maker instr fresh ev_instr oid px qty taker ob e c =
    elim (Option-cases (lookup oid ob.index)) [
      | inl f ↦ ground (arith, ==_eq ev_instr instr e)
      | inr ((mi, h), f) ↦ elim (Bool-cases (mi == instr)) [
        | inl same ↦ ground (arith, ==_eq ev_instr instr e, ==_eq mi instr same)
        | inr other ↦ ground (arith, ==_eq ev_instr instr e)
      ]
    ]

apply_for_instr-trade :
    (instr fresh ev_instr : ℕ) (px qty : ℤ) (maker : Option ℕ) (taker : Option Side)
    (ob : OrderBook)
    → apply_for_instr instr fresh (Event.trade ev_instr px qty maker taker) ob
      ≡ apply fresh (Event.trade ev_instr px qty maker taker) ob
unfolding apply_for_instr apply
apply_for_instr-trade instr fresh ev_instr px qty maker taker ob =
    elim (Bool-cases (ev_instr == instr)) [
      | inr e ↦ ground arith
      | inl e ↦ elim (Bool-cases ob.consume_trades) [
        | inr c ↦ ground (arith, ==_eq ev_instr instr e)
        | inl c ↦ by_maker maker e c
      ]
    ]
  where
    by_maker :
        (m : Option ℕ)
        → (ev_instr == instr) ≡ true
        → ob.consume_trades ≡ true
        → apply_for_instr instr fresh (Event.trade ev_instr px qty m taker) ob
          ≡ apply fresh (Event.trade ev_instr px qty m taker) ob
    by_maker none e c = ground (arith, ==_eq ev_instr instr e)
    by_maker (some oid) e c = apply_for_instr-maker instr fresh ev_instr oid px qty taker ob e c

-- The batch path does to every event what the path for single events does.
pub apply_for_instr-apply :
    (instr fresh : ℕ) (ev : Event) (ob : OrderBook)
    → apply_for_instr instr fresh ev ob ≡ apply fresh ev ob
unfolding apply_for_instr apply
apply_for_instr-apply instr fresh (Event.add order_id ev_instr px qty side) ob =
    apply_for_instr-add instr fresh order_id ev_instr px qty side ob
apply_for_instr-apply instr fresh (Event.mod_qty order_id qty) ob =
    apply_for_instr-mod instr fresh order_id qty ob
apply_for_instr-apply instr fresh (Event.del order_id) ob =
    apply_for_instr-del instr fresh order_id ob
apply_for_instr-apply instr fresh (Event.trade ev_instr px qty maker taker) ob =
    apply_for_instr-trade instr fresh ev_instr px qty maker taker ob
apply_for_instr-apply instr fresh Event.heartbeat ob = refl

-- For every instrument, the batch path over a list of events does what applying the events one by one
-- does, panics included.
pub apply_many_for_instr-apply_all :
    (instr : ℕ) (evs : List (ℕ × Event)) (ob : OrderBook)
    → apply_many_for_instr instr evs ob ≡ apply_all evs ob
unfolding apply_many_for_instr apply_all
apply_many_for_instr-apply_all instr [] ob = refl
apply_many_for_instr-apply_all instr ((fresh, ev) ∷ evs) ob =
    elim (Option-cases (apply fresh ev ob)) [
      | inl e ↦ rw (apply_for_instr-apply instr fresh ev ob, e) refl
      | inr (ob', e) ↦
          rw (apply_for_instr-apply instr fresh ev ob, e)
            (apply_many_for_instr-apply_all instr evs ob')
    ]
