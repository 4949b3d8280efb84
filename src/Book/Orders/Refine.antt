-- ===== src/Book/Orders/Refine.antt =====
-- `apply` of src/orderbook.rs and the map of live orders.
use mathlib.Core.Path.{subst, fun_ext}
use numi_orderbook.Base.{
  ℕ, ◌≡◌, refl, ap, sym, ◌∙◌, inl, inr, true, false, Option, none, some, [], ◌∷◌, ◌++◌, arith, ◌==◌,
  ==_eq, Bool-cases, Option-cases, if◌then◌else◌,
}
use numi_orderbook.Base.Int.{ℤ, pos, negsuc, pos_part, ltb_ℤ, wrap, sub_i64, ◌-ℤ◌}
use numi_orderbook.Base.Dict.{lookup, lookup-insert}
use numi_orderbook.Event.{Side, Event}
use numi_orderbook.Book.Queue.{order_of}
use numi_orderbook.Book.Instrument.Valid.{set_queue}
use numi_orderbook.Book.Instrument.Add.{add-IsValid}
use numi_orderbook.Book.Orders.{
  OrderBook, book_mut, with_book, with_last, index_insert, index_remove, add_order, consume_order,
  cancel_order, reduce_qty, apply,
}
use numi_orderbook.Book.Orders.View.{
  Order, LiveOrders, set_at, with_quantity, quantity, remaining, requantify, event_on, view,
  IsSound, Admissible,
}
use numi_orderbook.Book.Orders.Step.{OneOrder, OneOrder-IsSound, OneOrder-view}
use numi_orderbook.Book.Orders.Sound.{
  Done, Replaced, book_mut-Replaced, entry_node, with_last-Done, cancel-Done, update-Done,
  view_entry,
}

-- An id that is not in the index.
view-none : (ob : OrderBook) (id : ℕ) → lookup id ob.index ≡ none → view ob id ≡ none
view-none ob id e = rw e refl

pub unchanged : (ob : OrderBook) → IsSound ob → Done ob ob (view ob)
unchanged ob sound = record { sound = sound; orders = λ k. refl; consume = refl }

pub add-Done :
    (ob : OrderBook) (fresh id instr : ℕ) (px qty : ℤ) (side : Side)
    → IsSound ob
    → Admissible fresh (Event.add id instr px qty side) ob
    → (ob' : OrderBook) × (add_order fresh id instr px qty side ob ≡ some ob')
      × Done ob ob' (set_at id (some (instr, (side, px, qty))) (view ob))
unfolding add_order with_book
add-Done ob fresh id instr px qty side sound (range, new, vacant, fits, room) =
    let (q, v) = sound.books instr in
    let (b', e, v', node) =
      add-IsValid (book_mut instr ob) q fresh px qty side v range vacant fits room in
    let ob' = index_insert id (instr, fresh) (with_book instr b' ob) in
    let r : Replaced ob instr b' ob' = record {
      books = refl;
      capacity = refl;
      tick = refl;
      span = refl;
      consume = refl;
    } in
    let one : OneOrder ob id instr fresh b' (some (side, px, qty)) ob' = record {
      tick = refl;
      valid = (set_queue side px (q side px ++ (fresh ∷ [])) q, v');
      book = book_mut-Replaced ob instr b' ob' r;
      node = node;
      entry = λ k. lookup-insert id k (instr, fresh) ob.index;
      owner = λ k f. absurd (sound.live k instr fresh f (ap order_of vacant));
    } in
    (
      ob',
      rw e refl,
      record {
        sound = OneOrder-IsSound ob id instr fresh b' (some (side, px, qty)) ob' sound one;
        orders = OneOrder-view ob id instr fresh b' (some (side, px, qty)) ob' sound one;
        consume = refl;
      },
    )

-- `set_at` where the order is.
requantify_there :
    (m : LiveOrders) (id : ℕ) (o : ℕ × Order) (qty : ℕ × Order → ℤ)
    → m id ≡ some o
    → requantify id qty m ≡ set_at id (with_quantity (qty o) o) m
requantify_there m id o qty e = rw (e, requantify) refl

requantify_missing :
    (m : LiveOrders) (id : ℕ) (qty : ℕ × Order → ℤ) → m id ≡ none → requantify id qty m ≡ m
requantify_missing m id qty e = rw (e, requantify) refl

-- What an event of an order in the index does.
abbrev Applied : ℕ → Event → OrderBook → Type 0
Applied fresh ev ob =
    (ob' : OrderBook) × (apply fresh ev ob ≡ some ob')
    × Done ob ob' (event_on ob.consume_trades ev (view ob))

mod-Done :
    (ob : OrderBook) (fresh id : ℕ) (qty : ℤ) → IsSound ob → Applied fresh (Event.mod_qty id qty) ob
unfolding apply
mod-Done ob fresh id qty sound = elim (Option-cases (lookup id ob.index)) [
  | inl e ↦ (
    ob,
    rw (e, apply) refl,
    subst (Done ob ob) (sym (requantify_missing (view ob) id (λ _. qty) (view-none ob id e)))
        (unchanged ob sound),
  )
  | inr ((instr, h), e) ↦
      let (n, there) = entry_node ob id instr h sound e in
      let (ob', f, d) = update-Done ob id instr h n sound e there qty in
      (
        with_last instr ob',
        rw (e, f, apply) refl,
        with_last-Done ob ob' _ instr (
            subst (Done ob ob')
              (sym (
                requantify_there (view ob) id (instr, (n.side, n.price, n.qty)) (λ _. qty)
                  (view_entry ob id instr h n sound e there)))
              d),
      )
]

del-Done : (ob : OrderBook) (fresh id : ℕ) → IsSound ob → Applied fresh (Event.del id) ob
unfolding apply cancel_order with_book book_mut
del-Done ob fresh id sound = elim (Option-cases (lookup id ob.index)) [
  | inl e ↦ (
    ob,
    rw (e, apply) refl,
    record { sound = sound; orders = λ k. missing k (view-none ob id e); consume = refl },
  )
  | inr ((instr, h), e) ↦
      let (n, there) = entry_node ob id instr h sound e in
      let (b', f, d) = cancel-Done ob id instr h n sound e there in
      (
        with_last instr (index_remove id (with_book instr b' ob)),
        ground (arith, f),
        with_last-Done ob (index_remove id (with_book instr b' ob)) _ instr d,
      )
]
  where
    missing : (k : ℕ) → view ob id ≡ none → view ob k ≡ set_at id none (view ob) k
    missing k e = elim (Bool-cases (id == k)) [
      | inl same ↦ rw same (ap (view ob) (sym (==_eq id k same)) ∙ e)
      | inr other ↦ rw other refl
    ]

clamped : (d : ℤ) → (if ltb_ℤ d (pos 0) then pos 0 else d) ≡ pos (pos_part d)
clamped (pos n) = ground arith
clamped (negsuc n) = ground arith

reduce_qty-remaining : (old qty : ℤ) → reduce_qty old qty ≡ remaining old qty
unfolding reduce_qty sub_i64
reduce_qty-remaining old qty = clamped (wrap (old -ℤ qty))

trade-Done :
    (ob : OrderBook) (fresh instr id : ℕ) (px qty : ℤ) (taker : Option Side)
    → IsSound ob
    → ob.consume_trades ≡ true
    → (ob' : OrderBook) × (apply fresh (Event.trade instr px qty (some id) taker) ob ≡ some ob')
      × Done ob ob' (requantify id (λ o. remaining (quantity o) qty) (view ob))
unfolding apply consume_order book_mut
trade-Done ob fresh instr id px qty taker sound c =
    let ob₁ = with_last instr ob in
    let start = with_last-Done ob ob (view ob) instr (unchanged ob sound) in
    let reduced = λ (o : ℕ × Order). reduce_qty (quantity o) qty in
    let left = λ (o : ℕ × Order). remaining (quantity o) qty in
    elim (Option-cases (lookup id ob.index)) [
      | inl e ↦ (
        ob₁,
        ground (arith, c, e),
        subst (Done ob ob₁) (sym (requantify_missing (view ob) id left (view-none ob id e))) start,
      )
      | inr ((mi, h), e) ↦
          let (n, there) = entry_node ob₁ id mi h start.sound e in
          let (ob', f, d) = update-Done ob₁ id mi h n start.sound e there (reduce_qty n.qty qty) in
          let o : ℕ × Order = (mi, (n.side, n.price, n.qty)) in
          let here = view_entry ob₁ id mi h n start.sound e there in
          (
            ob',
            ground (arith, c, e, there, f),
            record {
              sound = d.sound;
              orders = λ k.
                  d.orders k
                  ∙ ap (λ (m : LiveOrders). m k)
                      (sym (requantify_there (view ob₁) id o reduced here)
                        ∙ ap (λ r. requantify id r (view ob₁))
                            (fun_ext (λ x. reduce_qty-remaining (quantity x) qty)));
              consume = d.consume;
            },
          )
    ]

trade_not_consumed :
    (instr : ℕ) (px qty : ℤ) (maker : Option ℕ) (taker : Option Side) (m : LiveOrders)
    → event_on false (Event.trade instr px qty maker taker) m ≡ m
trade_not_consumed instr px qty none taker m = refl
trade_not_consumed instr px qty (some id) taker m = refl

trade-Applied :
    (ob : OrderBook) (fresh instr : ℕ) (px qty : ℤ) (maker : Option ℕ) (taker : Option Side)
    → IsSound ob
    → Applied fresh (Event.trade instr px qty maker taker) ob
unfolding apply
trade-Applied ob fresh instr px qty maker taker sound = elim (Bool-cases ob.consume_trades) [
  | inl c ↦ by_maker maker c
  | inr c ↦ (
    with_last instr ob,
    rw (c, apply) refl,
    subst
        (λ b.
          Done ob (with_last instr ob)
            (event_on b (Event.trade instr px qty maker taker) (view ob)))
        (sym c)
        (subst (Done ob (with_last instr ob))
          (sym (trade_not_consumed instr px qty maker taker (view ob)))
          (with_last-Done ob ob (view ob) instr (unchanged ob sound))),
  )
]
  where
    by_maker :
        (m : Option ℕ)
        → ob.consume_trades ≡ true
        → Applied fresh (Event.trade instr px qty m taker) ob
    by_maker none c = (
      with_last instr ob,
      rw (c, apply) refl,
      with_last-Done ob ob (view ob) instr (unchanged ob sound),
    )
    by_maker (some id) c =
        let (ob', f, d) = trade-Done ob fresh instr id px qty taker sound c in
        (
          ob',
          f,
          subst (λ b. Done ob ob' (event_on b (Event.trade instr px qty (some id) taker) (view ob)))
              (sym c) d,
        )

-- On a sound order book every admissible event is applied without a panic, leaves a sound order book,
-- and does to the live orders (instrument, side, price and quantity by id) what the event says.
pub apply-refines :
    (fresh : ℕ) (ev : Event) (ob : OrderBook)
    → IsSound ob
    → Admissible fresh ev ob
    → (ob' : OrderBook) × (apply fresh ev ob ≡ some ob')
      × Done ob ob' (event_on ob.consume_trades ev (view ob))
unfolding apply
apply-refines fresh (Event.add id instr px qty side) ob sound ok =
    let (ob', e, d) = add-Done ob fresh id instr px qty side sound ok in
    (with_last instr ob', rw e refl, with_last-Done ob ob' _ instr d)
apply-refines fresh (Event.mod_qty id qty) ob sound ok = mod-Done ob fresh id qty sound
apply-refines fresh (Event.del id) ob sound ok = del-Done ob fresh id sound
apply-refines fresh (Event.trade instr px qty maker taker) ob sound ok =
    trade-Applied ob fresh instr px qty maker taker sound
apply-refines fresh Event.heartbeat ob sound ok = (ob, refl, unchanged ob sound)
