-- ===== src/Book/Restore.antt =====
-- `from_export` of src/orderbook.rs and the map of live orders.
use mathlib.Core.Path.{fun_ext}
use numi_orderbook.Base.{ℕ, ◌^◌, ◌≡◌, refl, ap, ◌∙◌, false, none, some, List, [], ◌∷◌}
use numi_orderbook.Base.Int.{pos}
use numi_orderbook.Event.{Event}
use numi_orderbook.Book.Orders.{OrderBook, new_book, add_order, with_last}
use numi_orderbook.Book.Orders.View.{LiveOrders, set_at, view, IsSound, Admissible}
use numi_orderbook.Book.Orders.Sound.{Done, with_last-Done}
use numi_orderbook.Book.Orders.Refine.{add-Done, unchanged}
use numi_orderbook.Book.Orders.Run.{new_with_grid-IsSound}
use numi_orderbook.Book.Export.{
  OrderExport, InstrumentExport, BookExport, import_orders, import_instruments, from_export,
}

-- The live orders that an export lists, a later line for an id in place of an earlier one.
abbrev pub orders_on : ℕ → List OrderExport → LiveOrders → LiveOrders
orders_on instr [] m = m
orders_on instr (o ∷ os) m =
    orders_on instr os (set_at o.order_id (some (instr, (o.side, o.price, o.qty))) m)

abbrev pub instruments_on : List InstrumentExport → LiveOrders → LiveOrders
instruments_on [] m = m
instruments_on (ie ∷ ies) m = instruments_on ies (orders_on ie.instr ie.orders m)

module _ (fresh : OrderBook → ℕ → ℕ) where
  abbrev pub added_event : ℕ → OrderExport → Event
  added_event instr o = Event.add o.order_id instr o.price o.qty o.side

  abbrev pub Added : ℕ → OrderExport → OrderBook → OrderBook → Type 0
  Added instr o ob ob' =
      add_order (fresh ob instr) o.order_id instr o.price o.qty o.side ob ≡ some ob'

  -- Each order can be added when its turn comes.
  abbrev pub AllImportable : ℕ → List OrderExport → OrderBook → Type 0
  AllImportable instr [] ob = Unit {0}
  AllImportable instr (o ∷ os) ob =
      Admissible (fresh ob instr) (added_event instr o) ob
      × ((ob' : OrderBook) → Added instr o ob ob' → AllImportable instr os ob')

  abbrev pub AllRestorable : List InstrumentExport → OrderBook → Type 0
  AllRestorable [] ob = Unit {0}
  AllRestorable (ie ∷ ies) ob =
      AllImportable ie.instr ie.orders ob
      × ((ob' : OrderBook)
          → import_orders fresh ie.instr ie.orders ob ≡ some ob'
          → AllRestorable ies (with_last ie.instr ob'))

  Done-trans :
      {ob ob₁ ob' : OrderBook} {m : LiveOrders} (f : LiveOrders → LiveOrders)
      → Done ob ob₁ m
      → Done ob₁ ob' (f (view ob₁))
      → Done ob ob' (f m)
  Done-trans f d d' = record {
    sound = d'.sound;
    orders = λ k. d'.orders k ∙ ap (λ m. f m k) (fun_ext d.orders);
    consume = d'.consume ∙ d.consume;
  }

  import_orders-Done :
      (instr : ℕ) (os : List OrderExport) (ob : OrderBook)
      → IsSound ob
      → AllImportable instr os ob
      → (ob' : OrderBook) × (import_orders fresh instr os ob ≡ some ob')
        × Done ob ob' (orders_on instr os (view ob))
  unfolding import_orders
  import_orders-Done instr [] ob sound ok = (ob, refl, unchanged ob sound)
  import_orders-Done instr (o ∷ os) ob sound (ok, rest) =
      let (ob₁, e, d) =
        add-Done ob (fresh ob instr) o.order_id instr o.price o.qty o.side sound ok in
      let (ob', f, d') = import_orders-Done instr os ob₁ d.sound (rest ob₁ e) in
      (ob', rw e f, Done-trans (orders_on instr os) d d')

  import_instruments-Done :
      (ies : List InstrumentExport) (ob : OrderBook)
      → IsSound ob
      → AllRestorable ies ob
      → (ob' : OrderBook) × (import_instruments fresh ies ob ≡ some ob')
        × Done ob ob' (instruments_on ies (view ob))
  unfolding import_instruments
  import_instruments-Done [] ob sound ok = (ob, refl, unchanged ob sound)
  import_instruments-Done (ie ∷ ies) ob sound (ok, rest) =
      let (ob₁, e, d) = import_orders-Done ie.instr ie.orders ob sound ok in
      let d₁ = with_last-Done ob ob₁ (orders_on ie.instr ie.orders (view ob)) ie.instr d in
      let (ob', f, d') =
        import_instruments-Done ies (with_last ie.instr ob₁) d₁.sound (rest ob₁ e) in
      (ob', rw e f, Done-trans (instruments_on ies) d₁ d')

  -- An export whose orders can be added when their turn comes is restored without a panic, to a sound
  -- order book whose live orders are exactly those that the export lists.
  pub from_export-Restored :
      (exp : BookExport)
      → AllRestorable exp.instruments (new_book 10)
      → (ob' : OrderBook) × (from_export fresh exp ≡ some ob')
        × IsSound ob'
        × ((id : ℕ) → view ob' id ≡ instruments_on exp.instruments (λ _. none) id)
  unfolding from_export new_book
  from_export-Restored exp ok =
      let (sound, empty) = new_with_grid-IsSound 10 false (2 ^ 20) (pos 1) 16384 refl in
      let (ob', e, d) = import_instruments-Done exp.instruments (new_book 10) sound ok in
      (
        ob',
        e,
        d.sound,
        λ id. d.orders id ∙ ap (λ m. instruments_on exp.instruments m id) (fun_ext empty),
      )
