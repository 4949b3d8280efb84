-- ===== src/Book/Orders/Run.antt =====
-- A new order book of src/orderbook.rs, and the events that are applied to it one after the other.
use mathlib.Core.Path.{fun_ext}
use numi_orderbook.Base.{ℕ, ◌≡◌, refl, ap, ◌∙◌, Bool, none, some, List, [], ◌∷◌}
use numi_orderbook.Base.Int.{ℤ}
use numi_orderbook.Base.Dict.{lookup}
use numi_orderbook.Event.{Event}
use numi_orderbook.Book.Orders.{OrderBook, book_mut, apply_all}
use numi_orderbook.Book.Orders.View.{events_on, view, IsSound, AllAdmissible}
use numi_orderbook.Book.Orders.Sound.{Done}
use numi_orderbook.Book.Orders.{new_with_grid}
use numi_orderbook.Book.Orders.Refine.{apply-refines, unchanged}
use numi_orderbook.Book.Instrument.Begin.{with_params-IsValid}
use numi_orderbook.Base.Int.{neg_part}

-- A new order book is sound if its tick is not negative, and has no live order.
pub new_with_grid-IsSound :
    (depth : ℕ) (consume : Bool) (capacity : ℕ) (tick : ℤ) (span : ℕ)
    → neg_part tick ≡ 0
    → IsSound (new_with_grid depth consume capacity tick span)
      × ((id : ℕ) → view (new_with_grid depth consume capacity tick span) id ≡ none)
unfolding new_with_grid book_mut lookup
new_with_grid-IsSound depth consume capacity tick span e = (
  record {
    tick = e;
    books = λ i. ((λ s p. []), with_params-IsValid capacity tick span e);
    live = λ id instr h f. cc;
    unique = λ id k f g. cc;
  },
  λ id. refl,
)

-- From a sound order book a sequence of events, each admissible when its turn comes, is applied without
-- a panic, leaves a sound order book, and does to the live orders what the events say in turn.
pub apply_all-refines :
    (evs : List (ℕ × Event)) (ob : OrderBook)
    → IsSound ob
    → AllAdmissible evs ob
    → (ob' : OrderBook) × (apply_all evs ob ≡ some ob')
      × Done ob ob' (events_on ob.consume_trades evs (view ob))
unfolding apply_all
apply_all-refines [] ob sound ok = (ob, refl, unchanged ob sound)
apply_all-refines ((fresh, ev) ∷ evs) ob sound (ok, rest) =
    let (ob₁, e, d) = apply-refines fresh ev ob sound ok in
    let (ob', f, d') = apply_all-refines evs ob₁ d.sound (rest ob₁ e) in
    (
      ob',
      rw e f,
      record {
        sound = d'.sound;
        orders = λ k.
            d'.orders k
            ∙ ap (λ c. events_on c evs (view ob₁) k) d.consume
            ∙ ap (λ m. events_on ob.consume_trades evs m k) (fun_ext d.orders);
        consume = d'.consume ∙ d.consume;
      },
    )

-- From a new order book whose tick is not negative, events that are each admissible in turn are
-- applied without a panic to a sound order book, whose live orders are those that the events make out
-- of none: trades take from them exactly if the option says so, which stays as it was set.
pub new_with_grid-apply_all :
    (evs : List (ℕ × Event)) (depth : ℕ) (consume : Bool) (capacity : ℕ) (tick : ℤ) (span : ℕ)
    → neg_part tick ≡ 0
    → AllAdmissible evs (new_with_grid depth consume capacity tick span)
    → (ob : OrderBook) × (apply_all evs (new_with_grid depth consume capacity tick span) ≡ some ob)
      × IsSound ob
      × (ob.consume_trades ≡ consume)
      × ((id : ℕ) → view ob id ≡ events_on consume evs (λ _. none) id)
unfolding new_with_grid
new_with_grid-apply_all evs depth consume capacity tick span e fits =
    let new = new_with_grid depth consume capacity tick span in
    let (sound, empty) = new_with_grid-IsSound depth consume capacity tick span e in
    let (ob, f, d) = apply_all-refines evs new sound fits in
    (
      ob,
      f,
      d.sound,
      d.consume,
      λ id. d.orders id ∙ ap (λ m. events_on consume evs m id) (fun_ext empty),
    )
