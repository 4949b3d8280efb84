-- ===== src/Book/Instrument/Add.antt =====
-- `add` of src/orderbook.rs and the queues of a book.
use numi_orderbook.Base.{ℕ, ◌≡◌, ap, ◌∙◌, none, some, [], ◌∷◌, ◌++◌, ◌==◌, if◌then◌else◌}
use numi_orderbook.Base.Int.{ℤ, IsI64}
use numi_orderbook.Base.Dict.{lookup}
use numi_orderbook.Event.{Side}
use numi_orderbook.Book.Levels.Ensure.{Fits}
use numi_orderbook.Book.Instrument.{InstrumentBook, ladder, improve_best, add}
use numi_orderbook.Book.Instrument.Fields.{improve_best-SameBook}
use numi_orderbook.Book.Instrument.Valid.{Queues, IsValid, set_queue}
use numi_orderbook.Book.Queue.{order_of}
use numi_orderbook.Book.Instrument.Added.{HasRoom, add-Added}

-- On a valid book, `add` under a vacant key succeeds where the price is an i64 whose level can be had
-- without moving another one and has room: the key is returned and stands
-- last in the queue of its side and price, no other queue changes, its node has the order's side, price
-- and quantity, and the other orders keep theirs.
pub add-IsValid :
    (b : InstrumentBook) (q : Queues) (fresh : ℕ) (price qty : ℤ) (side : Side)
    → IsValid b q
    → IsI64 price
    → lookup fresh b.orders ≡ none
    → Fits (ladder side b) price
    → HasRoom (ladder side b) price
    → (b' : InstrumentBook) × (add fresh price qty side b ≡ some (fresh, b'))
      × IsValid b' (set_queue side price (q side price ++ (fresh ∷ [])) q)
      × ((k : ℕ)
          → order_of (lookup k b'.orders)
            ≡ (if fresh == k then some (side, price, qty) else order_of (lookup k b.orders)))
add-IsValid b q fresh price qty side v range vacant fits room =
    let a = add-Added b q fresh price qty side v range vacant fits room in
    let same = improve_best-SameBook side price a.total a.b₁ in
    (
      improve_best side price a.total a.b₁,
      a.ran,
      a.valid,
      λ k. ap (λ o. order_of (lookup k o)) same.orders ∙ a.node k,
    )
