-- ===== src/Snapshot/Examples.antt =====
-- src/snapshot.rs: a snapshot of one order, its file, and a write that is interrupted.
use numi_orderbook.Base.{ℕ, ◌≡◌, ◌≢◌, refl, ◌⊎◌, Option, none, some, List, [], ◌∷◌, arith}
use numi_orderbook.Base.Int.{pos}
use numi_orderbook.Event.{bid}
use numi_orderbook.Wire.{ok, be_bytes}
use numi_orderbook.Book.Orders.{OrderBook, new_book}
use numi_orderbook.Book.Levels.Ensure.{new_window}
use numi_orderbook.Book.Instrument.Begin.{new_grid-slot_at}
use numi_orderbook.Book.Orders.View.{view, IsSound}
use numi_orderbook.Book.Export.{BookExport, from_export}
use numi_orderbook.Book.Restore.{instruments_on, AllRestorable, from_export-Restored}
use numi_orderbook.Book.Tests.{run}
use numi_orderbook.Snapshot.{
  contents, snapshot_payload, load, Loaded, Phase, Saving, Step, Reach, opened,
}
use numi_orderbook.Snapshot.Atomic.{Restores, write_atomic-Restores}

abbrev one_order : BookExport
one_order = record {
  version = 1;
  instruments =
      record {
        instr = 3;
        orders = record { order_id = 7; price = pos 100; qty = pos 5; side = bid } ∷ [];
      }
      ∷ [];
}

-- The slab's first key, and an encoding that has a byte for this export.
abbrev key_zero : OrderBook → ℕ → ℕ
key_zero ob instr = 0

fits : AllRestorable key_zero one_order.instruments (new_book 10)
unfolding run
fits = (
  (
    (
      (omega arith, omega arith),
      refl,
      refl,
      new_window 8192 refl refl (new_grid-slot_at (pos 1) 16384) refl (λ p i hp e. refl),
      tt,
    ),
    λ ob' e. tt,
  ),
  λ ob' e. tt,
)

abbrev encode_one : BookExport → Option (List ℕ)
encode_one exp = some (9 ∷ [])

abbrev decode_one : List ℕ → Option BookExport
decode_one body = some one_order

abbrev file : List ℕ
file = contents 5 (9 ∷ [])

contents_test :
    file
    ≡ b'O' ∷ b'B' ∷ b'S' ∷ b'N' ∷ b'A' ∷ b'P' ∷ 0 ∷ 0 ∷ 0 ∷ 0 ∷ 0 ∷ 1 ∷ 0 ∷ 0 ∷ 0 ∷ 0 ∷ 0 ∷ 0 ∷ 0
      ∷ 5 ∷ 9 ∷ []
unfolding contents be_bytes
contents_test = refl

short_test : load decode_one key_zero (some (1 ∷ 2 ∷ [])) ≡ ok Loaded.too_small
unfolding load
short_test = refl

abbrev saved : Saving
saved = record { path = some file; tmp = none; phase = Phase.renamed }

saved-Reach : Reach file (opened none none) saved
saved-Reach =
    Reach.next
      (Reach.next
        (Reach.next (Reach.next Reach.here (Step.create _ refl refl))
          (Step.write_part 2 _ refl refl))
        (Step.write_rest _ refl refl))
      (Step.rename _ refl refl)

from_export-Restored_example :
    (ob' : OrderBook) × (from_export key_zero one_order ≡ some ob')
    × IsSound ob'
    × ((id : ℕ) → view ob' id ≡ instruments_on one_order.instruments (λ _. none) id)
from_export-Restored_example = from_export-Restored key_zero one_order fits

write_atomic-Restores_example :
    ((saved.phase ≢ Phase.renamed) × (saved.path ≡ none))
    ⊎ Restores encode_one decode_one one_order (λ body e. refl) key_zero saved.path
unfolding snapshot_payload
write_atomic-Restores_example =
    write_atomic-Restores encode_one decode_one one_order (λ body e. refl) key_zero 5 file none none
      saved refl fits saved-Reach
