-- ===== src/Book/Instrument/Begin.antt =====
-- A new book, and the iteration over a level in FIFO order.
use mathlib.Core.Path.{subst}
use numi_orderbook.Base.{
  get_elem?, replicate, ℕ, zero, suc, ◌≤◌, ◌≡◌, refl, ap, sym, ◌∙◌, Option, none, some, List, [],
  ◌∷◌, arith, length,
}
use numi_orderbook.Base.Int.{ℤ, IsI64, neg_part}
use numi_orderbook.Event.{Side, bid, ask}
use numi_orderbook.Book.Node.{Level, Orders, iter_from, iter_fifo, to_nz, from_nz}
use numi_orderbook.Book.Grid.{new_grid, price_to_idx, slot_at}
use numi_orderbook.Book.Grid
use numi_orderbook.Book.Levels.{Ladder, get_level}
use numi_orderbook.Book.Levels.Store.{LadderOk}
use numi_orderbook.Book.Queue.{first_link, Chain, LevelIs}
use numi_orderbook.Book.Instrument.{InstrumentBook, with_params, ladder}
use numi_orderbook.Book.Instrument.Valid.{Queues, IsValid}
use numi_orderbook.Base.Dict.{lookup, find}

abbrev new_ladder : ℤ → ℕ → Ladder
new_ladder tick span = record { grid = new_grid tick span; overflow = [] }

ladder-with_params :
    (s : Side) (capacity : ℕ) (tick : ℤ) (span : ℕ)
    → ladder s (with_params capacity tick span) ≡ new_ladder tick span
unfolding ladder with_params
ladder-with_params bid capacity tick span = refl
ladder-with_params ask capacity tick span = refl

new_ladder-LadderOk : (tick : ℤ) (span : ℕ) → neg_part tick ≡ 0 → LadderOk (new_ladder tick span)
unfolding new_grid find
new_ladder-LadderOk tick span e = record {
  grid_ok = record { tick_nonneg = e; tick_pos = λ f. cc; start_range = ground arith };
  apart = λ p i hp f. refl;
}

new_ladder-get_level : (tick : ℤ) (span : ℕ) (p : ℤ) → get_level (new_ladder tick span) p ≡ none
unfolding get_level new_grid price_to_idx Grid.get find
new_ladder-get_level tick span p = refl

-- A new book is valid for empty queues if its tick is not negative.
pub with_params-IsValid :
    (capacity : ℕ) (tick : ℤ) (span : ℕ)
    → neg_part tick ≡ 0
    → IsValid (with_params capacity tick span) (λ s p. [])
unfolding with_params lookup
with_params-IsValid capacity tick span e = record {
  ladders = λ s.
      subst LadderOk (sym (ladder-with_params s capacity tick span))
        (new_ladder-LadderOk tick span e);
  levels = λ s p hp.
      subst (λ lv. LevelIs [] s p lv [])
        (sym (
          ap (λ l. get_level l p) (ladder-with_params s capacity tick span)
          ∙ new_ladder-get_level tick span p))
        refl;
  nodes = λ h n there. cc;
}

iter_from-Chain :
    (fuel : ℕ) (o : Orders) (s : Side) (p : ℤ) (prev : Option ℕ) (hs : List ℕ)
    → length hs ≤ fuel
    → Chain o s p prev none hs
    → iter_from fuel o (first_link none hs) ≡ some hs
unfolding iter_from
iter_from-Chain fuel o s p prev [] enough c = refl
iter_from-Chain zero o s p prev (x ∷ hs) enough c = absurd (omega arith)
iter_from-Chain (suc fuel) o s p prev (x ∷ hs) enough (l, c) =
    let same : from_nz (to_nz x) ≡ x = omega arith in
    let rest =
      ap (iter_from fuel o) l.next_link
      ∙ iter_from-Chain fuel o s p (some (to_nz x)) hs (omega arith) c in
    rw (same, l.there, rest) refl

-- On a valid book the iteration over the level of an i64 price ends without a panic, on fuel for the
-- length of the queue, and visits the keys of the queue from the oldest on.
pub iter_fifo-IsValid :
    (b : InstrumentBook) (q : Queues) (s : Side) (p : ℤ) (lvl : Level) (fuel : ℕ)
    → IsValid b q
    → IsI64 p
    → get_level (ladder s b) p ≡ some lvl
    → length (q s p) ≤ fuel
    → iter_fifo fuel b.orders lvl ≡ some (q s p)
unfolding iter_fifo
iter_fifo-IsValid b q s p lvl fuel v hp level enough =
    let is = subst (λ lv. LevelIs b.orders s p lv (q s p)) level (v.levels s p hp) in
    ap (iter_from fuel b.orders) is.head
    ∙ iter_from-Chain fuel b.orders s p none (q s p) enough is.chain

-- No level stands in the window of a new book.
pub new_grid-slot_at : (tick : ℤ) (span i : ℕ) → slot_at (new_grid tick span) i ≡ none
unfolding new_grid
new_grid-slot_at tick span i = no_slot span i
  where
    no_slot :
        (n j : ℕ)
        → elim (get_elem? (replicate {A = Option Level} n none) j) [ none ↦ none | some s ↦ s ]
          ≡ none
    no_slot zero j = refl
    no_slot (suc n) zero = refl
    no_slot (suc n) (suc j) = no_slot n j
