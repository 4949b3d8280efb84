-- ===== src/Book/Instrument/BestSlot.antt =====
-- The best level of the window of src/orderbook.rs.
use mathlib.Core.Path.{subst}
use numi_orderbook.Base.{
  ℕ, ◌≤◌, ◌<◌, ◌≡◌, ◌≢◌, ap, ◌∙◌, inl, inr, true, false, none, some, arith, Bool-cases,
  Option-cases, length, ◌==◌, ==_eq, ltb,
}
use numi_orderbook.Base.Int.{ℤ, leb_ℤ, IsI64}
use numi_orderbook.Base.Dict.{find}
use numi_orderbook.Event.{Side, bid, ask}
use numi_orderbook.Book.Node.{Level, is_empty}
use numi_orderbook.Book.Grid.{
  PriceGrid, slot_at, slot_price, price_to_idx, candidate, best_bid_candidate, best_ask_candidate,
}
use numi_orderbook.Book.Grid.Index.{price_to_idx-Hit}
use numi_orderbook.Book.Grid.Scan.{
  Straight, scan_down-none, scan_down-some, scan_up-none, scan_up-some, slot_price-price_to_idx,
  price_to_idx-slot_price, slot_price_mono, slot_price-IsI64,
}
use numi_orderbook.Book.Levels.{Ladder, get_level}
use numi_orderbook.Book.Levels.Store.{LadderOk, get_level_in}
use numi_orderbook.Book.Instrument.{grid_candidate}
use numi_orderbook.Book.Instrument.BestEntry.{Ascending, at_least}

-- What the search for the best level relies on beside `LadderOk`: no price of the window passes the
-- end of i64, the entries of the overflow map ascend, and a level in a slot means a set window.
pub record Tidy (l : Ladder) : Type 0 where
  pub straight : Straight l.grid
  pub ascending : Ascending l.overflow
  pub keys : (p : ℤ) (v : Level) → find p l.overflow ≡ some v → IsI64 p
  pub window : (i : ℕ) (v : Level) → slot_at l.grid i ≡ some v → l.grid.initialized ≡ true

-- The window has a level at `r` that is not empty.
pub record Shows (g : PriceGrid) (r : ℤ) : Type 0 where
  pub idx : ℕ
  pub level : Level
  pub index : price_to_idx g r ≡ some idx
  pub there : slot_at g idx ≡ some level
  pub full : is_empty level ≡ false

candidate-some :
    (g : PriceGrid) (i : ℕ) (p t : ℤ)
    → candidate g i ≡ some (p, t)
    → (v : Level) × (slot_at g i ≡ some v) × (slot_price g i ≡ p) × (v.total_qty ≡ t)
unfolding candidate
candidate-some g i p t e = elim (Option-cases (slot_at g i)) [
  | inl missing ↦ absurd (ground arith)
  | inr (v, there) ↦ (v, there, ground arith, ground arith)
]

candidate-Shows : (g : PriceGrid) (r : ℤ) (sh : Shows g r) → candidate g (sh.idx) ≢ none
unfolding candidate
candidate-Shows g r sh = λ e. ground (arith, sh.there, sh.full)

module _ (l : Ladder) (ok : LadderOk l) (tidy : Tidy l) where
  abbrev g : PriceGrid
  g = l.grid

  -- The candidate at an index is the level at its price.
  level_of_candidate :
      (i : ℕ) (p t : ℤ)
      → i < length l.grid.slots
      → candidate l.grid i ≡ some (p, t)
      → (v : Level) × IsI64 p
        × (get_level l p ≡ some v)
        × (v.total_qty ≡ t)
        × (l.grid.initialized ≡ true)
  level_of_candidate i p t h e =
      let (v, there, same, total) = candidate-some l.grid i p t e in
      let init = tidy.window i v there in
      let range = subst IsI64 same (slot_price-IsI64 l.grid i) in
      let index =
        subst (λ r. price_to_idx l.grid r ≡ some i) same
          (price_to_idx-slot_price l.grid i ok.grid_ok tidy.straight init h) in
      (v, range, get_level_in l p i ok range index ∙ there, total, init)

  -- A level at an index that is not above `i` is not better than `i`'s on the bid side.
  below :
      (i : ℕ) (r : ℤ) (sh : Shows l.grid r)
      → IsI64 r
      → l.grid.initialized ≡ true
      → i < length l.grid.slots
      → sh.idx ≤ i
      → leb_ℤ r (slot_price l.grid i) ≡ true
  below i r sh range init h le =
      let same = slot_price-price_to_idx l.grid r sh.idx ok.grid_ok range sh.index in
      elim (Bool-cases (sh.idx == i)) [
        | inl e ↦ ground (arith, ap (slot_price l.grid) (==_eq sh.idx i e), same)
        | inr ne ↦ ground (
          arith,
          same,
          slot_price_mono l.grid sh.idx i ok.grid_ok tidy.straight init (ground arith) h,
        )
      ]

  above :
      (i : ℕ) (r : ℤ) (sh : Shows l.grid r)
      → IsI64 r
      → l.grid.initialized ≡ true
      → i ≤ sh.idx
      → leb_ℤ (slot_price l.grid i) r ≡ true
  above i r sh range init le =
      let same = slot_price-price_to_idx l.grid r sh.idx ok.grid_ok range sh.index in
      let hit = price_to_idx-Hit l.grid r sh.idx ok.grid_ok sh.index in
      elim (Bool-cases (sh.idx == i)) [
        | inl e ↦ ground (arith, ap (slot_price l.grid) (==_eq sh.idx i e), same)
        | inr ne ↦ ground (
          arith,
          same,
          slot_price_mono l.grid i sh.idx ok.grid_ok tidy.straight init (ground arith) hit.inside,
        )
      ]

  pub grid_candidate-none : (s : Side) (r : ℤ) → grid_candidate s l.grid ≡ none → Shows l.grid r → ⊥
  unfolding grid_candidate best_bid_candidate best_ask_candidate
  grid_candidate-none bid r e sh =
      let hit = price_to_idx-Hit l.grid r sh.idx ok.grid_ok sh.index in
      candidate-Shows l.grid r sh (scan_down-none l.grid _ e sh.idx hit.inside)
  grid_candidate-none ask r e sh =
      let hit = price_to_idx-Hit l.grid r sh.idx ok.grid_ok sh.index in
      candidate-Shows l.grid r sh
        (scan_up-none l.grid 0 _ e sh.idx (omega arith) (omega (arith, hit.inside)))

  pub grid_candidate-best :
      (s : Side) (p t : ℤ)
      → grid_candidate s l.grid ≡ some (p, t)
      → (v : Level) × IsI64 p
        × (get_level l p ≡ some v)
        × (v.total_qty ≡ t)
        × ((r : ℤ) → IsI64 r → Shows l.grid r → at_least s p r ≡ true)
  unfolding grid_candidate best_bid_candidate best_ask_candidate
  grid_candidate-best bid p t e =
      let (i, h, f, beyond) = scan_down-some l.grid _ (p, t) e in
      let (v, range, level, total, init) = level_of_candidate i p t h f in
      let (w, there, same, total') = candidate-some l.grid i p t f in
      (
        v,
        range,
        level,
        total,
        λ r hr sh.
            let hit = price_to_idx-Hit l.grid r sh.idx ok.grid_ok sh.index in
            subst (λ x. leb_ℤ r x ≡ true) same
              (below i r sh hr init h (elim (Bool-cases (ltb i sh.idx)) [
                | inl higher ↦
                    absurd (candidate-Shows l.grid r sh (beyond sh.idx (ground arith) hit.inside))
                | inr other ↦ ground arith
              ])),
      )
  grid_candidate-best ask p t e =
      let (i, lo, h, f, before) = scan_up-some l.grid 0 _ (p, t) e in
      let (v, range, level, total, init) = level_of_candidate i p t (omega arith) f in
      let (w, there, same, total') = candidate-some l.grid i p t f in
      (
        v,
        range,
        level,
        total,
        λ r hr sh.
            subst (λ x. leb_ℤ x r ≡ true) same
              (above i r sh hr init (elim (Bool-cases (ltb sh.idx i)) [
                | inl lower ↦
                    absurd
                      (candidate-Shows l.grid r sh (before sh.idx (omega arith) (ground arith)))
                | inr other ↦ ground arith
              ])),
      )
