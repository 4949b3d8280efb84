-- ===== src/Book/Levels/Ensure.antt =====
-- `ensure_level_mut_in_grid` of src/orderbook.rs on the levels of a side.
use numi_orderbook.Base.{
  ℕ, ◌≡◌, refl, ap, sym, ◌∙◌, true, false, inl, inr, Option, none, some, arith, Option-cases,
}
use numi_orderbook.Base.Int.{ℤ, IsI64}
use numi_orderbook.Base.Dict.{find}
use numi_orderbook.Book.Node.{Level, empty_level}
use numi_orderbook.Book.Grid.{price_to_idx, slot_at, init_around}
use numi_orderbook.Book.Grid.Index.{price_to_idx-Hit, sub_i64-IsI64}
use numi_orderbook.Book.Levels.{
  Ladder, Place, slot, entry, write, get_level_mut, get_level, off_tick, recenter_grid, in_grid,
  in_overflow, ensure_level_mut_in_grid,
}
use numi_orderbook.Book.Levels.Store.{
  Apart, LadderOk, SameElsewhere, get_level_in, get_level_out, write_slot-Written,
  write_entry-Written, place_of, place_of_entry,
}
use numi_orderbook.Book.Levels.Found.{
  in_grid_there, in_grid_new, ensure_in, ensure_off, ensure_recentered, ensure_at_slot,
  in_overflow_there, in_overflow_new, evict_nothing, slots_nothing, ensure_at_new_entry,
  tick_pos_of_on_tick, get_level_of_NoSlots, recentered-NoSlots, NoSlots,
}

-- The ways in which a level at `price` can be had without moving another one.
pub data Fits (l : Ladder) (price : ℤ) : Type 0 where
  in_window : (i : ℕ) → price_to_idx l.grid price ≡ some i → Fits l price
  off_grid : price_to_idx l.grid price ≡ none → off_tick l.grid price ≡ true → Fits l price
  new_window :
      (i : ℕ)
      → price_to_idx l.grid price ≡ none
      → off_tick l.grid price ≡ false
      → NoSlots l
      → price_to_idx (recenter_grid l price).grid price ≡ some i
      → Apart (recenter_grid l price)
      → Fits l price

abbrev pub or_default : Option Level → Level
or_default none = empty_level
or_default (some v) = v

pub record Ensured (l : Ladder) (price : ℤ) (l' : Ladder) (place : Place) : Type 0 where
  pub ladder_ok : LadderOk l'
  pub found : get_level_mut l' price ≡ some place
  pub here : get_level l' price ≡ some (or_default (get_level l price))
  pub elsewhere : SameElsewhere l price l'
  pub again : ensure_level_mut_in_grid l' price ≡ some (l', place)

module _ (l : Ladder) (price : ℤ) (ok : LadderOk l) (hp : IsI64 price) where
  -- The first branch: the price is in the window.
  in_grid-Ensured :
      (i : ℕ)
      → price_to_idx l.grid price ≡ some i
      → (l' : Ladder) × (in_grid l price ≡ some (l', slot i)) × Ensured l price l' (slot i)
  in_grid-Ensured i e =
      let init = (price_to_idx-Hit l.grid price i ok.grid_ok e).window in
      let at = get_level_in l price i ok hp e in
      elim (Option-cases (slot_at l.grid i)) [
        | inr (v, there) ↦
            let w = in_grid_there l price i v init e there in
            (
              l,
              w,
              record {
                ladder_ok = ok;
                found = place_of l price i v e there;
                here = ground (arith, at);
                elsewhere = λ q hq ne. refl;
                again = ensure_in l price i e ∙ w;
              },
            )
        | inl empty ↦
            let l' = write l (slot i) empty_level in
            let w = write_slot-Written l price i empty_level ok hp e in
            (
              l',
              in_grid_new l price i init e empty,
              record {
                ladder_ok = w.ladder_ok;
                found = w.place_kept;
                here = ground (arith, at, w.here);
                elsewhere = w.elsewhere;
                again = ensure_at_slot l' price i w.ladder_ok w.place_kept;
              },
            )
      ]

  -- The second branch: no window will hold the price.
  in_overflow-Ensured :
      price_to_idx l.grid price ≡ none
      → off_tick l.grid price ≡ true
      → (l' : Ladder) × (in_overflow l price ≡ some (l', entry price))
        × Ensured l price l' (entry price)
  in_overflow-Ensured out off =
      let at = get_level_out l price out in
      elim (Option-cases (find price l.overflow)) [
        | inr (v, there) ↦ (
          l,
          in_overflow_there l price v there,
          record {
            ladder_ok = ok;
            found = place_of_entry l price v out there;
            here = ground (arith, at);
            elsewhere = λ q hq ne. refl;
            again = ensure_off l price out off ∙ in_overflow_there l price v there;
          },
        )
        | inl missing ↦
            let l' = write l (entry price) empty_level in
            let w = write_entry-Written l price empty_level ok hp out in
            (
              l',
              in_overflow_new l price missing,
              record {
                ladder_ok = w.ladder_ok;
                found = w.place_kept;
                here = ground (arith, at, w.here);
                elsewhere = w.elsewhere;
                again = ensure_at_new_entry l price out off;
              },
            )
      ]

  -- The third branch: a new window that drops no level and covers none.
  module _ (off : off_tick l.grid price ≡ false) (empty : NoSlots l)
      (far : Apart (recenter_grid l price)) where
    recentered_overflow : (recenter_grid l price).overflow ≡ l.overflow
    unfolding recenter_grid
    recentered_overflow = evict_nothing l.grid 0 l.grid.slots l.overflow (slots_nothing l empty)

    recentered-LadderOk : LadderOk (recenter_grid l price)
    unfolding recenter_grid init_around off_tick
    recentered-LadderOk = record {
      grid_ok = record {
        tick_nonneg = ok.grid_ok.tick_nonneg;
        tick_pos = λ _. tick_pos_of_on_tick l.grid price ok.grid_ok off;
        start_range = sub_i64-IsI64 _ _;
      };
      apart = far;
    }

    recentered_levels : (q : ℤ) → get_level (recenter_grid l price) q ≡ get_level l q
    recentered_levels q =
        get_level_of_NoSlots (recenter_grid l price) q (recentered-NoSlots l price)
        ∙ ap (find q) recentered_overflow
        ∙ sym (get_level_of_NoSlots l q empty)

-- On a well-formed ladder, the level of an i64 price that fits is found, or created empty, without a
-- panic; no level of another price changes, and a second call finds the same place.
pub ensure-Ensured :
    (l : Ladder) (price : ℤ)
    → LadderOk l
    → IsI64 price
    → Fits l price
    → (l' : Ladder) × (place : Place) × (ensure_level_mut_in_grid l price ≡ some (l', place))
      × Ensured l price l' place
ensure-Ensured l price ok hp (in_window i e) =
    let (l', eq, done) = in_grid-Ensured l price ok hp i e in
    (l', slot i, ensure_in l price i e ∙ eq, done)
ensure-Ensured l price ok hp (off_grid out off) =
    let (l', eq, done) = in_overflow-Ensured l price ok hp out off in
    (l', entry price, ensure_off l price out off ∙ eq, done)
ensure-Ensured l price ok hp (new_window i out off empty e far) =
    let r = recenter_grid l price in
    let (l', eq, done) =
      in_grid-Ensured r price (recentered-LadderOk l price ok hp off empty far) hp i e in
    let same = recentered_levels l price ok hp off empty far in
    (
      l',
      slot i,
      ensure_recentered l price i out off e ∙ eq,
      record {
        ladder_ok = done.ladder_ok;
        found = done.found;
        here = done.here ∙ ap (λ v. some (or_default v)) (same price);
        elsewhere = λ q hq ne. done.elsewhere q hq ne ∙ same q;
        again = done.again;
      },
    )
