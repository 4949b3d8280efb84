-- ===== src/Book/Levels/Found.antt =====
-- The steps of `ensure_level_mut_in_grid` in src/orderbook.rs, one case each.
use mathlib.Core.List.{map}
use numi_orderbook.Base.{
  ℕ, zero, suc, ◌<◌, ◌≡◌, refl, ◌∙◌, true, false, inl, inr, Option, none, some, List, [], ◌∷◌,
  arith, get_elem?, Option-cases,
}
use numi_orderbook.Base.Int.{ℤ, pos_part}
use numi_orderbook.Base.Dict.{find, put, find-put_self}
use numi_orderbook.Book.Node.{Level, empty_level}
use numi_orderbook.Book.Grid
use numi_orderbook.Book.Grid.{PriceGrid, price_to_idx, slot_at, get_mut_or_create, init_around}
use numi_orderbook.Book.Grid.Index.{GridOk, price_to_idx-Hit}
use numi_orderbook.Book.Levels.{
  Ladder, slot, entry, write, get_level_mut, get_level, off_tick, evict, recenter_grid, in_grid,
  in_overflow, or_insert, ensure_level_mut_in_grid,
}
use numi_orderbook.Book.Levels.Store.{LadderOk, get_level_mut_slot}

-- The grid holds no level.
abbrev pub NoSlots : Ladder → Type 0
NoSlots l = (i : ℕ) → slot_at l.grid i ≡ none

-- A level that is there is found where it is.
pub in_grid_there :
    (l : Ladder) (price : ℤ) (i : ℕ) (v : Level)
    → l.grid.initialized ≡ true
    → price_to_idx l.grid price ≡ some i
    → slot_at l.grid i ≡ some v
    → in_grid l price ≡ some (l, slot i)
unfolding in_grid get_mut_or_create
in_grid_there l price i v init e f = ground arith

pub in_grid_new :
    (l : Ladder) (price : ℤ) (i : ℕ)
    → l.grid.initialized ≡ true
    → price_to_idx l.grid price ≡ some i
    → slot_at l.grid i ≡ none
    → in_grid l price ≡ some (write l (slot i) empty_level, slot i)
unfolding in_grid get_mut_or_create write
in_grid_new l price i init e f = ground arith

pub ensure_in :
    (l : Ladder) (price : ℤ) (i : ℕ)
    → price_to_idx l.grid price ≡ some i
    → ensure_level_mut_in_grid l price ≡ in_grid l price
unfolding ensure_level_mut_in_grid
ensure_in l price i e = ground arith

pub ensure_off :
    (l : Ladder) (price : ℤ)
    → price_to_idx l.grid price ≡ none
    → off_tick l.grid price ≡ true
    → ensure_level_mut_in_grid l price ≡ in_overflow l price
unfolding ensure_level_mut_in_grid
ensure_off l price e f = ground arith

pub ensure_recentered :
    (l : Ladder) (price : ℤ) (i : ℕ)
    → price_to_idx l.grid price ≡ none
    → off_tick l.grid price ≡ false
    → price_to_idx (recenter_grid l price).grid price ≡ some i
    → ensure_level_mut_in_grid l price ≡ in_grid (recenter_grid l price) price
unfolding ensure_level_mut_in_grid
ensure_recentered l price i e f g = ground arith

-- A second call finds what the first has made.
pub ensure_at_slot :
    (l : Ladder) (price : ℤ) (i : ℕ)
    → LadderOk l
    → get_level_mut l price ≡ some (slot i)
    → ensure_level_mut_in_grid l price ≡ some (l, slot i)
ensure_at_slot l price i ok found =
    let (e, some_level) = get_level_mut_slot l price i found in
    elim (Option-cases (slot_at l.grid i)) [
      | inl empty ↦ absurd (some_level empty)
      | inr (v, there) ↦
          ensure_in l price i e
          ∙ in_grid_there l price i v (price_to_idx-Hit l.grid price i ok.grid_ok e).window e there
    ]

pub in_overflow_there :
    (l : Ladder) (price : ℤ) (v : Level)
    → find price l.overflow ≡ some v
    → in_overflow l price ≡ some (l, entry price)
unfolding in_overflow or_insert
in_overflow_there l price v e = ground arith

pub in_overflow_new :
    (l : Ladder) (price : ℤ)
    → find price l.overflow ≡ none
    → in_overflow l price ≡ some (write l (entry price) empty_level, entry price)
unfolding in_overflow or_insert write
in_overflow_new l price e = ground arith

pub evict_nothing :
    (g : PriceGrid) (i : ℕ) (slots : List (Option Level)) (o : List (ℤ × Level))
    → ((j : ℕ) → (s : Option Level) → get_elem? slots j ≡ some s → s ≡ none)
    → evict g i slots o ≡ o
unfolding evict
evict_nothing g i [] o h = refl
evict_nothing g i (none ∷ slots) o h = evict_nothing g (suc i) slots o (λ j s e. h (suc j) s e)
evict_nothing g i (some v ∷ slots) o h = absurd (ground (arith, h 0 (some v) refl))

pub slots_nothing :
    (l : Ladder)
    → NoSlots l
    → (j : ℕ) (s : Option Level) → get_elem? l.grid.slots j ≡ some s
    → s ≡ none
slots_nothing l h j s e = ground (arith, h j)

-- A grid like `g` whose slots are all taken.
abbrev pub taken : PriceGrid → List (Option Level) → PriceGrid
taken g slots = record g { slots = map {A = Option Level} {B = Option Level} (λ _. none) slots }

pub taken-slot :
    (g : PriceGrid) (slots : List (Option Level)) (i : ℕ) → slot_at (taken g slots) i ≡ none
taken-slot g [] i = refl
taken-slot g (x ∷ slots) zero = refl
taken-slot g (x ∷ slots) (suc i) = taken-slot g slots i

pub ensure_at_new_entry :
    (l : Ladder) (price : ℤ)
    → price_to_idx l.grid price ≡ none
    → off_tick l.grid price ≡ true
    → ensure_level_mut_in_grid (write l (entry price) empty_level) price
      ≡ some (write l (entry price) empty_level, entry price)
unfolding write
ensure_at_new_entry l price out off =
    let l' : Ladder = record l { overflow = put price empty_level l.overflow } in
    ensure_off l' price out off
    ∙ in_overflow_there l' price empty_level (find-put_self price empty_level l.overflow)

pub tick_pos_of_on_tick :
    (g : PriceGrid) (price : ℤ) → GridOk g → off_tick g price ≡ false → 0 < pos_part g.tick
unfolding off_tick
tick_pos_of_on_tick g price ok off = ground arith

pub get_level_of_NoSlots : (l : Ladder) (q : ℤ) → NoSlots l → get_level l q ≡ find q l.overflow
unfolding get_level Grid.get
get_level_of_NoSlots l q empty = elim (Option-cases (price_to_idx l.grid q)) [
  | inl out ↦ ground arith
  | inr (i, in_) ↦ ground (arith, empty i)
]

pub recentered-NoSlots : (l : Ladder) (price : ℤ) → NoSlots (recenter_grid l price)
unfolding recenter_grid init_around
recentered-NoSlots l price i = taken-slot l.grid l.grid.slots i
