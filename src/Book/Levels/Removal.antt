-- ===== src/Book/Levels/Removal.antt =====
-- `remove_level_if_empty` of src/orderbook.rs.
use numi_orderbook.Base.{ℕ, ◌≡◌, ◌≢◌, sym, ◌∙◌, inl, inr, true, none, some, arith, Option-cases}
use numi_orderbook.Base.Int.{ℤ, IsI64}
use numi_orderbook.Base.Dict
use numi_orderbook.Base.Dict.{
  find, put, find-put_self, find-put_ne, find-remove_self, find-remove_ne,
}
use numi_orderbook.Book.Node.{Level, is_empty}
use numi_orderbook.Book.Grid
use numi_orderbook.Book.Grid.{PriceGrid, price_to_idx, slot_at}
use numi_orderbook.Book.Grid.Index.{with_slot}
use numi_orderbook.Book.Levels.{Ladder, get_level, remove_level_if_empty}
use numi_orderbook.Book.Levels.Store.{
  LadderOk, SameElsewhere, get_level_in, get_level_out, slot_written-LadderOk, slot_written_self,
  slot_written_elsewhere, overflow_set, overflow_set-LadderOk, overflow_set_elsewhere,
}

-- An empty level is removed, and no other.
pub record Removed (l : Ladder) (p : ℤ) (l' : Ladder) : Type 0 where
  pub ladder_ok : LadderOk l'
  pub gone : get_level l' p ≡ none
  pub elsewhere : SameElsewhere l p l'

pub remove_in_slot :
    (l : Ladder) (p : ℤ) (i : ℕ) (v : Level)
    → price_to_idx l.grid p ≡ some i
    → slot_at l.grid i ≡ some v
    → is_empty v ≡ true
    → (remove_level_if_empty l p).0 ≡ record l { grid = with_slot l.grid i none }
unfolding remove_level_if_empty Grid.remove
remove_in_slot l p i v e f empty = ground arith

pub remove_in_overflow :
    (l : Ladder) (p : ℤ) (v : Level)
    → price_to_idx l.grid p ≡ none
    → find p l.overflow ≡ some v
    → is_empty v ≡ true
    → (remove_level_if_empty l p).0 ≡ record l { overflow = Dict.remove p l.overflow }
unfolding remove_level_if_empty Grid.remove
remove_in_overflow l p v e f empty = ground arith

-- On a well-formed ladder the empty level of an i64 price is removed, the ladder stays well-formed, and
-- no level of another i64 price changes.
pub remove_level-Removed :
    (l : Ladder) (p : ℤ) (v : Level)
    → LadderOk l
    → IsI64 p
    → get_level l p ≡ some v
    → is_empty v ≡ true
    → Removed l p (remove_level_if_empty l p).0
remove_level-Removed l p v ok hp e empty = elim (Option-cases (price_to_idx l.grid p)) [
  | inr (i, in_) ↦
      rw (remove_in_slot l p i v in_ (sym (get_level_in l p i ok hp in_) ∙ e) empty) (record {
        ladder_ok = slot_written-LadderOk l p ok hp i none;
        gone = slot_written_self l p ok hp i none in_;
        elsewhere = slot_written_elsewhere l p ok hp i none in_;
      })
  | inl out ↦
      let o = Dict.remove p l.overflow in
      let same = λ (q : ℤ) (ne : p ≢ q). find-remove_ne p q l.overflow ne in
      rw (remove_in_overflow l p v out (sym (get_level_out l p out) ∙ e) empty) (record {
        ladder_ok = overflow_set-LadderOk l p ok hp o out same;
        gone = get_level_out (overflow_set l p ok hp o) p out ∙ find-remove_self p l.overflow;
        elsewhere = overflow_set_elsewhere l p ok hp o out same;
      })
]
