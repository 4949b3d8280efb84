-- ===== src/Book/Levels/Store.antt =====
-- One side's levels as a map from prices: what reading, writing and removing a level do to it.
use numi_orderbook.Base.{
  ℕ, ◌≡◌, ◌≢◌, ap, sym, ◌∙◌, inl, inr, Option, none, some, List, arith, Option-cases,
}
use numi_orderbook.Base.Int.{ℤ, IsI64}
use numi_orderbook.Base.Dict.{find, put, find-put_self, find-put_ne}
use numi_orderbook.Book.Node.{Level}
use numi_orderbook.Book.Grid
use numi_orderbook.Book.Grid.{PriceGrid, price_to_idx, slot_at}
use numi_orderbook.Book.Grid.Index.{
  GridOk, price_to_idx-Hit, price_to_idx-injective, price_to_idx-with_slot, slot_at-with_slot_self,
  slot_at-with_slot_ne, with_slot,
}
use numi_orderbook.Book.Levels.{Ladder, Place, slot, entry, read, write, get_level_mut, get_level}

-- No price of the window has a level in the overflow map.
abbrev pub Apart : Ladder → Type 0
Apart l = (p : ℤ) (i : ℕ) → IsI64 p → price_to_idx l.grid p ≡ some i → find p l.overflow ≡ none

pub record LadderOk (l : Ladder) : Type 0 where
  pub grid_ok : GridOk l.grid
  pub apart : Apart l

-- In the window a level is read from its slot, else from the overflow map.
pub get_level_in :
    (l : Ladder) (q : ℤ) (i : ℕ)
    → LadderOk l
    → IsI64 q
    → price_to_idx l.grid q ≡ some i
    → get_level l q ≡ slot_at l.grid i
unfolding get_level Grid.get
get_level_in l q i ok hq e = ground (arith, ok.apart q i hq e)

pub get_level_out :
    (l : Ladder) (q : ℤ) → price_to_idx l.grid q ≡ none → get_level l q ≡ find q l.overflow
unfolding get_level Grid.get
get_level_out l q e = ground arith

-- `get_level_mut` finds the place that `get_level` reads.
pub get_level_mut-read :
    (l : Ladder) (q : ℤ) (place : Place)
    → get_level_mut l q ≡ some place
    → read l place ≡ get_level l q
unfolding get_level_mut get_level read Grid.get_mut Grid.get
get_level_mut-read l q place e = ground arith

pub get_level_mut-none : (l : Ladder) (q : ℤ) → get_level_mut l q ≡ none → get_level l q ≡ none
unfolding get_level_mut get_level Grid.get_mut Grid.get
get_level_mut-none l q e = ground arith

pub get_level_mut-some :
    (l : Ladder) (q : ℤ) (v : Level)
    → get_level l q ≡ some v
    → (place : Place) × (get_level_mut l q ≡ some place)
get_level_mut-some l q v e = elim (Option-cases (get_level_mut l q)) [
  | inl missing ↦ absurd (ground (arith, get_level_mut-none l q missing))
  | inr found ↦ found
]

-- The place of the level at a price: a slot of the window, or an entry outside it.
pub get_level_mut_slot :
    (l : Ladder) (q : ℤ) (i : ℕ)
    → get_level_mut l q ≡ some (slot i)
    → (price_to_idx l.grid q ≡ some i) × (slot_at l.grid i ≢ none)
unfolding get_level_mut Grid.get_mut
get_level_mut_slot l q i e = ground arith

pub get_level_mut_entry :
    (l : Ladder) (q p : ℤ)
    → LadderOk l
    → IsI64 q
    → get_level_mut l q ≡ some (entry p)
    → (p ≡ q) × (price_to_idx l.grid q ≡ none) × (find q l.overflow ≢ none)
unfolding get_level_mut Grid.get_mut
get_level_mut_entry l q p ok hq e = elim (Option-cases (price_to_idx l.grid q)) [
  | inl out ↦ ground arith
  | inr (i, in_) ↦ absurd (ground (arith, ok.apart q i hq in_))
]

-- What an operation at one price leaves of the other levels.
abbrev pub SameElsewhere : Ladder → ℤ → Ladder → Type 0
SameElsewhere l p l' = (q : ℤ) → IsI64 q → p ≢ q → get_level l' q ≡ get_level l q

module _ (l : Ladder) (p : ℤ) (ok : LadderOk l) (hp : IsI64 p) where
  pub GridOk-with_slot : (i : ℕ) (s : Option Level) → GridOk (with_slot l.grid i s)
  GridOk-with_slot i s = record {
    tick_nonneg = ok.grid_ok.tick_nonneg;
    tick_pos = ok.grid_ok.tick_pos;
    start_range = ok.grid_ok.start_range;
  }

  -- A slot of the window is given another content.
  abbrev pub slot_written : ℕ → Option Level → Ladder
  slot_written i s = record l { grid = with_slot l.grid i s }

  pub slot_written-LadderOk : (i : ℕ) (s : Option Level) → LadderOk (slot_written i s)
  slot_written-LadderOk i s = record {
    grid_ok = GridOk-with_slot i s;
    apart = λ q j hq e. ok.apart q j hq (sym (price_to_idx-with_slot l.grid i s q) ∙ e);
  }

  pub slot_written_self :
      (i : ℕ) (s : Option Level)
      → price_to_idx l.grid p ≡ some i
      → get_level (slot_written i s) p ≡ s
  slot_written_self i s e =
      get_level_in (slot_written i s) p i (slot_written-LadderOk i s) hp
        (price_to_idx-with_slot l.grid i s p ∙ e)
      ∙ slot_at-with_slot_self l.grid i s (price_to_idx-Hit l.grid p i ok.grid_ok e).inside

  pub slot_written_elsewhere :
      (i : ℕ) (s : Option Level)
      → price_to_idx l.grid p ≡ some i
      → SameElsewhere l p (slot_written i s)
  slot_written_elsewhere i s e q hq ne = elim (Option-cases (price_to_idx l.grid q)) [
    | inl out ↦
        get_level_out (slot_written i s) q (price_to_idx-with_slot l.grid i s q ∙ out)
        ∙ sym (get_level_out l q out)
    | inr (j, in_) ↦
        get_level_in (slot_written i s) q j (slot_written-LadderOk i s) hq
          (price_to_idx-with_slot l.grid i s q ∙ in_)
        ∙ slot_at-with_slot_ne l.grid i j s (λ same.
          ne (price_to_idx-injective l.grid p q i ok.grid_ok hp hq e (in_ ∙ ap some (sym same))))
        ∙ sym (get_level_in l q j ok hq in_)
  ]

  -- The overflow map is changed at one price, outside the window.
  abbrev pub overflow_set : List (ℤ × Level) → Ladder
  overflow_set o = record l { overflow = o }

  pub overflow_set-LadderOk :
      (o : List (ℤ × Level))
      → price_to_idx l.grid p ≡ none
      → ((q : ℤ) → p ≢ q → find q o ≡ find q l.overflow)
      → LadderOk (overflow_set o)
  overflow_set-LadderOk o out same = record {
    grid_ok = ok.grid_ok;
    apart =
        λ q i hq e. same q (λ pq. ground (arith, ap (price_to_idx l.grid) pq)) ∙ ok.apart q i hq e;
  }

  pub overflow_set_elsewhere :
      (o : List (ℤ × Level))
      → price_to_idx l.grid p ≡ none
      → ((q : ℤ) → p ≢ q → find q o ≡ find q l.overflow)
      → SameElsewhere l p (overflow_set o)
  overflow_set_elsewhere o out same q hq ne = elim (Option-cases (price_to_idx l.grid q)) [
    | inl out_q ↦ get_level_out (overflow_set o) q out_q ∙ same q ne ∙ sym (get_level_out l q out_q)
    | inr (j, in_) ↦
        get_level_in (overflow_set o) q j (overflow_set-LadderOk o out same) hq in_
        ∙ sym (get_level_in l q j ok hq in_)
  ]

-- What a write at the place of a level does.
pub record Written (l : Ladder) (p : ℤ) (v : Level) (place : Place) (l' : Ladder) : Type 0 where
  pub ladder_ok : LadderOk l'
  pub here : get_level l' p ≡ some v
  pub elsewhere : SameElsewhere l p l'
  pub place_kept : get_level_mut l' p ≡ some place

pub place_of :
    (l : Ladder) (p : ℤ) (i : ℕ) (v : Level)
    → price_to_idx l.grid p ≡ some i
    → slot_at l.grid i ≡ some v
    → get_level_mut l p ≡ some (slot i)
unfolding get_level_mut Grid.get_mut
place_of l p i v e f = ground arith

pub place_of_entry :
    (l : Ladder) (p : ℤ) (v : Level)
    → price_to_idx l.grid p ≡ none
    → find p l.overflow ≡ some v
    → get_level_mut l p ≡ some (entry p)
unfolding get_level_mut Grid.get_mut
place_of_entry l p v e f = ground arith

-- Writing a slot of the window at its price.
pub write_slot-Written :
    (l : Ladder) (p : ℤ) (i : ℕ) (v : Level)
    → LadderOk l
    → IsI64 p
    → price_to_idx l.grid p ≡ some i
    → Written l p v (slot i) (write l (slot i) v)
unfolding write
write_slot-Written l p i v ok hp e = record {
  ladder_ok = slot_written-LadderOk l p ok hp i (some v);
  here = slot_written_self l p ok hp i (some v) e;
  elsewhere = slot_written_elsewhere l p ok hp i (some v) e;
  place_kept =
      place_of (slot_written l p ok hp i (some v)) p i v
        (price_to_idx-with_slot l.grid i (some v) p ∙ e)
        (slot_at-with_slot_self l.grid i (some v)
          (price_to_idx-Hit l.grid p i ok.grid_ok e).inside);
}

-- Writing an entry outside the window.
pub write_entry-Written :
    (l : Ladder) (p : ℤ) (v : Level)
    → LadderOk l
    → IsI64 p
    → price_to_idx l.grid p ≡ none
    → Written l p v (entry p) (write l (entry p) v)
unfolding write
write_entry-Written l p v ok hp out =
    let o = put p v l.overflow in
    let same = λ (q : ℤ) (ne : p ≢ q). find-put_ne p q v l.overflow ne in
    let l' = overflow_set l p ok hp o in
    record {
      ladder_ok = overflow_set-LadderOk l p ok hp o out same;
      here = get_level_out l' p out ∙ find-put_self p v l.overflow;
      elsewhere = overflow_set_elsewhere l p ok hp o out same;
      place_kept = place_of_entry l' p v out (find-put_self p v l.overflow);
    }

-- Writing the level that `get_level_mut` found changes that level and no other.
pub write-Written :
    (l : Ladder) (p : ℤ) (place : Place) (v : Level)
    → LadderOk l
    → IsI64 p
    → get_level_mut l p ≡ some place
    → Written l p v place (write l place v)
write-Written l p (slot i) v ok hp e =
    write_slot-Written l p i v ok hp (get_level_mut_slot l p i e).0
write-Written l p (entry q) v ok hp e =
    let (same, out, there) = get_level_mut_entry l p q ok hp e in
    rw same (write_entry-Written l p v ok hp out)
