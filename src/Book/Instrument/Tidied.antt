-- ===== src/Book/Instrument/Tidied.antt =====
-- The order of the levels of src/orderbook.rs when a level is written and when an empty one is removed.
use mathlib.Core.Path.{subst}
use numi_orderbook.Base.{
  ℕ, ◌*◌, ◌+◌, ◌^◌, ◌<◌, ◌≡◌, ◌≢◌, sym, ◌∙◌, inl, inr, true, false, none, some, Option, [], ◌∷◌,
  arith, length-set, Bool-cases, Option-cases,
}
use numi_orderbook.Base.Int.{ℤ, IsI64, ltb_ℤ, eqb_ℤ, eqb_ℤ_eq, pos_part, neg_part}
use numi_orderbook.Base.Dict
use numi_orderbook.Base.Dict.{
  find, put, find-put_self, find-put_ne, find-remove_self, find-remove_ne,
}
use numi_orderbook.Book.Node.{Level, is_empty}
use numi_orderbook.Book.Grid.{price_to_idx, slot_at}
use numi_orderbook.Book.Grid.Index.{with_slot}
use numi_orderbook.Book.Levels.{
  Overflow, Ladder, Place, slot, entry, write, get_level, get_level_mut, remove_level_if_empty,
}
use numi_orderbook.Book.Levels.Store.{
  LadderOk, get_level_in, get_level_out, get_level_mut_slot, get_level_mut_entry,
}
use numi_orderbook.Book.Levels.Removal.{remove_in_slot, remove_in_overflow}
use numi_orderbook.Book.Instrument.BestEntry.{Ascending}
use numi_orderbook.Book.Instrument.BestSlot.{Tidy}

-- An entry that is found after a write or a removal was there before, or is the one written.
find-put_cases :
    (p q : ℤ) (v w : Level) (o : Overflow)
    → find q (put p v o) ≡ some w
    → eqb_ℤ p q ≡ false
    → find q o ≡ some w
find-put_cases p q v w o e ne = sym (find-put_ne p q v o (λ same. differ p q ne same)) ∙ e
  where
    differ : (a b : ℤ) → eqb_ℤ a b ≡ false → a ≢ b
    differ a b off same = ground arith

Ascending-put : (p : ℤ) (v : Level) (o : Overflow) → Ascending o → Ascending (put p v o)
unfolding put find
Ascending-put p v [] h = (λ q w e. cc, tt)
Ascending-put p v ((j, x) ∷ o) (h, hs) = elim (Bool-cases (eqb_ℤ j p)) [
  | inl same ↦ rw same (λ q w e. ground (arith, h q w e), hs)
  | inr other ↦ rw other (elim (Bool-cases (ltb_ℤ p j)) [
    | inl before ↦ rw before (
      λ q w e. elim (Bool-cases (eqb_ℤ j q)) [
        | inl at ↦ ground arith
        | inr off ↦ ground (arith, h q w (rw off at e))
      ],
      (h, hs),
    )
    | inr after ↦ rw after (
      λ q w e. elim (Bool-cases (eqb_ℤ p q)) [
        | inl at ↦ ground arith
        | inr off ↦ h q w (find-put_cases p q v w o e off)
      ],
      Ascending-put p v o hs,
    )
  ])
]

find-remove :
    (p q : ℤ) (w : Level) (o : Overflow) → find q (Dict.remove p o) ≡ some w → find q o ≡ some w
find-remove p q w o e = elim (Bool-cases (eqb_ℤ p q)) [
  | inl same ↦ cc (
    subst (λ r. find r (Dict.remove p o) ≡ some w) (sym (eqb_ℤ_eq p q same)) e,
    find-remove_self p o,
  )
  | inr off ↦ sym (find-remove_ne p q o (λ same. ground arith)) ∙ e
]

Ascending-remove : (p : ℤ) (o : Overflow) → Ascending o → Ascending (Dict.remove p o)
unfolding Dict.remove
Ascending-remove p [] h = tt
Ascending-remove p ((j, x) ∷ o) (h, hs) = elim (Bool-cases (eqb_ℤ j p)) [
  | inl same ↦ rw same (Ascending-remove p o hs)
  | inr off ↦ rw off (λ q w e. h q w (find-remove p q w o e), Ascending-remove p o hs)
]

Tidy-with_slot :
    (l : Ladder) (i : ℕ) (s : Option Level)
    → Tidy l
    → l.grid.initialized ≡ true
    → Tidy (record l { grid = with_slot l.grid i s })
Tidy-with_slot l i s t init = record {
  straight = record {
    short =
        subst (λ c. pos_part l.grid.tick * c < 2 ^ 63) (sym (length-set l.grid.slots i s))
          t.straight.short;
    below =
        subst
          (λ c.
            pos_part l.grid.start_price + pos_part l.grid.tick * c
            < 2 ^ 63 + neg_part l.grid.start_price)
          (sym (length-set l.grid.slots i s)) t.straight.below;
  };
  ascending = t.ascending;
  keys = t.keys;
  window = λ j v e. init;
}

Tidy-overflow :
    (l : Ladder) (o : Overflow)
    → Tidy l
    → Ascending o
    → ((p : ℤ) (v : Level) → find p o ≡ some v → IsI64 p)
    → Tidy (record l { overflow = o })
Tidy-overflow l o t ascending keys = record {
  straight = t.straight;
  ascending = ascending;
  keys = keys;
  window = t.window;
}

initialized_of : (l : Ladder) (i : ℕ) → Tidy l → slot_at l.grid i ≢ none → l.grid.initialized ≡ true
initialized_of l i t there = elim (Option-cases (slot_at l.grid i)) [
  | inl missing ↦ absurd (there missing)
  | inr (v, e) ↦ t.window i v e
]

pub Tidy-write :
    (l : Ladder) (p : ℤ) (place : Place) (v : Level)
    → LadderOk l
    → IsI64 p
    → get_level_mut l p ≡ some place
    → Tidy l
    → Tidy (write l place v)
unfolding write
Tidy-write l p (slot i) v ok hp e t =
    Tidy-with_slot l i (some v) t (initialized_of l i t (get_level_mut_slot l p i e).1)
Tidy-write l p (entry r) v ok hp e t =
    let (same, out, there) = get_level_mut_entry l p r ok hp e in
    Tidy-overflow l (put r v l.overflow) t (Ascending-put r v l.overflow t.ascending) (λ q w f.
      elim (Bool-cases (eqb_ℤ r q)) [
        | inl at ↦ subst IsI64 (sym same ∙ eqb_ℤ_eq r q at) hp
        | inr off ↦ t.keys q w (find-put_cases r q v w l.overflow f off)
      ])

pub Tidy-remove :
    (l : Ladder) (p : ℤ) (v : Level)
    → LadderOk l
    → IsI64 p
    → get_level l p ≡ some v
    → is_empty v ≡ true
    → Tidy l
    → Tidy (remove_level_if_empty l p).0
Tidy-remove l p v ok hp e empty t = elim (Option-cases (price_to_idx l.grid p)) [
  | inr (i, in_) ↦
      let there = sym (get_level_in l p i ok hp in_) ∙ e in
      rw (remove_in_slot l p i v in_ there empty) (Tidy-with_slot l i none t (t.window i v there))
  | inl out ↦ rw (remove_in_overflow l p v out (sym (get_level_out l p out) ∙ e) empty) (
      Tidy-overflow l (Dict.remove p l.overflow) t (Ascending-remove p l.overflow t.ascending)
        (λ q w f. t.keys q w (find-remove p q w l.overflow f)))
]
