-- ===== src/Book/Instrument/Fields.antt =====
-- Which fields of a book each helper of src/orderbook.rs leaves alone.
use numi_orderbook.Base.{◌≡◌, ◌≢◌, ◌∙◌, refl, arith, Option}
use numi_orderbook.Base.Int.{ℤ, pos, eqb_ℤ}
use numi_orderbook.Event.{Side, bid, ask}
use numi_orderbook.Book.Node.{Level}
use numi_orderbook.Book.Levels.{Ladder, remove_level_if_empty}
use numi_orderbook.Book.Instrument.{
  InstrumentBook, ladder, with_ladder, best, with_best, beats, recompute_best_after_removal,
  improve_best, refresh_best, settle, pick, grid_candidate, overflow_candidate,
}
use numi_orderbook.Base.{Bool-cases, Option-cases, inl, inr, if◌then◌else◌, true, none, some}
use numi_orderbook.Book.Node.{is_empty}
use numi_orderbook.Book.Instrument.{is_best}

-- The best prices are all that changes.
pub record SameBook (b b' : InstrumentBook) : Type 0 where
  pub orders : b'.orders ≡ b.orders
  pub ladders : (s : Side) → ladder s b' ≡ ladder s b

pub SameBook-refl : (b : InstrumentBook) → SameBook b b
SameBook-refl b = record { orders = refl; ladders = λ s. refl }

pub with_best-SameBook :
    (side : Side) (p : Option ℤ) (q : ℤ) (b : InstrumentBook) → SameBook b (with_best side p q b)
unfolding with_best ladder
with_best-SameBook bid p q b = record { orders = refl; ladders = λ s. same s }
  where
    same : (s : Side) → ladder s (with_best bid p q b) ≡ ladder s b
    same bid = refl
    same ask = refl
with_best-SameBook ask p q b = record { orders = refl; ladders = λ s. same s }
  where
    same : (s : Side) → ladder s (with_best ask p q b) ≡ ladder s b
    same bid = refl
    same ask = refl

pub refresh_best-SameBook :
    (side : Side) (price total : ℤ) (b : InstrumentBook)
    → SameBook b (refresh_best side price total b)
unfolding refresh_best
refresh_best-SameBook side price total b = elim (Bool-cases (is_best (best side b) price)) [
  | inl e ↦ rw e (with_best-SameBook side (best side b) total b)
  | inr e ↦ rw e (SameBook-refl b)
]

pub recompute-SameBook :
    (side : Side) (b : InstrumentBook) → SameBook b (recompute_best_after_removal side b)
unfolding recompute_best_after_removal
recompute-SameBook side b =
    let l = ladder side b in
    let o = pick side (grid_candidate side l.grid) (overflow_candidate side l.overflow) in
    elim (Option-cases o) [
      | inl e ↦ rw (e, recompute_best_after_removal) (with_best-SameBook side none (pos 0) b)
      | inr (c, e) ↦ rw (e, recompute_best_after_removal) (with_best-SameBook side (some c.0) c.1 b)
    ]

pub improve_best-SameBook :
    (side : Side) (price total : ℤ) (b : InstrumentBook)
    → SameBook b (improve_best side price total b)
unfolding improve_best
improve_best-SameBook side price total b = elim (Option-cases (best side b)) [
  | inl e ↦ rw (e, improve_best) (with_best-SameBook side (some price) total b)
  | inr (p, e) ↦
      rw (e, improve_best)
        (elim (Bool-cases (beats side price p)) [
          | inl better ↦ rw better (with_best-SameBook side (some price) total b)
          | inr worse ↦ rw worse (elim (Bool-cases (eqb_ℤ p price)) [
            | inl same ↦ rw same (with_best-SameBook side (some p) total b)
            | inr other ↦ rw other (SameBook-refl b)
          ])
        ])
]

-- A side's ladder is replaced, and the other's is not.
pub ladder-with_ladder :
    (s : Side) (l : Ladder) (b : InstrumentBook) → ladder s (with_ladder s l b) ≡ l
unfolding ladder with_ladder
ladder-with_ladder bid l b = refl
ladder-with_ladder ask l b = refl

pub ladder-with_ladder_ne :
    (s t : Side) (l : Ladder) (b : InstrumentBook)
    → s ≢ t
    → ladder t (with_ladder s l b) ≡ ladder t b
unfolding ladder with_ladder
ladder-with_ladder_ne bid bid l b ne = absurd (ne refl)
ladder-with_ladder_ne bid ask l b ne = refl
ladder-with_ladder_ne ask bid l b ne = refl
ladder-with_ladder_ne ask ask l b ne = absurd (ne refl)

pub orders-with_ladder :
    (s : Side) (l : Ladder) (b : InstrumentBook) → (with_ladder s l b).orders ≡ b.orders
unfolding with_ladder
orders-with_ladder bid l b = refl
orders-with_ladder ask l b = refl

-- What `settle` does to the ladders: an empty level is removed.
pub record Settled (s : Side) (p : ℤ) (lvl : Level) (b b' : InstrumentBook) : Type 0 where
  pub orders : b'.orders ≡ b.orders
  pub other : (t : Side) → s ≢ t → ladder t b' ≡ ladder t b
  pub this :
      ladder s b' ≡ (if is_empty lvl then (remove_level_if_empty (ladder s b) p).0 else ladder s b)

removed : Side → ℤ → InstrumentBook → InstrumentBook
removed s p b = with_ladder s (remove_level_if_empty (ladder s b) p).0 b

removed-Settled :
    (s : Side) (p : ℤ) (lvl : Level) (b b' : InstrumentBook)
    → is_empty lvl ≡ true
    → SameBook (removed s p b) b'
    → Settled s p lvl b b'
unfolding removed
removed-Settled s p lvl b b' empty same =
    let l = (remove_level_if_empty (ladder s b) p).0 in
    record {
      orders = same.orders ∙ orders-with_ladder s l b;
      other = λ t ne. same.ladders t ∙ ladder-with_ladder_ne s t l b ne;
      this = same.ladders s ∙ ladder-with_ladder s l b ∙ ground arith;
    }

pub settle-Settled :
    (s : Side) (p : ℤ) (lvl : Level) (b : InstrumentBook) → Settled s p lvl b (settle s p lvl b)
unfolding settle removed
settle-Settled s p lvl b = elim (Bool-cases (is_empty lvl)) [
  | inl empty ↦ elim (Bool-cases (is_best (best s b) p)) [
    | inl top ↦
        rw (empty, top)
          (removed-Settled s p lvl b (recompute_best_after_removal s (removed s p b)) empty
            (recompute-SameBook s (removed s p b)))
    | inr low ↦ rw (empty, low) (removed-Settled s p lvl b (removed s p b) empty (SameBook-refl _))
  ]
  | inr full ↦
      let same = refresh_best-SameBook s p lvl.total_qty b in
      rw (full) (record {
        orders = same.orders;
        other = λ t ne. same.ladders t;
        this = same.ladders s ∙ ground arith;
      })
]
