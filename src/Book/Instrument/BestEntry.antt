-- ===== src/Book/Instrument/BestEntry.antt =====
-- The best level of the overflow map of src/orderbook.rs, a `BTreeMap` whose entries ascend.
use mathlib.Core.List.{reverse, reverse-cons, head?}
use numi_orderbook.Base.{
  ◌≡◌, refl, ap, ◌∙◌, inl, inr, Bool, true, none, some, List, [], ◌∷◌, ◌++◌, arith, Bool-cases,
  Option-cases,
}
use numi_orderbook.Base.Int.{ℤ, ltb_ℤ, leb_ℤ, eqb_ℤ, eqb_ℤ_eq, eqb_ℤ_refl}
use numi_orderbook.Base.Dict.{find}
use numi_orderbook.Event.{Side, bid, ask}
use numi_orderbook.Book.Node.{Level}
use numi_orderbook.Book.Levels.{Overflow}
use numi_orderbook.Book.Instrument.{totals, overflow_candidate}

-- The keys ascend strictly.
abbrev pub Ascending : Overflow → Type 0
Ascending [] = Unit {0}
Ascending ((p, v) ∷ o) = ((q : ℤ) (w : Level) → find q o ≡ some w → ltb_ℤ p q ≡ true) × Ascending o

-- No price of the side is better than `p`.
abbrev pub at_least : Side → ℤ → ℤ → Bool
at_least bid p q = leb_ℤ q p
at_least ask p q = leb_ℤ p q

-- The candidate is the best entry.
pub record BestEntry (s : Side) (o : Overflow) (p t : ℤ) : Type 0 where
  pub level : Level
  pub there : find p o ≡ some level
  pub total : level.total_qty ≡ t
  pub best : (q : ℤ) (w : Level) → find q o ≡ some w → at_least s p q ≡ true

head_snoc :
    (xs : List (ℤ × Level)) (p : ℤ) (v : Level)
    → head? (totals (xs ++ ((p, v) ∷ [])))
      ≡ elim (head? (totals xs)) [ some c ↦ some c | none ↦ some (p, v.total_qty) ]
unfolding totals
head_snoc [] p v = refl
head_snoc (x ∷ xs) p v = refl

last_step :
    (p : ℤ) (v : Level) (o : Overflow)
    → overflow_candidate bid ((p, v) ∷ o)
      ≡ elim (overflow_candidate bid o) [ some c ↦ some c | none ↦ some (p, v.total_qty) ]
unfolding overflow_candidate
last_step p v o =
    ap (λ (l : List (ℤ × Level)). head? (totals l)) (reverse-cons (p, v) o)
    ∙ head_snoc (reverse o) p v

last_nothing : overflow_candidate bid [] ≡ none
unfolding overflow_candidate totals
last_nothing = refl

last_none : (o : Overflow) → overflow_candidate bid o ≡ none → o ≡ []
last_none [] e = refl
last_none ((p, v) ∷ o) e = elim (Option-cases (overflow_candidate bid o)) [
  | inl none_left ↦ absurd (ground (arith, last_step p v o))
  | inr (c, more) ↦ absurd (ground (arith, last_step p v o))
]

last_is :
    (x : ℤ) (u : Level) (o : Overflow) (p t : ℤ)
    → overflow_candidate bid o ≡ none
    → overflow_candidate bid ((x, u) ∷ o) ≡ some (p, t)
    → (x ≡ p) × (u.total_qty ≡ t)
last_is x u o p t end e = ground (arith, last_step x u o)

last_some :
    (o : Overflow) (p t : ℤ)
    → Ascending o
    → overflow_candidate bid o ≡ some (p, t)
    → BestEntry bid o p t
unfolding find
last_some [] p t asc e = absurd (ground (arith, last_nothing))
last_some ((x, u) ∷ o) p t (lo, asc) e = elim (Option-cases (overflow_candidate bid o)) [
  | inl end ↦
      let (same, total) = last_is x u o p t end e in
      let empty = last_none o end in
      record {
        level = u;
        there = ground (arith, eqb_ℤ_refl x, same);
        total = total;
        best = λ q w f. ground (arith, same, eqb_ℤ_eq x q, ap (find q) empty);
      }
  | inr (c, more) ↦
      let r = last_some o p t asc (more ∙ ground (arith, last_step x u o)) in
      let below = lo p r.level r.there in
      record {
        level = r.level;
        there = ground (arith, r.there);
        total = r.total;
        best = λ q w f. elim (Bool-cases (eqb_ℤ x q)) [
          | inl same ↦ ground (arith, eqb_ℤ_eq x q same)
          | inr other ↦ r.best q w (ground arith)
        ];
      }
]

-- `none` means that the map is empty, and a candidate is its best entry.
pub overflow_candidate-none : (s : Side) (o : Overflow) → overflow_candidate s o ≡ none → o ≡ []
unfolding overflow_candidate totals
overflow_candidate-none bid o e = last_none o e
overflow_candidate-none ask [] e = refl
overflow_candidate-none ask (x ∷ o) e = cc

pub overflow_candidate-BestEntry :
    (s : Side) (o : Overflow) (p t : ℤ)
    → Ascending o
    → overflow_candidate s o ≡ some (p, t)
    → BestEntry s o p t
unfolding overflow_candidate totals find
overflow_candidate-BestEntry bid o p t asc e = last_some o p t asc e
overflow_candidate-BestEntry ask [] p t asc e = cc
overflow_candidate-BestEntry ask ((x, u) ∷ o) p t (lo, asc) e = record {
  level = u;
  there = ground (arith, eqb_ℤ_refl x);
  total = ground arith;
  best = λ q w f. ground (arith, lo q w, eqb_ℤ_eq x q);
}
