-- ===== src/Book/Instrument/Best.antt =====
-- The pick between the candidates of window and overflow map in src/orderbook.rs.
use numi_orderbook.Base.{
  ◌≡◌, ◌⊎◌, refl, ap, sym, ◌∙◌, inl, inr, true, false, Option, none, some, [], arith, Bool-cases,
  Option-cases,
}
use numi_orderbook.Base.Int.{ℤ, leb_ℤ, IsI64}
use numi_orderbook.Base.Dict.{find}
use numi_orderbook.Event.{Side, bid, ask}
use numi_orderbook.Book.Node.{Level, is_empty}
use numi_orderbook.Book.Grid.{price_to_idx}
use numi_orderbook.Book.Levels.{Ladder, get_level}
use numi_orderbook.Book.Levels.Store.{LadderOk, get_level_in, get_level_out}
use numi_orderbook.Book.Instrument.{pick, grid_candidate, overflow_candidate}
use numi_orderbook.Book.Instrument.BestEntry.{
  at_least, BestEntry, overflow_candidate-none, overflow_candidate-BestEntry,
}
use numi_orderbook.Book.Instrument.BestSlot.{Tidy, Shows, grid_candidate-none, grid_candidate-best}

-- A level that is not empty stands at `r`.
pub record Full (l : Ladder) (r : ℤ) : Type 0 where
  pub level : Level
  pub there : get_level l r ≡ some level
  pub full : is_empty level ≡ false

-- The price and the total of a best level.
pub record BestLevel (s : Side) (l : Ladder) (p t : ℤ) : Type 0 where
  pub level : Level
  pub range : IsI64 p
  pub there : get_level l p ≡ some level
  pub total : level.total_qty ≡ t
  pub best : (r : ℤ) → IsI64 r → Full l r → at_least s p r ≡ true

pub at_least_trans :
    (s : Side) (p q r : ℤ) → at_least s p q ≡ true → at_least s q r ≡ true → at_least s p r ≡ true
at_least_trans bid p q r h k = ground arith
at_least_trans ask p q r h k = ground arith

-- Of two candidates the pick is as good as both.
pick-some :
    (s : Side) (g o : ℤ × ℤ)
    → ((pick s (some g) (some o) ≡ some g) × (at_least s g.0 o.0 ≡ true))
      ⊎ ((pick s (some g) (some o) ≡ some o) × (at_least s o.0 g.0 ≡ true))
unfolding pick
pick-some bid g o = elim (Bool-cases (leb_ℤ o.0 g.0)) [
  | inl e ↦ inl (rw e refl, e)
  | inr e ↦ inr (rw e refl, ground arith)
]
pick-some ask g o = elim (Bool-cases (leb_ℤ g.0 o.0)) [
  | inl e ↦ inl (rw e refl, e)
  | inr e ↦ inr (rw e refl, ground arith)
]

pick-none_left : (s : Side) (o : Option (ℤ × ℤ)) → pick s none o ≡ o
unfolding pick
pick-none_left bid o = refl
pick-none_left ask o = refl

pick-none_right : (s : Side) (g : ℤ × ℤ) → pick s (some g) none ≡ some g
unfolding pick
pick-none_right bid g = refl
pick-none_right ask g = refl

module _ (l : Ladder) (ok : LadderOk l) (tidy : Tidy l) (s : Side) where
  -- A level stands in the window or in the overflow map.
  where-Full :
      (r : ℤ) → IsI64 r → Full l r → Shows l.grid r ⊎ ((v : Level) × (find r l.overflow ≡ some v))
  where-Full r range f = elim (Option-cases (price_to_idx l.grid r)) [
    | inl out ↦ inr (f.level, sym (get_level_out l r out) ∙ f.there)
    | inr (i, in_) ↦ inl (record {
      idx = i;
      level = f.level;
      index = in_;
      there = sym (get_level_in l r i ok range in_) ∙ f.there;
      full = f.full;
    })
  ]

  -- An entry of the overflow map is the level of its price.
  entry_level : (p : ℤ) (v : Level) → find p l.overflow ≡ some v → get_level l p ≡ some v
  entry_level p v e = elim (Option-cases (price_to_idx l.grid p)) [
    | inl out ↦ get_level_out l p out ∙ e
    | inr (i, in_) ↦ absurd (ground (arith, ok.apart p i (tidy.keys p v e) in_))
  ]

  no_entry : (r : ℤ) (v : Level) → l.overflow ≡ [] → find r l.overflow ≡ some v → ⊥
  unfolding find
  no_entry r v e f = ground (arith, ap (find r) e)

  abbrev pub Best : Option (ℤ × ℤ) → Type 0
  Best none = (r : ℤ) → IsI64 r → Full l r → ⊥
  Best (some (p, t)) = BestLevel s l p t

  best_of_window :
      (p t : ℤ)
      → grid_candidate s l.grid ≡ some (p, t)
      → ((r : ℤ) (v : Level) → find r l.overflow ≡ some v → at_least s p r ≡ true)
      → BestLevel s l p t
  best_of_window p t e beats_map =
      let (v, range, there, total, beats) = grid_candidate-best l ok tidy s p t e in
      record {
        level = v;
        range = range;
        there = there;
        total = total;
        best = λ r hr f. elim (where-Full r hr f) [
          | inl sh ↦ beats r hr sh
          | inr (w, g) ↦ beats_map r w g
        ];
      }

  best_of_map :
      (p t : ℤ)
      → BestEntry s l.overflow p t
      → ((r : ℤ) → IsI64 r → Shows l.grid r → at_least s p r ≡ true)
      → BestLevel s l p t
  best_of_map p t b beats_window = record {
    level = b.level;
    range = tidy.keys p b.level b.there;
    there = entry_level p b.level b.there;
    total = b.total;
    best = λ r hr f. elim (where-Full r hr f) [
      | inl sh ↦ beats_window r hr sh
      | inr (w, g) ↦ b.best r w g
    ];
  }

  pub pick-Best : Best (pick s (grid_candidate s l.grid) (overflow_candidate s l.overflow))
  pick-Best = elim (Option-cases (grid_candidate s l.grid)) [
    | inl no_slot ↦ elim (Option-cases (overflow_candidate s l.overflow)) [
      | inl empty ↦
          rw (no_slot, empty, pick-none_left s none)
            (λ r hr f. elim (where-Full r hr f) [
              | inl sh ↦ grid_candidate-none l ok tidy s r no_slot sh
              | inr (v, g) ↦ no_entry r v (overflow_candidate-none s l.overflow empty) g
            ])
      | inr ((p, t), e) ↦
          rw (no_slot, e, pick-none_left s (some (p, t)))
            (best_of_map p t (overflow_candidate-BestEntry s l.overflow p t tidy.ascending e)
              (λ r hr sh. absurd (grid_candidate-none l ok tidy s r no_slot sh)))
    ]
    | inr ((p, t), e) ↦ elim (Option-cases (overflow_candidate s l.overflow)) [
      | inl empty ↦
          rw (e, empty, pick-none_right s (p, t))
            (best_of_window p t e
              (λ r v g. absurd (no_entry r v (overflow_candidate-none s l.overflow empty) g)))
      | inr ((p', t'), e') ↦
          let b = overflow_candidate-BestEntry s l.overflow p' t' tidy.ascending e' in
          let (v, range, there, total, beats) = grid_candidate-best l ok tidy s p t e in
          elim (pick-some s (p, t) (p', t')) [
            | inl (chosen, better) ↦
                rw (e, e', chosen)
                  (best_of_window p t e (λ r w g. at_least_trans s p p' r better (b.best r w g)))
            | inr (chosen, better) ↦
                rw (e, e', chosen)
                  (best_of_map p' t' b (λ r hr sh. at_least_trans s p' p r better (beats r hr sh)))
          ]
    ]
  ]
