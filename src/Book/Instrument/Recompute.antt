-- ===== src/Book/Instrument/Recompute.antt =====
-- `recompute_best_after_removal` of src/orderbook.rs and the queues of a side.
use mathlib.Core.Path.{subst}
use numi_orderbook.Base.{
  ℕ, ◌≡◌, ◌≢◌, refl, sym, ◌∙◌, inl, inr, true, Option, none, some, List, [], ◌∷◌, arith, Bool-cases,
  Option-cases, length,
}
use numi_orderbook.Base.Int.{ℤ, pos, IsI64, wrap}
use numi_orderbook.Event.{Side, bid, ask}
use numi_orderbook.Book.Node.{Level, is_empty}
use numi_orderbook.Book.Levels.{get_level}
use numi_orderbook.Book.Levels.Store.{LadderOk}
use numi_orderbook.Book.Queue.{sum_qty, IsQueue, LevelIs}
use numi_orderbook.Book.Instrument.{
  InstrumentBook, ladder, best, best_qty, with_best, pick, grid_candidate, overflow_candidate,
  recompute_best_after_removal,
}
use numi_orderbook.Book.Instrument.Valid.{Queues, IsValid}
use numi_orderbook.Book.Instrument.BestEntry.{at_least}
use numi_orderbook.Book.Instrument.BestSlot.{Tidy}
use numi_orderbook.Book.Instrument.Best.{Full, Best, pick-Best}

nil_of_length : (hs : List ℕ) → length hs ≡ 0 → hs ≡ []
nil_of_length [] e = refl
nil_of_length (x ∷ hs) e = absurd (omega arith)

IsQueue-at :
    (b : InstrumentBook) (q : Queues) (s : Side) (p : ℤ) (v : Level)
    → IsValid b q
    → IsI64 p
    → get_level (ladder s b) p ≡ some v
    → IsQueue b.orders s p v (q s p)
IsQueue-at b q s p v valid range there =
    subst (λ lv. LevelIs b.orders s p lv (q s p)) there (valid.levels s p range)

Full-of_queue :
    (b : InstrumentBook) (q : Queues) (s : Side) (r : ℤ)
    → IsValid b q
    → IsI64 r
    → q s r ≢ []
    → Full (ladder s b) r
Full-of_queue b q s r valid range some_orders = elim (Option-cases (get_level (ladder s b) r)) [
  | inl missing ↦
      absurd (
        some_orders
          (subst (λ lv. LevelIs b.orders s r lv (q s r)) missing (valid.levels s r range)))
  | inr (v, there) ↦
      let is = IsQueue-at b q s r v valid range there in
      record {
        level = v;
        there = there;
        full = elim (Bool-cases (is_empty v)) [
          | inl e ↦ absurd (some_orders (nil_of_length (q s r) (ground (arith, is.count))))
          | inr e ↦ e
        ];
      }
]

-- What a side's cached best says of its queues.
abbrev pub BestIs : Side → InstrumentBook → Queues → Option ℤ → ℤ → Type 0
BestIs s b q none t = (p : ℤ) → IsI64 p → q s p ≡ []
BestIs s b q (some p) t =
    IsI64 p
    × (q s p ≢ [])
    × (t ≡ wrap (sum_qty b.orders (q s p)))
    × ((r : ℤ) → IsI64 r → q s r ≢ [] → at_least s p r ≡ true)

pub best-with_best :
    (s : Side) (p : Option ℤ) (t : ℤ) (b : InstrumentBook)
    → (best s (with_best s p t b) ≡ p) × (best_qty s (with_best s p t b) ≡ t)
unfolding best with_best best_qty
best-with_best bid p t b = (refl, refl)
best-with_best ask p t b = (refl, refl)

BestIs-recompute :
    (b : InstrumentBook) (q : Queues) (s : Side) (c : Option (ℤ × ℤ))
    → IsValid b q
    → pick s (grid_candidate s (ladder s b).grid) (overflow_candidate s (ladder s b).overflow) ≡ c
    → (ok : LadderOk (ladder s b)) (tidy : Tidy (ladder s b)) → Best (ladder s b) ok tidy s c
    → BestIs s b q
        (best s (recompute_best_after_removal s b))
        (best_qty s (recompute_best_after_removal s b))
unfolding recompute_best_after_removal
BestIs-recompute b q s none valid e ok tidy none_left =
    let (cached, total) = best-with_best s none (pos 0) b in
    rw (e, recompute_best_after_removal, cached)
      (λ p hp. elim (Option-cases (get_level (ladder s b) p)) [
        | inl missing ↦ subst (λ lv. LevelIs b.orders s p lv (q s p)) missing (valid.levels s p hp)
        | inr (v, there) ↦ absurd (
            none_left p hp
              (Full-of_queue b q s p valid hp (IsQueue-at b q s p v valid hp there).not_empty))
      ])
BestIs-recompute b q s (some (p, t)) valid e ok tidy top =
    let (cached, total) = best-with_best s (some p) t b in
    let is = IsQueue-at b q s p top.level valid top.range top.there in
    rw (e, recompute_best_after_removal, cached, total)
      (
        top.range,
        is.not_empty,
        sym top.total ∙ is.total,
        λ r hr some_orders. top.best r hr (Full-of_queue b q s r valid hr some_orders),
      )

-- On a valid book whose window does not pass the end of i64 and whose overflow map is in order, the
-- search after a removal caches the best price of the side with the total of its queue, so that no
-- price with an order is better; and no best price if the side has no order.
pub recompute-BestIs :
    (b : InstrumentBook) (q : Queues) (s : Side)
    → IsValid b q
    → Tidy (ladder s b)
    → BestIs s b q
        (best s (recompute_best_after_removal s b))
        (best_qty s (recompute_best_after_removal s b))
recompute-BestIs b q s valid tidy =
    BestIs-recompute b q s _ valid refl (valid.ladders s) tidy
      (pick-Best (ladder s b) (valid.ladders s) tidy s)
