-- ===== src/Book/Instrument/CancelBest.antt =====
-- `cancel` of src/orderbook.rs and the cached best price of its side.
use mathlib.Core.Path.{subst}
use numi_orderbook.Base.{
  ℕ, ◌≡◌, ◌≢◌, refl, ap, sym, ◌∙◌, inl, inr, true, false, some, List, [], ◌∷◌, ◌++◌, arith, ◌==◌,
  ==_eq, Bool-cases, Option-cases, length, length-append,
}
use numi_orderbook.Base.Int.{ℤ, eqb_ℤ, eqb_ℤ_eq, IsI64, wrap}
use numi_orderbook.Base.Dict
use numi_orderbook.Base.Dict.{lookup}
use numi_orderbook.Book.Node.{Node, is_empty}
use numi_orderbook.Book.Levels.{Ladder, get_level, write, remove_level_if_empty}
use numi_orderbook.Book.Queue.{order_of, sum_qty}
use numi_orderbook.Book.Queue.Sums.{sum_qty-frame}
use numi_orderbook.Book.Instrument.{
  InstrumentBook, ladder, with_ladder, best, best_qty, is_best, recompute_best_after_removal,
  settle, cancel,
}
use numi_orderbook.Book.Instrument.Fields.{ladder-with_ladder}
use numi_orderbook.Book.Instrument.Valid.{Queues, IsValid, at_refl, LevelIs-node, set_queue}
use numi_orderbook.Book.Instrument.Rebuild.{with_orders}
use numi_orderbook.Book.Instrument.Leave.{dropped}
use numi_orderbook.Book.Instrument.Cancel.{
  before_settle, after_cancel, after_orders, after_ladder, Cancelled, cancel-Cancelled,
}
use numi_orderbook.Book.Instrument.Recompute.{BestIs, recompute-BestIs}
use numi_orderbook.Book.Instrument.Improve.{at-other}
use numi_orderbook.Book.Instrument.AddBest.{qty_of-order_of}
use numi_orderbook.Book.Instrument.BestEntry.{at_least}
use numi_orderbook.Book.Instrument.BestSlot.{Tidy}
use numi_orderbook.Book.Instrument.Tidied.{Tidy-write, Tidy-remove}
use numi_orderbook.Book.Instrument.Settle.{
  SameBest, best-with_orders, best-with_ladder, recompute-SameBest, settle_elsewhere, settle_full,
  settle_empty, BestIs-move,
}

-- The best price of a side after a cancel, by where the cancelled order stood.
module _ (b : InstrumentBook) (q : Queues) (h : ℕ) (n : Node) (valid : IsValid b q)
    (there : lookup h b.orders ≡ some n) (c : Cancelled b q h n) where
  abbrev new_ladder : Ladder
  new_ladder = write (ladder n.side b) c.place c.level

  abbrev settled_from : InstrumentBook
  settled_from = before_settle b n.side n.price h c.linked c.level new_ladder

  abbrev left_book : InstrumentBook
  left_book = after_cancel b n.side n.price h c.linked c.level new_ladder

  abbrev left_queues : Queues
  left_queues = set_queue n.side n.price (c.xs ++ c.ys) q

  left_here : left_queues n.side n.price ≡ c.xs ++ c.ys
  left_here = rw (at_refl n.side n.price) refl

  left_away : (r : ℤ) → eqb_ℤ n.price r ≡ false → left_queues n.side r ≡ q n.side r
  left_away r ne = rw (at-other n.side n.price r ne) refl

  was_full : q n.side n.price ≢ []
  was_full nil = ground (arith, length-append c.xs (h ∷ c.ys), ap length (sym c.queue ∙ nil))

  left_orders : left_book.orders ≡ Dict.erase h c.linked
  left_orders = after_orders b n.side n.price h c.linked c.level new_ladder

  -- A queue with an order has had one before.
  before_full : (r : ℤ) → left_queues n.side r ≢ [] → q n.side r ≢ []
  before_full r full nil = elim (Bool-cases (eqb_ℤ n.price r)) [
    | inl same ↦ was_full (ap (q n.side) (eqb_ℤ_eq n.price r same) ∙ nil)
    | inr ne ↦ full (left_away r ne ∙ nil)
  ]

  left_sum :
      (r : ℤ)
      → IsI64 r
      → eqb_ℤ n.price r ≡ false
      → sum_qty left_book.orders (q n.side r) ≡ sum_qty b.orders (q n.side r)
  left_sum r hr ne = sum_qty-frame b.orders left_book.orders (q n.side r) (λ k mem.
      let (m, found, es, ep) =
        LevelIs-node b.orders n.side r (get_level (ladder n.side b) r) k (q n.side r)
          (valid.levels n.side r hr) mem in
      qty_of-order_of (lookup k left_book.orders) (lookup k b.orders) (
        ap (λ o. order_of (lookup k o)) left_orders ∙ c.node k ∙ elim (Bool-cases (h == k)) [
          | inl e ↦
              absurd (
                elsewhere r ne m ep (sym there ∙ ap (λ j. lookup j b.orders) (==_eq h k e) ∙ found))
          | inr e ↦ rw e refl
        ]))
    where
      elsewhere : (r : ℤ) → eqb_ℤ n.price r ≡ false → (m : Node) → m.price ≡ r → some n ≡ some m → ⊥
      elsewhere r ne m ep same = ground arith

  start_SameBest : SameBest n.side settled_from b
  start_SameBest =
      let (p, t) = best-with_ladder n.side new_ladder (with_orders c.linked b) in
      let (p', t') = best-with_orders n.side c.linked b in (p ∙ p', t ∙ t')

  left_SameBest : SameBest n.side left_book (settle n.side n.price c.level settled_from)
  left_SameBest =
      best-with_orders n.side (Dict.erase h (settle n.side n.price c.level settled_from).orders)
        (settle n.side n.price c.level settled_from)

  best_elsewhere :
      (m : ℤ)
      → best n.side b ≡ some m
      → eqb_ℤ m n.price ≡ false
      → BestIs n.side b q (some m) (best_qty n.side b)
      → BestIs n.side left_book left_queues (best n.side left_book) (best_qty n.side left_book)
  best_elsewhere m e low (hm, full, total, top) =
      let (p, t) = left_SameBest in
      let (p₀, t₀) = start_SameBest in
      let (p₁, t₁) =
        settle_elsewhere n.side n.price c.level settled_from
          (subst (λ o. is_best o n.price ≡ false) (sym (p₀ ∙ e)) low) in
      let off : eqb_ℤ n.price m ≡ false = ground arith in
      BestIs-move n.side left_book left_queues (some m) (best n.side left_book) (best_qty n.side b)
        (best_qty n.side left_book) (sym (p ∙ p₁ ∙ p₀ ∙ e)) (sym (t ∙ t₁ ∙ t₀))
        (
          hm,
          λ nil. full (sym (left_away m off) ∙ nil),
          total
              ∙ ap wrap
                  (sym (left_sum m hm off) ∙ ap (sum_qty left_book.orders) (sym (left_away m off))),
          λ r hr some_left. top r hr (before_full r some_left),
        )

  best_here :
      (m : ℤ)
      → best n.side b ≡ some m
      → eqb_ℤ m n.price ≡ true
      → is_empty c.level ≡ false
      → BestIs n.side b q (some m) (best_qty n.side b)
      → BestIs n.side left_book left_queues (best n.side left_book) (best_qty n.side left_book)
  best_here m e same full (hm, _, _, top) =
      let (p, t) = left_SameBest in
      let (p₀, t₀) = start_SameBest in
      let (p₁, t₁) =
        settle_full n.side n.price c.level settled_from
          (subst (λ o. is_best o n.price ≡ true) (sym (p₀ ∙ e)) same) full in
      let at : m ≡ n.price = eqb_ℤ_eq m n.price same in
      let some_left : c.xs ++ c.ys ≢ [] = λ nil. ground (arith, c.count, ap length nil) in
      BestIs-move n.side left_book left_queues (some n.price) (best n.side left_book)
        c.level.total_qty (best_qty n.side left_book) (sym (p ∙ p₁ ∙ p₀ ∙ e ∙ ap some at))
        (sym (t ∙ t₁))
        (
          c.range,
          λ nil. some_left (sym left_here ∙ nil),
          c.total some_left
              ∙ (ap wrap (
                  ap (λ o. sum_qty o (c.xs ++ c.ys)) (sym left_orders)
                  ∙ ap (sum_qty left_book.orders) (sym left_here))),
          λ r hr now. subst (λ x. at_least n.side x r ≡ true) at (top r hr (before_full r now)),
        )

  best_searched :
      (m : ℤ)
      → best n.side b ≡ some m
      → eqb_ℤ m n.price ≡ true
      → is_empty c.level ≡ true
      → Tidy (ladder n.side b)
      → BestIs n.side left_book left_queues (best n.side left_book) (best_qty n.side left_book)
  unfolding dropped
  best_searched m e same empty tidy =
      let s = n.side in
      let (p, t) = left_SameBest in
      let (p₀, t₀) = start_SameBest in
      let gone = (remove_level_if_empty (ladder s settled_from) n.price).0 in
      let ran =
        settle_empty s n.price c.level settled_from
          (subst (λ o. is_best o n.price ≡ true) (sym (p₀ ∙ e)) same) empty in
      let this = after_ladder b s n.price h c.linked c.level new_ladder in
      let now_ladder : ladder s left_book ≡ (remove_level_if_empty new_ladder n.price).0 =
        this ∙ rw empty refl in
      let (p₁, t₁) = recompute-SameBest s left_book (with_ladder s gone settled_from) (
        now_ladder
        ∙ ap (λ l. (remove_level_if_empty l n.price).0)
            (sym (ladder-with_ladder s new_ladder (with_orders c.linked b)))
        ∙ sym (ladder-with_ladder s gone settled_from)) in
      BestIs-move s left_book left_queues (best s (recompute_best_after_removal s left_book))
        (best s left_book) (best_qty s (recompute_best_after_removal s left_book))
        (best_qty s left_book) (p₁ ∙ sym (p ∙ ap (best s) ran)) (t₁ ∙ sym (t ∙ ap (best_qty s) ran))
        (recompute-BestIs left_book left_queues s c.valid (
          subst Tidy (sym now_ladder) (
            Tidy-remove new_ladder n.price c.level c.written.ladder_ok c.range c.written.here empty
              (Tidy-write (ladder s b) n.price c.place c.level (valid.ladders s) c.range c.found
                tidy))))

-- On a valid book whose side caches its best price with the total there, whose window does not pass
-- the end of i64 and whose overflow map is in order, `cancel` of a live key succeeds: the key leaves
-- its queue, the best price of the side after that is cached with its total, so that no price with an
-- order is better, and there is no best price if the side has no order left.
pub cancel-BestIs :
    (b : InstrumentBook) (q : Queues) (h : ℕ) (n : Node)
    → IsValid b q
    → lookup h b.orders ≡ some n
    → Tidy (ladder n.side b)
    → BestIs n.side b q (best n.side b) (best_qty n.side b)
    → (xs ys : List ℕ) × (b' : InstrumentBook) × (q n.side n.price ≡ xs ++ (h ∷ ys))
      × (cancel h b ≡ some b')
      × BestIs n.side b'
          (set_queue n.side n.price (xs ++ ys) q)
          (best n.side b')
          (best_qty n.side b')
cancel-BestIs b q h n valid there tidy top =
    let c = cancel-Cancelled b q h n valid there in
    (
      c.xs,
      c.ys,
      left_book b q h n valid there c,
      c.queue,
      c.ran,
      elim (Option-cases (best n.side b)) [
        | inl e ↦ absurd (
            was_full b q h n valid there c
              (subst (λ o. BestIs n.side b q o (best_qty n.side b)) e top n.price c.range))
        | inr (m, e) ↦
            let old = subst (λ o. BestIs n.side b q o (best_qty n.side b)) e top in
            elim (Bool-cases (eqb_ℤ m n.price)) [
              | inr low ↦ best_elsewhere b q h n valid there c m e low old
              | inl same ↦ elim (Bool-cases (is_empty c.level)) [
                | inl empty ↦ best_searched b q h n valid there c m e same empty tidy
                | inr full ↦ best_here b q h n valid there c m e same full old
              ]
            ]
      ],
    )
