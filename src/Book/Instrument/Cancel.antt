-- ===== src/Book/Instrument/Cancel.antt =====
-- `cancel` of src/orderbook.rs and the queues of a book.
use mathlib.Core.Path.{subst}
use numi_orderbook.Base.{
  ℕ, ◌≡◌, ◌≢◌, refl, ap, sym, ◌∙◌, none, some, List, [], ◌∷◌, ◌++◌, arith, ◌==◌, if◌then◌else◌,
  length,
}
use numi_orderbook.Base.Int.{ℤ, IsI64, wrap}
use numi_orderbook.Base.Dict
use numi_orderbook.Base.Dict.{lookup, lookup-erase}
use numi_orderbook.Event.{Side}
use numi_orderbook.Book.Node.{Node, Level, Orders, is_empty, set_next, set_prev}
use numi_orderbook.Book.Levels.{Ladder, Place, read, write, get_level_mut, remove_level_if_empty}
use numi_orderbook.Book.Levels.Store.{
  Written, get_level_mut-read, get_level_mut-some, write-Written,
}
use numi_orderbook.Book.Queue.{sum_qty, first_link, last_link, IsQueue}
use numi_orderbook.Book.Queue.Links.{Chain-split}
use numi_orderbook.Book.Queue.Splits.{has-split, Distinct-Around}
use numi_orderbook.Book.Queue.Updates.{last_link-Live, first_link-Live}
use numi_orderbook.Book.Instrument.{InstrumentBook, ladder, with_ladder, unlink, settle, cancel}
use numi_orderbook.Book.Instrument.Fields.{
  settle-Settled, orders-with_ladder, ladder-with_ladder, ladder-with_ladder_ne,
}
use numi_orderbook.Book.Instrument.Valid.{Queues, IsValid, at_refl, Change-IsValid, set_queue}
use numi_orderbook.Book.Instrument.Rebuild.{
  with_orders, ladder-with_orders, level_of_key, Change-of_fields,
}
use numi_orderbook.Book.Instrument.Leave.{
  levelled, dropped, middle_links, kept_cancelled, known_cancelled,
}
use numi_orderbook.Book.Queue.{order_of}
use numi_orderbook.Book.Instrument.Unlink.{
  order_of-Unlinked, unlink_orders, IsQueue-unlink, unlink-is_empty,
}

cancel_steps :
    (b : InstrumentBook) (h : ℕ) (n : Node) (o₁ o₂ : Orders) (place : Place) (lvl : Level)
    → lookup h b.orders ≡ some n
    → set_next n.prev n.next b.orders ≡ some o₁
    → set_prev n.next n.prev o₁ ≡ some o₂
    → get_level_mut (ladder n.side b) n.price ≡ some place
    → read (ladder n.side b) place ≡ some lvl
    → let v = unlink n.prev n.next n.qty lvl in
      let b₁ = with_ladder n.side (write (ladder n.side b) place v) (with_orders o₂ b) in
      let b₂ = settle n.side n.price v b₁ in
      cancel h b ≡ some (with_orders (Dict.erase h b₂.orders) b₂)
unfolding cancel
cancel_steps b h n o₁ o₂ place lvl there next prev found level =
    ground (arith, ladder-with_orders n.side o₂ b)

-- The fields of the book that `cancel` leaves.
module _ (b : InstrumentBook) (s : Side) (p : ℤ) (h : ℕ) (o₂ : Orders) (v : Level)
    (w : Ladder) where
  abbrev pub before_settle : InstrumentBook
  before_settle = with_ladder s w (with_orders o₂ b)

  abbrev pub after_cancel : InstrumentBook
  after_cancel =
      with_orders (Dict.erase h (settle s p v before_settle).orders) (settle s p v before_settle)

  pub after_orders : after_cancel.orders ≡ Dict.erase h o₂
  after_orders =
      ap (Dict.erase h)
        ((settle-Settled s p v before_settle).orders ∙ orders-with_ladder s w (with_orders o₂ b))

  pub after_ladder : ladder s after_cancel ≡ dropped (is_empty v) p w
  unfolding dropped
  after_ladder =
      ladder-with_orders s (Dict.erase h (settle s p v before_settle).orders)
        (settle s p v before_settle)
      ∙ (settle-Settled s p v before_settle).this
      ∙ ap (λ l. if is_empty v then (remove_level_if_empty l p).0 else l)
          (ladder-with_ladder s w (with_orders o₂ b))

  after_other : (t : Side) → s ≢ t → ladder t after_cancel ≡ ladder t b
  after_other t ne =
      ladder-with_orders t (Dict.erase h (settle s p v before_settle).orders)
        (settle s p v before_settle)
      ∙ (settle-Settled s p v before_settle).other t ne
      ∙ ladder-with_ladder_ne s t w (with_orders o₂ b) ne
      ∙ ladder-with_orders t o₂ b

-- The queue, the nodes and the level of a cancelled key, and the book that is left.
pub record Cancelled (b : InstrumentBook) (q : Queues) (h : ℕ) (n : Node) : Type 0 where
  pub xs : List ℕ
  pub ys : List ℕ
  pub linked : Orders
  pub place : Place
  pub level : Level
  pub queue : q n.side n.price ≡ xs ++ (h ∷ ys)
  pub range : IsI64 n.price
  pub found : get_level_mut (ladder n.side b) n.price ≡ some place
  pub written : Written (ladder n.side b) n.price level place (write (ladder n.side b) place level)
  pub count : level.count ≡ length (xs ++ ys)
  pub total : xs ++ ys ≢ [] → level.total_qty ≡ wrap (sum_qty (Dict.erase h linked) (xs ++ ys))
  pub ran :
      cancel h b
      ≡ some (after_cancel b n.side n.price h linked level (write (ladder n.side b) place level))
  pub valid :
      IsValid
        (after_cancel b n.side n.price h linked level (write (ladder n.side b) place level))
        (set_queue n.side n.price (xs ++ ys) q)
  pub node :
      (k : ℕ)
      → order_of (lookup k (Dict.erase h linked))
        ≡ (if h == k then none else order_of (lookup k b.orders))

pub cancel-Cancelled :
    (b : InstrumentBook) (q : Queues) (h : ℕ) (n : Node)
    → IsValid b q
    → lookup h b.orders ≡ some n
    → Cancelled b q h n
cancel-Cancelled b q h n v there =
    let (lvl, level, is₀) = level_of_key b q h n v there in
    let (range, m) = v.nodes h n there in
    let (xs, ys, queue) = has-split h (q n.side n.price) m in
    let s = n.side in
    let p = n.price in
    let is = subst (IsQueue b.orders s p lvl) queue is₀ in
    let around = Distinct-Around h xs ys is.distinct in
    let (e_prev, e_next) = middle_links b.orders s p h n xs ys there is.chain in
    let (cx, (l, cy)) = Chain-split b.orders s p none none xs (h ∷ ys) is.chain in
    let (o₁, o₂, e₁, e₂, u) =
      unlink_orders b.orders h (last_link none xs) (first_link none ys)
        (last_link-Live b.orders s p none _ xs tt cx)
        (first_link-Live b.orders s p _ none ys tt cy) in
    let (place, found) = get_level_mut-some (ladder s b) p lvl level in
    let at_place = get_level_mut-read (ladder s b) p place found ∙ level in
    let lvl' = unlink n.prev n.next n.qty lvl in
    let w = write (ladder s b) place lvl' in
    let written = write-Written (ladder s b) p place lvl' (v.ladders s) range found in
    let o' = Dict.erase h o₂ in
    let shape : lvl' ≡ unlink (last_link none xs) (first_link none ys) n.qty lvl =
      ap (λ a. unlink a n.next n.qty lvl) e_prev
      ∙ ap (λ a. unlink (last_link none xs) a n.qty lvl) e_next in
    let left : xs ++ ys ≢ [] → IsQueue o' s p lvl' (xs ++ ys) = λ full.
      subst (λ t. IsQueue o' s p t (xs ++ ys)) (sym shape)
        (IsQueue-unlink b.orders o' s p h n xs ys there around u lvl is full) in
    let counted =
      ap (λ (t : Level). t.count) shape
      ∙ unlink-is_empty b.orders o' s p h n xs ys there around u lvl is in
    let placed = levelled o' s p (ladder s b) w place lvl' (xs ++ ys) range written counted left in
    let b' = after_cancel b s p h o₂ lvl' w in
    let change =
      Change-of_fields b b' s p (xs ++ ys) (dropped (is_empty lvl') p w) o'
        (after_orders b s p h o₂ lvl' w) (after_ladder b s p h o₂ lvl' w)
        (after_other b s p h o₂ lvl' w) placed.ladder_ok placed.elsewhere placed.here
        (kept_cancelled b q h n xs ys o' lvl v there queue is u)
        (known_cancelled b q h n xs ys o' lvl v there queue is u) in
    record {
      xs = xs;
      ys = ys;
      linked = o₂;
      place = place;
      level = lvl';
      queue = queue;
      range = range;
      found = found;
      written = written;
      count = counted;
      total = λ full. (left full).total;
      ran =
          cancel_steps b h n o₁ o₂ place lvl there (rw (e_prev, e_next) e₁) (rw (e_prev, e_next) e₂)
            found at_place;
      valid =
          Change-IsValid b b' q (set_queue s p (xs ++ ys) q) s p (xs ++ ys) range v change
            (rw (at_refl s p) refl) (λ s' p' off. rw off refl);
      node = order_of-Unlinked b.orders h (last_link none xs) (first_link none ys) o' u;
    }

-- On a valid book `cancel` of a live key succeeds: the key leaves its queue, whose other keys keep
-- their order, its node alone leaves the slab, the other orders keep side, price and quantity, and the
-- book is valid for the queues after that.
pub cancel-IsValid :
    (b : InstrumentBook) (q : Queues) (h : ℕ) (n : Node)
    → IsValid b q
    → lookup h b.orders ≡ some n
    → (xs ys : List ℕ) × (b' : InstrumentBook) × (q n.side n.price ≡ xs ++ (h ∷ ys))
      × (cancel h b ≡ some b')
      × IsValid b' (set_queue n.side n.price (xs ++ ys) q)
      × ((k : ℕ)
          → order_of (lookup k b'.orders) ≡ (if h == k then none else order_of (lookup k b.orders)))
cancel-IsValid b q h n v there =
    let c = cancel-Cancelled b q h n v there in
    let w = write (ladder n.side b) c.place c.level in
    (
      c.xs,
      c.ys,
      after_cancel b n.side n.price h c.linked c.level w,
      c.queue,
      c.ran,
      c.valid,
      λ k.
          ap (λ o. order_of (lookup k o)) (after_orders b n.side n.price h c.linked c.level w)
          ∙ c.node k,
    )
