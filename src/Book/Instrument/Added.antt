-- ===== src/Book/Instrument/Added.antt =====
-- `add` of src/orderbook.rs step by step: the book that it leaves.
use mathlib.Core.Path.{subst}
use numi_orderbook.Base.{
  ℕ, ◌+◌, ◌<◌, ◌^◌, ◌≡◌, refl, ap, sym, ◌∙◌, ◌⊎◌, inl, inr, true, false, Option, none, some, List,
  [], ◌∷◌, ◌++◌, arith, ◌==◌, ==_eq, Bool-cases, if◌then◌else◌, length,
}
use numi_orderbook.Base.Int.{ℤ, IsI64, wrap}
use numi_orderbook.Base.Dict.{lookup, insert}
use numi_orderbook.Event.{Side, bid, ask}
use numi_orderbook.Book.Node.{Node, new_node, Level, Orders, modify, set_next, to_nz}
use numi_orderbook.Book.Levels.{Ladder, Place, read, write, get_level, ensure_level_mut_in_grid}
use numi_orderbook.Book.Levels.Store.{get_level_mut-read, write-Written}
use numi_orderbook.Book.Levels.Ensure.{or_default, Fits, ensure-Ensured}
use numi_orderbook.Book.Queue.{has, last_link, points, IsQueue, LevelIs}
use numi_orderbook.Book.Queue.Links.{next_to, has-append, points-last_link}
use numi_orderbook.Book.Queue.Splits.{has_middle}
use numi_orderbook.Book.Queue.Updates.{next_to-false, prev_to-false, last_link-Live}
use numi_orderbook.Book.Instrument.{
  best, best_qty, InstrumentBook, ladder, with_ladder, push_back, improve_best, add,
}
use numi_orderbook.Book.Instrument.Fields.{
  improve_best-SameBook, ladder-with_ladder, ladder-with_ladder_ne,
}
use numi_orderbook.Book.Instrument.Valid.{
  Queues, IsValid, at, at_refl, Change-IsValid, LevelIs-node, set_queue,
}
use numi_orderbook.Book.Instrument.Rebuild.{
  with_orders, ladder-with_orders, locate, Change-of_fields,
}
use numi_orderbook.Book.Instrument.Unlink.{relinked}
use numi_orderbook.Book.Instrument.Leave.{off_queue}
use numi_orderbook.Book.Queue.{sum_qty}
use numi_orderbook.Book.Queue.{order_of}
use numi_orderbook.Book.Instrument.Enqueue.{
  order_of-Enqueued, Enqueued, linked_node, enqueue_orders, open_queue, IsQueue-enqueue,
}

add_steps :
    (b : InstrumentBook) (fresh : ℕ) (price qty : ℤ) (side : Side) (l₁ : Ladder) (place : Place)
    (lvl : Level) (o₁ o₂ : Orders)
    → ensure_level_mut_in_grid (ladder side b) price ≡ some (l₁, place)
    → ensure_level_mut_in_grid l₁ price ≡ some (l₁, place)
    → read l₁ place ≡ some lvl
    → set_next lvl.tail (some (to_nz fresh)) (insert fresh (new_node price qty side) b.orders)
      ≡ some o₁
    → modify fresh (λ n. record n { prev = lvl.tail; next = none }) o₁ ≡ some o₂
    → let v = push_back fresh qty lvl.tail lvl in
      let b₁ = with_orders o₂ (with_ladder side (write l₁ place v) b) in
      add fresh price qty side b ≡ some (fresh, improve_best side price v.total_qty b₁)
unfolding add
add_steps b fresh price qty side l₁ place lvl o₁ o₂ first second level next own =
    rw (first, level, next, own, second, level) refl

-- The nodes of the slab before and after.
module _ (b : InstrumentBook) (q : Queues) (fresh : ℕ) (price qty : ℤ) (side : Side) (o' : Orders)
    (v : IsValid b q) (range : IsI64 price) (vacant : lookup fresh b.orders ≡ none)
    (u : Enqueued b.orders fresh
      (linked_node price qty side (last_link none (q side price)))
      (last_link none (q side price))
      o') where
  abbrev hs : List ℕ
  hs = q side price

  fresh_out : has fresh hs ≡ false
  fresh_out = elim (Bool-cases (has fresh hs)) [
    | inr out ↦ out
    | inl m ↦
        let (n, there, es, ep) =
          LevelIs-node b.orders side price (get_level (ladder side b) price) fresh hs
            (v.levels side price range) m in
        absurd (ground arith)
  ]

  not_fresh : (k : ℕ) (m : Node) → lookup k b.orders ≡ some m → (fresh == k) ≡ false
  not_fresh k m e = elim (Bool-cases (fresh == k)) [
    | inl same ↦ absurd (ground (arith, ap (λ j. lookup j b.orders) (==_eq fresh k same)))
    | inr ne ↦ ne
  ]

  kept_added :
      (k : ℕ) (m : Node)
      → lookup k b.orders ≡ some m
      → at side price m.side m.price ≡ false
      → lookup k o' ≡ some m
  kept_added k m e off =
      let out =
        off_queue b.orders side price (get_level (ladder side b) price) hs k m
          (v.levels side price range) e off in
      u.at k
      ∙ rw (not_fresh k m e, points-last_link none k hs refl out)
          (next_to-false (some (to_nz fresh)) (lookup k b.orders) ∙ e)

  known_added :
      (k : ℕ) (m : Node)
      → lookup k o' ≡ some m
      → ((side ≡ m.side) × (price ≡ m.price) × (has k (hs ++ (fresh ∷ [])) ≡ true))
        ⊎ ((lookup k b.orders ≡ some m) × (at side price m.side m.price ≡ false))
  known_added k m e = elim (Bool-cases (fresh == k)) [
    | inl same ↦
        let nm : linked_node price qty side (last_link none hs) ≡ m = ground (arith, u.at k) in
        inl (
          ap (λ (x : Node). x.side) nm,
          ap (λ (x : Node). x.price) nm,
          subst (λ j. has j (hs ++ (fresh ∷ [])) ≡ true) (==_eq fresh k same)
              (has_middle fresh hs []),
        )
    | inr ne ↦
        let v' = some (to_nz fresh) in
        let link = points (last_link none hs) k in
        let old_next : next_to link v' (lookup k b.orders) ≡ some m = ground (arith, u.at k) in
        let (m₀, old, es, ep, equal) =
          relinked false link none v' (lookup k b.orders) m
            (prev_to-false none (next_to link v' (lookup k b.orders)) ∙ old_next) in
        elim (locate b q side price k m₀ v old) [
          | inl (fs, fp, m_in) ↦
              inl (fs ∙ es, fp ∙ ep, ground (arith, has-append k hs (fresh ∷ [])))
          | inr (_, off) ↦
              let out =
                off_queue b.orders side price (get_level (ladder side b) price) hs k m₀
                  (v.levels side price range) old off in
              let mm = equal refl (points-last_link none k hs refl out) in
              inr (
                old ∙ ap some mm,
                subst (λ (x : Node). at side price x.side x.price ≡ false) mm off,
              )
        ]
  ]

-- One order more does not overflow the number of orders of the level at `price`.
abbrev pub RoomIn : Option Level → Type 0
RoomIn none = Unit {0}
RoomIn (some lvl) = lvl.count + 1 < 2 ^ 64

abbrev pub HasRoom : Ladder → ℤ → Type 0
HasRoom l price = RoomIn (get_level l price)

short_of_room :
    (o : Orders) (s : Side) (p : ℤ) (lv : Option Level) (hs : List ℕ)
    → LevelIs o s p lv hs
    → RoomIn lv
    → length hs + 1 < 2 ^ 64
short_of_room o s p none hs e room = ground (arith, ap length e)
short_of_room o s p (some lvl) hs v room = ground (arith, v.count)

best-with_ladder :
    (s t : Side) (l : Ladder) (o : Orders) (b : InstrumentBook)
    → (best t (with_orders o (with_ladder s l b)) ≡ best t b)
      × (best_qty t (with_orders o (with_ladder s l b)) ≡ best_qty t b)
unfolding best best_qty with_ladder
best-with_ladder bid bid l o b = (refl, refl)
best-with_ladder bid ask l o b = (refl, refl)
best-with_ladder ask bid l o b = (refl, refl)
best-with_ladder ask ask l o b = (refl, refl)

-- What `add` leaves: `b₁` is the book before the best price is renewed, `total` the level's total.
pub record Added (b : InstrumentBook) (q : Queues) (fresh : ℕ) (price qty : ℤ) (side : Side)
    : Type 0 where
  pub b₁ : InstrumentBook
  pub total : ℤ
  pub ran : add fresh price qty side b ≡ some (fresh, improve_best side price total b₁)
  pub valid :
      IsValid
        (improve_best side price total b₁)
        (set_queue side price (q side price ++ (fresh ∷ [])) q)
  pub node :
      (k : ℕ)
      → order_of (lookup k b₁.orders)
        ≡ (if fresh == k then some (side, price, qty) else order_of (lookup k b.orders))
  pub best_kept : (s : Side) → (best s b₁ ≡ best s b) × (best_qty s b₁ ≡ best_qty s b)
  pub total_of : total ≡ wrap (sum_qty b₁.orders (q side price ++ (fresh ∷ [])))

pub add-Added :
    (b : InstrumentBook) (q : Queues) (fresh : ℕ) (price qty : ℤ) (side : Side)
    → IsValid b q
    → IsI64 price
    → lookup fresh b.orders ≡ none
    → Fits (ladder side b) price
    → HasRoom (ladder side b) price
    → Added b q fresh price qty side
add-Added b q fresh price qty side v range vacant fits room =
    let hs = q side price in
    let lv = get_level (ladder side b) price in
    let is = v.levels side price range in
    let (l₁, place, first, e) = ensure-Ensured (ladder side b) price (v.ladders side) range fits in
    let lvl = or_default lv in
    let level = get_level_mut-read l₁ price place e.found ∙ e.here in
    let open_q = open_queue b.orders side price lv hs is in
    let live = last_link-Live b.orders side price none none hs tt open_q.chain in
    let (o₁, o₂, next, own, u) =
      enqueue_orders b.orders fresh price qty side (last_link none hs) live in
    let small = short_of_room b.orders side price lv hs is room in
    let out = fresh_out b q fresh price qty side o₂ v range vacant u in
    let lvl' = push_back fresh qty lvl.tail lvl in
    let w = write l₁ place lvl' in
    let written = write-Written l₁ price place lvl' e.ladder_ok range e.found in
    let queue = IsQueue-enqueue b.orders o₂ side price qty fresh hs out u lvl open_q small in
    let b₁ = with_orders o₂ (with_ladder side w b) in
    let b' = improve_best side price lvl'.total_qty b₁ in
    let same = improve_best-SameBook side price lvl'.total_qty b₁ in
    let change =
      Change-of_fields b b' side price (hs ++ (fresh ∷ [])) w o₂ same.orders
        (same.ladders side
          ∙ ladder-with_orders side o₂ (with_ladder side w b)
          ∙ ladder-with_ladder side w b)
        (λ t ne.
          same.ladders t
          ∙ ladder-with_orders t o₂ (with_ladder side w b)
          ∙ ladder-with_ladder_ne side t w b ne)
        written.ladder_ok (λ r hr ne. written.elsewhere r hr ne ∙ e.elsewhere r hr ne)
        (subst (λ z. LevelIs o₂ side price z (hs ++ (fresh ∷ []))) (sym written.here)
          (subst (λ t. IsQueue o₂ side price (push_back fresh qty t lvl) (hs ++ (fresh ∷ [])))
            (sym open_q.tail) queue))
        (kept_added b q fresh price qty side o₂ v range vacant u)
        (known_added b q fresh price qty side o₂ v range vacant u) in
    record {
      b₁ = b₁;
      total = lvl'.total_qty;
      ran =
          add_steps b fresh price qty side l₁ place lvl o₁ o₂ first e.again level
            (subst
              (λ t.
                set_next t (some (to_nz fresh)) (insert fresh (new_node price qty side) b.orders)
                ≡ some o₁)
              (sym open_q.tail) next)
            (subst (λ t. modify fresh (λ n. record n { prev = t; next = none }) o₁ ≡ some o₂)
              (sym open_q.tail) own);
      valid =
          Change-IsValid b b' q (set_queue side price (hs ++ (fresh ∷ [])) q) side price
            (hs ++ (fresh ∷ [])) range v change (rw (at_refl side price) refl)
            (λ s' p' off. rw off refl);
      node =
          order_of-Enqueued b.orders fresh (linked_node price qty side (last_link none hs))
            (last_link none hs) o₂ u;
      best_kept = λ s. best-with_ladder side s w o₂ b;
      total_of = ap (λ t. (push_back fresh qty t lvl).total_qty) open_q.tail ∙ queue.total;
    }
