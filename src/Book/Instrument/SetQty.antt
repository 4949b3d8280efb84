-- ===== src/Book/Instrument/SetQty.antt =====
-- `set_qty` of src/orderbook.rs and the queues of a book.
use numi_orderbook.Base.{
  ℕ, ◌≡◌, refl, ap, sym, ◌∙◌, ◌⊎◌, inl, inr, true, false, none, some, List, ◌∷◌, ◌++◌, arith, ◌==◌,
  ==_eq, Bool-cases, if◌then◌else◌,
}
use mathlib.Core.Path.{subst}
use numi_orderbook.Base.Int.{ℤ, ◌+ℤ◌, ◌-ℤ◌, wrap, add_i64, sub_i64, int_laws}
use numi_orderbook.Base.Dict.{lookup, insert, lookup-insert}
use numi_orderbook.Book.Node.{Node, Level, Orders}
use numi_orderbook.Book.Levels.{Place, read, write, get_level_mut}
use numi_orderbook.Book.Levels.Store.{get_level_mut-read, get_level_mut-some, write-Written}
use numi_orderbook.Book.Queue.{order_of, has, Distinct, qty_at, sum_qty, IsQueue, LevelIs}
use numi_orderbook.Book.Queue.Links.{Chain-keep}
use numi_orderbook.Book.Queue.Splits.{has-split, has-ne, Distinct-Around}
use numi_orderbook.Book.Queue.Sums.{sum_qty_middle, sum_qty-frame, add_i64-wrap_difference}
use numi_orderbook.Book.Instrument.{InstrumentBook, ladder, with_ladder, refresh_best, set_qty}
use numi_orderbook.Book.Instrument.Fields.{refresh_best-SameBook, orders-with_ladder}
use numi_orderbook.Book.Instrument.Valid.{Queues, IsValid, at, Change-IsValid}
use numi_orderbook.Book.Instrument.Rebuild.{
  with_orders, ladder-with_orders, level_of_key, locate, ne_of_off, Change-of_fields,
  orders_of_parts, ladder_of_parts, other_of_parts,
}

-- The orders with a new quantity at one key.
abbrev pub with_qty : ℕ → Node → ℤ → Orders → Orders
with_qty h n new_qty o = insert h (record n { qty = new_qty }) o

set_qty_steps :
    (b : InstrumentBook) (h : ℕ) (n : Node) (new_qty : ℤ) (place : Place) (lvl : Level)
    → lookup h b.orders ≡ some n
    → get_level_mut (ladder n.side b) n.price ≡ some place
    → read (ladder n.side b) place ≡ some lvl
    → let total = add_i64 lvl.total_qty (sub_i64 new_qty n.qty) in
      set_qty h new_qty b
      ≡ some (
          refresh_best n.side n.price total (
            with_ladder n.side
              (write (ladder n.side b) place (record lvl { total_qty = total }))
              (with_orders (with_qty h n new_qty b.orders) b)))
unfolding set_qty
set_qty_steps b h n new_qty place lvl there found level =
    ground (arith, ladder-with_orders n.side (with_qty h n new_qty b.orders) b)

module _ (o : Orders) (h : ℕ) (n : Node) (new_qty : ℤ) (there : lookup h o ≡ some n) where
  lookup-with_qty :
      (k : ℕ)
      → lookup k (with_qty h n new_qty o)
        ≡ (if h == k then some (record n { qty = new_qty }) else lookup k o)
  lookup-with_qty k = lookup-insert h k (record n { qty = new_qty }) o

  order_of-with_qty :
      (k : ℕ)
      → order_of (lookup k (with_qty h n new_qty o))
        ≡ (if h == k then some (n.side, n.price, new_qty) else order_of (lookup k o))
  order_of-with_qty k = ground (arith, lookup-with_qty k)

  qty_at-with_qty_self : qty_at (with_qty h n new_qty o) h ≡ new_qty
  qty_at-with_qty_self = ground (arith, lookup-with_qty h)

  qty_at-with_qty_ne : (k : ℕ) → (h == k) ≡ false → qty_at (with_qty h n new_qty o) k ≡ qty_at o k
  qty_at-with_qty_ne k ne = ground (arith, lookup-with_qty k)

  sum_qty-with_qty :
      (xs ys : List ℕ)
      → has h xs ≡ false
      → has h ys ≡ false
      → sum_qty (with_qty h n new_qty o) (xs ++ (h ∷ ys))
        ≡ sum_qty o (xs ++ (h ∷ ys)) +ℤ (new_qty -ℤ n.qty)
  sum_qty-with_qty xs ys out_x out_y =
      let old : qty_at o h ≡ n.qty = ground arith in
      let sx =
        sum_qty-frame o (with_qty h n new_qty o) xs
          (λ k m. qty_at-with_qty_ne k (has-ne h k xs out_x m)) in
      let sy =
        sum_qty-frame o (with_qty h n new_qty o) ys
          (λ k m. qty_at-with_qty_ne k (has-ne h k ys out_y m)) in
      rw
        (
          sum_qty_middle (with_qty h n new_qty o) xs h ys,
          sum_qty_middle o xs h ys,
          sx,
          sy,
          qty_at-with_qty_self,
          old,
        )
        (omega int_laws)

  -- The node of every key is linked as before.
  keep-with_qty :
      (k : ℕ) (m : Node)
      → lookup k o ≡ some m
      → (m' : Node) × (lookup k (with_qty h n new_qty o) ≡ some m')
        × (m'.side ≡ m.side)
        × (m'.price ≡ m.price)
        × (m'.prev ≡ m.prev)
        × (m'.next ≡ m.next)
  keep-with_qty k m e = elim (Bool-cases (h == k)) [
    | inl same ↦
        let nm : n ≡ m = ground (arith, ap (λ j. lookup j o) (==_eq h k same)) in
        (
          record n { qty = new_qty },
          ground (arith, lookup-with_qty k),
          ap (λ (x : Node). x.side) nm,
          ap (λ (x : Node). x.price) nm,
          ap (λ (x : Node). x.prev) nm,
          ap (λ (x : Node). x.next) nm,
        )
    | inr other ↦ (m, ground (arith, lookup-with_qty k), refl, refl, refl, refl)
  ]

  -- The level with the new total stands for the same queue.
  IsQueue-with_qty :
      (lvl : Level) (hs : List ℕ)
      → has h hs ≡ true
      → IsQueue o n.side n.price lvl hs
      → IsQueue
          (with_qty h n new_qty o)
          n.side
          n.price
          (record lvl { total_qty = add_i64 lvl.total_qty (sub_i64 new_qty n.qty) })
          hs
  IsQueue-with_qty lvl hs m v =
      let (xs, ys, e) = has-split h hs m in
      let around = Distinct-Around h xs ys (subst Distinct e v.distinct) in
      let sum = sum_qty-with_qty xs ys around.not_before around.not_behind in
      record {
        not_empty = v.not_empty;
        head = v.head;
        tail = v.tail;
        count = v.count;
        total =
            ap (λ t. add_i64 t (sub_i64 new_qty n.qty)) v.total
            ∙ add_i64-wrap_difference (sum_qty o hs) new_qty n.qty
            ∙ ap wrap (
                subst
                  (λ ks. sum_qty o ks +ℤ (new_qty -ℤ n.qty) ≡ sum_qty (with_qty h n new_qty o) ks)
                  (sym e) (sym sum));
        chain =
            Chain-keep o n.side n.price (with_qty h n new_qty o) none none hs v.chain keep-with_qty;
        distinct = v.distinct;
      }

known-with_qty :
    (b : InstrumentBook) (q : Queues) (h : ℕ) (n : Node) (new_qty : ℤ)
    → IsValid b q
    → lookup h b.orders ≡ some n
    → (k : ℕ) (m : Node) → lookup k (with_qty h n new_qty b.orders) ≡ some m
    → ((n.side ≡ m.side) × (n.price ≡ m.price) × (has k (q n.side n.price) ≡ true))
      ⊎ ((lookup k b.orders ≡ some m) × (at n.side n.price m.side m.price ≡ false))
known-with_qty b q h n new_qty v there k m e = elim (Bool-cases (h == k)) [
  | inl same ↦
      let nm : record n { qty = new_qty } ≡ m =
        ground (arith, lookup-with_qty b.orders h n new_qty there k) in
      inl (
        ap (λ (x : Node). x.side) nm,
        ap (λ (x : Node). x.price) nm,
        subst (λ j. has j (q n.side n.price) ≡ true) (==_eq h k same) (v.nodes h n there).1,
      )
  | inr other ↦
      locate b q n.side n.price k m v (ground (arith, lookup-with_qty b.orders h n new_qty there k))
]

-- On a valid book `set_qty` of a live key succeeds and leaves a valid book with the same queues, where
-- the key's order has the new quantity and every other order is as it was.
pub set_qty-IsValid :
    (b : InstrumentBook) (q : Queues) (h : ℕ) (n : Node) (new_qty : ℤ)
    → IsValid b q
    → lookup h b.orders ≡ some n
    → (b' : InstrumentBook) × (set_qty h new_qty b ≡ some b')
      × IsValid b' q
      × ((k : ℕ)
          → order_of (lookup k b'.orders)
            ≡ (if h == k then some (n.side, n.price, new_qty) else order_of (lookup k b.orders)))
set_qty-IsValid b q h n new_qty v there =
    let (lvl, level, is) = level_of_key b q h n v there in
    let (range, m) = v.nodes h n there in
    let (place, found) = get_level_mut-some (ladder n.side b) n.price lvl level in
    let at_place = get_level_mut-read (ladder n.side b) n.price place found ∙ level in
    let total = add_i64 lvl.total_qty (sub_i64 new_qty n.qty) in
    let lvl' : Level = record lvl { total_qty = total } in
    let l' = write (ladder n.side b) place lvl' in
    let w = write-Written (ladder n.side b) n.price place lvl' (v.ladders n.side) range found in
    let o' = with_qty h n new_qty b.orders in
    let b₁ = with_ladder n.side l' (with_orders o' b) in
    let b' = refresh_best n.side n.price total b₁ in
    let same = refresh_best-SameBook n.side n.price total b₁ in
    let hs = q n.side n.price in
    let change =
      Change-of_fields b b' n.side n.price hs l' o'
        (orders_of_parts b b' n.side n.price hs l' o' same)
        (ladder_of_parts b b' n.side n.price hs l' o' same)
        (other_of_parts b b' n.side n.price hs l' o' same) w.ladder_ok w.elsewhere
        (subst (λ lv. LevelIs o' n.side n.price lv hs) (sym w.here)
          (IsQueue-with_qty b.orders h n new_qty there lvl hs m is))
        (λ k m' e off. ground (
          arith,
          lookup-with_qty b.orders h n new_qty there k,
          ne_of_off b.orders h k n m' there e off,
        ))
        (known-with_qty b q h n new_qty v there) in
    (
      b',
      set_qty_steps b h n new_qty place lvl there found at_place,
      Change-IsValid b b' q q n.side n.price hs range v change refl (λ s' p' off. refl),
      λ k.
          ap (λ o. order_of (lookup k o))
            (same.orders ∙ orders-with_ladder n.side l' (with_orders o' b))
          ∙ order_of-with_qty b.orders h n new_qty there k,
    )
