-- ===== src/Book/Instrument/Rebuild.antt =====
-- The parts of a book after an operation on one level, put together into a `Change`.
use numi_orderbook.Base.{
  ℕ, ◌≡◌, ◌≢◌, refl, ap, sym, ◌∙◌, ◌⊎◌, inl, inr, Bool, true, false, some, List, arith,
  Option-cases, Bool-cases, ◌==◌, ==_eq,
}
use mathlib.Core.Path.{subst}
use numi_orderbook.Base.Int.{ℤ}
use numi_orderbook.Base.Dict.{lookup}
use numi_orderbook.Event.{Side, bid, ask}
use numi_orderbook.Book.Node.{Node, Level, Orders}
use numi_orderbook.Book.Levels.{Ladder, get_level}
use numi_orderbook.Book.Levels.Store.{LadderOk, SameElsewhere}
use numi_orderbook.Book.Queue.{has, IsQueue, LevelIs}
use numi_orderbook.Book.Instrument.{InstrumentBook, ladder, with_ladder}
use numi_orderbook.Book.Instrument.Fields.{
  SameBook, ladder-with_ladder, ladder-with_ladder_ne, orders-with_ladder,
}
use numi_orderbook.Book.Instrument.Valid.{Queues, IsValid, at, at_eq, at_refl, Change}

abbrev pub with_orders : Orders → InstrumentBook → InstrumentBook
with_orders o b = record b { orders = o }

pub ladder-with_orders :
    (s : Side) (o : Orders) (b : InstrumentBook) → ladder s (with_orders o b) ≡ ladder s b
unfolding ladder
ladder-with_orders bid o b = refl
ladder-with_orders ask o b = refl

-- The level of a key of the slab, and its queue.
pub level_of_key :
    (b : InstrumentBook) (q : Queues) (h : ℕ) (n : Node)
    → IsValid b q
    → lookup h b.orders ≡ some n
    → (lvl : Level) × (get_level (ladder n.side b) n.price ≡ some lvl)
      × IsQueue b.orders n.side n.price lvl (q n.side n.price)
level_of_key b q h n v there =
    let (range, m) = v.nodes h n there in
    let is = v.levels n.side n.price range in
    elim (Option-cases (get_level (ladder n.side b) n.price)) [
      | inl e ↦ absurd (
          ground (
            arith,
            ap (has h) (subst (λ lv. LevelIs b.orders n.side n.price lv (q n.side n.price)) e is),
            m,
          ))
      | inr (lvl, e) ↦
          (lvl, e, subst (λ lv. LevelIs b.orders n.side n.price lv (q n.side n.price)) e is)
    ]

-- A live key stands in the queue at `s` and `p`, or in another.
pub locate :
    (b : InstrumentBook) (q : Queues) (s : Side) (p : ℤ) (k : ℕ) (m : Node)
    → IsValid b q
    → lookup k b.orders ≡ some m
    → ((s ≡ m.side) × (p ≡ m.price) × (has k (q s p) ≡ true))
      ⊎ ((lookup k b.orders ≡ some m) × (at s p m.side m.price ≡ false))
locate b q s p k m v there = elim (Bool-cases (at s p m.side m.price)) [
  | inr off ↦ inr (there, off)
  | inl on ↦
      let (es, ep) = at_eq s p m.side m.price on in
      inl (es, ep, ap (has k) (ap (λ t. q t p) es ∙ ap (q m.side) ep) ∙ (v.nodes k m there).1)
]

-- Two nodes at one key of the slab are one node.
pub same_node :
    (o : Orders) (k j : ℕ) (n m : Node)
    → lookup k o ≡ some n
    → lookup j o ≡ some m
    → (k == j) ≡ true
    → n ≡ m
same_node o k j n m e f same = ground (arith, ap (λ i. lookup i o) (==_eq k j same))

-- A node off a level is not the level's own.
pub ne_of_off :
    (o : Orders) (k j : ℕ) (n m : Node)
    → lookup k o ≡ some n
    → lookup j o ≡ some m
    → at n.side n.price m.side m.price ≡ false
    → (k == j) ≡ false
ne_of_off o k j n m e f off = elim (Bool-cases (k == j)) [
  | inl same ↦ absurd (
      clash
        (subst (λ (x : Node). at n.side n.price x.side x.price ≡ false)
          (sym (same_node o k j n m e f same)) off)
        (at_refl n.side n.price))
  | inr other ↦ other
]
  where
    clash : {c : Bool} → c ≡ false → c ≡ true → ⊥
    clash e f = cc

module _ (b b' : InstrumentBook) (s : Side) (p : ℤ) (hs : List ℕ) (l' : Ladder) (o' : Orders) where
  pub Change-of_fields :
      b'.orders ≡ o'
      → ladder s b' ≡ l'
      → ((s' : Side) → s ≢ s' → ladder s' b' ≡ ladder s' b)
      → LadderOk l'
      → SameElsewhere (ladder s b) p l'
      → LevelIs o' s p (get_level l' p) hs
      → ((k : ℕ) (n : Node)
          → lookup k b.orders ≡ some n
          → at s p n.side n.price ≡ false
          → lookup k o' ≡ some n)
      → ((k : ℕ) (n : Node)
          → lookup k o' ≡ some n
          → ((s ≡ n.side) × (p ≡ n.price) × (has k hs ≡ true))
            ⊎ ((lookup k b.orders ≡ some n) × (at s p n.side n.price ≡ false)))
      → Change b s p hs b'
  Change-of_fields eo el other ok elsewhere here kept known = record {
    other_side = other;
    ladder_ok = subst LadderOk (sym el) ok;
    elsewhere = λ r hr ne. ap (λ l. get_level l r) el ∙ elsewhere r hr ne;
    here =
        subst (λ o. LevelIs o s p (get_level (ladder s b') p) hs) (sym eo)
          (subst (λ l. LevelIs o' s p (get_level l p) hs) (sym el) here);
    kept = λ k n there off. ap (lookup k) eo ∙ kept k n there off;
    known = λ k n there. known k n (ap (lookup k) (sym eo) ∙ there);
  }

  -- The book with the new ladder and orders, before the best price is renewed.
  abbrev pub parts : InstrumentBook
  parts = with_ladder s l' (with_orders o' b)

  pub orders_of_parts : SameBook parts b' → b'.orders ≡ o'
  orders_of_parts same = same.orders ∙ orders-with_ladder s l' (with_orders o' b)

  pub ladder_of_parts : SameBook parts b' → ladder s b' ≡ l'
  ladder_of_parts same = same.ladders s ∙ ladder-with_ladder s l' (with_orders o' b)

  pub other_of_parts : SameBook parts b' → (s' : Side) → s ≢ s' → ladder s' b' ≡ ladder s' b
  other_of_parts same s' ne =
      same.ladders s'
      ∙ ladder-with_ladder_ne s s' l' (with_orders o' b) ne
      ∙ ladder-with_orders s' o' b
