-- ===== src/Book/Instrument/Valid.antt =====
-- The invariant of a book: its levels and its order nodes stand for one queue of keys for each side
-- and price.
use numi_orderbook.Base.{
  ℕ, ◌≡◌, ◌≢◌, refl, ap, sym, ◌∙◌, ◌⊎◌, inl, inr, Bool, true, false, ◌&&◌, Option, none, some, List,
  [], ◌∷◌, arith, ◌==◌, ==_eq, if◌then◌else◌, Bool-cases,
}
use mathlib.Core.Path.{subst}
use numi_orderbook.Base.Int.{ℤ, IsI64, eqb_ℤ, eqb_ℤ_eq, eqb_ℤ_refl, wrap}
use numi_orderbook.Base.Dict.{lookup}
use numi_orderbook.Event.{Side, bid, ask, side_eq}
use numi_orderbook.Book.Node.{Node, Level, Orders, to_nz}
use numi_orderbook.Book.Levels.{get_level}
use numi_orderbook.Book.Levels.Store.{LadderOk, SameElsewhere}
use numi_orderbook.Book.Queue.{has, Chain, LevelIs}
use numi_orderbook.Book.Queue.Links.{Chain-frame}
use numi_orderbook.Book.Queue.Sums.{sum_qty-frame}
use numi_orderbook.Book.Instrument.{InstrumentBook, ladder}

-- The queues of a book, oldest order first.
abbrev pub Queues : Type 0
Queues = Side → ℤ → List ℕ

pub record IsValid (b : InstrumentBook) (q : Queues) : Type 0 where
  pub ladders : (s : Side) → LadderOk (ladder s b)
  pub levels :
      (s : Side) (p : ℤ) → IsI64 p → LevelIs b.orders s p (get_level (ladder s b) p) (q s p)
  pub nodes :
      (h : ℕ) (n : Node)
      → lookup h b.orders ≡ some n
      → IsI64 n.price × (has h (q n.side n.price) ≡ true)

-- Whether a side and a price are those of the level at `s` and `p`.
abbrev pub at : Side → ℤ → Side → ℤ → Bool
at s p s' p' = side_eq s s' && eqb_ℤ p p'

pub at_eq : (s : Side) (p : ℤ) (s' : Side) (p' : ℤ) → at s p s' p' ≡ true → (s ≡ s') × (p ≡ p')
unfolding side_eq
at_eq bid p bid p' e = (refl, eqb_ℤ_eq p p' e)
at_eq bid p ask p' e = cc
at_eq ask p bid p' e = cc
at_eq ask p ask p' e = (refl, eqb_ℤ_eq p p' e)

pub at_refl : (s : Side) (p : ℤ) → at s p s p ≡ true
unfolding side_eq
at_refl bid p = eqb_ℤ_refl p
at_refl ask p = eqb_ℤ_refl p

pub Side-cases : (s s' : Side) → (s ≡ s') ⊎ (s ≢ s')
Side-cases bid bid = inl refl
Side-cases bid ask = inr (λ e. cc)
Side-cases ask bid = inr (λ e. cc)
Side-cases ask ask = inl refl

-- One queue is replaced.
abbrev pub set_queue : Side → ℤ → List ℕ → Queues → Queues
set_queue s p hs q = λ s' p'. if at s p s' p' then hs else q s' p'

-- The node of a key in a queue.
pub Chain-node :
    (o : Orders) (s : Side) (p : ℤ) (prev next : Option ℕ) (k : ℕ) (hs : List ℕ)
    → Chain o s p prev next hs
    → has k hs ≡ true
    → (n : Node) × (lookup k o ≡ some n) × (n.side ≡ s) × (n.price ≡ p)
Chain-node o s p prev next k [] c m = cc
Chain-node o s p prev next k (x ∷ hs) (l, c) m = elim (Bool-cases (x == k)) [
  | inl e ↦
      (l.node, subst (λ j. lookup j o ≡ some (l.node)) (==_eq x k e) l.there, l.on_side, l.at_price)
  | inr e ↦ Chain-node o s p (some (to_nz x)) next k hs c (ground arith)
]

pub LevelIs-node :
    (o : Orders) (s : Side) (p : ℤ) (lv : Option Level) (k : ℕ) (hs : List ℕ)
    → LevelIs o s p lv hs
    → has k hs ≡ true
    → (n : Node) × (lookup k o ≡ some n) × (n.side ≡ s) × (n.price ≡ p)
LevelIs-node o s p none k hs e m = absurd (ground (arith, ap (has k) e))
LevelIs-node o s p (some lvl) k hs v m = Chain-node o s p none none k hs v.chain m

-- A level keeps its queue where the orders of the queue stay as they are.
pub LevelIs-frame :
    (o o' : Orders) (s : Side) (p : ℤ) (lv : Option Level) (hs : List ℕ)
    → ((k : ℕ) → has k hs ≡ true → lookup k o' ≡ lookup k o)
    → LevelIs o s p lv hs
    → LevelIs o' s p lv hs
LevelIs-frame o o' s p none hs same e = e
LevelIs-frame o o' s p (some lvl) hs same v = record {
  not_empty = v.not_empty;
  head = v.head;
  tail = v.tail;
  count = v.count;
  total = v.total ∙ ap wrap (sym (sum_qty-frame o o' hs (λ k m. ground (arith, same k m))));
  chain = Chain-frame o s p o' none none hs v.chain same;
  distinct = v.distinct;
}

-- What it takes to change the queue at one side and price.
pub record Change (b : InstrumentBook) (s : Side) (p : ℤ) (hs : List ℕ) (b' : InstrumentBook)
    : Type 0 where
  pub other_side : (s' : Side) → s ≢ s' → ladder s' b' ≡ ladder s' b
  pub ladder_ok : LadderOk (ladder s b')
  pub elsewhere : SameElsewhere (ladder s b) p (ladder s b')
  pub here : LevelIs b'.orders s p (get_level (ladder s b') p) hs
  pub kept :
      (k : ℕ) (n : Node)
      → lookup k b.orders ≡ some n
      → at s p n.side n.price ≡ false
      → lookup k b'.orders ≡ some n
  pub known :
      (k : ℕ) (n : Node)
      → lookup k b'.orders ≡ some n
      → ((s ≡ n.side) × (p ≡ n.price) × (has k hs ≡ true))
        ⊎ ((lookup k b.orders ≡ some n) × (at s p n.side n.price ≡ false))

module _ (b b' : InstrumentBook) (q q' : Queues) (s : Side) (p : ℤ) (hs : List ℕ) (hp : IsI64 p)
    (v : IsValid b q) (c : Change b s p hs b') (here : q' s p ≡ hs)
    (elsewhere : (s' : Side) (p' : ℤ) → at s p s' p' ≡ false → q' s' p' ≡ q s' p') where
  same_level :
      (s' : Side) (p' : ℤ)
      → IsI64 p'
      → at s p s' p' ≡ false
      → get_level (ladder s' b') p' ≡ get_level (ladder s' b) p'
  same_level s' p' hp' off = elim (Side-cases s s') [
    | inr ne ↦ ap (λ l. get_level l p') (c.other_side s' ne)
    | inl e ↦
        subst (λ t. get_level (ladder t b') p' ≡ get_level (ladder t b) p') e
          (c.elsewhere p' hp' (λ pe. ground (arith, at_refl s p, e, pe)))
  ]

  -- The book is valid for the queues after the change.
  pub Change-IsValid : IsValid b' q'
  Change-IsValid = record {
    ladders = λ s'. elim (Side-cases s s') [
      | inl e ↦ subst (λ t. LadderOk (ladder t b')) e c.ladder_ok
      | inr ne ↦ subst LadderOk (sym (c.other_side s' ne)) (v.ladders s')
    ];
    levels = λ s' p' hp'. elim (Bool-cases (at s p s' p')) [
      | inl on ↦
          let (es, ep) = at_eq s p s' p' on in
          subst (λ t. LevelIs b'.orders t p' (get_level (ladder t b') p') (q' t p')) es
            (subst (λ r. LevelIs b'.orders s r (get_level (ladder s b') r) (q' s r)) ep
              (subst (LevelIs b'.orders s p (get_level (ladder s b') p)) (sym here) c.here))
      | inr off ↦
          subst (LevelIs b'.orders s' p' (get_level (ladder s' b') p')) (sym (elsewhere s' p' off))
            (subst (λ lv. LevelIs b'.orders s' p' lv (q s' p')) (sym (same_level s' p' hp' off))
              (LevelIs-frame b.orders b'.orders s' p' (get_level (ladder s' b) p') (q s' p')
                (λ k m. same_node s' p' hp' off k m) (v.levels s' p' hp')))
    ];
    nodes = λ k n there. elim (c.known k n there) [
      | inl (es, ep, m) ↦ (
        subst IsI64 ep hp,
        subst (λ t. has k (q' t n.price) ≡ true) es
            (subst (λ r. has k (q' s r) ≡ true) ep (ap (has k) here ∙ m)),
      )
      | inr (old, off) ↦
          let (range, m) = v.nodes k n old in (range, ap (has k) (elsewhere n.side n.price off) ∙ m)
    ];
  }
    where
      same_node :
          (s' : Side) (p' : ℤ)
          → IsI64 p'
          → at s p s' p' ≡ false
          → (k : ℕ) → has k (q s' p') ≡ true
          → lookup k b'.orders ≡ lookup k b.orders
      same_node s' p' hp' off k m =
          let (n, there, es, ep) =
            LevelIs-node b.orders s' p' (get_level (ladder s' b) p') k (q s' p')
              (v.levels s' p' hp') m in
          c.kept k n there (
            subst (λ t. at s p t n.price ≡ false) (sym es)
              (subst (λ r. at s p s' r ≡ false) (sym ep) off))
          ∙ sym there
