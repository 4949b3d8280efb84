-- ===== src/Book/Instrument/Enqueue.antt =====
-- What `add` of src/orderbook.rs does to the orders and the level of one queue.
use mathlib.Core.Path.{subst}
use numi_orderbook.Base.{
  ℕ, ◌+◌, ◌<◌, ◌^◌, ◌≡◌, refl, ap, sym, ◌∙◌, inl, inr, Bool, true, false, Option, none, some, List,
  [], ◌∷◌, ◌++◌, arith, ◌==◌, Bool-cases, if◌then◌else◌, length, length-append,
}
use numi_orderbook.Base.Int.{ℤ, ◌+ℤ◌, wrap, add_i64}
use numi_orderbook.Base.Dict.{
  lookup, insert, lookup-insert, lookup-insert_self, lookup-insert_other,
}
use numi_orderbook.Event.{Side}
use numi_orderbook.Book.Node.{
  Node, new_node, Level, empty_level, Orders, modify, set_next, to_nz, from_nz,
}
use numi_orderbook.Book.Levels.Ensure.{or_default}
use numi_orderbook.Book.Queue.{
  has, Distinct, first_link, last_link, points, Chain, qty_of, qty_at, sum_qty, IsQueue, LevelIs,
}
use numi_orderbook.Book.Queue.{order_of}
use numi_orderbook.Book.Queue.Links.{order_of-next_to}
use numi_orderbook.Book.Queue.Links.{next_to, Chain-append, Chain-next_to, last_link-append}
use numi_orderbook.Book.Queue.Splits.{append-Distinct, has-ne}
use numi_orderbook.Book.Queue.Sums.{sum_qty_push, sum_qty-frame, add_i64-wrap}
use numi_orderbook.Book.Queue.Updates.{Live, set_next-lookup}
use numi_orderbook.Book.Instrument.{push_back}
use numi_orderbook.Book.Instrument.Unlink.{last_link-some, qty_of-next_to}

-- The node of `fresh` is linked behind the link `prev`, which leads to it in turn.
pub record Enqueued (o : Orders) (fresh : ℕ) (node : Node) (prev : Option ℕ) (o' : Orders)
    : Type 0 where
  pub at :
      (k : ℕ)
      → lookup k o' ≡ (
          if fresh == k
          then some node
          else next_to (points prev k) (some (to_nz fresh)) (lookup k o))

-- The other orders are as before.
pub order_of-Enqueued :
    (o : Orders) (fresh : ℕ) (node : Node) (prev : Option ℕ) (o' : Orders)
    → Enqueued o fresh node prev o'
    → (k : ℕ)
    → order_of (lookup k o')
      ≡ (if fresh == k then some (node.side, node.price, node.qty) else order_of (lookup k o))
order_of-Enqueued o fresh node prev o' u k = elim (Bool-cases (fresh == k)) [
  | inl e ↦ ground (arith, u.at k)
  | inr e ↦ rw (u.at k, e) (order_of-next_to (points prev k) (some (to_nz fresh)) (lookup k o))
]

abbrev pub linked_node : ℤ → ℤ → Side → Option ℕ → Node
linked_node price qty side prev = record (new_node price qty side) { prev = prev; next = none }

Live-insert :
    (o : Orders) (fresh : ℕ) (n : Node) (link : Option ℕ)
    → Live o link
    → Live (insert fresh n o) link
Live-insert o fresh n none live = tt
Live-insert o fresh n (some nz) live = λ dead. elim (Bool-cases (fresh == from_nz nz)) [
  | inl e ↦ ground (arith, lookup-insert fresh (from_nz nz) n o)
  | inr e ↦ live (ground (arith, lookup-insert fresh (from_nz nz) n o))
]

next_to-some :
    (b : Bool) (v : Option ℕ) (n : Node)
    → (n' : Node) × (next_to b v (some n) ≡ some n')
      × (record n { next = none } ≡ record n' { next = none })
next_to-some true v n = (record n { next = v }, refl, refl)
next_to-some false v n = (n, refl, refl)

pub enqueue_orders :
    (o : Orders) (fresh : ℕ) (price qty : ℤ) (side : Side) (prev : Option ℕ)
    → Live o prev
    → (o₁ o₂ : Orders) × (set_next prev
          (some (to_nz fresh))
          (insert fresh (new_node price qty side) o)
        ≡ some o₁)
      × (modify fresh (λ n. record n { prev = prev; next = none }) o₁ ≡ some o₂)
      × Enqueued o fresh (linked_node price qty side prev) prev o₂
enqueue_orders o fresh price qty side prev live =
    let nn = new_node price qty side in
    let v = some (to_nz fresh) in
    let o₀ = insert fresh nn o in
    let (o₁, e₁, at₁) = set_next-lookup prev v o₀ (Live-insert o fresh nn prev live) in
    let (n', e', same) = next_to-some (points prev fresh) v nn in
    let there : lookup fresh o₁ ≡ some n' =
      at₁ fresh ∙ ap (next_to (points prev fresh) v) (lookup-insert_self fresh nn o) ∙ e' in
    let n₂ : Node = record n' { prev = prev; next = none } in
    (
      o₁,
      insert fresh n₂ o₁,
      e₁,
      ground (arith, there),
      record {
        at = λ k. elim (Bool-cases (fresh == k)) [
          | inl e ↦
              lookup-insert fresh k n₂ o₁
              ∙ rw e (ap (λ (x : Node). some (record x { prev = prev })) (sym same))
          | inr e ↦
              lookup-insert fresh k n₂ o₁
              ∙ rw e (at₁ k ∙ ap (next_to (points prev k) v) (lookup-insert_other fresh k nn o e))
        ];
      },
    )

-- A level that may be new: as `IsQueue`, but the queue may be empty.
pub record OpenQueue (o : Orders) (s : Side) (p : ℤ) (lvl : Level) (hs : List ℕ) : Type 0 where
  head : lvl.head ≡ first_link none hs
  pub tail : lvl.tail ≡ last_link none hs
  count : lvl.count ≡ length hs
  total : lvl.total_qty ≡ wrap (sum_qty o hs)
  pub chain : Chain o s p none none hs
  distinct : Distinct hs

pub open_queue :
    (o : Orders) (s : Side) (p : ℤ) (lv : Option Level) (hs : List ℕ)
    → LevelIs o s p lv hs
    → OpenQueue o s p (or_default lv) hs
unfolding sum_qty wrap
open_queue o s p none hs e =
    subst (OpenQueue o s p empty_level) (sym e)
      (record { head = refl; tail = refl; count = refl; total = refl; chain = tt; distinct = tt })
open_queue o s p (some lvl) hs v = record {
  head = v.head;
  tail = v.tail;
  count = v.count;
  total = v.total;
  chain = v.chain;
  distinct = v.distinct;
}

module _ (o o' : Orders) (s : Side) (p qty : ℤ) (fresh : ℕ) (hs : List ℕ)
    (out : has fresh hs ≡ false)
    (u : Enqueued o fresh (linked_node p qty s (last_link none hs)) (last_link none hs) o') where
  abbrev node : Node
  node = linked_node p qty s (last_link none hs)

  at_fresh : lookup fresh o' ≡ some node
  at_fresh = ground (arith, u.at fresh)

  at_queued :
      (k : ℕ)
      → has k hs ≡ true
      → lookup k o' ≡ next_to (points (last_link none hs) k) (some (to_nz fresh)) (lookup k o)
  at_queued k m = u.at k ∙ rw (has-ne fresh k hs out m) refl

  Chain-enqueued :
      Distinct hs → Chain o s p none none hs → Chain o' s p none none (hs ++ (fresh ∷ []))
  Chain-enqueued d c =
      Chain-append o' s p none none hs (fresh ∷ [])
        (Chain-next_to o s p o' none none (some (to_nz fresh)) hs d c at_queued)
        (
          record {
            node = node;
            there = at_fresh;
            on_side = refl;
            at_price = refl;
            prev_link = refl;
            next_link = refl;
          },
          tt,
        )

  sum_qty-enqueued : sum_qty o' (hs ++ (fresh ∷ [])) ≡ sum_qty o hs +ℤ qty
  sum_qty-enqueued =
      let same = sum_qty-frame o o' hs (λ k m.
        ap qty_of (at_queued k m)
        ∙ qty_of-next_to (points (last_link none hs) k) (some (to_nz fresh)) (lookup k o)) in
      let own : qty_at o' fresh ≡ qty = ap qty_of at_fresh in
      rw (sum_qty_push o' hs fresh, same, own) refl

  new_head :
      (l : Level)
      → l.head ≡ first_link none hs
      → elim (last_link none hs) [ none ↦ some (to_nz fresh) | some _ ↦ l.head ]
        ≡ first_link none (hs ++ (fresh ∷ []))
  new_head l e = front hs e
    where
      front :
          (ks : List ℕ)
          → l.head ≡ first_link none ks
          → elim (last_link none ks) [ none ↦ some (to_nz fresh) | some _ ↦ l.head ]
            ≡ first_link none (ks ++ (fresh ∷ []))
      front [] e = refl
      front (x ∷ ks) e = let (z, f) = last_link-some (to_nz x) ks in rw f e

  -- The level stands for the queue with the key behind it.
  pub IsQueue-enqueue :
      (lvl : Level)
      → OpenQueue o s p lvl hs
      → length hs + 1 < 2 ^ 64
      → IsQueue o' s p (push_back fresh qty (last_link none hs) lvl) (hs ++ (fresh ∷ []))
  unfolding push_back
  IsQueue-enqueue lvl v small = record {
    not_empty = λ e. ground (arith, ap length e, length-append hs (fresh ∷ []));
    head = new_head lvl v.head;
    tail = sym (last_link-append none hs (fresh ∷ []));
    count = ground (arith, v.count, length-append hs (fresh ∷ []));
    total =
        ap (λ t. add_i64 t qty) v.total
        ∙ add_i64-wrap (sum_qty o hs) qty
        ∙ ap wrap (sym sum_qty-enqueued);
    chain = Chain-enqueued v.distinct v.chain;
    distinct =
        append-Distinct hs (fresh ∷ []) v.distinct (refl, tt)
          (λ k m. ground (arith, has-ne fresh k hs out m));
  }
