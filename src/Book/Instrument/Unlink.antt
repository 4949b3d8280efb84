-- ===== src/Book/Instrument/Unlink.antt =====
-- The orders and the level of src/orderbook.rs after `cancel` has unlinked a node.
use numi_orderbook.Base.{
  ℕ, ◌≡◌, ◌≢◌, refl, ap, sym, ◌∙◌, inl, inr, Bool, true, false, Option, none, some, List, [], ◌∷◌,
  ◌++◌, arith, ◌==◌, if◌then◌else◌, Bool-cases, length,
}
use numi_orderbook.Base.Int.{ℤ, ◌-ℤ◌, wrap, sub_i64, int_laws}
use numi_orderbook.Base.Dict
use numi_orderbook.Base.Dict.{lookup, lookup-erase}
use numi_orderbook.Event.{Side}
use numi_orderbook.Book.Node.{Node, Level, Orders, to_nz, set_next, set_prev}
use numi_orderbook.Book.Queue.{
  has, first_link, last_link, points, Chain, qty_of, qty_at, sum_qty, IsQueue,
}
use numi_orderbook.Book.Queue.{order_of}
use numi_orderbook.Book.Queue.Links.{order_of-next_to, order_of-prev_to}
use numi_orderbook.Book.Queue.Links.{
  next_to, prev_to, Chain-append, Chain-split, Chain-next_to, Chain-prev_to, points-first_link,
  points-last_link, last_link-append,
}
use numi_orderbook.Book.Queue.Splits.{Around, has-ne, length_middle}
use numi_orderbook.Book.Queue.Sums.{sum_qty_middle, sum_qty-append, sum_qty-frame, sub_i64-wrap}
use numi_orderbook.Book.Queue.Updates.{
  Live, set_next-lookup, set_prev-lookup, next_to-false, prev_to-false, Live-next_to,
}
use numi_orderbook.Book.Instrument.{unlink}

-- The orders after the node of `h`, between the links `prev` and `next`, is unlinked and removed.
pub record Unlinked (o : Orders) (h : ℕ) (prev next : Option ℕ) (o' : Orders) : Type 0 where
  pub at :
      (k : ℕ)
      → lookup k o' ≡ (
          if h == k
          then none
          else prev_to (points next k) prev (next_to (points prev k) next (lookup k o)))

-- The other orders are as before.
pub order_of-Unlinked :
    (o : Orders) (h : ℕ) (prev next : Option ℕ) (o' : Orders)
    → Unlinked o h prev next o'
    → (k : ℕ) → order_of (lookup k o') ≡ (if h == k then none else order_of (lookup k o))
order_of-Unlinked o h prev next o' u k = elim (Bool-cases (h == k)) [
  | inl e ↦ ground (arith, u.at k)
  | inr e ↦
      rw (u.at k, e)
        (order_of-prev_to (points next k) prev (next_to (points prev k) next (lookup k o))
          ∙ order_of-next_to (points prev k) next (lookup k o))
]

pub unlink_orders :
    (o : Orders) (h : ℕ) (prev next : Option ℕ)
    → Live o prev
    → Live o next
    → (o₁ o₂ : Orders) × (set_next prev next o ≡ some o₁)
      × (set_prev next prev o₁ ≡ some o₂)
      × Unlinked o h prev next (Dict.erase h o₂)
unlink_orders o h prev next live_prev live_next =
    let (o₁, e₁, at₁) = set_next-lookup prev next o live_prev in
    let (o₂, e₂, at₂) =
      set_prev-lookup next prev o₁ (Live-next_to o o₁ (points prev) next next at₁ live_next) in
    (
      o₁,
      o₂,
      e₁,
      e₂,
      record {
        at = λ k.
            lookup-erase h k o₂
            ∙ ap (λ m. if h == k then none else m)
                (at₂ k ∙ ap (prev_to (points next k) prev) (at₁ k));
      },
    )

pub qty_of-next_to : (b : Bool) (v : Option ℕ) (m : Option Node) → qty_of (next_to b v m) ≡ qty_of m
qty_of-next_to b v none = refl
qty_of-next_to true v (some m) = refl
qty_of-next_to false v (some m) = refl

qty_of-prev_to : (b : Bool) (v : Option ℕ) (m : Option Node) → qty_of (prev_to b v m) ≡ qty_of m
qty_of-prev_to b v none = refl
qty_of-prev_to true v (some m) = refl
qty_of-prev_to false v (some m) = refl

-- A node that is relinked keeps its side and price; one that no link leads to keeps all.
pub relinked :
    (a b : Bool) (v w : Option ℕ) (old : Option Node) (m : Node)
    → prev_to a v (next_to b w old) ≡ some m
    → (m₀ : Node) × (old ≡ some m₀)
      × (m₀.side ≡ m.side)
      × (m₀.price ≡ m.price)
      × (a ≡ false → b ≡ false → m₀ ≡ m)
relinked a b v w none m e = cc
relinked true true v w (some m₀) m e = (m₀, refl, ground arith, ground arith, λ f g. cc)
relinked true false v w (some m₀) m e = (m₀, refl, ground arith, ground arith, λ f g. cc)
relinked false true v w (some m₀) m e = (m₀, refl, ground arith, ground arith, λ f g. cc)
relinked false false v w (some m₀) m e = (m₀, refl, ground arith, ground arith, λ f g. cc)

pub last_link-some : (z : ℕ) (hs : List ℕ) → (z' : ℕ) × (last_link (some z) hs ≡ some z')
last_link-some z [] = (z, refl)
last_link-some z (h ∷ hs) = last_link-some (to_nz h) hs

module _ (o o' : Orders) (side : Side) (price : ℤ) (h : ℕ) (n : Node) (xs ys : List ℕ)
    (there : lookup h o ≡ some n) (around : Around h xs ys)
    (u : Unlinked o h (last_link none xs) (first_link none ys) o') where
  abbrev prev : Option ℕ
  prev = last_link none xs

  abbrev next : Option ℕ
  next = first_link none ys

  -- Before the key only the last link changes, behind it only the first.
  at_before : (k : ℕ) → has k xs ≡ true → lookup k o' ≡ next_to (points prev k) next (lookup k o)
  at_before k m =
      u.at k
      ∙ rw (has-ne h k xs around.not_before m, points-first_link none k ys refl (around.apart k m))
          (prev_to-false prev _)

  at_behind : (k : ℕ) → has k ys ≡ true → lookup k o' ≡ prev_to (points next k) prev (lookup k o)
  at_behind k m =
      u.at k
      ∙ rw (has-ne h k ys around.not_behind m, points-last_link none k xs refl (not_before k m))
          (ap (prev_to (points next k) prev) (next_to-false next (lookup k o)))
    where
      not_before : (k : ℕ) → has k ys ≡ true → has k xs ≡ false
      not_before k m = elim (Bool-cases (has k xs)) [
        | inl both ↦ absurd (ground (arith, around.apart k both, m))
        | inr e ↦ e
      ]

  Chain-unlink :
      Chain o side price none none (xs ++ (h ∷ ys)) → Chain o' side price none none (xs ++ ys)
  Chain-unlink c =
      let (cx, (l, cy)) = Chain-split o side price none none xs (h ∷ ys) c in
      Chain-append o' side price none none xs ys
        (Chain-next_to o side price o' none (some (to_nz h)) next xs around.before cx at_before)
        (Chain-prev_to o side price o' (some (to_nz h)) prev none ys around.behind cy at_behind)

  qty_at-unlinked : (k : ℕ) → (h == k) ≡ false → qty_at o' k ≡ qty_at o k
  qty_at-unlinked k ne =
      ap qty_of (u.at k)
      ∙ rw ne refl
      ∙ qty_of-prev_to (points next k) prev (next_to (points prev k) next (lookup k o))
      ∙ qty_of-next_to (points prev k) next (lookup k o)

  sum_qty-unlinked : sum_qty o' (xs ++ ys) ≡ sum_qty o (xs ++ (h ∷ ys)) -ℤ n.qty
  sum_qty-unlinked =
      let own : qty_at o h ≡ n.qty = ap qty_of there in
      let sx =
        sum_qty-frame o o' xs (λ k m. qty_at-unlinked k (has-ne h k xs around.not_before m)) in
      let sy =
        sum_qty-frame o o' ys (λ k m. qty_at-unlinked k (has-ne h k ys around.not_behind m)) in
      rw (sum_qty-append o' xs ys, sum_qty_middle o xs h ys, sx, sy, own) (omega int_laws)

  -- The unlinked level stands for the queue without the key.
  pub IsQueue-unlink :
      (lvl : Level)
      → IsQueue o side price lvl (xs ++ (h ∷ ys))
      → xs ++ ys ≢ []
      → IsQueue o' side price (unlink prev next n.qty lvl) (xs ++ ys)
  unfolding unlink
  IsQueue-unlink lvl v some_left = record {
    not_empty = some_left;
    head = new_head xs ys lvl v.head;
    tail = new_tail xs ys lvl v.tail;
    count = ground (arith, v.count, length_middle h xs ys);
    total =
        ap (λ t. sub_i64 t n.qty) v.total
        ∙ sub_i64-wrap (sum_qty o (xs ++ (h ∷ ys))) n.qty
        ∙ ap wrap (sym sum_qty-unlinked);
    chain = Chain-unlink v.chain;
    distinct = around.rest;
  }
    where
      new_head :
          (us vs : List ℕ) (l : Level)
          → l.head ≡ first_link none (us ++ (h ∷ vs))
          → elim (last_link none us) [ none ↦ first_link none vs | some _ ↦ l.head ]
            ≡ first_link none (us ++ vs)
      new_head [] vs l e = refl
      new_head (x ∷ us) vs l e = let (z, f) = last_link-some (to_nz x) us in rw f e

      new_tail :
          (us vs : List ℕ) (l : Level)
          → l.tail ≡ last_link none (us ++ (h ∷ vs))
          → elim (first_link none vs) [ none ↦ last_link none us | some _ ↦ l.tail ]
            ≡ last_link none (us ++ vs)
      new_tail us [] l e = sym (last_link-append none us [])
      new_tail us (y ∷ vs) l e =
          e ∙ last_link-append none us (h ∷ y ∷ vs) ∙ sym (last_link-append none us (y ∷ vs))

  -- The level is empty exactly where no key is left.
  pub unlink-is_empty :
      (lvl : Level)
      → IsQueue o side price lvl (xs ++ (h ∷ ys))
      → (unlink prev next n.qty lvl).count ≡ length (xs ++ ys)
  unfolding unlink
  unlink-is_empty lvl v = ground (arith, v.count, length_middle h xs ys)
