-- ===== src/Book/Queue/Links.antt =====
-- Chains of links under appending, and under the updates that `add` and `cancel` make to the orders.
use numi_orderbook.Base.{
  ℕ, ◌≡◌, refl, sym, ◌∙◌, Bool, true, false, Option, none, some, List, [], ◌∷◌, ◌++◌, arith, ◌==◌,
  if◌then◌else◌,
}
use numi_orderbook.Base.Int.{ℤ}
use numi_orderbook.Base.Dict.{lookup}
use numi_orderbook.Event.{Side}
use numi_orderbook.Book.Node.{Node, Orders, to_nz}
use numi_orderbook.Book.Queue.{
  has, Distinct, first_link, last_link, points, Linked, Chain, order_of,
}

-- What an update of one link does to the node of a key.
abbrev pub next_to : Bool → Option ℕ → Option Node → Option Node
next_to b v none = none
next_to true v (some n) = some (record n { next = v })
next_to false v (some n) = some n

abbrev pub prev_to : Bool → Option ℕ → Option Node → Option Node
prev_to b v none = none
prev_to true v (some n) = some (record n { prev = v })
prev_to false v (some n) = some n

pub order_of-next_to :
    (b : Bool) (v : Option ℕ) (m : Option Node) → order_of (next_to b v m) ≡ order_of m
order_of-next_to b v none = refl
order_of-next_to true v (some m) = refl
order_of-next_to false v (some m) = refl

pub order_of-prev_to :
    (b : Bool) (v : Option ℕ) (m : Option Node) → order_of (prev_to b v m) ≡ order_of m
order_of-prev_to b v none = refl
order_of-prev_to true v (some m) = refl
order_of-prev_to false v (some m) = refl

pub has-append : (k : ℕ) (xs ys : List ℕ) → has k (xs ++ ys) ≡ (if has k xs then true else has k ys)
has-append k [] ys = refl
has-append k (x ∷ xs) ys = ground (arith, has-append k xs ys)

pub points-to_nz : (h k : ℕ) → points (some (to_nz h)) k ≡ (h == k)
points-to_nz h k = ground arith

-- The last link leads to no key outside.
pub points-last_link :
    (prev : Option ℕ) (k : ℕ) (hs : List ℕ)
    → points prev k ≡ false
    → has k hs ≡ false
    → points (last_link prev hs) k ≡ false
points-last_link prev k [] p h = p
points-last_link prev k (x ∷ hs) p h =
    points-last_link (some (to_nz x)) k hs (ground arith) (ground arith)

pub points-first_link :
    (next : Option ℕ) (k : ℕ) (hs : List ℕ)
    → points next k ≡ false
    → has k hs ≡ false
    → points (first_link next hs) k ≡ false
points-first_link next k [] p h = p
points-first_link next k (x ∷ hs) p h = ground arith

pub last_link-append :
    (prev : Option ℕ) (xs ys : List ℕ)
    → last_link prev (xs ++ ys) ≡ last_link (last_link prev xs) ys
last_link-append prev [] ys = refl
last_link-append prev (x ∷ xs) ys = last_link-append (some (to_nz x)) xs ys

pub first_link-append :
    (next : Option ℕ) (xs ys : List ℕ)
    → first_link next (xs ++ ys) ≡ first_link (first_link next ys) xs
first_link-append next [] ys = refl
first_link-append next (x ∷ xs) ys = refl

module _ (o : Orders) (side : Side) (price : ℤ) where
  -- A node that is linked as before, in other orders and under an equal name of the next link.
  moved :
      (o' : Orders) (prev next next' : Option ℕ) (h : ℕ)
      → next ≡ next'
      → (l : Linked o side price prev next h) → lookup h o' ≡ some (l.node)
      → Linked o' side price prev next' h
  moved o' prev next next' h e l there = record {
    node = l.node;
    there = there;
    on_side = l.on_side;
    at_price = l.at_price;
    prev_link = l.prev_link;
    next_link = l.next_link ∙ e;
  }

  pub Chain-append :
      (prev next : Option ℕ) (xs ys : List ℕ)
      → Chain o side price prev (first_link next ys) xs
      → Chain o side price (last_link prev xs) next ys
      → Chain o side price prev next (xs ++ ys)
  Chain-append prev next [] ys c d = d
  Chain-append prev next (x ∷ xs) ys (l, c) d = (
    moved o prev _ _ x (sym (first_link-append next xs ys)) l l.there,
    Chain-append (some (to_nz x)) next xs ys c d,
  )

  pub Chain-split :
      (prev next : Option ℕ) (xs ys : List ℕ)
      → Chain o side price prev next (xs ++ ys)
      → Chain o side price prev (first_link next ys) xs
        × Chain o side price (last_link prev xs) next ys
  Chain-split prev next [] ys c = (tt, c)
  Chain-split prev next (x ∷ xs) ys (l, c) =
      let (d, e) = Chain-split (some (to_nz x)) next xs ys c in
      ((moved o prev _ _ x (first_link-append next xs ys) l l.there, d), e)

  -- The first link of a chain is given another target.
  pub Chain-prev_to :
      (o' : Orders) (prev prev' next : Option ℕ) (hs : List ℕ)
      → Distinct hs
      → Chain o side price prev next hs
      → ((k : ℕ)
          → has k hs ≡ true
          → lookup k o' ≡ prev_to (points (first_link none hs) k) prev' (lookup k o))
      → Chain o' side price prev' next hs
  Chain-prev_to o' prev prev' next [] d c h = tt
  Chain-prev_to o' prev prev' next (x ∷ hs) (out, d) (l, c) h = (
    record {
      node = record (l.node) { prev = prev' };
      there = ground (arith, h x, l.there);
      on_side = l.on_side;
      at_price = l.at_price;
      prev_link = refl;
      next_link = l.next_link;
    },
    keep (some (to_nz x)) hs c (λ k m. ground (arith, h k)),
  )
    where
      keep :
          (p : Option ℕ) (ks : List ℕ)
          → Chain o side price p next ks
          → ((k : ℕ) → has k ks ≡ true → lookup k o' ≡ lookup k o)
          → Chain o' side price p next ks
      keep p [] c same = tt
      keep p (k ∷ ks) (l', c') same = (
        moved o' p _ _ k refl l' (same k (ground arith) ∙ l'.there),
        keep (some (to_nz k)) ks c' (λ j m. same j (ground arith)),
      )

  -- A chain survives a change of the other orders, and of quantities.
  pub Chain-frame :
      (o' : Orders) (prev next : Option ℕ) (hs : List ℕ)
      → Chain o side price prev next hs
      → ((k : ℕ) → has k hs ≡ true → lookup k o' ≡ lookup k o)
      → Chain o' side price prev next hs
  Chain-frame o' prev next [] c same = tt
  Chain-frame o' prev next (x ∷ hs) (l, c) same = (
    moved o' prev _ _ x refl l (same x (ground arith) ∙ l.there),
    Chain-frame o' (some (to_nz x)) next hs c (λ k m. same k (ground arith)),
  )

  -- The last link of a chain is given another target.
  pub Chain-next_to :
      (o' : Orders) (prev next next' : Option ℕ) (hs : List ℕ)
      → Distinct hs
      → Chain o side price prev next hs
      → ((k : ℕ)
          → has k hs ≡ true
          → lookup k o' ≡ next_to (points (last_link none hs) k) next' (lookup k o))
      → Chain o' side price prev next' hs
  Chain-next_to o' prev next next' [] d c h = tt
  Chain-next_to o' prev next next' (x ∷ []) d (l, c) h = (
    record {
      node = record (l.node) { next = next' };
      there = ground (arith, h x, l.there);
      on_side = l.on_side;
      at_price = l.at_price;
      prev_link = l.prev_link;
      next_link = refl;
    },
    tt,
  )
  Chain-next_to o' prev next next' (x ∷ y ∷ hs) (out, d) (l, c) h = (
    moved o' prev _ _ x refl l (
        ground (
          arith,
          h x,
          l.there,
          points-last_link (some (to_nz y)) x hs (ground arith) (ground arith),
        )),
    Chain-next_to o' (some (to_nz x)) next next' (y ∷ hs) d c (λ k m. h k (ground arith)),
  )

  -- A chain survives a change that keeps sides, prices and links.
  pub Chain-keep :
      (o' : Orders) (prev next : Option ℕ) (hs : List ℕ)
      → Chain o side price prev next hs
      → ((k : ℕ) (n : Node)
          → lookup k o ≡ some n
          → (n' : Node) × (lookup k o' ≡ some n')
            × (n'.side ≡ n.side)
            × (n'.price ≡ n.price)
            × (n'.prev ≡ n.prev)
            × (n'.next ≡ n.next))
      → Chain o' side price prev next hs
  Chain-keep o' prev next [] c keep = tt
  Chain-keep o' prev next (x ∷ hs) (l, c) keep =
      let (n', there, es, ep, ev, en) = keep x l.node l.there in
      (
        record {
          node = n';
          there = there;
          on_side = es ∙ l.on_side;
          at_price = ep ∙ l.at_price;
          prev_link = ev ∙ l.prev_link;
          next_link = en ∙ l.next_link;
        },
        Chain-keep o' (some (to_nz x)) next hs c keep,
      )
