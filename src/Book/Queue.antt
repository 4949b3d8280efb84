-- ===== src/Book/Queue.antt =====
-- The doubly linked lists of src/orderbook.rs: the keys of a level in FIFO order, and the orders that
-- link them.
pub mod Links
pub mod Splits
pub mod Sums
pub mod Updates
use numi_orderbook.Base.{
  ℕ, zero, suc, ◌+◌, ◌-◌, ◌≡◌, ◌≢◌, refl, ap, sym, ◌∙◌, Bool, true, false, ◌||◌, Option, none, some,
  List, [], ◌∷◌, ◌++◌, arith, ◌==◌, if◌then◌else◌, length,
}
use numi_orderbook.Base.Int.{ℤ, pos, ◌+ℤ◌, wrap}
use numi_orderbook.Base.Dict.{lookup}
use numi_orderbook.Event.{Side}
use numi_orderbook.Book.Node.{Node, Level, Orders, to_nz, from_nz}

abbrev pub has : ℕ → List ℕ → Bool
has k [] = false
has k (h ∷ hs) = (h == k) || has k hs

abbrev pub Distinct : List ℕ → Type 0
Distinct [] = Unit {0}
Distinct (h ∷ hs) = (has h hs ≡ false) × Distinct hs

-- The link to the first key, and to the last; `next` and `prev` are the links beyond the ends.
abbrev pub first_link : Option ℕ → List ℕ → Option ℕ
first_link next [] = next
first_link next (h ∷ hs) = some (to_nz h)

abbrev pub last_link : Option ℕ → List ℕ → Option ℕ
last_link prev [] = prev
last_link prev (h ∷ hs) = last_link (some (to_nz h)) hs

abbrev pub points : Option ℕ → ℕ → Bool
points none k = false
points (some nz) k = from_nz nz == k

module _ (orders : Orders) (side : Side) (price : ℤ) where
  pub record Linked (prev next : Option ℕ) (h : ℕ) : Type 0 where
    pub node : Node
    pub there : lookup h orders ≡ some node
    pub on_side : node.side ≡ side
    pub at_price : node.price ≡ price
    pub prev_link : node.prev ≡ prev
    pub next_link : node.next ≡ next

  -- The keys link one another in this order, between the links `prev` and `next`.
  abbrev pub Chain : Option ℕ → Option ℕ → List ℕ → Type 0
  Chain prev next [] = Unit {0}
  Chain prev next (h ∷ hs) = Linked prev (first_link next hs) h × Chain (some (to_nz h)) next hs

-- What a node says of its order, apart from its links.
abbrev pub order_of : Option Node → Option (Side × ℤ × ℤ)
order_of none = none
order_of (some n) = some (n.side, n.price, n.qty)

-- The quantity of a key's order, and the sum of a queue.
abbrev pub qty_of : Option Node → ℤ
qty_of none = pos 0
qty_of (some n) = n.qty

abbrev pub qty_at : Orders → ℕ → ℤ
qty_at orders h = qty_of (lookup h orders)

unfoldable pub sum_qty : Orders → List ℕ → ℤ
sum_qty orders [] = pos 0
sum_qty orders (h ∷ hs) = qty_at orders h +ℤ sum_qty orders hs

-- A level stands for a queue: no level for the empty one, else the ends, the number of orders and
-- their total quantity (which wraps as an i64) are those of the queue.
pub record IsQueue (orders : Orders) (side : Side) (price : ℤ) (lvl : Level) (hs : List ℕ)
    : Type 0 where
  pub not_empty : hs ≢ []
  pub head : lvl.head ≡ first_link none hs
  pub tail : lvl.tail ≡ last_link none hs
  pub count : lvl.count ≡ length hs
  pub total : lvl.total_qty ≡ wrap (sum_qty orders hs)
  pub chain : Chain orders side price none none hs
  pub distinct : Distinct hs

abbrev pub LevelIs : Orders → Side → ℤ → Option Level → List ℕ → Type 0
LevelIs orders side price none hs = hs ≡ []
LevelIs orders side price (some lvl) hs = IsQueue orders side price lvl hs
