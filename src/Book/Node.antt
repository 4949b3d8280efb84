-- ===== src/Book/Node.antt =====
-- src/orderbook.rs: the nodes of the order slab, and the levels that link them.
use numi_orderbook.Base.{
  ℕ, zero, suc, ◌+◌, ◌-◌, Bool, Option, none, some, List, [], ◌∷◌, ◌==◌, ◌>>=◌,
}
use numi_orderbook.Base.Int.{ℤ, pos}
use numi_orderbook.Base.Dict.{lookup, insert}
use numi_orderbook.Event.{Side}

-- A slab key, and the non-zero number under which a link stores it.
abbrev pub to_nz : ℕ → ℕ
to_nz h = h + 1

abbrev pub from_nz : ℕ → ℕ
from_nz nz = nz - 1

pub record Node : Type 0 where
  pub price : ℤ
  pub qty : ℤ
  pub side : Side
  pub prev : Option ℕ
  pub next : Option ℕ

-- `Node::new`
abbrev pub new_node : ℤ → ℤ → Side → Node
new_node price qty side = record { price = price; qty = qty; side = side; prev = none; next = none }

pub record Level : Type 0 where
  pub head : Option ℕ
  pub tail : Option ℕ
  pub total_qty : ℤ
  pub count : ℕ

-- `Level::default()`
abbrev pub empty_level : Level
empty_level = record { head = none; tail = none; total_qty = pos 0; count = 0 }

abbrev pub is_empty : Level → Bool
is_empty l = l.count == 0

-- `slab::Slab<Node>`, as its occupied entries.
abbrev pub Orders : Type 0
Orders = List (ℕ × Node)

-- `self.orders[h]` and a write through it: `none` is the panic on a vacant key.
abbrev pub modify : ℕ → (Node → Node) → Orders → Option Orders
modify h f orders = do n ← lookup h orders; some (insert h (f n) orders)

-- `if let Some(t) = link { self.orders[from_nz(t)].next = v }`, and so for `prev`.
unfoldable pub set_next : Option ℕ → Option ℕ → Orders → Option Orders
set_next none v orders = some orders
set_next (some nz) v orders = modify (from_nz nz) (λ n. record n { next = v }) orders

unfoldable pub set_prev : Option ℕ → Option ℕ → Orders → Option Orders
set_prev none v orders = some orders
set_prev (some nz) v orders = modify (from_nz nz) (λ n. record n { prev = v }) orders

-- `LevelIter`: the keys from a link on. `none` is the panic on a vacant key, or no fuel left.
unfoldable pub iter_from : ℕ → Orders → Option ℕ → Option (List ℕ)
iter_from fuel orders none = some []
iter_from zero orders (some nz) = none
iter_from (suc fuel) orders (some nz) = do
  n ← lookup (from_nz nz) orders
  rest ← iter_from fuel orders n.next
  some (from_nz nz ∷ rest)

-- `Level::iter_fifo`, run to its end.
unfoldable pub iter_fifo : ℕ → Orders → Level → Option (List ℕ)
unfolding iter_from
iter_fifo fuel orders l = iter_from fuel orders l.head
