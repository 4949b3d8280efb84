-- ===== src/Book/Queue/Updates.antt =====
-- The link updates of src/orderbook.rs, key by key.
use mathlib.Core.Path.{subst}
use numi_orderbook.Base.{
  ℕ, ◌≡◌, ◌≢◌, refl, ap, sym, ◌∙◌, inl, inr, Bool, true, false, Option, none, some, List, [], ◌∷◌,
  arith, ◌==◌, ==_eq, Bool-cases, Option-cases,
}
use numi_orderbook.Base.Int.{ℤ}
use numi_orderbook.Base.Dict.{lookup, insert, lookup-insert}
use numi_orderbook.Event.{Side}
use numi_orderbook.Book.Node.{Node, Orders, to_nz, from_nz, set_next, set_prev}
use numi_orderbook.Book.Queue.{first_link, last_link, points, Chain}
use numi_orderbook.Book.Queue.Links.{next_to, prev_to}

-- A link is dead, or leads to a live key.
abbrev pub Live : Orders → Option ℕ → Type 0
Live o none = Unit {0}
Live o (some nz) = lookup (from_nz nz) o ≢ none

pub next_to-false : (v : Option ℕ) (n : Option Node) → next_to false v n ≡ n
next_to-false v none = refl
next_to-false v (some n) = refl

pub prev_to-false : (v : Option ℕ) (n : Option Node) → prev_to false v n ≡ n
prev_to-false v none = refl
prev_to-false v (some n) = refl

-- A live link is followed without a panic.
pub set_next-lookup :
    (link v : Option ℕ) (o : Orders)
    → Live o link
    → (o' : Orders) × (set_next link v o ≡ some o')
      × ((k : ℕ) → lookup k o' ≡ next_to (points link k) v (lookup k o))
unfolding set_next
set_next-lookup none v o live = (o, refl, λ k. sym (next_to-false v (lookup k o)))
set_next-lookup (some nz) v o live = elim (Option-cases (lookup (from_nz nz) o)) [
  | inl dead ↦ absurd (live dead)
  | inr (n, there) ↦
      let n' : Node = record n { next = v } in
      (
        insert (from_nz nz) n' o,
        ground arith,
        λ k. elim (Bool-cases (from_nz nz == k)) [
          | inl e ↦ ground (
            arith,
            lookup-insert (from_nz nz) k n' o,
            ap (λ j. lookup j o) (==_eq (from_nz nz) k e),
          )
          | inr e ↦ ground (arith, lookup-insert (from_nz nz) k n' o, next_to-false v (lookup k o))
        ],
      )
]

pub set_prev-lookup :
    (link v : Option ℕ) (o : Orders)
    → Live o link
    → (o' : Orders) × (set_prev link v o ≡ some o')
      × ((k : ℕ) → lookup k o' ≡ prev_to (points link k) v (lookup k o))
unfolding set_prev
set_prev-lookup none v o live = (o, refl, λ k. sym (prev_to-false v (lookup k o)))
set_prev-lookup (some nz) v o live = elim (Option-cases (lookup (from_nz nz) o)) [
  | inl dead ↦ absurd (live dead)
  | inr (n, there) ↦
      let n' : Node = record n { prev = v } in
      (
        insert (from_nz nz) n' o,
        ground arith,
        λ k. elim (Bool-cases (from_nz nz == k)) [
          | inl e ↦ ground (
            arith,
            lookup-insert (from_nz nz) k n' o,
            ap (λ j. lookup j o) (==_eq (from_nz nz) k e),
          )
          | inr e ↦ ground (arith, lookup-insert (from_nz nz) k n' o, prev_to-false v (lookup k o))
        ],
      )
]

Live-to_nz : (o : Orders) (h : ℕ) (n : Node) → lookup h o ≡ some n → Live o (some (to_nz h))
Live-to_nz o h n there =
    let e : h ≡ from_nz (to_nz h) = omega arith in
    λ dead. ground (arith, subst (λ j. lookup j o ≡ some n) e there)

module _ (o : Orders) (side : Side) (price : ℤ) where
  pub last_link-Live :
      (prev next : Option ℕ) (hs : List ℕ)
      → Live o prev
      → Chain o side price prev next hs
      → Live o (last_link prev hs)
  last_link-Live prev next [] live c = live
  last_link-Live prev next (x ∷ hs) live (l, c) =
      last_link-Live (some (to_nz x)) next hs (Live-to_nz o x l.node l.there) c

  pub first_link-Live :
      (prev next : Option ℕ) (hs : List ℕ)
      → Live o next
      → Chain o side price prev next hs
      → Live o (first_link next hs)
  first_link-Live prev next [] live c = live
  first_link-Live prev next (x ∷ hs) live (l, c) = Live-to_nz o x l.node l.there

-- Relinking a node elsewhere kills no link.
pub Live-next_to :
    (o o' : Orders) (b : ℕ → Bool) (v link : Option ℕ)
    → ((k : ℕ) → lookup k o' ≡ next_to (b k) v (lookup k o))
    → Live o link
    → Live o' link
Live-next_to o o' b v none same live = tt
Live-next_to o o' b v (some nz) same live = λ dead.
    live (none_of_next_to (b (from_nz nz)) (lookup (from_nz nz) o) (sym (same (from_nz nz)) ∙ dead))
  where
    none_of_next_to : (c : Bool) (n : Option Node) → next_to c v n ≡ none → n ≡ none
    none_of_next_to c none e = refl
    none_of_next_to true (some n) e = cc
    none_of_next_to false (some n) e = cc
