-- ===== src/Book/Instrument/Leave.antt =====
-- What `cancel` of src/orderbook.rs does to the level and the nodes of one queue.
use mathlib.Core.Path.{subst}
use numi_orderbook.Base.{
  ℕ, ◌≡◌, ◌≢◌, refl, ap, sym, ◌∙◌, ◌⊎◌, inl, inr, Bool, true, false, Option, none, some, List, [],
  ◌∷◌, ◌++◌, arith, ◌==◌, Bool-cases, if◌then◌else◌, length,
}
use numi_orderbook.Base.Int.{ℤ, IsI64}
use numi_orderbook.Base.Dict.{lookup}
use numi_orderbook.Event.{Side}
use numi_orderbook.Book.Node.{Node, Level, Orders, is_empty}
use numi_orderbook.Book.Levels.{Ladder, Place, get_level, remove_level_if_empty}
use numi_orderbook.Book.Levels.Store.{LadderOk, SameElsewhere, Written}
use numi_orderbook.Book.Levels.Removal.{remove_level-Removed}
use numi_orderbook.Book.Queue.{has, first_link, last_link, points, Chain, IsQueue, LevelIs}
use numi_orderbook.Book.Queue.Links.{
  next_to, has-append, Chain-split, points-first_link, points-last_link,
}
use numi_orderbook.Book.Queue.Updates.{next_to-false, prev_to-false}
use numi_orderbook.Book.Instrument.{InstrumentBook}
use numi_orderbook.Book.Instrument.Valid.{Queues, IsValid, at, at_refl, LevelIs-node}
use numi_orderbook.Book.Instrument.Rebuild.{locate, ne_of_off}
use numi_orderbook.Book.Instrument.Unlink.{Unlinked, relinked}

clash : {c : Bool} → c ≡ false → c ≡ true → ⊥
clash e f = cc

-- A node off a level is in none of the level's links.
pub off_queue :
    (o : Orders) (s : Side) (p : ℤ) (lv : Option Level) (hs : List ℕ) (k : ℕ) (m : Node)
    → LevelIs o s p lv hs
    → lookup k o ≡ some m
    → at s p m.side m.price ≡ false
    → has k hs ≡ false
off_queue o s p lv hs k m is there off = elim (Bool-cases (has k hs)) [
  | inr out ↦ out
  | inl in_ ↦
      let (n, e, es, ep) = LevelIs-node o s p lv k hs is in_ in
      let nm : n ≡ m = ground (arith) in
      absurd (
        clash (subst (λ (x : Node). at s p x.side x.price ≡ false) (sym nm) off) (
          subst (λ t. at s p t n.price ≡ true) (sym es)
            (subst (λ r. at s p s r ≡ true) (sym ep) (at_refl s p))))
]

has_dropped :
    (k h : ℕ) (xs ys : List ℕ)
    → (h == k) ≡ false
    → has k (xs ++ (h ∷ ys)) ≡ true
    → has k (xs ++ ys) ≡ true
has_dropped k h xs ys ne m = ground (arith, has-append k xs (h ∷ ys), has-append k xs ys)

has_not_dropped :
    (k h : ℕ) (xs ys : List ℕ)
    → has k (xs ++ (h ∷ ys)) ≡ false
    → (has k xs ≡ false) × (has k ys ≡ false)
has_not_dropped k h xs ys m = ground (arith, has-append k xs (h ∷ ys))

-- The links of a key in the middle of a queue.
pub middle_links :
    (o : Orders) (s : Side) (p : ℤ) (h : ℕ) (n : Node) (xs ys : List ℕ)
    → lookup h o ≡ some n
    → Chain o s p none none (xs ++ (h ∷ ys))
    → (n.prev ≡ last_link none xs) × (n.next ≡ first_link none ys)
middle_links o s p h n xs ys there c =
    let (cx, (l, cy)) = Chain-split o s p none none xs (h ∷ ys) c in
    let same : l.node ≡ n = ground (arith, l.there) in
    (
      ap (λ (x : Node). x.prev) (sym same) ∙ l.prev_link,
      ap (λ (x : Node). x.next) (sym same) ∙ l.next_link,
    )

-- The level's place, after the unlinked level is written and, if it is empty, removed.
pub record Levelled (o' : Orders) (s : Side) (p : ℤ) (l l' : Ladder) (hs : List ℕ) : Type 0 where
  pub ladder_ok : LadderOk l'
  pub elsewhere : SameElsewhere l p l'
  pub here : LevelIs o' s p (get_level l' p) hs

nil_of_length : (hs : List ℕ) → length hs ≡ 0 → hs ≡ []
nil_of_length [] e = refl
nil_of_length (x ∷ hs) e = absurd (omega arith)

unfoldable pub dropped : Bool → ℤ → Ladder → Ladder
dropped empty p w = if empty then (remove_level_if_empty w p).0 else w

pub levelled :
    (o' : Orders) (s : Side) (p : ℤ) (l w : Ladder) (place : Place) (lvl : Level) (hs : List ℕ)
    → IsI64 p
    → Written l p lvl place w
    → lvl.count ≡ length hs
    → (hs ≢ [] → IsQueue o' s p lvl hs)
    → Levelled o' s p l (dropped (is_empty lvl) p w) hs
unfolding dropped
levelled o' s p l w place lvl hs range written count queue = elim (Bool-cases (is_empty lvl)) [
  | inl e ↦
      let gone = remove_level-Removed w p lvl written.ladder_ok range written.here e in
      rw e (record {
        ladder_ok = gone.ladder_ok;
        elsewhere = λ r hr ne. gone.elsewhere r hr ne ∙ written.elsewhere r hr ne;
        here =
            subst (λ lv. LevelIs o' s p lv hs) (sym gone.gone)
              (nil_of_length hs (ground (arith, count)));
      })
  | inr e ↦ rw e (record {
    ladder_ok = written.ladder_ok;
    elsewhere = written.elsewhere;
    here =
        subst (λ lv. LevelIs o' s p lv hs) (sym written.here)
          (queue (λ nil. ground (arith, count, ap length nil)));
  })
]

-- The nodes of the slab before and after.
module _ (b : InstrumentBook) (q : Queues) (h : ℕ) (n : Node) (xs ys : List ℕ) (o' : Orders)
    (lvl : Level) (v : IsValid b q) (there : lookup h b.orders ≡ some n)
    (queue : q n.side n.price ≡ xs ++ (h ∷ ys))
    (is : LevelIs b.orders n.side n.price (some lvl) (xs ++ (h ∷ ys)))
    (u : Unlinked b.orders h (last_link none xs) (first_link none ys) o') where
  off_links :
      (k : ℕ) (m : Node)
      → lookup k b.orders ≡ some m
      → at n.side n.price m.side m.price ≡ false
      → (points (first_link none ys) k ≡ false) × (points (last_link none xs) k ≡ false)
  off_links k m e off =
      let (out_x, out_y) =
        has_not_dropped k h xs ys
          (off_queue b.orders n.side n.price (some lvl) (xs ++ (h ∷ ys)) k m is e off) in
      (points-first_link none k ys refl out_y, points-last_link none k xs refl out_x)

  pub kept_cancelled :
      (k : ℕ) (m : Node)
      → lookup k b.orders ≡ some m
      → at n.side n.price m.side m.price ≡ false
      → lookup k o' ≡ some m
  kept_cancelled k m e off =
      let (at_next, at_prev) = off_links k m e off in
      u.at k
      ∙ rw (ne_of_off b.orders h k n m there e off, at_next, at_prev)
          (prev_to-false (last_link none xs)
              (next_to false (first_link none ys) (lookup k b.orders))
            ∙ next_to-false (first_link none ys) (lookup k b.orders)
            ∙ e)

  pub known_cancelled :
      (k : ℕ) (m : Node)
      → lookup k o' ≡ some m
      → ((n.side ≡ m.side) × (n.price ≡ m.price) × (has k (xs ++ ys) ≡ true))
        ⊎ ((lookup k b.orders ≡ some m) × (at n.side n.price m.side m.price ≡ false))
  known_cancelled k m e = elim (Bool-cases (h == k)) [
    | inl same ↦ absurd (ground (arith, u.at k))
    | inr ne ↦
        let (m₀, old, es, ep, equal) =
          relinked (points (first_link none ys) k) (points (last_link none xs) k)
            (last_link none xs) (first_link none ys) (lookup k b.orders) m
            (ground (arith, u.at k)) in
        elim (locate b q n.side n.price k m₀ v old) [
          | inl (fs, fp, m_in) ↦
              inl (fs ∙ es, fp ∙ ep, has_dropped k h xs ys ne (ap (has k) (sym queue) ∙ m_in))
          | inr (_, off) ↦
              let (at_next, at_prev) = off_links k m₀ old off in
              let mm = equal at_next at_prev in
              inr (
                old ∙ ap some mm,
                subst (λ (x : Node). at n.side n.price x.side x.price ≡ false) mm off,
              )
        ]
  ]
