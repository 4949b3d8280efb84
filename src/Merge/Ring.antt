-- ===== src/Merge/Ring.antt =====
-- src/merge.rs: the slots of the reorder ring that are taken.
use numi_orderbook.Base.{
  ℕ, zero, suc, ◌+◌, ◌≤◌, ◌<◌, ◌≡◌, refl, ◌≢◌, none, some, List, [], ◌∷◌, arith, length, get_elem?,
  set, replicate,
}
use numi_orderbook.Pool.{Pkt}
use numi_orderbook.Wire.{ok}
use numi_orderbook.Reorder.{Slot, slot_at}

unfoldable pub occupied : List Slot → ℕ
occupied [] = 0
occupied (none ∷ r) = occupied r
occupied (some _ ∷ r) = suc (occupied r)

pub occupied-le : (r : List Slot) → occupied r ≤ length r
unfolding occupied
occupied-le [] = omega arith
occupied-le (none ∷ r) = omega (arith, occupied-le r)
occupied-le (some _ ∷ r) = omega (arith, occupied-le r)

pub occupied-empty : (n : ℕ) → occupied (replicate n none) ≡ 0
unfolding occupied
occupied-empty zero = refl
occupied-empty (suc n) = occupied-empty n

pub empty_slot :
    (n i e : ℕ) (p : Pkt) → get_elem? {A = Slot} (replicate n none) i ≢ some (some (e, p))
empty_slot zero i e p h = cc
empty_slot (suc n) zero e p h = cc
empty_slot (suc n) (suc i) e p h = empty_slot n i e p h

-- A slot that is emptied, and one that is filled.
pub occupied-set-none :
    (r : List Slot) (i : ℕ) (x : ℕ × Pkt)
    → get_elem? r i ≡ some (some x)
    → occupied (set r i none) + 1 ≡ occupied r
unfolding occupied
occupied-set-none [] i x h = cc
occupied-set-none (none ∷ r) zero x h = cc
occupied-set-none (some y ∷ r) zero x h = omega arith
occupied-set-none (none ∷ r) (suc i) x h = omega (arith, occupied-set-none r i x h)
occupied-set-none (some y ∷ r) (suc i) x h = omega (arith, occupied-set-none r i x h)

pub occupied-set-some :
    (r : List Slot) (i : ℕ) (x : ℕ × Pkt)
    → get_elem? r i ≡ some none
    → occupied (set r i (some x)) ≡ occupied r + 1
unfolding occupied
occupied-set-some [] i x h = cc
occupied-set-some (none ∷ r) zero x h = omega arith
occupied-set-some (some y ∷ r) zero x h = cc
occupied-set-some (none ∷ r) (suc i) x h = omega (arith, occupied-set-some r i x h)
occupied-set-some (some y ∷ r) (suc i) x h = omega (arith, occupied-set-some r i x h)

pub slot_in : (r : List Slot) (i : ℕ) → i < length r → (o : Slot) × (get_elem? r i ≡ some o)
slot_in [] i h = absurd (omega arith)
slot_in (o ∷ r) zero h = (o, refl)
slot_in (o ∷ r) (suc i) h = slot_in r i (omega arith)

pub slot_at-in : (r : List Slot) (i : ℕ) (o : Slot) → get_elem? r i ≡ some o → slot_at r i ≡ ok o
unfolding slot_at
slot_at-in r i o e = ground (arith, e)
