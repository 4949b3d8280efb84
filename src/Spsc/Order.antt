-- ===== src/Spsc/Order.antt =====
-- src/spsc.rs: a new queue, and every state that two threads can bring it to.
use Prim.Native.Nat.{max}
use native.Mathlib.Nat.{pow-suc, mul_assoc, mul_left_comm, mul-zero, mul-suc}
use numi_orderbook.Base.{
  ℕ, zero, suc, ◌+◌, ◌-◌, ◌*◌, ◌^◌, ◌≤◌, ◌≡◌, ◌≢◌, refl, ap, sym, ◌∙◌, inl, inr, Bool-cases, Option,
  none, some, [], leb, length, get_elem?, arith, length-replicate,
}
use numi_orderbook.Spsc.{System, Step, Reach, start_system, new_queue, capacity_of, power_from}
use numi_orderbook.Spsc.Fifo.{IsFifo}
use numi_orderbook.Spsc.Steps.{Step-IsFifo}

doubled : (p fuel : ℕ) → 2 * p * 2 ^ fuel ≡ p * 2 ^ suc fuel
doubled p fuel = omega (
  arith,
  mul_assoc 2 p (2 ^ fuel),
  mul_assoc p (2 ^ fuel) 2,
  ap (λ (n : ℕ). p * n) (pow-suc 2 fuel),
)

power_from-divides :
    (fuel p n : ℕ) → p * 2 ^ fuel ≡ 2 ^ 63 → (q : ℕ) × (power_from fuel p n * q ≡ 2 ^ 63)
unfolding power_from
power_from-divides zero p n h = (1, h)
power_from-divides (suc fuel) p n h = elim (Bool-cases (leb n p)) [
  | inl enough ↦ (2 ^ suc fuel, rw enough h)
  | inr more ↦ rw more (power_from-divides fuel (2 * p) n (doubled p fuel ∙ h))
]

power_from-le : (fuel p n : ℕ) → p * 2 ^ fuel ≡ 2 ^ 63 → n ≤ 2 ^ 63 → n ≤ power_from fuel p n
unfolding power_from
power_from-le zero p n h le = omega (arith, h)
power_from-le (suc fuel) p n h le = elim (Bool-cases (leb n p)) [
  | inl enough ↦ rw enough (ground arith)
  | inr more ↦ rw more (power_from-le fuel (2 * p) n (doubled p fuel ∙ h) le)
]

max_divides : (r q : ℕ) → r * q ≡ 2 ^ 63 → (k : ℕ) × (2 ^ 64 ≡ max r 2 * k)
max_divides r q h = elim (Bool-cases (leb 2 r)) [
  | inl big ↦
      let same : max r 2 ≡ r = ground arith in
      (2 * q, rw same (omega (arith, h, mul_left_comm r 2 q)))
  | inr small ↦ let same : max r 2 ≡ 2 = ground arith in (2 ^ 63, rw same refl)
]

max_small : (r q : ℕ) → r * q ≡ 2 ^ 63 → max r 2 ≤ 2 ^ 63
max_small r zero h = absurd (omega (arith, h, mul-zero r))
max_small r (suc q) h = omega (arith, h, mul-suc r q)

-- The capacity is at least what was asked for.
pub capacity-le : (capacity : ℕ) → capacity ≤ 2 ^ 63 → capacity ≤ capacity_of capacity
unfolding capacity_of
capacity-le capacity le = omega (arith, power_from-le 63 1 capacity refl le)

-- It is a power of two, at least 2, and no counter runs into the other one round later.
capacity_of_lem :
    (capacity : ℕ)
    → ((k : ℕ) × (2 ^ 64 ≡ capacity_of capacity * k))
      × (2 ≤ capacity_of capacity)
      × (capacity_of capacity ≤ 2 ^ 63)
unfolding capacity_of
capacity_of_lem capacity =
    let (q, e) = power_from-divides 63 1 capacity refl in
    (
      max_divides (power_from 63 1 capacity) q e,
      omega arith,
      max_small (power_from 63 1 capacity) q e,
    )

no_slot : {A : Type 0} (i : ℕ) (a : A) → get_elem? {A = A} [] i ≢ some a
no_slot zero a h = cc h
no_slot (suc i) a h = cc h

new_mask :
    (A : Type 0) (capacity : ℕ) → (start_system A capacity).queue.mask ≡ capacity_of capacity - 1
unfolding new_queue
new_mask A capacity = refl

start_system-IsFifo : (A : Type 0) (capacity : ℕ) → IsFifo (start_system A capacity)
unfolding new_queue
start_system-IsFifo A capacity =
    let ((k, e), two, top) = capacity_of_lem capacity in
    let back : capacity_of capacity - 1 + 1 ≡ capacity_of capacity = omega arith in
    record {
      counts = record {
        head_is = refl;
        tail_is = refl;
        behind = omega arith;
        bounded = omega arith;
        mask_small = omega arith;
      };
      divides = (k, rw back e);
      full_buf = length-replicate (capacity_of capacity) none ∙ sym back;
      entries = λ i a le h. absurd (no_slot i a h);
      producer_has = tt;
      consumer_has = tt;
      in_order = λ i o h. absurd (no_slot i o h);
    }

mask_kept : {A : Type 0} {s u : System A} → Step s u → u.queue.mask ≡ s.queue.mask
mask_kept (Step.begin_push v u at room e) = ap (λ x. x.queue.mask) e
mask_kept (Step.write v u at e) = ap (λ x. x.queue.mask) e
mask_kept (Step.publish v u at e) = ap (λ x. x.queue.mask) e
mask_kept (Step.begin_pop u at apart e) = ap (λ x. x.queue.mask) e
mask_kept (Step.take_slot o u at q e) = ap (λ x. x.queue.mask) e
mask_kept (Step.release o u at e) = ap (λ x. x.queue.mask) e

Reach-IsFifo :
    {A : Type 0} {s u : System A} → Reach s u → IsFifo s → IsFifo u × (u.queue.mask ≡ s.queue.mask)
Reach-IsFifo Reach.here f = (f, refl)
Reach-IsFifo (Reach.next r st) f =
    let (g, e) = Reach-IsFifo r f in (Step-IsFifo st g, mask_kept st ∙ e)

-- From a new queue, whatever way the accesses of the two threads interleave: the i-th value that
-- was popped is the i-th value that was pushed, and was written before it was read; no more is
-- popped than pushed; and no more than the capacity is in the queue.
pub reach_in_order :
    (A : Type 0) (capacity : ℕ) (s : System A)
    → Reach (start_system A capacity) s
    → ((i : ℕ) (o : Option A)
        → get_elem? s.popped i ≡ some o
        → (a : A) × (o ≡ some a) × (get_elem? s.pushed i ≡ some a))
      × (length s.popped ≤ length s.pushed)
      × (length s.pushed ≤ length s.popped + capacity_of capacity)
reach_in_order A capacity s r =
    let (f, e) = Reach-IsFifo r (start_system-IsFifo A capacity) in
    (
      f.in_order,
      f.counts.behind,
      omega (arith, f.counts.bounded, e, new_mask A capacity, (capacity_of_lem capacity).1),
    )
