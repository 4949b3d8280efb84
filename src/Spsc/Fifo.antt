-- ===== src/Spsc/Fifo.antt =====
-- src/spsc.rs: whatever way the two threads interleave, values come out in the order they went in.
use native.Mathlib.Nat.{mul-add-mod_self_left, mod-add-div, mul_assoc}
use numi_orderbook.Base.{
  ℕ, zero, suc, ◌+◌, ◌-◌, ◌*◌, ◌/◌, ◌%◌, ◌^◌, ◌≤◌, ◌<◌, ◌≡◌, refl, ap, sym, ◌∙◌, ◌⊎◌, inl, inr,
  Option, some, List, [], ◌∷◌, ◌++◌, length, get_elem?, arith,
}
use numi_orderbook.Spsc.{SpscQueue, System, Producer, Consumer, len}

mod_mod_mul : (c q h : ℕ) → (h % (c * q)) % c ≡ h % c
mod_mod_mul c q h =
    sym (mul-add-mod_self_left c (q * (h / (c * q))) (h % (c * q)))
    ∙ ap (λ n. n % c) (omega (arith, mod-add-div h (c * q), mul_assoc c q (h / (c * q))))

-- The counters stand for the numbers of values pushed and popped.
pub record Counts (mask head tail h t : ℕ) : Type 0 where
  pub head_is : head ≡ h % 2 ^ 64
  pub tail_is : tail ≡ t % 2 ^ 64
  pub behind : t ≤ h
  pub bounded : h ≤ t + (mask + 1)
  pub mask_small : mask < 2 ^ 63

-- What the point of the producer promises, and that of the consumer.
abbrev pub ProducerHas : {A : Type 0} → Producer A → List (Option A) → (mask h t : ℕ) → Type 0
ProducerHas Producer.idle buf mask h t = Unit
ProducerHas (Producer.ready v) buf mask h t = h ≤ t + mask
ProducerHas (Producer.written v) buf mask h t =
    (h ≤ t + mask) × (get_elem? buf (h % (mask + 1)) ≡ some (some v))

abbrev pub ConsumerHas : {A : Type 0} → Consumer A → List A → (h t : ℕ) → Type 0
ConsumerHas Consumer.idle pushed h t = Unit
ConsumerHas Consumer.ready pushed h t = t < h
ConsumerHas {A} (Consumer.taken o) pushed h t =
    (t < h) × ((a : A) × (o ≡ some a) × (get_elem? pushed t ≡ some a))

pub record IsFifo {A : Type 0} (s : System A) : Type 0 where
  pub counts : Counts s.queue.mask s.queue.head s.queue.tail (length s.pushed) (length s.popped)
  pub divides : (q : ℕ) × (2 ^ 64 ≡ (s.queue.mask + 1) * q)
  pub full_buf : length s.queue.buf ≡ s.queue.mask + 1
  pub entries :
      (i : ℕ) (a : A)
      → length s.popped ≤ i
      → get_elem? s.pushed i ≡ some a
      → get_elem? s.queue.buf (i % (s.queue.mask + 1)) ≡ some (some a)
  pub producer_has :
      ProducerHas s.producer s.queue.buf s.queue.mask (length s.pushed) (length s.popped)
  pub consumer_has : ConsumerHas s.consumer s.pushed (length s.pushed) (length s.popped)
  pub in_order :
      (i : ℕ) (o : Option A)
      → get_elem? s.popped i ≡ some o
      → (a : A) × (o ≡ some a) × (get_elem? s.pushed i ≡ some a)

pub len_is :
    {A : Type 0} (q : SpscQueue A) (h t : ℕ) → Counts q.mask q.head q.tail h t → len q ≡ h - t
unfolding len
len_is q h t c = omega (arith, c.head_is, c.tail_is, c.behind, c.bounded, c.mask_small)

module _ {A : Type 0} where
  pub get_elem?-append_left :
      (xs ys : List A) (i : ℕ) (a : A) → get_elem? xs i ≡ some a → get_elem? (xs ++ ys) i ≡ some a
  get_elem?-append_left [] ys i a h = cc h
  get_elem?-append_left (x ∷ xs) ys zero a h = h
  get_elem?-append_left (x ∷ xs) ys (suc i) a h = get_elem?-append_left xs ys i a h

  -- An element of a list with one more is the last or was there.
  pub get_elem?-snoc :
      (xs : List A) (v : A) (i : ℕ) (a : A)
      → get_elem? (xs ++ (v ∷ [])) i ≡ some a
      → ((i ≡ length xs) × (v ≡ a)) ⊎ (get_elem? xs i ≡ some a)
  get_elem?-snoc [] v zero a h = inl (refl, cc h)
  get_elem?-snoc [] v (suc i) a h = cc h
  get_elem?-snoc (x ∷ xs) v zero a h = inr h
  get_elem?-snoc (x ∷ xs) v (suc i) a h = elim (get_elem?-snoc xs v i a h) [
    | inl (e, q) ↦ inl (ap suc e, q)
    | inr old ↦ inr old
  ]

  pub get_elem?-last : (xs : List A) (v : A) → get_elem? (xs ++ (v ∷ [])) (length xs) ≡ some v
  get_elem?-last [] v = refl
  get_elem?-last (x ∷ xs) v = get_elem?-last xs v

  pub get_elem?-found : (xs : List A) (i : ℕ) → i < length xs → (a : A) × (get_elem? xs i ≡ some a)
  get_elem?-found [] i h = absurd (omega arith)
  get_elem?-found (x ∷ xs) zero h = (x, refl)
  get_elem?-found (x ∷ xs) (suc i) h = get_elem?-found xs i (omega arith)

module _ {A : Type 0} (s : System A) (f : IsFifo s) where
  pub head_slot : s.queue.head % (s.queue.mask + 1) ≡ length s.pushed % (s.queue.mask + 1)
  head_slot =
      let (q, e) = f.divides in
      ap (λ n. n % (s.queue.mask + 1)) (f.counts.head_is ∙ ap (λ n. length s.pushed % n) e)
      ∙ mod_mod_mul (s.queue.mask + 1) q (length s.pushed)

  pub tail_slot : s.queue.tail % (s.queue.mask + 1) ≡ length s.popped % (s.queue.mask + 1)
  tail_slot =
      let (q, e) = f.divides in
      ap (λ n. n % (s.queue.mask + 1)) (f.counts.tail_is ∙ ap (λ n. length s.popped % n) e)
      ∙ mod_mod_mul (s.queue.mask + 1) q (length s.popped)
