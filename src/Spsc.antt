-- ===== src/Spsc.antt =====
-- src/spsc.rs: the bounded queue between one producer and one consumer. A counter is a usize that
-- wraps; `index & mask` is the remainder by the capacity, which is a power of two. A slot that was
-- never written is `none`.
pub mod Fifo
pub mod Steps
pub mod Order
pub mod Calls
mod Examples
use Prim.Native.Nat.{max}
use numi_orderbook.Base.{
  ℕ, zero, suc, ◌+◌, ◌-◌, ◌*◌, ◌%◌, ◌^◌, ◌≡◌, Option, none, some, List, [], ◌∷◌, ◌++◌, true, false,
  ltb, leb, ◌==◌, if◌then◌else◌, get_elem?, set, replicate,
}

-- `next_power_of_two`: the first power of two from `p` on that is not less, in so many doublings.
unfoldable pub power_from : ℕ → ℕ → ℕ → ℕ
power_from zero p n = p
power_from (suc fuel) p n = let rest = power_from fuel (2 * p) n in if leb n p then p else rest

unfoldable pub capacity_of : ℕ → ℕ
capacity_of capacity = max (power_from 63 1 capacity) 2

module _ (A : Type 0) where
  pub record SpscQueue : Type 0 where
    pub buf : List (Option A)
    pub mask : ℕ
    pub head : ℕ
    pub tail : ℕ

  unfoldable pub new_queue : ℕ → SpscQueue
  new_queue capacity = record {
    buf = replicate (capacity_of capacity) none;
    mask = capacity_of capacity - 1;
    head = 0;
    tail = 0;
  }

module _ {A : Type 0} where
  -- `head.wrapping_sub(tail)`
  unfoldable pub len : SpscQueue A → ℕ
  len q = (q.head + 2 ^ 64 - q.tail) % 2 ^ 64

  abbrev pub write_slot : A → SpscQueue A → SpscQueue A
  write_slot v q = record q { buf = set q.buf (q.head % (q.mask + 1)) (some v) }

  abbrev pub advance_head : SpscQueue A → SpscQueue A
  advance_head q = record q { head = (q.head + 1) % 2 ^ 64 }

  abbrev pub advance_tail : SpscQueue A → SpscQueue A
  advance_tail q = record q { tail = (q.tail + 1) % 2 ^ 64 }

  abbrev pub slot_read : SpscQueue A → Option (Option A)
  slot_read q = get_elem? q.buf (q.tail % (q.mask + 1))

  -- The calls with no step of the other thread between theirs: `none` is a full or an empty queue.
  unfoldable pub push : A → SpscQueue A → Option (SpscQueue A)
  unfolding len
  push v q = if ltb q.mask (len q) then none else some (advance_head (write_slot v q))

  unfoldable pub pop : SpscQueue A → Option (Option (Option A) × SpscQueue A)
  pop q = if q.tail == q.head then none else some (slot_read q, advance_tail q)

-- Between its two atomic accesses a thread is at one of these points.
pub data Producer (A : Type 0) : Type 0 where
  idle : Producer A
  ready : A → Producer A
  written : A → Producer A

pub data Consumer (A : Type 0) : Type 0 where
  idle : Consumer A
  ready : Consumer A
  taken : Option A → Consumer A

-- The queue with both threads, and all values pushed and popped so far.
pub record System (A : Type 0) : Type 0 where
  pub queue : SpscQueue A
  pub producer : Producer A
  pub consumer : Consumer A
  pub pushed : List A
  pub popped : List (Option A)

-- One access of one thread to the shared queue: the load of the other thread's counter with the test,
-- the access to the slot, and the store of its own counter.
pub data Step {A : Type 0} (s : System A) : System A → Type 0 where
  begin_push :
      (v : A) (t : System A)
      → s.producer ≡ Producer.idle
      → ltb s.queue.mask (len s.queue) ≡ false
      → t ≡ record s { producer = Producer.ready v }
      → Step s t
  write :
      (v : A) (t : System A)
      → s.producer ≡ Producer.ready v
      → t ≡ record s { queue = write_slot v s.queue; producer = Producer.written v }
      → Step s t
  publish :
      (v : A) (t : System A)
      → s.producer ≡ Producer.written v
      → t ≡ record s {
        queue = advance_head s.queue;
        producer = Producer.idle;
        pushed = s.pushed ++ (v ∷ []);
      }
      → Step s t
  begin_pop :
      (t : System A)
      → s.consumer ≡ Consumer.idle
      → (s.queue.tail == s.queue.head) ≡ false
      → t ≡ record s { consumer = Consumer.ready }
      → Step s t
  take_slot :
      (o : Option A) (t : System A)
      → s.consumer ≡ Consumer.ready
      → slot_read s.queue ≡ some o
      → t ≡ record s { consumer = Consumer.taken o }
      → Step s t
  release :
      (o : Option A) (t : System A)
      → s.consumer ≡ Consumer.taken o
      → t ≡ record s {
        queue = advance_tail s.queue;
        consumer = Consumer.idle;
        popped = s.popped ++ (o ∷ []);
      }
      → Step s t

pub data Reach {A : Type 0} (s : System A) : System A → Type 0 where
  here : Reach s s
  next : {t u : System A} → Reach s t → Step t u → Reach s u

abbrev pub start_system : (A : Type 0) → ℕ → System A
start_system A capacity = record {
  queue = new_queue A capacity;
  producer = Producer.idle;
  consumer = Consumer.idle;
  pushed = [];
  popped = [];
}
