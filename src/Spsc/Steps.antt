-- ===== src/Spsc/Steps.antt =====
-- src/spsc.rs: each access of the two threads keeps the invariant of the queue.
use mathlib.Core.Path.{subst}
use numi_orderbook.Base.{
  ℕ, ◌+◌, ◌%◌, ◌^◌, ◌≤◌, ◌<◌, ◌≡◌, ap, sym, ◌∙◌, ◌≢◌, inl, inr, false, Bool-cases, Option, some, [],
  ◌∷◌, ◌++◌, ltb, ◌==◌, length, get_elem?, set, arith, length-append, length-set,
  get_elem?-set_self, get_elem?-set_ne, get_elem?-lt,
}
use native.Mathlib.Nat.{mod-lt}
use numi_orderbook.Base.Slots.{same_slot}
use numi_orderbook.Spsc.{
  System, Producer, Consumer, Step, len, write_slot, advance_head, advance_tail, slot_read,
}
use numi_orderbook.Spsc.Fifo.{
  ProducerHas, ConsumerHas, IsFifo, len_is, get_elem?-append_left, get_elem?-snoc, get_elem?-found,
  head_slot, tail_slot,
}

module _ {A : Type 0} (s : System A) (f : IsFifo s) where
  abbrev h : ℕ
  h = length s.pushed

  abbrev t : ℕ
  t = length s.popped

  begin_push-IsFifo :
      (v : A)
      → ltb s.queue.mask (len s.queue) ≡ false
      → IsFifo (record s { producer = Producer.ready v })
  begin_push-IsFifo v room = record {
    counts = f.counts;
    divides = f.divides;
    full_buf = f.full_buf;
    entries = f.entries;
    producer_has = ground (arith, len_is s.queue h t f.counts, f.counts.behind);
    consumer_has = f.consumer_has;
    in_order = f.in_order;
  }

  module _ (v : A) (at : s.producer ≡ Producer.ready v) where
    room : h ≤ t + s.queue.mask
    room = subst (λ p. ProducerHas p s.queue.buf s.queue.mask h t) at f.producer_has

    in_buf : s.queue.head % (s.queue.mask + 1) < length s.queue.buf
    in_buf = omega (arith, f.full_buf, mod-lt s.queue.head {m = s.queue.mask + 1} (omega arith))

    not_live : (i : ℕ) → t ≤ i → i < h → s.queue.head % (s.queue.mask + 1) ≢ i % (s.queue.mask + 1)
    not_live i le lt e =
        let same : i ≡ h =
          same_slot i (s.queue.mask + 1) i h (omega arith) (omega arith) (omega arith) (omega arith)
            (omega (arith, room)) (sym e ∙ head_slot s f) in
        omega arith

    write-IsFifo : IsFifo (record s { queue = write_slot v s.queue; producer = Producer.written v })
    write-IsFifo = record {
      counts = f.counts;
      divides = f.divides;
      full_buf = length-set s.queue.buf (s.queue.head % (s.queue.mask + 1)) (some v) ∙ f.full_buf;
      entries = λ i a le e.
          get_elem?-set_ne s.queue.buf (s.queue.head % (s.queue.mask + 1)) (i % (s.queue.mask + 1))
            (some v) (not_live i le (get_elem?-lt s.pushed i a e))
          ∙ f.entries i a le e;
      producer_has = (
        room,
        ap (get_elem? (set s.queue.buf (s.queue.head % (s.queue.mask + 1)) (some v)))
              (sym (head_slot s f))
            ∙ get_elem?-set_self s.queue.buf (s.queue.head % (s.queue.mask + 1)) (some v) in_buf,
      );
      consumer_has = f.consumer_has;
      in_order = f.in_order;
    }

  module _ (v : A) (at : s.producer ≡ Producer.written v) where
    has : ProducerHas (Producer.written v) s.queue.buf s.queue.mask h t
    has = subst (λ p. ProducerHas p s.queue.buf s.queue.mask h t) at f.producer_has

    more : length (s.pushed ++ (v ∷ [])) ≡ h + 1
    more = length-append s.pushed (v ∷ [])

    still :
        (c : Consumer A)
        → ConsumerHas c s.pushed h t
        → ConsumerHas c (s.pushed ++ (v ∷ [])) (length (s.pushed ++ (v ∷ []))) t
    still Consumer.idle k = tt
    still Consumer.ready k = omega (arith, more, k)
    still (Consumer.taken o) (lt, (a, e, q)) =
        (omega (arith, more, lt), (a, e, get_elem?-append_left s.pushed (v ∷ []) t a q))

    publish-IsFifo : IsFifo (record s {
      queue = advance_head s.queue;
      producer = Producer.idle;
      pushed = s.pushed ++ (v ∷ []);
    })
    publish-IsFifo = record {
      counts = record {
        head_is = omega (arith, more, f.counts.head_is);
        tail_is = f.counts.tail_is;
        behind = omega (arith, more, f.counts.behind);
        bounded = omega (arith, more, has.0);
        mask_small = f.counts.mask_small;
      };
      divides = f.divides;
      full_buf = f.full_buf;
      entries = λ i a le e. elim (get_elem?-snoc s.pushed v i a e) [
        | inl (last, same) ↦
            ap (λ n. get_elem? s.queue.buf (n % (s.queue.mask + 1))) last
            ∙ has.1
            ∙ ap (λ x. some (some x)) same
        | inr old ↦ f.entries i a le old
      ];
      producer_has = tt;
      consumer_has = still s.consumer f.consumer_has;
      in_order = λ i o e.
          let (a, p, q) = f.in_order i o e in (a, p, get_elem?-append_left s.pushed (v ∷ []) i a q);
    }

  begin_pop-IsFifo :
      (s.queue.tail == s.queue.head) ≡ false → IsFifo (record s { consumer = Consumer.ready })
  begin_pop-IsFifo apart = record {
    counts = f.counts;
    divides = f.divides;
    full_buf = f.full_buf;
    entries = f.entries;
    producer_has = f.producer_has;
    consumer_has = elim (Bool-cases (ltb t h)) [
      | inl less ↦ ground arith
      | inr not_less ↦
          let e : t ≡ h = ground (arith, f.counts.behind) in
          absurd (ground (arith, f.counts.tail_is ∙ ap (λ n. n % 2 ^ 64) e ∙ sym f.counts.head_is))
    ];
    in_order = f.in_order;
  }

  take_slot-IsFifo :
      (o : Option A)
      → s.consumer ≡ Consumer.ready
      → slot_read s.queue ≡ some o
      → IsFifo (record s { consumer = Consumer.taken o })
  take_slot-IsFifo o at e =
      let lt : t < h = subst (λ c. ConsumerHas c s.pushed h t) at f.consumer_has in
      let (a, p) = get_elem?-found s.pushed t lt in
      record {
        counts = f.counts;
        divides = f.divides;
        full_buf = f.full_buf;
        entries = f.entries;
        producer_has = f.producer_has;
        consumer_has = (
          lt,
          (a, cc (e, ap (get_elem? s.queue.buf) (tail_slot s f), f.entries t a (omega arith) p), p),
        );
        in_order = f.in_order;
      }

  module _ (o : Option A) (at : s.consumer ≡ Consumer.taken o) where
    holds : ConsumerHas (Consumer.taken o) s.pushed h t
    holds = subst (λ c. ConsumerHas c s.pushed h t) at f.consumer_has

    longer : length (s.popped ++ (o ∷ [])) ≡ t + 1
    longer = length-append s.popped (o ∷ [])

    producer_keeps :
        (p : Producer A)
        → ProducerHas p s.queue.buf s.queue.mask h t
        → ProducerHas p s.queue.buf s.queue.mask h (length (s.popped ++ (o ∷ [])))
    producer_keeps Producer.idle k = tt
    producer_keeps (Producer.ready v) k = omega (arith, longer, k)
    producer_keeps (Producer.written v) k = (omega (arith, longer, k.0), k.1)

    release-IsFifo : IsFifo (record s {
      queue = advance_tail s.queue;
      consumer = Consumer.idle;
      popped = s.popped ++ (o ∷ []);
    })
    release-IsFifo = record {
      counts = record {
        head_is = f.counts.head_is;
        tail_is = omega (arith, longer, f.counts.tail_is);
        behind = omega (arith, longer, holds.0);
        bounded = omega (arith, longer, f.counts.bounded);
        mask_small = f.counts.mask_small;
      };
      divides = f.divides;
      full_buf = f.full_buf;
      entries = λ i a le e. f.entries i a (omega (arith, longer)) e;
      producer_has = producer_keeps s.producer f.producer_has;
      consumer_has = tt;
      in_order = λ i x e. elim (get_elem?-snoc s.popped o i x e) [
        | inl (last, same) ↦
            (holds.1.0, sym same ∙ holds.1.1, ap (get_elem? s.pushed) last ∙ holds.1.2)
        | inr old ↦ f.in_order i x old
      ];
    }

pub Step-IsFifo : {A : Type 0} {s u : System A} → Step s u → IsFifo s → IsFifo u
Step-IsFifo {A} {s} (Step.begin_push v u at room e) f =
    subst IsFifo (sym e) (begin_push-IsFifo s f v room)
Step-IsFifo {A} {s} (Step.write v u at e) f = subst IsFifo (sym e) (write-IsFifo s f v at)
Step-IsFifo {A} {s} (Step.publish v u at e) f = subst IsFifo (sym e) (publish-IsFifo s f v at)
Step-IsFifo {A} {s} (Step.begin_pop u at apart e) f =
    subst IsFifo (sym e) (begin_pop-IsFifo s f apart)
Step-IsFifo {A} {s} (Step.take_slot o u at q e) f =
    subst IsFifo (sym e) (take_slot-IsFifo s f o at q)
Step-IsFifo {A} {s} (Step.release o u at e) f = subst IsFifo (sym e) (release-IsFifo s f o at)
