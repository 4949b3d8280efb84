-- ===== src/Spsc/Calls.antt =====
-- src/spsc.rs: a call of `push` or `pop` that is not interrupted is three steps.
use numi_orderbook.Base.{
  ◌≡◌, refl, sym, inl, inr, false, Bool-cases, Option, some, [], ◌∷◌, ◌++◌, ltb, ◌==◌,
}
use numi_orderbook.Spsc.{
  SpscQueue, System, Producer, Consumer, Step, Reach, push, pop, len, write_slot, advance_head,
  advance_tail, slot_read,
}

module _ {A : Type 0} (s : System A) where
  push_inv :
      (v : A) (q : SpscQueue A)
      → push v s.queue ≡ some q
      → (ltb s.queue.mask (len s.queue) ≡ false) × (q ≡ advance_head (write_slot v s.queue))
  unfolding push
  push_inv v q e = elim (Bool-cases (ltb s.queue.mask (len s.queue))) [
    | inl full ↦ cc (rw full at e)
    | inr room ↦ (room, cc (rw room at e))
  ]

  pub push_reach :
      (v : A) (q : SpscQueue A)
      → s.producer ≡ Producer.idle
      → push v s.queue ≡ some q
      → Reach s (record s { queue = q; producer = Producer.idle; pushed = s.pushed ++ (v ∷ []) })
  push_reach v q idle e =
      let (room, made) = push_inv v q e in
      rw made (
        Reach.next
          (Reach.next (Reach.next Reach.here (Step.begin_push v _ idle room refl))
            (Step.write v _ refl refl))
          (Step.publish v _ refl refl))

  pop_inv :
      (o : Option (Option A)) (q : SpscQueue A)
      → pop s.queue ≡ some (o, q)
      → ((s.queue.tail == s.queue.head) ≡ false)
        × (o ≡ slot_read s.queue)
        × (q ≡ advance_tail s.queue)
  unfolding pop
  pop_inv o q e = elim (Bool-cases (s.queue.tail == s.queue.head)) [
    | inl empty ↦ cc (rw empty at e)
    | inr apart ↦ (apart, cc (rw apart at e), cc (rw apart at e))
  ]

  pub pop_reach :
      (o : Option A) (q : SpscQueue A)
      → s.consumer ≡ Consumer.idle
      → pop s.queue ≡ some (some o, q)
      → Reach s (record s { queue = q; consumer = Consumer.idle; popped = s.popped ++ (o ∷ []) })
  pop_reach o q idle e =
      let (apart, found, made) = pop_inv (some o) q e in
      rw made (
        Reach.next
          (Reach.next (Reach.next Reach.here (Step.begin_pop _ idle apart refl))
            (Step.take_slot o _ refl (sym found) refl))
          (Step.release o _ refl refl))
