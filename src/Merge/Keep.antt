-- ===== src/Merge/Keep.antt =====
-- src/merge.rs: which packets ahead of the sequence the ring keeps, and which it loses.
use native.Mathlib.Nat.{mod-lt}
use numi_orderbook.Base.{
  ℕ, ◌-◌, ◌%◌, ◌≤◌, ◌<◌, ◌≡◌, refl, ◌≢◌, ◌∙◌, ==_refl, ==_ne, Bool, false, inl, inr, none, some,
  arith, get_elem?, get_elem?-set_self, get_elem?-lt, Bool-cases, ltb, leb,
}
use numi_orderbook.Base.Slots.{same_slot}
use numi_orderbook.Wire.{ok}
use numi_orderbook.Pool.{Pkt}
use numi_orderbook.Reorder.{Merge, Slot, store, keep_ahead, on_ahead}
use numi_orderbook.Merge.Ring.{slot_in, slot_at-in}
use numi_orderbook.Merge.Valid.{IsValid}

module _ (s : Merge) (p : Pkt) (recovery : Bool) (max_pending : ℕ) where
  on_ahead_near :
      (o : Slot)
      → get_elem? s.ring (p.seq % s.cap) ≡ some o
      → p.seq - s.next_seq ≤ s.reorder_window
      → s.pending_count < max_pending
      → on_ahead recovery max_pending p s ≡ ok (keep_ahead p o s)
  unfolding on_ahead
  on_ahead_near o e near room = ground (arith, slot_at-in s.ring (p.seq % s.cap) o e)

  module _ (span : ℕ) (v : IsValid span s) (ahead : s.next_seq < p.seq)
      (near : p.seq - s.next_seq ≤ s.reorder_window) (room : s.pending_count < max_pending) where
    keep_ahead_keeps :
        span < s.cap
        → (o : Slot) → get_elem? s.ring (p.seq % s.cap) ≡ some o
        → (q : Pkt) × (get_elem? (keep_ahead p o s).ring (p.seq % s.cap) ≡ some (some (p.seq, q)))
    unfolding keep_ahead store
    keep_ahead_keeps small none e = (
      p,
      get_elem?-set_self s.ring (p.seq % s.cap) (some (p.seq, p))
          (get_elem?-lt s.ring (p.seq % s.cap) none e),
    )
    keep_ahead_keeps small (some (k, q)) e =
        let d = v.0.entries (p.seq % s.cap) k q e in
        let same : k ≡ p.seq =
          same_slot s.next_seq s.cap k p.seq v.0.cap_pos d.not_behind (omega arith)
            (omega (arith, d.in_span)) (omega (arith, v.0.in_window)) d.in_slot in
        (q, rw (same, ==_refl p.seq) (cc (e, same)))

    -- In a valid state whose windows are all smaller than the ring, a u64 packet ahead of the
    -- sequence, within the window and with room for one more, is in the ring afterwards: its slot
    -- holds a packet of its number.
    pub on_ahead_keeps :
        span < s.cap
        → (t : Merge) × (on_ahead recovery max_pending p s ≡ ok t)
          × ((q : Pkt) × (get_elem? t.ring (p.seq % s.cap) ≡ some (some (p.seq, q))))
    on_ahead_keeps small =
        let (o, e) =
          slot_in s.ring (p.seq % s.cap) (omega (arith, v.0.full_ring, mod-lt p.seq v.0.cap_pos)) in
        (keep_ahead p o s, on_ahead_near o e near room, keep_ahead_keeps small o e)

    -- In a valid state, a packet ahead of the sequence, within the window and with room, whose slot
    -- holds a packet of another number, is dropped with nothing kept and no gap reported; and this
    -- happens only when the bound of the windows has reached the size of the ring.
    pub on_ahead_loses :
        (k : ℕ) (q : Pkt)
        → get_elem? s.ring (p.seq % s.cap) ≡ some (some (k, q))
        → k ≢ p.seq
        → (on_ahead recovery max_pending p s ≡ ok s) × (s.cap ≤ span)
    unfolding keep_ahead
    on_ahead_loses k q e ne =
        let d = v.0.entries (p.seq % s.cap) k q e in
        (
          on_ahead_near (some (k, q)) e near room
              ∙ rw (==_ne k p.seq ne, not_behind k d.not_behind) refl,
          elim (Bool-cases (leb s.cap span)) [
            | inl le ↦ ground arith
            | inr gt ↦ absurd (
                ne (
                  same_slot s.next_seq s.cap k p.seq v.0.cap_pos d.not_behind (omega arith)
                    (ground (arith, d.in_span)) (ground (arith, v.0.in_window)) d.in_slot))
          ],
        )
      where
        not_behind : (k : ℕ) → s.next_seq ≤ k → ltb k s.next_seq ≡ false
        not_behind k h = ground arith
