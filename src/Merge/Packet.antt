-- ===== src/Merge/Packet.antt =====
-- src/merge.rs: each packet keeps the invariant of the ring, and what is sent stays in sequence.
use native.Mathlib.Nat.{mod-lt}
use mathlib.Core.List.{append-nil}
use numi_orderbook.Base.{
  ℕ, ◌+◌, ◌-◌, ◌%◌, ◌^◌, ◌≤◌, ◌<◌, ◌≡◌, refl, ◌≢◌, ◌⊎◌, Bool, ◌&&◌, true, false, inl, inr, none,
  some, List, [], ◌∷◌, ◌∙◌, sym, arith, get_elem?, set, length-set, get_elem?-set_self,
  get_elem?-set_ne, get_elem?-lt, ==_eq, ◌==◌, Bool-cases, ltb, leb,
}
use numi_orderbook.Wire.{ok}
use numi_orderbook.Pool.{Pkt}
use numi_orderbook.Reorder.{Merge, Slot, advance, store, keep_ahead, on_gap, on_ahead}
use numi_orderbook.Merge.{forward, on_due, hysteresis, on_recovered, on_packet}
use numi_orderbook.Merge.Ring.{occupied-set-some, slot_in, slot_at-in, occupied-le}
use numi_orderbook.Merge.Valid.{Held, IsValid}
use numi_orderbook.Merge.Prefer.{Untouched-Drained, hysteresis-Untouched}
use numi_orderbook.Merge.Drain.{Drained, drain_ends, advance-Held, Progress-trans}

-- A packet ahead fills a free slot.
module _ {span window cap pending next : ℕ} {ring : List Slot}
    (h : Held span window cap ring pending next) (p : Pkt)
    (free : get_elem? ring (p.seq % cap) ≡ some none) where
  found :
      (i e : ℕ) (q : Pkt)
      → get_elem? (set ring (p.seq % cap) (some (p.seq, p))) i ≡ some (some (e, q))
      → ((p.seq % cap ≡ i) × (p.seq ≡ e) × (p ≡ q)) ⊎ (get_elem? ring i ≡ some (some (e, q)))
  found i e q g = elim (Bool-cases (p.seq % cap == i)) [
    | inl same ↦
        let at = ==_eq (p.seq % cap) i same in
        let w =
          get_elem?-set_self ring (p.seq % cap) (some (p.seq, p))
            (get_elem?-lt ring (p.seq % cap) none free) in
        inl (at, cc (g, at, w), cc (g, at, w))
    | inr other ↦
        inr (sym (get_elem?-set_ne ring (p.seq % cap) i (some (p.seq, p)) (ground arith)) ∙ g)
  ]

  module _ (ahead : next < p.seq) (near : p.seq - next ≤ window) (small : p.seq < 2 ^ 64) where
    filled : Held span window cap (set ring (p.seq % cap) (some (p.seq, p))) (pending + 1) next
    filled = record {
      cap_pos = h.cap_pos;
      in_window = h.in_window;
      full_ring = length-set ring (p.seq % cap) (some (p.seq, p)) ∙ h.full_ring;
      counted = omega (arith, h.counted, occupied-set-some ring (p.seq % cap) (p.seq, p) free);
      entries = λ i e q g. elim (found i e q g) [
        | inl (at, num, same) ↦ record {
          in_slot = cc (at, num);
          numbered = cc (num, same);
          not_behind = omega (arith, num);
          in_span = omega (arith, num, h.in_window);
          in_u64 = omega (arith, num);
        }
        | inr old ↦ h.entries i e q old
      ];
    }

    filled-NotDue :
        ((i : ℕ) (q : Pkt) → get_elem? ring i ≢ some (some (next, q)))
        → (i : ℕ) (q : Pkt)
        → get_elem? (set ring (p.seq % cap) (some (p.seq, p))) i ≢ some (some (next, q))
    filled-NotDue n i q g = elim (found i next q g) [
      | inl (at, num, same) ↦ omega (arith, num)
      | inr old ↦ n i q old
    ]

pub Drained-same : (span : ℕ) (s : Merge) → IsValid span s → Drained span s (ok s)
Drained-same span s v = (s, refl, v, ([], sym (append-nil s.out), refl), refl)

module _ (span : ℕ) (s : Merge) (v : IsValid span s) (p : Pkt) where
  keep_ahead-Drained :
      (o : Slot)
      → get_elem? s.ring (p.seq % s.cap) ≡ some o
      → s.next_seq < p.seq
      → p.seq - s.next_seq ≤ s.reorder_window
      → p.seq < 2 ^ 64
      → Drained span s (ok (keep_ahead p o s))
  unfolding keep_ahead
  keep_ahead-Drained none e ahead near small = (
    store p s,
    refl,
    (filled v.0 p e ahead near small, filled-NotDue v.0 p e ahead near small v.1),
    ([], sym (append-nil s.out), refl),
    refl,
  )
  keep_ahead-Drained (some (k, q)) e ahead near small = elim (Bool-cases (k == p.seq)) [
    | inl same ↦ rw same (Drained-same span s v)
    | inr other ↦ elim (Bool-cases (ltb k s.next_seq)) [
      | inl behind ↦ absurd (ground (arith, behind, (v.0.entries (p.seq % s.cap) k q e).not_behind))
      | inr not_behind ↦ rw (other, not_behind) (Drained-same span s v)
    ]
  ]

  on_ahead-Drained :
      (recovery : Bool) (max_pending : ℕ)
      → s.next_seq < p.seq
      → p.seq < 2 ^ 64
      → Drained span s (on_ahead recovery max_pending p s)
  unfolding on_ahead on_gap
  on_ahead-Drained recovery max_pending ahead small =
      elim (Bool-cases
        (leb (p.seq - s.next_seq) s.reorder_window && ltb s.pending_count max_pending)) [
          | inl keep ↦
              let (o, e) =
                slot_in s.ring (p.seq % s.cap)
                  (omega (arith, v.0.full_ring, mod-lt p.seq v.0.cap_pos)) in
              rw (keep, slot_at-in s.ring (p.seq % s.cap) o e)
                (keep_ahead-Drained o e ahead (ground (arith, keep)) small)
          | inr gap ↦
              rw gap (on_gap recovery p s, refl, v, ([], sym (append-nil s.out), refl), refl)
        ]

  module _ (clock : ℕ → ℕ) (ooo : Bool) (due : p.seq ≡ s.next_seq) where
    on_due-Drained : Drained span s (on_due clock ooo p s)
    unfolding on_due
    on_due-Drained =
        let t = advance (forward clock p s) in
        let (u, q, w, pr, c) =
          drain_ends clock ooo (s.cap + 1) t span (advance-Held v.0 v.1)
            (omega (arith, v.0.full_ring, occupied-le s.ring)) in
        (
          u,
          q,
          w,
          Progress-trans s t u
              ((record p { merge_emit_ns = clock s.reads } ∷ []), refl, (due, refl)) pr,
          c,
        )

-- A packet in turn, recovered or from a feed.
module _ (clock : ℕ → ℕ) (recovery : Bool) (max_pending span : ℕ) where
  pub on_recovered-Drained :
      (p : Pkt) (s : Merge)
      → IsValid span s
      → p.seq < 2 ^ 64
      → Drained span s (on_recovered clock recovery max_pending p s)
  unfolding on_recovered
  on_recovered-Drained p s v small = elim (Bool-cases (ltb p.seq s.next_seq)) [
    | inl old ↦ rw old (Drained-same span s v)
    | inr new ↦ elim (Bool-cases (p.seq == s.next_seq)) [
      | inl due ↦ rw (new, due) (on_due-Drained span s v p clock false (==_eq p.seq s.next_seq due))
      | inr ahead ↦
          rw (new, ahead) (on_ahead-Drained span s v p recovery max_pending (ground arith) small)
    ]
  ]

  pub on_packet-Drained :
      (p : Pkt) (s : Merge)
      → IsValid span s
      → p.seq < 2 ^ 64
      → Drained span s (on_packet clock recovery max_pending p s)
  unfolding on_packet
  on_packet-Drained p s v small = elim (Bool-cases (ltb p.seq s.next_seq)) [
    | inl old ↦ rw old (Drained-same span s v)
    | inr new ↦ elim (Bool-cases (p.seq == s.next_seq)) [
      | inl due ↦
          let (t, e, w, pr, c) =
            on_due-Drained span s v p clock true (==_eq p.seq s.next_seq due) in
          rw (new, due, e)
            (Untouched-Drained span s t (hysteresis clock (p.chan == b'A') t)
              (hysteresis-Untouched clock (p.chan == b'A') t) (t, refl, w, pr, c))
      | inr ahead ↦
          rw (new, ahead) (on_ahead-Drained span s v p recovery max_pending (ground arith) small)
    ]
  ]
