-- ===== src/Merge.antt =====
-- src/merge.rs: the arbitration of the feeds A and B and of recovered packets into one sequence.
-- The n-th reading of the clock is `clock n`; what the pops of one turn of the loop return is its
-- argument `Polls`. The state is that of Reorder. Metrics, logs and spinning leave no trace.
pub mod Ring
pub mod Valid
pub mod Drain
pub mod Prefer
pub mod Packet
pub mod Turn
pub mod Keep
mod Examples
use Prim.Native.Nat.{min, max}
use numi_orderbook.Base.{
  ℕ, zero, suc, ◌+◌, ◌-◌, ◌*◌, ◌/◌, ◌%◌, ◌^◌, Bool, true, false, not, ◌&&◌, ◌||◌, Option, none,
  some, List, [], ◌∷◌, ◌++◌, ltb, leb, ◌==◌, if◌then◌else◌, get_elem?, set, replicate, take, length,
}
use numi_orderbook.Pool.{Pkt}
use numi_orderbook.Wire.{Outcome, ok, panic, stuck, ◌>>=◌}
use numi_orderbook.Reorder.{
  Merge, MergeConfig, Polls, Slot, adapt, adapt_dwell, adapt_window, advance, is_a, keep_ahead,
  on_ahead, on_gap, poll, sat32, sat64, slot_at, store, wrap64,
}

module _ (clock : ℕ → ℕ) where
  unfoldable pub start : MergeConfig → Merge
  unfolding sat64
  start cfg = record {
    next_seq = cfg.next_seq;
    reorder_window = cfg.reorder_window;
    cap = sat64 cfg.reorder_window;
    ring = replicate (sat64 cfg.reorder_window) none;
    pending_count = 0;
    prefer_a = true;
    streak_preferred = 0;
    streak_nonpreferred = 0;
    last_switch_ns = clock 0;
    min_dwell_ns = if cfg.dwell_ns == 0 then 2000000 else cfg.dwell_ns;
    forwarded_since_check = 0;
    recent_gaps = 0;
    recent_ooo = 0;
    switches_in_window = 0;
    idx_a = 0;
    idx_b = 0;
    reads = 1;
    out = [];
    gaps = [];
  }

  -- The push is repeated until there is room, so the packet always gets through.
  unfoldable pub forward : Pkt → Merge → Merge
  forward p s = record s {
    reads = s.reads + 1;
    out = s.out ++ (record p { merge_emit_ns = clock s.reads } ∷ []);
  }

  -- One round of the drain: the packet that was due leaves its slot.
  unfoldable pub release : Bool → ℕ → Pkt → Merge → Merge
  unfolding forward wrap64 sat64
  release ooo i node s =
      let s' = advance (
        forward node
          (record s { ring = set s.ring i none; pending_count = s.pending_count - 1 })) in
      record s' {
        recent_ooo = if ooo then sat64 s.recent_ooo else s.recent_ooo;
        forwarded_since_check = sat64 s.forwarded_since_check;
      }

  -- The drain of the contiguous packets; `ooo` says that it counts them as out of order.
  unfoldable pub drain : ℕ → Bool → Merge → Outcome Merge
  unfolding slot_at release
  drain zero ooo s = stuck
  drain (suc fuel) ooo s = slot_at s.ring (s.next_seq % s.cap) >>= λ o. elim o [
    | none ↦ ok s
    | some (stored_seq, node) ↦
        let rest = drain fuel ooo (release ooo (s.next_seq % s.cap) node s) in
        if stored_seq == s.next_seq then rest else ok s
  ]

  -- A switch to the other feed, with a second reading of the clock.
  unfoldable pub switch_to : Bool → Merge → Merge
  unfolding sat32
  switch_to a s = record s {
    prefer_a = a;
    streak_preferred = if a then 0 else s.streak_preferred;
    streak_nonpreferred = if a then s.streak_nonpreferred else 0;
    last_switch_ns = clock s.reads;
    switches_in_window = sat32 s.switches_in_window;
    reads = s.reads + 1;
  }

  -- `now_nanos().saturating_sub(last_switch_ns) >= min_dwell_ns`; the clock is read only here.
  unfoldable pub dwelt : Bool → Merge → Merge
  unfolding switch_to
  dwelt a s =
      if leb s.min_dwell_ns (clock s.reads - s.last_switch_ns)
      then switch_to a (record s { reads = s.reads + 1 })
      else record s { reads = s.reads + 1 }

  unfoldable pub seen_preferred : Merge → Merge
  unfolding dwelt sat32
  seen_preferred s =
      let s' = record s { streak_preferred = sat32 s.streak_preferred; streak_nonpreferred = 0 } in
      if not s.prefer_a && leb 8 s'.streak_preferred then dwelt true s' else s'

  unfoldable pub seen_other : Merge → Merge
  unfolding dwelt sat32
  seen_other s =
      let s' = record s {
        streak_nonpreferred = sat32 s.streak_nonpreferred;
        streak_preferred = 0;
      } in
      if s.prefer_a && leb 2 s'.streak_nonpreferred then dwelt false s' else s'

  unfoldable pub hysteresis : Bool → Merge → Merge
  hysteresis was_a s =
      if (s.prefer_a && was_a) || (not s.prefer_a && not was_a)
      then seen_preferred s
      else seen_other s

  -- A packet that is due, and those that it makes due. Each round of the drain empties a slot, so
  -- one round more than there are slots is fuel enough.
  unfoldable pub on_due : Bool → Pkt → Merge → Outcome Merge
  unfolding forward
  on_due ooo p s = drain (s.cap + 1) ooo (advance (forward p s))

  unfoldable pub on_recovered : Bool → ℕ → Pkt → Merge → Outcome Merge
  on_recovered recovery max_pending p s =
      if ltb p.seq s.next_seq
      then ok s
      else if p.seq == s.next_seq
      then on_due false p s
      else on_ahead recovery max_pending p s

  unfoldable pub on_packet : Bool → ℕ → Pkt → Merge → Outcome Merge
  on_packet recovery max_pending p s =
      if ltb p.seq s.next_seq
      then ok s
      else if p.seq == s.next_seq
      then (on_due true p s >>= λ s'. ok (hysteresis (is_a p) s'))
      else on_ahead recovery max_pending p s

  unfoldable pub drain_recovered : Bool → ℕ → List Pkt → Merge → Outcome Merge
  drain_recovered recovery max_pending [] s = ok s
  drain_recovered recovery max_pending (p ∷ ps) s =
      on_recovered recovery max_pending p s >>= λ s'. drain_recovered recovery max_pending ps s'

  unfoldable pub on_polled : Bool → ℕ → Option Pkt → Merge → Outcome Merge
  on_polled recovery max_pending none s = ok s
  on_polled recovery max_pending (some p) s = on_packet recovery max_pending p s

  -- One of the two rounds of the `for src` loop. A switch in the first round shows in the second.
  unfoldable pub round : Bool → ℕ → Bool → Polls → Merge → Outcome Merge
  unfolding poll wrap64
  round recovery max_pending first ps s =
      if first && s.prefer_a || not first && not s.prefer_a
      then (poll ps.from_a s.idx_a >>= λ o.
          on_polled recovery max_pending o (record s { idx_a = wrap64 (s.idx_a + 1) }))
      else (poll ps.from_b s.idx_b >>= λ o.
          on_polled recovery max_pending o (record s { idx_b = wrap64 (s.idx_b + 1) }))

  -- One turn of the loop. `recovery` says that there is a client for gaps.
  unfoldable pub turn : Bool → MergeConfig → Polls → Merge → Outcome Merge
  turn recovery cfg ps s =
      drain_recovered recovery cfg.max_pending (take 32 ps.recovered) s >>= λ s1.
      round recovery cfg.max_pending true ps s1 >>= λ s2.
      round recovery cfg.max_pending false ps s2 >>= λ s3. ok (adapt cfg s3)

  -- The turns until the shutdown flag is raised.
  unfoldable pub merge_turns : Bool → MergeConfig → List Polls → Merge → Outcome Merge
  merge_turns recovery cfg [] s = ok s
  merge_turns recovery cfg (ps ∷ rest) s =
      turn recovery cfg ps s >>= λ s'. merge_turns recovery cfg rest s'

  unfoldable pub merge_loop : Bool → MergeConfig → List Polls → Outcome Merge
  unfolding start
  merge_loop recovery cfg turns = merge_turns recovery cfg turns (start cfg)
