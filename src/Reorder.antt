-- ===== src/Reorder.antt =====
-- src/merge.rs: the state of `merge_loop`, what it does with a packet ahead of its turn, and how it
-- adapts its window. The queue to the decoder is the list `out` of all packets pushed to it, and the
-- calls of `notify_gap` are the list `gaps`.
use Prim.Native.Nat.{min, max}
use numi_orderbook.Base.{
  ℕ, ◌+◌, ◌-◌, ◌*◌, ◌/◌, ◌%◌, ◌^◌, Bool, ◌&&◌, Option, none, some, List, [], ◌∷◌, ◌++◌, ltb, leb,
  ◌==◌, if◌then◌else◌, get_elem?, set, length,
}
use numi_orderbook.Pool.{Pkt}
use numi_orderbook.Wire.{Outcome, ok, panic, ◌>>=◌}

pub record MergeConfig : Type 0 where
  pub next_seq : ℕ
  pub reorder_window : ℕ
  pub max_pending : ℕ
  pub dwell_ns : ℕ
  pub adaptive : Bool
  pub reorder_window_max : ℕ

abbrev pub Slot : Type 0
Slot = Option (ℕ × Pkt)

-- The local variables of `merge_loop`, the clock's readings so far, and what it has sent.
pub record Merge : Type 0 where
  pub next_seq : ℕ
  pub reorder_window : ℕ
  pub cap : ℕ
  pub ring : List Slot
  pub pending_count : ℕ
  pub prefer_a : Bool
  pub streak_preferred : ℕ
  pub streak_nonpreferred : ℕ
  pub last_switch_ns : ℕ
  pub min_dwell_ns : ℕ
  pub forwarded_since_check : ℕ
  pub recent_gaps : ℕ
  pub recent_ooo : ℕ
  pub switches_in_window : ℕ
  pub idx_a : ℕ
  pub idx_b : ℕ
  pub reads : ℕ
  pub out : List Pkt
  pub gaps : List (ℕ × ℕ)

-- What the queues give in one turn: recovered packets in order, and each worker's next packet.
pub record Polls : Type 0 where
  pub recovered : List Pkt
  pub from_a : List (Option Pkt)
  pub from_b : List (Option Pkt)

-- `saturating_add(1)` on the 64-bit and the 32-bit counters.
unfoldable pub sat64 : ℕ → ℕ
sat64 n = if ltb (n + 1) (2 ^ 64) then n + 1 else 2 ^ 64 - 1

unfoldable pub sat32 : ℕ → ℕ
sat32 n = if ltb (n + 1) (2 ^ 32) then n + 1 else 2 ^ 32 - 1

unfoldable pub wrap64 : ℕ → ℕ
wrap64 n = n % 2 ^ 64

-- `ring[i]`
unfoldable pub slot_at : List Slot → ℕ → Outcome Slot
slot_at ring i = elim (get_elem? ring i) [ none ↦ panic | some o ↦ ok o ]

abbrev pub is_a : Pkt → Bool
is_a p = p.chan == b'A'

abbrev pub advance : Merge → Merge
advance s = record s { next_seq = wrap64 (s.next_seq + 1) }

unfoldable pub store : Pkt → Merge → Merge
store p s = record s {
  ring = set s.ring (p.seq % s.cap) (some (p.seq, p));
  pending_count = s.pending_count + 1;
}

-- A packet ahead of the sequence is kept, or is a duplicate;
unfoldable pub keep_ahead : Pkt → Slot → Merge → Merge
unfolding store
keep_ahead p none s = store p s
keep_ahead p (some (seq_in_slot, _)) s =
    if seq_in_slot == p.seq then s else if ltb seq_in_slot s.next_seq then store p s else s

-- beyond the window, or with too many kept, it shows a gap.
unfoldable pub on_gap : Bool → Pkt → Merge → Merge
unfolding sat64
on_gap recovery p s = record s {
  recent_gaps = sat64 s.recent_gaps;
  gaps = if recovery then s.gaps ++ ((s.next_seq, p.seq - 1) ∷ []) else s.gaps;
}

unfoldable pub on_ahead : Bool → ℕ → Pkt → Merge → Outcome Merge
unfolding slot_at
on_ahead recovery max_pending p s =
    if leb (p.seq - s.next_seq) s.reorder_window && ltb s.pending_count max_pending
    then (slot_at s.ring (p.seq % s.cap) >>= λ o. ok (keep_ahead p o s))
    else ok (on_gap recovery p s)

-- `q_list[idx % n].pop()`, with `n` the length of the list but at least one.
unfoldable pub poll : List (Option Pkt) → ℕ → Outcome (Option Pkt)
poll ps idx = elim (get_elem? ps (idx % max (length ps) 1)) [ none ↦ panic | some o ↦ ok o ]

-- The window and the dwell time are looked at after 4096 packets from the ring.
unfoldable pub adapt_window : ℕ → Merge → ℕ
unfolding wrap64
adapt_window window_max s =
    let grown =
      if ltb 0 s.recent_gaps && ltb s.reorder_window window_max
      then min (wrap64 (s.reorder_window + max (s.reorder_window / 4) 1)) window_max
      else s.reorder_window in
    if s.recent_ooo == 0 && s.recent_gaps == 0 && ltb 8 grown
    then max (grown - grown / 8) 8
    else grown

unfoldable pub adapt_dwell : ℕ → Merge → ℕ
adapt_dwell dwell_ns s =
    if leb 4 s.switches_in_window
    then min (min (s.min_dwell_ns * 2) (2 ^ 64 - 1)) 50000000
    else if s.switches_in_window == 0 && ltb dwell_ns s.min_dwell_ns
    then max (s.min_dwell_ns - s.min_dwell_ns / 4) dwell_ns
    else s.min_dwell_ns

unfoldable pub adapt : MergeConfig → Merge → Merge
unfolding adapt_window adapt_dwell
adapt cfg s =
    if cfg.adaptive && leb 4096 s.forwarded_since_check
    then record s {
      reorder_window = adapt_window cfg.reorder_window_max s;
      min_dwell_ns = adapt_dwell cfg.dwell_ns s;
      forwarded_since_check = 0;
      recent_gaps = 0;
      recent_ooo = 0;
      switches_in_window = 0;
    }
    else s
