-- ===== src/Merge/Examples.antt =====
-- src/merge.rs: its test's packets through the loop, and the theorems at concrete states.
use mathlib.Core.List.{map}
use numi_orderbook.Base.{
  ℕ, zero, suc, ◌^◌, ◌≤◌, ◌<◌, ◌≡◌, refl, ◌≢◌, true, false, Option, none, some, List, [], ◌∷◌,
  arith, get_elem?, All,
}
use numi_orderbook.Wire.{Outcome, ok}
use numi_orderbook.Pool.{Pkt, PktBuf, TsKind}
use numi_orderbook.Reorder.{Merge, MergeConfig, Polls, Slot, on_ahead, adapt, poll, keep_ahead}
use numi_orderbook.Merge.{
  start, merge_loop, merge_turns, seen_preferred, turn, drain, hysteresis, on_packet, on_recovered,
  drain_recovered, round, on_polled, on_due,
}
use numi_orderbook.Merge.Ring.{occupied}
use numi_orderbook.Merge.Valid.{IsEntry, IsValid, Runs}
use numi_orderbook.Merge.Drain.{Drained}
use numi_orderbook.Merge.Turn.{turn-Drained, IsPolls, IsU64, merge_loop_in_sequence, start-IsValid}
use numi_orderbook.Merge.Keep.{on_ahead_keeps, on_ahead_loses}

abbrev packet : ℕ → ℕ → Pkt
packet seq chan = record {
  buf = PktBuf.bytes [];
  len = 0;
  seq = seq;
  ts_nanos = 0;
  chan = chan;
  ts_kind = TsKind.sw;
  merge_emit_ns = 0;
}

abbrev clock : ℕ → ℕ
clock n = n

abbrev cfg : MergeConfig
cfg = record {
  next_seq = 1;
  reorder_window = 4;
  max_pending = 64;
  dwell_ns = 0;
  adaptive = false;
  reorder_window_max = 8;
}

abbrev polls : List Pkt → Option Pkt → Option Pkt → Polls
polls r a b = record { recovered = r; from_a = a ∷ []; from_b = b ∷ [] }

abbrev turns : List Polls
turns =
    polls [] (some (packet 1 b'A')) (some (packet 3 b'B'))
    ∷ polls [] (some (packet 2 b'A')) (some (packet 2 b'B'))
    ∷ polls (packet 6 b'R' ∷ []) (some (packet 4 b'A')) none
    ∷ []

abbrev seqs : Outcome Merge → List ℕ
seqs (ok s) = map (λ p. p.seq) s.out
seqs _ = []

is_turn :
    (r : List Pkt) (a b : Option Pkt)
    → All (λ p. p.seq < 2 ^ 64) r
    → IsU64 a
    → IsU64 b
    → IsPolls (polls r a b)
is_turn r a b hr ha hb = record {
  workers_a = omega arith;
  workers_b = omega arith;
  recovered_u64 = hr;
  a_u64 = (ha, tt);
  b_u64 = (hb, tt);
}

turns-IsPolls : All IsPolls turns
turns-IsPolls = (
  is_turn _ _ _ (omega arith) (omega arith) (omega arith),
  (
    is_turn _ _ _ (omega arith) (omega arith) (omega arith),
    (is_turn _ _ _ (omega arith) (omega arith) (omega arith), tt),
  ),
)

run_test : seqs (merge_loop clock true cfg turns) ≡ 1 ∷ 2 ∷ 3 ∷ 4 ∷ []
unfolding merge_loop turn round poll on_polled on_packet on_due drain drain_recovered on_recovered
    on_ahead keep_ahead hysteresis adapt merge_turns seen_preferred
run_test = refl

merge_loop_in_sequence_example :
    (s : Merge) × (merge_loop clock true cfg turns ≡ ok s) × Runs 1 s.out s.next_seq × IsValid 8 s
merge_loop_in_sequence_example =
    merge_loop_in_sequence clock true cfg 8 (omega arith) (omega arith) turns turns-IsPolls

on_ahead_keeps_example :
    (t : Merge) × (on_ahead true 64 (packet 3 b'B') (start clock cfg) ≡ ok t)
    × ((q : Pkt) × (get_elem? t.ring 3 ≡ some (some (3, q))))
unfolding start
on_ahead_keeps_example =
    on_ahead_keeps (start clock cfg) (packet 3 b'B') true 64 4
      (start-IsValid clock true (record cfg { reorder_window_max = 4 }) 4 (omega arith)
        (omega arith))
      (omega arith) (omega arith) (omega arith) (omega arith)

-- A window that has grown to 4 over a ring of two slots.
abbrev grown : Merge
unfolding start
grown = record (start clock cfg) {
  cap = 2;
  ring = none ∷ some (3, packet 3 b'B') ∷ [];
  pending_count = 1;
}

grown_entries :
    (i e : ℕ) (p : Pkt)
    → get_elem? {A = Slot} (none ∷ some (3, packet 3 b'B') ∷ []) i ≡ some (some (e, p))
    → IsEntry 4 2 1 i e p
grown_entries zero e p h = cc
grown_entries (suc zero) e p h =
    let num : 3 ≡ e = cc h in
    let same : packet 3 b'B' ≡ p = cc h in
    record {
      in_slot = rw (← num) refl;
      numbered = rw (← same) num;
      not_behind = omega (arith, num);
      in_span = omega (arith, num);
      in_u64 = omega (arith, num);
    }
grown_entries (suc (suc i)) e p h = cc

grown_due :
    (i : ℕ) (p : Pkt)
    → get_elem? {A = Slot} (none ∷ some (3, packet 3 b'B') ∷ []) i ≢ some (some (1, p))
grown_due zero p h = cc
grown_due (suc zero) p h = cc
grown_due (suc (suc i)) p h = cc

grown-IsValid : IsValid 4 grown
unfolding start occupied
grown-IsValid = (
  record {
    cap_pos = omega arith;
    in_window = omega arith;
    full_ring = refl;
    counted = refl;
    entries = grown_entries;
  },
  grown_due,
)

on_ahead_loses_example : (on_ahead true 64 (packet 5 b'A') grown ≡ ok grown) × (2 ≤ 4)
unfolding start
on_ahead_loses_example =
    on_ahead_loses grown (packet 5 b'A') true 64 4 grown-IsValid (omega arith) (omega arith)
      (omega arith) 3 (packet 3 b'B') refl (omega arith)

turn-Drained_example :
    Drained 8 (start clock cfg) (
      turn clock true cfg
        (polls [] (some (packet 1 b'A')) (some (packet 3 b'B')))
        (start clock cfg))
turn-Drained_example =
    turn-Drained clock true cfg 8 (omega arith)
      (polls [] (some (packet 1 b'A')) (some (packet 3 b'B'))) (start clock cfg)
      (start-IsValid clock true cfg 8 (omega arith) (omega arith)) turns-IsPolls.0
