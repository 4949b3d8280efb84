-- ===== src/Pubsub/Session.antt =====
-- src/pubsub.rs: one reader and the publishers, in any order of their steps, and the sequence numbers
-- of the instruments.
use numi_orderbook.Base.{
  ℕ, suc, ◌+◌, ◌%◌, ◌^◌, ◌<◌, ◌≤◌, ◌≡◌, refl, ap, ◌∙◌, List, [], ◌∷◌, ◌++◌, length, drop, arith,
  length-append, ◌==◌, if◌then◌else◌,
}
use numi_orderbook.Base.Dict.{lookup, lookup-insert}
use numi_orderbook.Pubsub.{
  Ring, Subscription, Recv, push_frame, recv_next, new_bus, next_seq_for_instrument, seq_or_first,
}
use numi_orderbook.Pubsub.Log.{IsLog, read_log, push_frame-IsLog, recv_next-log}

pub data Op : Type 0 where
  publish : List ℕ → Op
  read : Op

-- What the reader gets, one result for each `read`.
unfoldable pub run : Ring → Subscription → List Op → List Recv
run r s [] = []
run r s (Op.publish f ∷ ops) = run (push_frame f r) s ops
run r s (Op.read ∷ ops) = (recv_next r s).0 ∷ run r (recv_next r s).1 ops

unfoldable pub run_log : ℕ → List (List ℕ) → ℕ → List Op → List Recv
run_log cap log c [] = []
run_log cap log c (Op.publish f ∷ ops) = run_log cap (log ++ (f ∷ [])) c ops
run_log cap log c (Op.read ∷ ops) =
    (read_log cap log c).0 ∷ run_log cap log (read_log cap log c).1 ops

cap-push_frame : (f : List ℕ) (r : Ring) → (push_frame f r).cap ≡ r.cap
unfolding push_frame
cap-push_frame f r = refl

-- A reader of the ring, with any frames published between its reads (the numbers staying below
-- 2^64), gets exactly what it would get from the log of all frames: each frame in turn, a gap that
-- names all evicted numbers once the frame at its cursor is no longer among the last `cap`, and a
-- wait at the end.
pub run_refines :
    (ops : List Op) (log : List (List ℕ)) (r : Ring) (c : ℕ)
    → IsLog log r
    → length log + length ops < 2 ^ 64
    → run r (record { next_global = c }) ops ≡ run_log r.cap log c ops
unfolding run run_log
run_refines [] log r c v fits = refl
run_refines (Op.publish f ∷ ops) log r c v fits =
    run_refines ops (log ++ (f ∷ [])) (push_frame f r) c (push_frame-IsLog log r v f (omega arith))
      (omega (arith, length-append log (f ∷ [])))
    ∙ ap (λ k. run_log k (log ++ (f ∷ [])) c ops) (cap-push_frame f r)
run_refines (Op.read ∷ ops) log r c v fits = rw (recv_next-log log r v c (omega arith)) (
    ap (◌∷◌ (read_log r.cap log c).0)
      (run_refines ops log r (read_log r.cap log c).1 v (omega arith)))

pub new_bus-IsLog : (n : ℕ) → 0 < n → IsLog [] (new_bus n).ring
unfolding new_bus
new_bus-IsLog n h = record {
  cap_pos = h;
  tail = refl;
  window = ap (λ n. drop n []) {x = 0} (omega arith);
}

-- The numbers handed out so far, and how often an instrument asked.
pub after : List ℕ → List (ℕ × ℕ) → List (ℕ × ℕ)
after [] m = m
after (i ∷ is) m = after is (next_seq_for_instrument i m).1

abbrev pub count : ℕ → List ℕ → ℕ
count i [] = 0
count i (j ∷ js) = if j == i then suc (count i js) else count i js

count-le : (i : ℕ) (is : List ℕ) → count i is ≤ length is
count-le i [] = omega arith
count-le i (j ∷ js) = ground (arith, count-le i js)

seq_next :
    (j i : ℕ) (m : List (ℕ × ℕ))
    → seq_or_first (lookup i (next_seq_for_instrument j m).1)
      ≡ (if j == i then (seq_or_first (lookup i m) + 1) % 2 ^ 64 else seq_or_first (lookup i m))
unfolding next_seq_for_instrument
seq_next j i m = ground (arith, lookup-insert j i ((seq_or_first (lookup j m) + 1) % 2 ^ 64) m)

seq_after :
    (is : List ℕ) (m : List (ℕ × ℕ)) (i : ℕ)
    → seq_or_first (lookup i m) + count i is < 2 ^ 64
    → seq_or_first (lookup i (after is m)) ≡ seq_or_first (lookup i m) + count i is
unfolding after
seq_after [] m i h = omega arith
seq_after (j ∷ is) m i h =
    ground (arith, seq_next j i m, seq_after is (next_seq_for_instrument j m).1 i)

-- Whatever instruments asked before, fewer than 2^64 - 1 times in all, an instrument that asked n
-- times is handed the number n + 1.
pub next_seq-count :
    (is : List ℕ) (i : ℕ)
    → length is + 1 < 2 ^ 64
    → (next_seq_for_instrument i (after is [])).0 ≡ count i is + 1
unfolding next_seq_for_instrument lookup
next_seq-count is i h =
    omega (arith, seq_after is [] i (omega (arith, count-le i is)), count-le i is)
