-- ===== src/Merge/Turn.antt =====
-- src/merge.rs: the turns of the loop end without a panic and send one unbroken sequence.
use native.Mathlib.Nat.{mod-lt}
use mathlib.Core.List.{append-nil}
use mathlib.Core.Path.{subst}
use Prim.Native.Nat.{max}
use numi_orderbook.Base.{
  ℕ, zero, suc, ◌+◌, ◌%◌, ◌^◌, ◌≤◌, ◌<◌, ◌≡◌, refl, length-replicate, Bool, ◌&&◌, ◌||◌, not, true,
  false, inl, inr, Option, none, some, List, [], ◌∷◌, ◌∙◌, sym, arith, length, get_elem?, All, take,
  Bool-cases, leb,
}
use numi_orderbook.Wire.{Outcome, ok}
use numi_orderbook.Pool.{Pkt}
use numi_orderbook.Reorder.{Merge, MergeConfig, Polls, wrap64, sat64, poll, adapt, adapt_window}
use numi_orderbook.Merge.{start, on_polled, drain_recovered, round, turn, merge_turns, merge_loop}
use numi_orderbook.Merge.Ring.{occupied-empty, empty_slot}
use numi_orderbook.Merge.Valid.{IsValid, Runs, Progress}
use numi_orderbook.Merge.Drain.{Drained, Progress-trans}
use numi_orderbook.Merge.Packet.{Drained-same, on_recovered-Drained, on_packet-Drained}

abbrev pub IsU64 : Option Pkt → Type 0
IsU64 none = Unit
IsU64 (some p) = p.seq < 2 ^ 64

-- Each feed has a worker at least, and sequence numbers are u64.
pub record IsPolls (ps : Polls) : Type 0 where
  pub workers_a : 0 < length ps.from_a
  pub workers_b : 0 < length ps.from_b
  pub recovered_u64 : All (λ p. p.seq < 2 ^ 64) ps.recovered
  pub a_u64 : All IsU64 ps.from_a
  pub b_u64 : All IsU64 ps.from_b

Drained-trans :
    (span : ℕ) (s t : Merge) (r : Outcome Merge)
    → Progress s t
    → t.cap ≡ s.cap
    → Drained span t r
    → Drained span s r
Drained-trans span s t r pr c (u, e, v, pr', c') = (u, e, v, Progress-trans s t u pr pr', c' ∙ c)

take-All {ℓ κ} : {A : Type ℓ} (P : A → Type κ) (n : ℕ) (xs : List A) → All P xs → All P (take n xs)
take-All P zero xs h = tt
take-All P (suc n) [] h = tt
take-All P (suc n) (x ∷ xs) h = (h.0, take-All P n xs h.1)

polled :
    (ps : List (Option Pkt)) (i : ℕ)
    → i < length ps
    → All IsU64 ps
    → (o : Option Pkt) × (get_elem? ps i ≡ some o) × IsU64 o
polled [] i h a = absurd (omega arith)
polled (o ∷ ps) zero h a = (o, refl, a.0)
polled (o ∷ ps) (suc i) h a = polled ps i (omega arith) a.1

poll-ok :
    (ps : List (Option Pkt)) (idx : ℕ)
    → 0 < length ps
    → All IsU64 ps
    → (o : Option Pkt) × (poll ps idx ≡ ok o) × IsU64 o
unfolding poll
poll-ok ps idx h a =
    let in_range : idx % max (length ps) 1 < length ps =
      omega (arith, mod-lt idx {m = max (length ps) 1} (omega arith)) in
    let (o, e, u) = polled ps (idx % max (length ps) 1) in_range a in (o, ground (arith, e), u)

module _ (clock : ℕ → ℕ) (recovery : Bool) (max_pending span : ℕ) where
  drain_recovered-Drained :
      (ps : List Pkt) (s : Merge)
      → IsValid span s
      → All (λ p. p.seq < 2 ^ 64) ps
      → Drained span s (drain_recovered clock recovery max_pending ps s)
  unfolding drain_recovered
  drain_recovered-Drained [] s v h = Drained-same span s v
  drain_recovered-Drained (p ∷ ps) s v h =
      let (t, e, w, pr, c) = on_recovered-Drained clock recovery max_pending span p s v h.0 in
      rw e (Drained-trans span s t _ pr c (drain_recovered-Drained ps t w h.1))

  on_polled-Drained :
      (o : Option Pkt) (s : Merge)
      → IsValid span s
      → IsU64 o
      → Drained span s (on_polled clock recovery max_pending o s)
  unfolding on_polled
  on_polled-Drained none s v h = Drained-same span s v
  on_polled-Drained (some p) s v h = on_packet-Drained clock recovery max_pending span p s v h

  round-Drained :
      (first : Bool) (ps : Polls) (s : Merge)
      → IsValid span s
      → IsPolls ps
      → Drained span s (round clock recovery max_pending first ps s)
  unfolding round
  round-Drained first ps s v h =
      elim (Bool-cases (first && s.prefer_a || not first && not s.prefer_a)) [
        | inl a ↦
            let (o, e, u) = poll-ok ps.from_a s.idx_a h.workers_a h.a_u64 in
            rw (a, e) (on_polled-Drained o (record s { idx_a = wrap64 (s.idx_a + 1) }) v u)
        | inr b ↦
            let (o, e, u) = poll-ok ps.from_b s.idx_b h.workers_b h.b_u64 in
            rw (b, e) (on_polled-Drained o (record s { idx_b = wrap64 (s.idx_b + 1) }) v u)
      ]

adapt_window-le :
    (window_max : ℕ) (s : Merge) (span : ℕ)
    → s.reorder_window ≤ span
    → window_max ≤ span
    → adapt_window window_max s ≤ span
unfolding adapt_window
adapt_window-le window_max s span h k = ground arith

adapt-Drained :
    (cfg : MergeConfig) (s : Merge) (span : ℕ)
    → IsValid span s
    → cfg.reorder_window_max ≤ span
    → Drained span s (ok (adapt cfg s))
unfolding adapt
adapt-Drained cfg s span v le =
    elim (Bool-cases (cfg.adaptive && leb 4096 s.forwarded_since_check)) [
      | inl now ↦ rw now (
        _,
        refl,
        (
          record {
            cap_pos = v.0.cap_pos;
            in_window = adapt_window-le cfg.reorder_window_max s span v.0.in_window le;
            full_ring = v.0.full_ring;
            counted = v.0.counted;
            entries = v.0.entries;
          },
          v.1,
        ),
        ([], sym (append-nil s.out), refl),
        refl,
      )
      | inr later ↦ rw later (Drained-same span s v)
    ]

module _ (clock : ℕ → ℕ) (recovery : Bool) (cfg : MergeConfig) (span : ℕ)
    (le : cfg.reorder_window_max ≤ span) where
  -- One turn of the loop, from a valid state and on polls as above, ends without a panic in a valid
  -- state with the same ring size, and what it sends continues the sequence.
  pub turn-Drained :
      (ps : Polls) (s : Merge)
      → IsValid span s
      → IsPolls ps
      → Drained span s (turn clock recovery cfg ps s)
  unfolding turn
  turn-Drained ps s v h =
      let (s1, e1, v1, p1, c1) =
        drain_recovered-Drained clock recovery cfg.max_pending span (take 32 ps.recovered) s v
          (take-All _ 32 ps.recovered h.recovered_u64) in
      let (s2, e2, v2, p2, c2) =
        round-Drained clock recovery cfg.max_pending span true ps s1 v1 h in
      let (s3, e3, v3, p3, c3) =
        round-Drained clock recovery cfg.max_pending span false ps s2 v2 h in
      rw (e1, e2, e3)
        (Drained-trans span s s1 _ p1 c1 (
          Drained-trans span s1 s2 _ p2 c2
            (Drained-trans span s2 s3 _ p3 c3 (adapt-Drained cfg s3 span v3 le))))

  merge_turns-Drained :
      (turns : List Polls) (s : Merge)
      → IsValid span s
      → All IsPolls turns
      → Drained span s (merge_turns clock recovery cfg turns s)
  unfolding merge_turns
  merge_turns-Drained [] s v h = Drained-same span s v
  merge_turns-Drained (ps ∷ turns) s v h =
      let (t, e, w, pr, c) = turn-Drained ps s v h.0 in
      rw e (Drained-trans span s t _ pr c (merge_turns-Drained turns t w h.1))

  pub start-IsValid : cfg.reorder_window ≤ span → IsValid span (start clock cfg)
  unfolding start
  start-IsValid w = (
    record {
      cap_pos = ground arith;
      in_window = w;
      full_ring = length-replicate (sat64 cfg.reorder_window) none;
      counted = sym (occupied-empty (sat64 cfg.reorder_window));
      entries = λ i e p g. absurd (empty_slot (sat64 cfg.reorder_window) i e p g);
    },
    λ i p g. empty_slot (sat64 cfg.reorder_window) i cfg.next_seq p g,
  )

  -- With one worker or more for each feed, u64 sequence numbers, and the configured window and its
  -- maximum at most `span`, any number of turns of the loop ends without a panic, its drains have
  -- fuel enough, and the packets it sends are numbered without a gap or a repetition from the
  -- configured number on, up to before the number that is due next (modulo 2^64). The ring is valid
  -- at the end: it counts its packets, each stands in its slot, at most `span` ahead, and none that
  -- is due is held back.
  pub merge_loop_in_sequence :
      cfg.reorder_window ≤ span
      → (turns : List Polls) → All IsPolls turns
      → (s : Merge) × (merge_loop clock recovery cfg turns ≡ ok s)
        × Runs cfg.next_seq s.out s.next_seq
        × IsValid span s
  unfolding merge_loop
  merge_loop_in_sequence w turns h =
      let (s, e, v, (ps, o, r), c) =
        merge_turns-Drained turns (start clock cfg) (start-IsValid w) h in
      (s, e, subst (λ l. Runs cfg.next_seq l s.next_seq) (sym o) r, v)
