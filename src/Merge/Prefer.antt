-- ===== src/Merge/Prefer.antt =====
-- src/merge.rs: the choice of the preferred feed leaves the sequence and the ring alone.
use mathlib.Core.Path.{subst}
use numi_orderbook.Base.{ℕ, ◌≡◌, refl, Bool, not, ◌||◌, ◌&&◌, inl, inr, sym, arith, Bool-cases}
use numi_orderbook.Wire.{ok}
use numi_orderbook.Reorder.{Merge}
use numi_orderbook.Merge.{hysteresis, seen_preferred, seen_other, dwelt, switch_to}
use numi_orderbook.Merge.Valid.{Holds, NotDue, Runs}
use numi_orderbook.Merge.Drain.{Drained}

pub record Untouched (s t : Merge) : Type 0 where
  pub same_next : t.next_seq ≡ s.next_seq
  pub same_window : t.reorder_window ≡ s.reorder_window
  pub same_cap : t.cap ≡ s.cap
  pub same_ring : t.ring ≡ s.ring
  pub same_pending : t.pending_count ≡ s.pending_count
  pub same_out : t.out ≡ s.out

pub Untouched-Drained :
    (span : ℕ) (r s t : Merge) → Untouched s t → Drained span r (ok s) → Drained span r (ok t)
Untouched-Drained span r s t un (s', e, v, (ps, o, runs), c) =
    let q : s ≡ s' = cc e in
    (
      t,
      refl,
      (
        rw (un.same_window, un.same_cap, un.same_ring, un.same_pending, un.same_next)
            (subst (Holds span) (sym q) v.0),
        λ i p g. (subst NotDue (sym q) v.1) i p (cc (g, un.same_ring, un.same_next)),
      ),
      (ps, cc (un.same_out, q, o), subst (Runs r.next_seq ps) (cc (un.same_next, q)) runs),
      cc (un.same_cap, q, c),
    )

module _ (clock : ℕ → ℕ) where
  dwelt-Untouched : (a : Bool) (s : Merge) → Untouched s (dwelt clock a s)
  unfolding dwelt switch_to
  dwelt-Untouched a s = ground arith

  seen_preferred-Untouched : (s : Merge) → Untouched s (seen_preferred clock s)
  unfolding seen_preferred
  seen_preferred-Untouched s = ground arith

  seen_other-Untouched : (s : Merge) → Untouched s (seen_other clock s)
  unfolding seen_other
  seen_other-Untouched s = ground arith

  pub hysteresis-Untouched : (was_a : Bool) (s : Merge) → Untouched s (hysteresis clock was_a s)
  unfolding hysteresis
  hysteresis-Untouched was_a s =
      elim (Bool-cases (s.prefer_a && was_a || not s.prefer_a && not was_a)) [
        | inl same ↦ rw same (seen_preferred-Untouched s)
        | inr other ↦ rw other (seen_other-Untouched s)
      ]
