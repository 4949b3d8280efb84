-- ===== src/Merge/Drain.antt =====
-- src/merge.rs: the drain of the reorder ring ends, and leaves no packet behind that is due.
use native.Mathlib.Nat.{mod-lt}
use mathlib.Core.List.{append-nil, append_assoc}
use numi_orderbook.Base.{
  ℕ, zero, suc, ◌+◌, ◌-◌, ◌%◌, ◌^◌, ◌<◌, ◌≡◌, refl, ◌≢◌, Bool, inl, inr, none, some, List, [], ◌∷◌,
  ◌++◌, ◌∙◌, ap, sym, arith, get_elem?, set, length-set, get_elem?-set_self, get_elem?-set_ne,
  get_elem?-lt, ==_eq, ==_refl, ◌==◌, Bool-cases,
}
use numi_orderbook.Wire.{Outcome, ok}
use numi_orderbook.Pool.{Pkt}
use numi_orderbook.Reorder.{Merge, Slot, wrap64}
use numi_orderbook.Merge.{release, drain}
use numi_orderbook.Merge.Ring.{occupied, occupied-set-none, slot_in}
use numi_orderbook.Merge.Valid.{IsEntry, Held, Holds, IsValid, Runs, Progress}

-- The entry of one slot is taken off.
module _ {span window cap pending next : ℕ} {ring : List Slot}
    (h : Held span window cap ring pending next) where
  slot_of_due : (i : ℕ) (p : Pkt) → get_elem? ring i ≡ some (some (next, p)) → i ≡ next % cap
  slot_of_due i p e = sym (h.entries i next p e).in_slot

  module _ (i e : ℕ) (node : Pkt) (at_i : get_elem? ring i ≡ some (some (e, node))) where
    kept :
        (j f : ℕ) (p : Pkt)
        → get_elem? (set ring i none) j ≡ some (some (f, p))
        → (i ≢ j) × (get_elem? ring j ≡ some (some (f, p)))
    kept j f p g = elim (Bool-cases (i == j)) [
      | inl same ↦ absurd (
          cc (
            g,
            ==_eq i j same,
            get_elem?-set_self ring i none (get_elem?-lt ring i (some (e, node)) at_i),
          ))
      | inr other ↦
          ((λ q. ground (arith, q)), sym (get_elem?-set_ne ring i j none (ground arith)) ∙ g)
    ]

    pub emptied : Held span window cap (set ring i none) (pending - 1) next
    emptied = record {
      cap_pos = h.cap_pos;
      in_window = h.in_window;
      full_ring = length-set ring i none ∙ h.full_ring;
      counted = omega (arith, h.counted, occupied-set-none ring i (e, node) at_i);
      entries = λ j f p g. h.entries j f p (kept j f p g).1;
    }

-- When nothing is due, the sequence can go on by one.
pub advance-Held :
    {span window cap pending next : ℕ} {ring : List Slot}
    → Held span window cap ring pending next
    → ((i : ℕ) (p : Pkt) → get_elem? ring i ≢ some (some (next, p)))
    → Held span window cap ring pending (wrap64 (next + 1))
unfolding wrap64
advance-Held {span} {window} {cap} {pending} {next} {ring} h n = record {
  cap_pos = h.cap_pos;
  in_window = h.in_window;
  full_ring = h.full_ring;
  counted = h.counted;
  entries = ahead;
}
  where
    ahead :
        (i e : ℕ) (p : Pkt)
        → get_elem? ring i ≡ some (some (e, p))
        → IsEntry span cap ((next + 1) % 2 ^ 64) i e p
    ahead i e p g =
        let d = h.entries i e p g in
        let ne : next ≢ e = λ q. n i p (rw q g) in
        record {
          in_slot = d.in_slot;
          numbered = d.numbered;
          not_behind = omega (arith, d.not_behind, d.in_u64, ne);
          in_span = omega (arith, d.in_span, d.in_u64, d.not_behind, ne);
          in_u64 = d.in_u64;
        }

module _ (clock : ℕ → ℕ) (ooo : Bool) (s : Merge) {span : ℕ} (h : Holds span s) where
  module _ (node : Pkt)
      (at_due : get_elem? s.ring (s.next_seq % s.cap) ≡ some (some (s.next_seq, node))) where
    pub release-Holds : Holds span (release clock ooo (s.next_seq % s.cap) node s)
    unfolding release
    release-Holds = advance-Held (emptied h (s.next_seq % s.cap) s.next_seq node at_due) λ j p g.
        let k = kept h (s.next_seq % s.cap) s.next_seq node at_due j s.next_seq p g in
        k.0 (sym (slot_of_due h j p k.1))

    pub release-Progress : Progress s (release clock ooo (s.next_seq % s.cap) node s)
    unfolding release
    release-Progress = (
      record node { merge_emit_ns = clock s.reads } ∷ [],
      refl,
      ((h.entries (s.next_seq % s.cap) s.next_seq node at_due).numbered, refl),
    )

    pub occupied-release :
        occupied (release clock ooo (s.next_seq % s.cap) node s).ring + 1 ≡ occupied s.ring
    unfolding release
    occupied-release = occupied-set-none s.ring (s.next_seq % s.cap) (s.next_seq, node) at_due

pub Runs-append : (n m l : ℕ) (ps qs : List Pkt) → Runs n ps m → Runs m qs l → Runs n (ps ++ qs) l
Runs-append n m l [] qs r r' = rw r r'
Runs-append n m l (p ∷ ps) qs r r' = (r.0, Runs-append (wrap64 (n + 1)) m l ps qs r.1 r')

pub Progress-trans : (s t u : Merge) → Progress s t → Progress t u → Progress s u
Progress-trans s t u (ps, o, r) (qs, o', r') = (
  ps ++ qs,
  o' ∙ ap (λ l. l ++ qs) o ∙ append_assoc s.out ps qs,
  Runs-append s.next_seq t.next_seq u.next_seq ps qs r r',
)

abbrev pub Drained : ℕ → Merge → Outcome Merge → Type 0
Drained span s r = (s' : Merge) × (r ≡ ok s') × IsValid span s' × Progress s s' × (s'.cap ≡ s.cap)

module _ (clock : ℕ → ℕ) (ooo : Bool) where
  cap_release :
      (s : Merge) (node : Pkt) → (release clock ooo (s.next_seq % s.cap) node s).cap ≡ s.cap
  unfolding release
  cap_release s node = refl

  drain_at :
      (fuel : ℕ) (s : Merge) (span : ℕ)
      → Holds span s
      → ((t : Merge)
          → Holds span t
          → occupied t.ring < fuel
          → Drained span t (drain clock fuel ooo t))
      → occupied s.ring < suc fuel
      → (o : Slot) → get_elem? s.ring (s.next_seq % s.cap) ≡ some o
      → Drained span s (drain clock (suc fuel) ooo s)
  unfolding drain
  drain_at fuel s span h rest lt none e = (
    s,
    ground (arith, e),
    (h, λ i p g. cc (slot_of_due h i p g, g, e)),
    ([], sym (append-nil s.out), refl),
    refl,
  )
  drain_at fuel s span h rest lt (some (stored_seq, node)) e =
      elim (Bool-cases (stored_seq == s.next_seq)) [
        | inl same ↦
            let at_due : get_elem? s.ring (s.next_seq % s.cap) ≡ some (some (s.next_seq, node)) =
              cc (e, ==_eq stored_seq s.next_seq same) in
            let t = release clock ooo (s.next_seq % s.cap) node s in
            let (u, q, v, pr, c) =
              rest t (release-Holds clock ooo s h node at_due)
                (omega (arith, occupied-release clock ooo s h node at_due)) in
            (
              u,
              ground (arith, e, same, q),
              v,
              Progress-trans s t u (release-Progress clock ooo s h node at_due) pr,
              c ∙ cap_release s node,
            )
        | inr other ↦ (
          s,
          ground (arith, e, other),
          (h, λ i p g. cc (slot_of_due h i p g, g, e, ==_refl stored_seq, other)),
          ([], sym (append-nil s.out), refl),
          refl,
        )
      ]

  pub drain_ends :
      (fuel : ℕ) (s : Merge) (span : ℕ)
      → Holds span s
      → occupied s.ring < fuel
      → Drained span s (drain clock fuel ooo s)
  drain_ends zero s span h lt = absurd (omega arith)
  drain_ends (suc fuel) s span h lt =
      let (o, e) =
        slot_in s.ring (s.next_seq % s.cap)
          (omega (arith, h.full_ring, mod-lt s.next_seq h.cap_pos)) in
      drain_at fuel s span h (λ t. drain_ends fuel t span) lt o e
