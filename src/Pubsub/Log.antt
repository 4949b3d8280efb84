-- ===== src/Pubsub/Log.antt =====
-- src/pubsub.rs: the ring as the last frames of a log of all frames, and its readers against the log.
use native.Mathlib.Nat.{add-zero}
use numi_orderbook.Base.{
  ℕ, zero, suc, ◌+◌, ◌-◌, ◌^◌, ◌≤◌, ◌<◌, ◌≡◌, refl, ap, sym, ◌∙◌, inl, inr, false, Bool-cases,
  Option, none, some, List, [], ◌∷◌, ◌++◌, ltb, leb, ◌==◌, ◌||◌, if◌then◌else◌, length, get_elem?,
  drop, arith, length-drop, length-append,
}
use numi_orderbook.Pubsub.{Ring, Recv, push_frame, recv_next}

-- The frames with their global numbers.
abbrev pub numbered : ℕ → List (List ℕ) → List (ℕ × List ℕ)
numbered k [] = []
numbered k (f ∷ fs) = (k, f) ∷ numbered (k + 1) fs

length-numbered : (k : ℕ) (fs : List (List ℕ)) → length (numbered k fs) ≡ length fs
length-numbered k [] = refl
length-numbered k (f ∷ fs) = ap suc (length-numbered (k + 1) fs)

numbered-append :
    (k : ℕ) (fs : List (List ℕ)) (f : List ℕ)
    → numbered k (fs ++ (f ∷ [])) ≡ numbered k fs ++ ((k + length fs, f) ∷ [])
numbered-append k [] f = ap (λ n. (n, f) ∷ []) (omega arith)
numbered-append k (g ∷ fs) f =
    ap (◌∷◌ (k, g))
      (numbered-append (k + 1) fs f ∙ ap (λ n. numbered (k + 1) fs ++ ((n, f) ∷ [])) (omega arith))

module _ {ℓ} {A : Type ℓ} where
  drop-append_le : (n : ℕ) (xs ys : List A) → n ≤ length xs → drop n (xs ++ ys) ≡ drop n xs ++ ys
  drop-append_le zero xs ys h = refl
  drop-append_le (suc n) [] ys h = absurd (omega arith)
  drop-append_le (suc n) (x ∷ xs) ys h = drop-append_le n xs ys (omega arith)

  drop_one : (n : ℕ) (xs : List A) → drop 1 (drop n xs) ≡ drop (suc n) xs
  drop_one zero xs = refl
  drop_one (suc n) [] = refl
  drop_one (suc n) (x ∷ xs) = drop_one n xs

  get_elem?-drop : (n i : ℕ) (xs : List A) → get_elem? (drop n xs) i ≡ get_elem? xs (n + i)
  get_elem?-drop zero i xs = ap (get_elem? xs) {x = i} (omega arith)
  get_elem?-drop (suc n) i [] = refl
  get_elem?-drop (suc n) i (x ∷ xs) =
      get_elem?-drop n i xs ∙ ap (get_elem? (x ∷ xs)) {x = suc (n + i)} (omega arith)

-- The log of all frames stands behind the ring.
pub record IsLog (log : List (List ℕ)) (r : Ring) : Type 0 where
  pub cap_pos : 0 < r.cap
  pub tail : r.next_global ≡ length log
  pub window : r.buf ≡ drop (length log - r.cap) (numbered 0 log)

-- What a reader at cursor `c` sees of the log: the frame with its number while it is among the last
-- `cap`, all older numbers as a gap, and nothing beyond the end.
abbrev pub read_entry : (cap len c : ℕ) → Option (List ℕ) → Recv × ℕ
read_entry cap len c none = (Recv.wait, c)
read_entry cap len c (some f) =
    if ltb c (len - cap) then (Recv.gap c (len - cap - 1), c) else (Recv.frame f, c + 1)

abbrev pub read_log : ℕ → List (List ℕ) → ℕ → Recv × ℕ
read_log cap log c = read_entry cap (length log) c (get_elem? log c)

get_elem?-numbered :
    (k i : ℕ) (fs : List (List ℕ)) (f : List ℕ)
    → get_elem? fs i ≡ some f
    → get_elem? (numbered k fs) i ≡ some (k + i, f)
get_elem?-numbered k i [] f h = cc
get_elem?-numbered k zero (g ∷ fs) f h = cc (h, add-zero k)
get_elem?-numbered k (suc i) (g ∷ fs) f h =
    get_elem?-numbered (k + 1) i fs f h ∙ ap (λ n. some (n, f)) (omega arith)

get_elem?-some :
    {A : Type 0} (xs : List A) (i : ℕ) → i < length xs → (a : A) × (get_elem? xs i ≡ some a)
get_elem?-some [] i h = absurd (omega arith)
get_elem?-some (x ∷ xs) zero h = (x, refl)
get_elem?-some (x ∷ xs) (suc i) h = get_elem?-some xs i (omega arith)

get_elem?-none : {A : Type 0} (xs : List A) (i : ℕ) → length xs ≤ i → get_elem? xs i ≡ none
get_elem?-none [] i h = refl
get_elem?-none (x ∷ xs) zero h = absurd (omega arith)
get_elem?-none (x ∷ xs) (suc i) h = get_elem?-none xs i (omega arith)

module _ (log : List (List ℕ)) (r : Ring) (v : IsLog log r) where
  length-buf : length r.buf ≡ length log - (length log - r.cap)
  length-buf = rw v.window (
      length-drop (length log - r.cap) (numbered 0 log)
      ∙ ap (λ n. n - (length log - r.cap)) (length-numbered 0 log))

  tail_window :
      (if length r.buf == r.cap then drop 1 r.buf else r.buf)
      ≡ drop (length log + 1 - r.cap) (numbered 0 log)
  tail_window = elim (Bool-cases (length r.buf == r.cap)) [
    | inl full ↦ rw full (
        ap (drop 1) v.window
        ∙ drop_one (length log - r.cap) (numbered 0 log)
        ∙ ap (λ n. drop n (numbered 0 log)) {x = suc (length log - r.cap)}
            (ground (arith, length-buf, v.cap_pos)))
    | inr room ↦
        rw room
          (v.window ∙ ap (λ n. drop n (numbered 0 log)) (ground (arith, length-buf, v.cap_pos)))
  ]

  -- A frame that is published goes to the end of the log.
  pub push_frame-IsLog :
      (f : List ℕ) → length log + 1 < 2 ^ 64 → IsLog (log ++ (f ∷ [])) (push_frame f r)
  unfolding push_frame
  push_frame-IsLog f small = record {
    cap_pos = v.cap_pos;
    tail = omega (arith, v.tail, length-append log (f ∷ []));
    window =
        ap (λ l. l ++ ((r.next_global, f) ∷ [])) tail_window
        ∙ ap (λ n. drop (length log + 1 - r.cap) (numbered 0 log) ++ ((n, f) ∷ []))
            (omega (arith, v.tail))
        ∙ sym (
            drop-append_le (length log + 1 - r.cap) (numbered 0 log) ((0 + length log, f) ∷ [])
              (omega (arith, length-numbered 0 log, v.cap_pos)))
        ∙ ap (drop (length log + 1 - r.cap)) (sym (numbered-append 0 log f))
        ∙ ap (λ n. drop (n - r.cap) (numbered 0 (log ++ (f ∷ [])))) {x = length log + 1}
            (sym (length-append log (f ∷ [])));
  }

  in_buf :
      (c : ℕ) (f : List ℕ)
      → get_elem? log c ≡ some f
      → length log - r.cap ≤ c
      → get_elem? r.buf (c - (length log - r.cap)) ≡ some (c, f)
  in_buf c f e le =
      ap (λ l. get_elem? l (c - (length log - r.cap))) v.window
      ∙ get_elem?-drop (length log - r.cap) (c - (length log - r.cap)) (numbered 0 log)
      ∙ ap (get_elem? (numbered 0 log)) {y = c} (omega arith)
      ∙ get_elem?-numbered 0 c log f e
      ∙ ap (λ n. some (n, f)) (omega arith)

  recv_past :
      (c : ℕ)
      → length log ≤ c
      → recv_next r (record { next_global = c }) ≡ (Recv.wait, record { next_global = c })
  unfolding recv_next
  recv_past c le = ground (arith, v.tail)

  module _ (fits : length log < 2 ^ 64) (c : ℕ) (lt : c < length log) where
    oldest : r.next_global - length r.buf ≡ length log - r.cap
    oldest = omega (arith, v.tail, length-buf)

    not_waiting : (length r.buf == 0 || leb r.next_global c) ≡ false
    not_waiting = ground (arith, v.tail, length-buf, v.cap_pos)

    recv_evicted :
        c < length log - r.cap
        → recv_next r (record { next_global = c })
          ≡ (Recv.gap c (length log - r.cap - 1), record { next_global = c })
    unfolding recv_next
    recv_evicted old = rw (not_waiting, oldest) (ground arith)

    recv_held :
        (f : List ℕ)
        → get_elem? log c ≡ some f
        → length log - r.cap ≤ c
        → recv_next r (record { next_global = c }) ≡ (Recv.frame f, record { next_global = c + 1 })
    unfolding recv_next
    recv_held f e le =
        rw (not_waiting, oldest) (ground (arith, in_buf c f e le, length-buf, v.cap_pos, v.tail))

  pub recv_next-log :
      (c : ℕ)
      → length log < 2 ^ 64
      → recv_next r (record { next_global = c })
        ≡ ((read_log r.cap log c).0, record { next_global = (read_log r.cap log c).1 })
  recv_next-log c fits = elim (Bool-cases (leb (length log) c)) [
    | inl past ↦ rw (get_elem?-none log c (ground arith)) (recv_past c (ground arith))
    | inr before ↦
        let lt : c < length log = ground arith in
        let (f, e) = get_elem?-some log c lt in
        elim (Bool-cases (ltb c (length log - r.cap))) [
          | inl old ↦ rw (e, old) (recv_evicted fits c lt (ground arith))
          | inr kept ↦ rw (e, kept) (recv_held fits c lt f e (ground arith))
        ]
  ]
