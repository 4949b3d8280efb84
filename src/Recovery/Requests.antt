-- ===== src/Recovery/Requests.antt =====
-- src/recovery.rs: the injector on any requests and any stream.
use mathlib.Core.List.{append-nil, append_assoc}
use numi_orderbook.Base.{
  ℕ, zero, suc, ◌+◌, ◌≤◌, ◌<◌, ◌≡◌, refl, ap, sym, ◌∙◌, ◌⊎◌, ◌↔◌, inl, inr, Bool-cases, Option,
  none, some, List, [], ◌∷◌, ◌++◌, ltb, ◌==◌, arith, All, length, take, drop, length-take,
  length-drop,
}
use numi_orderbook.Wire.{Outcome, ok, ◌>>=◌, slice}
use numi_orderbook.Wire.Slices.{slice_middle}
use numi_orderbook.Pool.{Pkt, payload}
use numi_orderbook.Recovery.{
  RecoveryRequest, coalesce, Ending, replayed, pkt_len, pkt_seq, after_header, Injector, inject,
  inject_stream, fetch_and_inject, replay, run_injector,
}
use numi_orderbook.Recovery.Coalesce.{
  Within, InRanges, Requested, Asked, iff_trans, Coalesced, coalesce-Coalesced, coalesce-logged,
  logged, log_gap-logged, logged-nothing,
}

module _ (clock : ℕ → ℕ) (room : ℕ) where
  -- A packet that the decoder can read whole.
  pub record IsReplayed (p : Pkt) : Type 0 where
    pub bytes : List ℕ
    pub whole : payload p ≡ ok bytes
    pub len_is : p.len ≡ length bytes
    pub filled : 0 < p.len
    pub fits : p.len ≤ room

  replayed-IsReplayed :
      (now seq : ℕ) (bytes : List ℕ)
      → 0 < length bytes
      → length bytes ≤ room
      → IsReplayed (replayed now seq bytes)
  unfolding payload replayed
  replayed-IsReplayed now seq bytes h k = record {
    bytes = bytes;
    whole =
        ap (λ l. slice l 0 (length bytes)) (sym (append-nil bytes))
        ∙ slice_middle [] bytes [] 0 (length bytes) refl (omega arith);
    len_is = refl;
    filled = h;
    fits = k;
  }

  -- The fetch ends, keeps the log and adds only whole packets.
  pub record Fetched (s : Injector) (r : Outcome (Ending × Injector)) : Type 0 where
    pub ending : Ending
    pub after : Injector
    pub is_ok : r ≡ ok (ending, after)
    pub backlog_kept : after.backlog ≡ s.backlog
    pub added : List Pkt
    pub injected_is : after.injected ≡ s.injected ++ added
    pub each : All IsReplayed added

  Fetched-nothing : (e : Ending) (s : Injector) → Fetched s (ok (e, s))
  Fetched-nothing e s = record {
    ending = e;
    after = s;
    is_ok = refl;
    backlog_kept = refl;
    added = [];
    injected_is = sym (append-nil s.injected);
    each = tt;
  }

  Fetched-more :
      (p : Pkt) (s : Injector) (r : Outcome (Ending × Injector))
      → IsReplayed p
      → Fetched (inject p s) r
      → Fetched s r
  Fetched-more p s r h f = record {
    ending = f.ending;
    after = f.after;
    is_ok = f.is_ok;
    backlog_kept = f.backlog_kept;
    added = p ∷ f.added;
    injected_is = f.injected_is ∙ append_assoc s.injected (p ∷ []) f.added;
    each = (h, f.each);
  }

  inject_stream-Fetched :
      (fuel : ℕ) (stream : List ℕ) (s : Injector)
      → length stream < fuel
      → Fetched s (inject_stream clock room fuel stream s)
  unfolding inject_stream
  inject_stream-Fetched zero stream s enough = absurd (omega arith)
  inject_stream-Fetched (suc fuel) stream s enough =
      let len = pkt_len stream in
      let body = after_header stream in
      elim (Bool-cases (ltb (length stream) 12)) [
        | inl a ↦ rw a (Fetched-nothing Ending.done s)
        | inr a ↦ rw a (elim (Bool-cases (len == 0)) [
          | inl b ↦ rw b (Fetched-nothing Ending.done s)
          | inr b ↦ rw b (elim (Bool-cases (ltb room len)) [
            | inl c ↦ rw c (Fetched-nothing Ending.too_large s)
            | inr c ↦ rw c (elim (Bool-cases (ltb (length body) len)) [
              | inl d ↦ rw d (Fetched-nothing Ending.unexpected_eof s)
              | inr d ↦ rw d (
                  Fetched-more (replayed (clock s.reads) (pkt_seq stream) (take len body)) s _
                    (replayed-IsReplayed (clock s.reads) (pkt_seq stream) (take len body)
                      (ground (arith, length-take len body)) (ground (arith, length-take len body)))
                    (inject_stream-Fetched fuel (drop len body) _
                      (ground (arith, length-drop len body, length-drop 12 stream))))
            ])
          ])
        ])
      ]

  fetch_and_inject-Fetched :
      (stream : Option (List ℕ)) (s : Injector) → Fetched s (fetch_and_inject clock room stream s)
  unfolding fetch_and_inject
  fetch_and_inject-Fetched none s = Fetched-nothing Ending.no_connection s
  fetch_and_inject-Fetched (some stream) s =
      inject_stream-Fetched (length stream + 1) stream s (omega arith)

  module _ (serve : ℕ → ℕ → Option (List ℕ)) where
    -- One range was fetched. The numbers of the requests are exactly those of the range and of the
    -- gaps apart from it; the log, where there is one, gains the gaps and then the range; and the
    -- injector is as the fetch of what the service has for the range leaves it.
    pub record Ran (queue : List RecoveryRequest) (s : Injector) : Type 0 where
      pub range : ℕ × ℕ
      pub apart : List (ℕ × ℕ)
      pub exact : (n : ℕ) → (Within n range ⊎ InRanges n apart) ↔ Requested n queue
      pub ending : Ending
      pub after : Injector
      pub is_ok : run_injector clock room serve queue s ≡ ok after
      pub fetched :
          fetch_and_inject clock room
            (serve range.0 range.1)
            (record s { backlog = logged (apart ++ (range ∷ [])) s.backlog })
          ≡ ok (ending, after)
      pub backlog_is : after.backlog ≡ logged (apart ++ (range ∷ [])) s.backlog
      pub added : List Pkt
      pub injected_is : after.injected ≡ s.injected ++ added
      pub each : All IsReplayed added

    first_moved :
        (lo hi n : ℕ) (more : List RecoveryRequest)
        → Asked lo hi [] more n ↔ Requested n (RecoveryRequest.gap lo hi ∷ more)
    first_moved lo hi n more = (
      λ h. elim h [ inl k ↦ inl k | inr (inl k) ↦ elim k [ ] | inr (inr k) ↦ inr k ],
      λ h. elim h [ inl k ↦ inl k | inr k ↦ inr (inr k) ],
    )

    logs_joined :
        (lo hi : ℕ) (more : List RecoveryRequest) (b : Option (List (ℕ × ℕ)))
        → (c : Coalesced (Asked lo hi [] more) (coalesce more lo hi (some [])))
        → coalesce more lo hi b ≡ ((coalesce more lo hi (some [])).0, logged c.lines b)
    logs_joined lo hi more b c =
        ap (coalesce more lo hi) (sym (logged-nothing b))
        ∙ coalesce-logged more lo hi [] c.lines b c.is_logged

    replay-Ran :
        (lo hi : ℕ) (more : List RecoveryRequest) (s : Injector)
        → (run_injector clock room serve (RecoveryRequest.gap lo hi ∷ more) s
            ≡ replay clock room serve (coalesce more lo hi s.backlog) s)
        → Coalesced (Asked lo hi [] more) (coalesce more lo hi (some []))
        → Ran (RecoveryRequest.gap lo hi ∷ more) s
    unfolding replay
    replay-Ran lo hi more s runs c =
        let ((from, to), b) = coalesce more lo hi (some []) in
        let log = logged (c.lines ++ ((from, to) ∷ [])) s.backlog in
        let f = fetch_and_inject-Fetched (serve from to) (record s { backlog = log }) in
        record {
          range = (from, to);
          apart = c.lines;
          exact = λ n. iff_trans (c.exact n) (first_moved lo hi n more);
          ending = f.ending;
          after = f.after;
          is_ok =
              runs
              ∙ ap (λ r. replay clock room serve r s) (logs_joined lo hi more s.backlog c)
              ∙ ap
                  (λ l.
                    fetch_and_inject clock room (serve from to) (record s { backlog = l }) >>= λ x.
                    ok x.1)
                  (log_gap-logged from to c.lines s.backlog)
              ∙ ap (λ o. o >>= λ x. ok x.1) f.is_ok;
          fetched = f.is_ok;
          backlog_is = f.backlog_kept;
          added = f.added;
          injected_is = f.injected_is;
          each = f.each;
        }

    abbrev pub Idle : List RecoveryRequest → Injector → Type 0
    Idle queue s =
        ((n : ℕ) → Requested n queue → ⊥) × (run_injector clock room serve queue s ≡ ok s)

    -- Whatever requests are in the channel and whatever the service sends, the injector ends without a
    -- panic and with fuel enough. If no request has a number, it does nothing. Otherwise it fetches one
    -- range, and the numbers of all requests are exactly those of the range and of the gaps apart from
    -- it. With a backlog file these gaps and then the range are logged; without one nothing is left of
    -- the gaps apart, which are not fetched. What is injected is what the service sends for the range,
    -- and each such packet is whole, not empty and fits.
    pub run_injector-Ran :
        (queue : List RecoveryRequest) (s : Injector) → Idle queue s ⊎ Ran queue s
    unfolding run_injector
    run_injector-Ran [] s = inl (λ n h. h, refl)
    run_injector-Ran (RecoveryRequest.gap lo hi ∷ more) s = elim (Bool-cases (ltb hi lo)) [
      | inl swapped ↦ elim (run_injector-Ran more s) [
        | inl (none_there, same) ↦ inl (
          λ n h. elim h [ inl k ↦ absurd (ground arith) | inr k ↦ none_there n k ],
          rw swapped same,
        )
        | inr r ↦ inr (record {
          range = r.range;
          apart = r.apart;
          exact = λ n.
              iff_trans (r.exact n)
                (inr, λ h. elim h [ inl k ↦ absurd (ground arith) | inr k ↦ k ]);
          ending = r.ending;
          after = r.after;
          is_ok = rw swapped r.is_ok;
          fetched = r.fetched;
          backlog_is = r.backlog_is;
          added = r.added;
          injected_is = r.injected_is;
          each = r.each;
        })
      ]
      | inr p ↦
          inr
            (replay-Ran lo hi more s (rw p refl) (coalesce-Coalesced more lo hi [] (ground arith)))
    ]
