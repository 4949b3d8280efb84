-- ===== src/Recovery/Replay.antt =====
-- src/recovery.rs: what the injector makes of the stream of the replay service.
use mathlib.Core.List.{append-nil, append_assoc}
use numi_orderbook.Base.{
  ℕ, zero, suc, ◌+◌, ◌^◌, ◌≤◌, ◌<◌, ◌≡◌, refl, ap, sym, ◌∙◌, some, List, [], ◌∷◌, ◌++◌, arith, All,
  length, length-append, drop,
}
use numi_orderbook.Wire.{slice, ok, be_bytes}
use numi_orderbook.Wire.Slices.{slice_middle, take_append, drop_append}
use numi_orderbook.Wire.Values.{be_value-be_bytes, length-be_bytes}
use numi_orderbook.Pool.{Pkt, payload}
use numi_orderbook.Recovery.{
  Ending, replayed, pkt_len, pkt_seq, after_header, Injector, inject, inject_stream,
  fetch_and_inject,
}

-- A packet on the wire of the service, as its sequence number and its bytes.
unfoldable pub wire_packet : ℕ × List ℕ → List ℕ
wire_packet (seq, bytes) = be_bytes 4 (length bytes) ++ (be_bytes 8 seq ++ bytes)

abbrev pub wire : List (ℕ × List ℕ) → List ℕ
wire [] = []
wire (f ∷ fs) = wire_packet f ++ wire fs

module _ (room : ℕ) where
  -- A packet that the buffers hold, with a number of 64 bits and a length of 32.
  pub record Sendable (f : ℕ × List ℕ) : Type 0 where
    pub seq_u64 : f.0 < 256 ^ 8
    pub len_u32 : length f.1 < 256 ^ 4
    pub filled : 0 < length f.1
    pub fits : length f.1 ≤ room

module _ (seq : ℕ) (bytes rest : List ℕ) where
  abbrev stream : List ℕ
  stream = wire_packet (seq, bytes) ++ rest

  spread : stream ≡ be_bytes 4 (length bytes) ++ (be_bytes 8 seq ++ (bytes ++ rest))
  unfolding wire_packet
  spread = simp (append_assoc)

  pkt_len-wire : length bytes < 256 ^ 4 → pkt_len stream ≡ length bytes
  pkt_len-wire h =
      rw
        (
          spread,
          take_append (be_bytes 4 (length bytes)) (be_bytes 8 seq ++ (bytes ++ rest)) 4
              (sym (length-be_bytes 4 (length bytes))),
        )
        (be_value-be_bytes 4 (length bytes) h)

  pkt_seq-wire : seq < 256 ^ 8 → pkt_seq stream ≡ seq
  pkt_seq-wire h =
      rw
        (
          spread,
          drop_append (be_bytes 4 (length bytes)) (be_bytes 8 seq ++ (bytes ++ rest)) 4
              (sym (length-be_bytes 4 (length bytes))),
          take_append (be_bytes 8 seq) (bytes ++ rest) 8 (sym (length-be_bytes 8 seq)),
        )
        (be_value-be_bytes 8 seq h)

  after_header-wire : after_header stream ≡ bytes ++ rest
  after_header-wire =
      ap (drop 12)
        (spread ∙ sym (append_assoc (be_bytes 4 (length bytes)) (be_bytes 8 seq) (bytes ++ rest)))
      ∙ drop_append (be_bytes 4 (length bytes) ++ be_bytes 8 seq) (bytes ++ rest) 12 (
          omega (
            arith,
            length-append (be_bytes 4 (length bytes)) (be_bytes 8 seq),
            length-be_bytes 4 (length bytes),
            length-be_bytes 8 seq,
          ))

  length-wire : length stream ≡ 12 + length bytes + length rest
  length-wire = omega (
    arith,
    ap length spread,
    length-append (be_bytes 4 (length bytes)) (be_bytes 8 seq ++ (bytes ++ rest)),
    length-append (be_bytes 8 seq) (bytes ++ rest),
    length-append bytes rest,
    length-be_bytes 4 (length bytes),
    length-be_bytes 8 seq,
  )

module _ (clock : ℕ → ℕ) (room : ℕ) where
  -- The packets that the injector is to make, each with its own reading of the clock.
  abbrev pub packets : ℕ → List (ℕ × List ℕ) → List Pkt
  packets reads [] = []
  packets reads (f ∷ fs) = replayed (clock reads) f.0 f.1 ∷ packets (reads + 1) fs

  abbrev pub with_packets : List (ℕ × List ℕ) → Injector → Injector
  with_packets fs s = record s {
    injected = s.injected ++ packets s.reads fs;
    reads = s.reads + length fs;
  }

  with_packets-inject :
      (f : ℕ × List ℕ) (fs : List (ℕ × List ℕ)) (s : Injector)
      → with_packets fs (inject (replayed (clock s.reads) f.0 f.1) s) ≡ with_packets (f ∷ fs) s
  with_packets-inject f fs s =
      let p = replayed (clock s.reads) f.0 f.1 in
      let i = append_assoc s.injected (p ∷ []) (packets (s.reads + 1) fs) in
      let r : s.reads + 1 + length fs ≡ s.reads + suc (length fs) = omega arith in
      λ j. record s { injected = i j; reads = r j }

  with_nothing : (s : Injector) → with_packets [] s ≡ s
  with_nothing s =
      let r : s.reads + 0 ≡ s.reads = omega arith in
      λ j. record s { injected = append-nil s.injected j; reads = r j }

  inject_stream-packet :
      (fuel seq : ℕ) (bytes rest : List ℕ) (s : Injector)
      → Sendable room (seq, bytes)
      → inject_stream clock room (suc fuel) (wire_packet (seq, bytes) ++ rest) s
        ≡ inject_stream clock room fuel rest (inject (replayed (clock s.reads) seq bytes) s)
  unfolding inject_stream
  inject_stream-packet fuel seq bytes rest s h =
      rw
        (
          after_header-wire seq bytes rest,
          pkt_len-wire seq bytes rest h.len_u32,
          pkt_seq-wire seq bytes rest h.seq_u64,
          take_append bytes rest (length bytes) refl,
          drop_append bytes rest (length bytes) refl,
        )
        (ground (arith, h, length-wire seq bytes rest, length-append bytes rest))

  inject_stream-wire :
      (fs : List (ℕ × List ℕ)) (tail : List ℕ) (fuel : ℕ) (s : Injector)
      → All (Sendable room) fs
      → length tail < 12
      → length fs < fuel
      → inject_stream clock room fuel (wire fs ++ tail) s ≡ ok (Ending.done, with_packets fs s)
  unfolding inject_stream
  inject_stream-wire fs tail zero s h short enough = absurd (omega arith)
  inject_stream-wire [] tail (suc fuel) s h short enough = ground (arith, with_nothing s)
  inject_stream-wire ((seq, bytes) ∷ fs) tail (suc fuel) s h short enough =
      ap (λ l. inject_stream clock room (suc fuel) l s)
        (append_assoc (wire_packet (seq, bytes)) (wire fs) tail)
      ∙ inject_stream-packet fuel seq bytes (wire fs ++ tail) s h.0
      ∙ inject_stream-wire fs tail fuel (inject (replayed (clock s.reads) seq bytes) s) h.1 short
          (omega arith)
      ∙ ap (λ x. ok (Ending.done, x)) (with_packets-inject (seq, bytes) fs s)

  length-wires : (fs : List (ℕ × List ℕ)) → length fs ≤ length (wire fs)
  length-wires [] = omega arith
  length-wires ((seq, bytes) ∷ fs) = omega (arith, length-wire seq bytes (wire fs), length-wires fs)

  -- A packet with the number and the bytes that the service sent, of the channel of recovery.
  pub record IsSent (f : ℕ × List ℕ) (p : Pkt) : Type 0 where
    pub seq_sent : p.seq ≡ f.0
    pub bytes_sent : payload p ≡ ok f.1
    pub len_sent : p.len ≡ length f.1
    pub from_recovery : p.chan ≡ b'R'
    pub not_emitted : p.merge_emit_ns ≡ 0

  -- One packet for each that was sent, in order.
  abbrev pub AllSent : List (ℕ × List ℕ) → List Pkt → Type 0
  AllSent [] [] = Unit {0}
  AllSent [] (p ∷ ps) = ⊥
  AllSent (f ∷ fs) [] = ⊥
  AllSent (f ∷ fs) (p ∷ ps) = IsSent f p × AllSent fs ps

  replayed-IsSent : (now seq : ℕ) (bytes : List ℕ) → IsSent (seq, bytes) (replayed now seq bytes)
  unfolding replayed payload
  replayed-IsSent now seq bytes = record {
    seq_sent = refl;
    bytes_sent =
        ap (λ l. slice l 0 (length bytes)) (sym (append-nil bytes))
        ∙ slice_middle [] bytes [] 0 (length bytes) refl (omega arith);
    len_sent = refl;
    from_recovery = refl;
    not_emitted = refl;
  }

  packets-AllSent : (reads : ℕ) (fs : List (ℕ × List ℕ)) → AllSent fs (packets reads fs)
  packets-AllSent reads [] = tt
  packets-AllSent reads ((seq, bytes) ∷ fs) =
      (replayed-IsSent (clock reads) seq bytes, packets-AllSent (reads + 1) fs)

  -- When the numbers and lengths fit the header and the buffers, no packet is empty, and less than a
  -- header follows, the fetch ends without an error and has fuel enough; what it injects is one
  -- packet for each that the service sends, in order, with the number and the bytes that were sent;
  -- and it leaves the log alone.
  pub fetch_and_inject-AllSent :
      (fs : List (ℕ × List ℕ)) (tail : List ℕ) (s : Injector)
      → All (Sendable room) fs
      → length tail < 12
      → (after : Injector) × (ps : List Pkt) × (fetch_and_inject clock room
            (some (wire fs ++ tail))
            s
          ≡ ok (Ending.done, after))
        × (after.injected ≡ s.injected ++ ps)
        × AllSent fs ps
        × (after.backlog ≡ s.backlog)
  unfolding fetch_and_inject
  fetch_and_inject-AllSent fs tail s h short = (
    with_packets fs s,
    packets s.reads fs,
    inject_stream-wire fs tail (length (wire fs ++ tail) + 1) s h short
        (omega (arith, length-append (wire fs) tail, length-wires fs)),
    refl,
    packets-AllSent s.reads fs,
    refl,
  )
