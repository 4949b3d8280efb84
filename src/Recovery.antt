-- ===== src/Recovery.antt =====
-- src/recovery.rs: the injector of replayed packets. The requests that it finds in its channel are a
-- list; `serve from to` is what the replay service sends before the stream ends or fails, `none` where
-- it is not reached; `room` is the space of a buffer of the pool. Logs leave no trace.
pub mod Coalesce
pub mod Replay
pub mod Requests
mod Examples
use numi_orderbook.Base.{
  ℕ, zero, suc, ◌+◌, ◌-◌, Bool, true, false, ◌&&◌, Option, none, some, List, [], ◌∷◌, ◌++◌, ltb,
  leb, ◌==◌, if◌then◌else◌, length, take, drop,
}
use numi_orderbook.Wire.{Outcome, ok, stuck, ◌>>=◌, be_value}
use numi_orderbook.Pool.{Pkt, PktBuf, TsKind}
use numi_orderbook.Reorder.{sat64}

pub data RecoveryRequest : Type 0 where
  gap : (from to : ℕ) → RecoveryRequest

-- `notify_gap`: a full channel, of 1024 requests, drops the request.
unfoldable pub notify_gap : (from to : ℕ) → List RecoveryRequest → List RecoveryRequest
notify_gap from to queue =
    if ltb (length queue) 1024 then queue ++ (RecoveryRequest.gap from to ∷ []) else queue

-- The lines of the backlog file, where it could be opened.
abbrev pub log_gap : (from to : ℕ) → Option (List (ℕ × ℕ)) → Option (List (ℕ × ℕ))
log_gap from to none = none
log_gap from to (some lines) = some (lines ++ ((from, to) ∷ []))

-- The test that a gap overlaps `lo..=hi` or is next to it.
unfoldable pub joins : (from to lo hi : ℕ) → Bool
unfolding sat64
joins from to lo hi = leb from (sat64 hi) && leb (lo - 1) to

-- The requests after the first: one that joins the range widens it, any other is only logged.
unfoldable pub coalesce :
    List RecoveryRequest → (lo hi : ℕ) → Option (List (ℕ × ℕ)) → (ℕ × ℕ) × Option (List (ℕ × ℕ))
unfolding joins
coalesce [] lo hi backlog = ((lo, hi), backlog)
coalesce (RecoveryRequest.gap from to ∷ more) lo hi backlog =
    if joins from to lo hi
    then coalesce more (if ltb from lo then from else lo) (if ltb hi to then to else hi) backlog
    else coalesce more lo hi (log_gap from to backlog)

-- How a replay ends: an error, or the end of the stream or a packet of length 0.
pub data Ending : Type 0 where
  done too_large unexpected_eof no_connection : Ending

unfoldable pub replayed : (now seq : ℕ) → List ℕ → Pkt
replayed now seq bytes = record {
  buf = PktBuf.bytes bytes;
  len = length bytes;
  seq = seq;
  ts_nanos = now;
  chan = b'R';
  ts_kind = TsKind.sw;
  merge_emit_ns = 0;
}

abbrev pub pkt_len : List ℕ → ℕ
pkt_len stream = be_value (take 4 stream)

abbrev pub pkt_seq : List ℕ → ℕ
pkt_seq stream = be_value (take 8 (drop 4 stream))

abbrev pub after_header : List ℕ → List ℕ
after_header stream = drop 12 stream

pub record Injector : Type 0 where
  pub backlog : Option (List (ℕ × ℕ))
  pub injected : List Pkt
  pub reads : ℕ

abbrev pub inject : Pkt → Injector → Injector
inject p s = record s { injected = s.injected ++ (p ∷ []); reads = s.reads + 1 }

module _ (clock : ℕ → ℕ) (room : ℕ) where
  -- The loop over the stream: a header of 12 bytes, and as many bytes as it says.
  unfoldable pub inject_stream : ℕ → List ℕ → Injector → Outcome (Ending × Injector)
  unfolding replayed
  inject_stream zero stream s = stuck
  inject_stream (suc fuel) stream s =
      let rest = inject_stream fuel (drop (pkt_len stream) (after_header stream)) (
        inject
          (replayed (clock s.reads) (pkt_seq stream) (take (pkt_len stream) (after_header stream)))
          s) in
      if ltb (length stream) 12
      then ok (Ending.done, s)
      else if pkt_len stream == 0
      then ok (Ending.done, s)
      else if ltb room (pkt_len stream)
      then ok (Ending.too_large, s)
      else if ltb (length (after_header stream)) (pkt_len stream)
      then ok (Ending.unexpected_eof, s)
      else rest

  -- Each round reads 12 bytes or more, so the length of the stream and one is fuel enough.
  unfoldable pub fetch_and_inject : Option (List ℕ) → Injector → Outcome (Ending × Injector)
  fetch_and_inject none s = ok (Ending.no_connection, s)
  fetch_and_inject (some stream) s = inject_stream (length stream + 1) stream s

  module _ (serve : ℕ → ℕ → Option (List ℕ)) where
    -- The range is logged, then fetched; an error of the fetch is put on the log.
    unfoldable pub replay : (ℕ × ℕ) × Option (List (ℕ × ℕ)) → Injector → Outcome Injector
    unfolding fetch_and_inject
    replay ((lo, hi), backlog) s =
        fetch_and_inject (serve lo hi) (record s { backlog = log_gap lo hi backlog }) >>= λ r.
        ok r.1

    -- What `run_injector` does with the requests that it finds in the channel: one whose ends are
    -- swapped is skipped, then all that are there are coalesced.
    unfoldable pub run_injector : List RecoveryRequest → Injector → Outcome Injector
    unfolding coalesce replay
    run_injector [] s = ok s
    run_injector (RecoveryRequest.gap lo hi ∷ more) s =
        if ltb hi lo then run_injector more s else replay (coalesce more lo hi s.backlog) s
