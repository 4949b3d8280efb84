-- ===== src/Pool.antt =====
-- src/pool.rs: the packets that the threads hand on. The free list of buffers is a queue of another
-- package and is not modelled.
use numi_orderbook.Base.{ℕ, List}
use numi_orderbook.Wire.{Outcome, ok, slice}

pub data TsKind : Type 0 where
  no_ts sw hw_sys hw_raw : TsKind

-- A UMEM frame is the bytes that its pointer and its length lead to.
pub data PktBuf : Type 0 where
  bytes : List ℕ → PktBuf
  umem : (frame : List ℕ) (frame_idx : ℕ) → PktBuf

-- `seq`, `ts_nanos` and `merge_emit_ns` are u64, `chan` is a u8.
pub record Pkt : Type 0 where
  pub buf : PktBuf
  pub len : ℕ
  pub seq : ℕ
  pub ts_nanos : ℕ
  pub chan : ℕ
  pub ts_kind : TsKind
  pub merge_emit_ns : ℕ

payload_of : PktBuf → ℕ → Outcome (List ℕ)
payload_of (bytes b) len = slice b 0 len
payload_of (umem frame _) len = ok frame

-- A `len` beyond the buffer panics.
unfoldable pub payload : Pkt → Outcome (List ℕ)
unfolding payload_of
payload p = payload_of p.buf p.len
