-- ===== src/Pubsub.antt =====
-- src/pubsub.rs: the ring of published frames with its readers, and the sequence of each instrument.
-- A lock is held for one operation, so each operation is one step; the clock is an argument.
pub mod Log
pub mod Frame
pub mod Session
mod Examples
use Prim.Native.Nat.{max}
use numi_orderbook.Base.{
  ℕ, suc, ◌+◌, ◌-◌, ◌%◌, ◌^◌, Option, none, some, List, [], ◌∷◌, ◌++◌, ltb, leb, ◌==◌, ◌||◌,
  if◌then◌else◌, length, get_elem?, drop,
}
use numi_orderbook.Base.Dict.{lookup, insert}
use numi_orderbook.Obo.{FrameHeaderV1, header_bytes, magic, version_v1, raw_v1}

pub record Ring : Type 0 where
  pub buf : List (ℕ × List ℕ)
  pub cap : ℕ
  pub next_global : ℕ

-- `Inner`: the ring, and the next sequence number of each instrument.
pub record Bus : Type 0 where
  pub ring : Ring
  pub per_instr_seq : List (ℕ × ℕ)

pub record Subscription : Type 0 where
  pub next_global : ℕ

-- `wait` is a reader that blocks until the next frame.
pub data Recv : Type 0 where
  frame : List ℕ → Recv
  gap : (from to : ℕ) → Recv
  wait : Recv
  out_of_range : Recv

unfoldable pub new_bus : ℕ → Bus
new_bus capacity_frames = record {
  ring = record { buf = []; cap = capacity_frames; next_global = 0 };
  per_instr_seq = [];
}

unfoldable pub subscribe : Bus → Subscription
subscribe b = record { next_global = b.ring.next_global }

unfoldable pub push_frame : List ℕ → Ring → Ring
push_frame bytes r = record r {
  next_global = (r.next_global + 1) % 2 ^ 64;
  buf = (if length r.buf == r.cap then drop 1 r.buf else r.buf) ++ ((r.next_global, bytes) ∷ []);
}

unfoldable pub frame_of : (now message_type channel_id instrument_id sequence : ℕ) → List ℕ → List ℕ
unfolding header_bytes
frame_of now message_type channel_id instrument_id sequence payload =
    header_bytes (record {
      header_magic = magic;
      version = version_v1;
      codec = raw_v1;
      message_type = message_type;
      channel_id = channel_id;
      instrument_id = instrument_id;
      sequence = sequence;
      send_time_ns = now;
      payload_len = length payload % 2 ^ 32;
    })
    ++ payload

unfoldable pub publish_raw :
    (now message_type channel_id instrument_id sequence : ℕ) → List ℕ → Bus → Bus
unfolding push_frame frame_of
publish_raw now message_type channel_id instrument_id sequence payload b = record b {
  ring = push_frame (frame_of now message_type channel_id instrument_id sequence payload) b.ring;
}

abbrev pub seq_or_first : Option ℕ → ℕ
seq_or_first none = 1
seq_or_first (some n) = n

unfoldable pub next_seq_for_instrument : ℕ → List (ℕ × ℕ) → ℕ × List (ℕ × ℕ)
next_seq_for_instrument i m =
    (seq_or_first (lookup i m), insert i ((seq_or_first (lookup i m) + 1) % 2 ^ 64) m)

unfoldable pub set_cursor_to_tail : Ring → Subscription → Subscription
set_cursor_to_tail r s = record { next_global = r.next_global }

unfoldable pub set_cursor : ℕ → Subscription → Subscription
set_cursor global_seq s = record { next_global = global_seq }

-- `buf[offset]`, behind the test of its range.
abbrev pub frame_at : Ring → ℕ → Recv
frame_at r offset = elim (get_elem? r.buf offset) [
  | none ↦ Recv.out_of_range
  | some f ↦ Recv.frame f.1
]

-- One look at the ring: a frame, a gap, or the reader waits.
unfoldable pub recv_next : Ring → Subscription → Recv × Subscription
recv_next r s =
    if length r.buf == 0 || leb r.next_global s.next_global
    then (Recv.wait, s)
    else if ltb s.next_global (r.next_global - length r.buf)
    then (Recv.gap s.next_global (r.next_global - length r.buf - 1), s)
    else if leb (length r.buf) (s.next_global - (r.next_global - length r.buf))
    then (Recv.gap s.next_global (r.next_global - 1), s)
    else (
      frame_at r (s.next_global - (r.next_global - length r.buf)),
      record { next_global = (s.next_global + 1) % 2 ^ 64 },
    )

unfoldable pub lag : Ring → Subscription → ℕ
lag r s =
    if length r.buf == 0
    then 0
    else r.next_global - max s.next_global (r.next_global - length r.buf)
