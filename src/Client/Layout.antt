-- ===== src/Client/Layout.antt =====
-- src/bin/ws_client.rs: the client reads the packed frames as if their header were padded.
use numi_orderbook.Base.{
  ℕ, ◌+◌, ◌*◌, ◌/◌, ◌%◌, ◌^◌, ◌<◌, ◌≤◌, ◌≡◌, refl, ap, ◌∙◌, List, ◌++◌, length, take, drop, arith,
}
use numi_orderbook.Wire.{ok, le_value, le_bytes}
use numi_orderbook.Wire.Slices.{slice-in}
use numi_orderbook.Wire.Values.{le_value-le_bytes}
use numi_orderbook.Pubsub.{frame_of}
use numi_orderbook.Client.{read_fields}

fields_in :
    (frame : List ℕ)
    → 40 ≤ length frame
    → read_fields frame
      ≡ ok (
        le_value (take 8 (drop 16 frame)),
        le_value (take 8 (drop 24 frame)),
        le_value (take 2 (drop 6 frame)),
      )
unfolding read_fields
fields_in frame h =
    rw
      (
        slice-in frame 16 24 (omega arith) (omega arith),
        slice-in frame 24 32 (omega arith) (omega arith),
        slice-in frame 6 8 (omega arith) (omega arith),
      )
      refl

-- Of a u64 the upper four bytes, as the header has them.
abbrev upper : ℕ → ℕ
upper k = k / 256 / 256 / 256 / 256

-- Four bytes of one number before four of another.
value_of_halves :
    (a b : ℕ) → le_value (le_bytes 4 a ++ le_bytes 4 b) ≡ a % 2 ^ 32 + 2 ^ 32 * (b % 2 ^ 32)
unfolding le_value le_bytes
value_of_halves a b = omega arith

frame_long :
    (now message_type channel_id instr seq : ℕ) (payload : List ℕ)
    → 40 ≤ length (frame_of now message_type channel_id instr seq payload)
unfolding frame_of le_bytes
frame_long now message_type channel_id instr seq payload = omega arith

fields_of_frame :
    (now message_type channel_id instr seq : ℕ) (payload : List ℕ)
    → read_fields (frame_of now message_type channel_id instr seq payload)
      ≡ ok (
        le_value (le_bytes 4 (upper instr) ++ le_bytes 4 seq),
        le_value (le_bytes 4 (upper seq) ++ le_bytes 4 now),
        le_value (le_bytes 2 message_type),
      )
unfolding frame_of le_bytes
fields_of_frame now message_type channel_id instr seq payload =
    fields_in (frame_of now message_type channel_id instr seq payload)
      (frame_long now message_type channel_id instr seq payload)

-- From a frame of an instrument and a sequence number below 2^32, the client reads 2^32 times the
-- sequence as the instrument, and 2^32 times the low half of the send time as the sequence; only
-- the message type is right. The instrument is lost.
pub client_misreads :
    (now message_type channel_id instr seq : ℕ) (payload : List ℕ)
    → instr < 2 ^ 32
    → seq < 2 ^ 32
    → message_type < 2 ^ 16
    → read_fields (frame_of now message_type channel_id instr seq payload)
      ≡ ok (2 ^ 32 * seq, 2 ^ 32 * (now % 2 ^ 32), message_type)
client_misreads now message_type channel_id instr seq payload hi hs hm =
    fields_of_frame now message_type channel_id instr seq payload
    ∙ ap ok (
        triple (value_of_halves (upper instr) seq ∙ omega arith)
          (value_of_halves (upper seq) now ∙ omega arith)
          (le_value-le_bytes 2 message_type (omega arith)))
  where
    triple :
        {a a' b b' c c' : ℕ} → a ≡ a' → b ≡ b' → c ≡ c' → ◌≡◌ {A = ℕ × ℕ × ℕ} (a, b, c) (a', b', c')
    triple p q r = cc (p, q, r)
