-- ===== src/Pubsub/Frame.antt =====
-- src/pubsub.rs: a frame as docs/obo_raw_v1.md lays it out, little-endian fields one after the other.
use numi_orderbook.Base.{ℕ, ◌%◌, ◌∙◌, ◌^◌, ◌<◌, ◌≤◌, ◌≡◌, refl, List, [], ◌∷◌, length, drop, arith}
use numi_orderbook.Wire.{ok, slice, le_value, le_bytes}
use numi_orderbook.Wire.Slices.{slice-in}
use numi_orderbook.Wire.Values.{le_value-le_bytes}
use numi_orderbook.Pubsub.{frame_of}

-- The bytes of a slice have this value.
abbrev pub FieldAt : List ℕ → ℕ → ℕ → ℕ → Type 0
FieldAt frame from to v = (g : List ℕ) × (slice frame from to ≡ ok g) × (le_value g ≡ v)

-- The header of 40 bytes by its offsets, and the payload after it.
pub record IsFrame (frame : List ℕ) (message_type channel_id instrument_id sequence now : ℕ)
    (payload : List ℕ) : Type 0 where
  pub magic_at : slice frame 0 4 ≡ ok (b'O' ∷ b'B' ∷ b'v' ∷ b'1' ∷ [])
  pub version_at : FieldAt frame 4 5 1
  pub codec_at : FieldAt frame 5 6 0
  pub type_at : FieldAt frame 6 8 message_type
  pub channel_at : FieldAt frame 8 12 channel_id
  pub instrument_at : FieldAt frame 12 20 instrument_id
  pub sequence_at : FieldAt frame 20 28 sequence
  pub time_at : FieldAt frame 28 36 now
  pub length_at : FieldAt frame 36 40 (length payload)
  pub payload_at : drop 40 frame ≡ payload

module _ (now message_type channel_id instr seq : ℕ) (payload : List ℕ) where
  abbrev frame : List ℕ
  frame = frame_of now message_type channel_id instr seq payload

  frame_long : 40 ≤ length frame
  unfolding frame_of le_bytes
  frame_long = omega arith

  -- A frame whose numbers fit their widths is laid out as the document lists its fields, one after
  -- the other and little-endian: each slice of the header has the value of its field, and the payload
  -- follows the 40 bytes of the header.
  pub frame_of-IsFrame :
      message_type < 2 ^ 16
      → channel_id < 2 ^ 32
      → instr < 2 ^ 64
      → seq < 2 ^ 64
      → now < 2 ^ 64
      → length payload < 2 ^ 32
      → IsFrame frame message_type channel_id instr seq now payload
  unfolding frame_of le_bytes
  frame_of-IsFrame h_type h_channel h_instr h_seq h_now h_len =
      let long = frame_long in
      record {
        magic_at = slice-in frame 0 4 (omega arith) (omega arith);
        version_at = (
          _,
          slice-in frame 4 5 (omega arith) (omega arith),
          le_value-le_bytes 1 1 (omega arith),
        );
        codec_at = (
          _,
          slice-in frame 5 6 (omega arith) (omega arith),
          le_value-le_bytes 1 0 (omega arith),
        );
        type_at = (
          _,
          slice-in frame 6 8 (omega arith) (omega arith),
          le_value-le_bytes 2 message_type (omega arith),
        );
        channel_at = (
          _,
          slice-in frame 8 12 (omega arith) (omega arith),
          le_value-le_bytes 4 channel_id (omega arith),
        );
        instrument_at = (
          _,
          slice-in frame 12 20 (omega arith) (omega arith),
          le_value-le_bytes 8 instr (omega arith),
        );
        sequence_at = (
          _,
          slice-in frame 20 28 (omega arith) (omega arith),
          le_value-le_bytes 8 seq (omega arith),
        );
        time_at = (
          _,
          slice-in frame 28 36 (omega arith) (omega arith),
          le_value-le_bytes 8 now (omega arith),
        );
        length_at = (
          _,
          slice-in frame 36 40 (omega arith) (omega arith),
          le_value-le_bytes 4 (length payload % 2 ^ 32) (omega arith) ∙ omega arith,
        );
        payload_at = refl;
      }
