-- ===== src/Client.antt =====
-- src/bin/ws_client.rs: the client that prints the frames of two endpoints, each once.
pub mod Layout
mod Examples
use numi_orderbook.Base.{ℕ, Option, none, some, List, ltb, leb, if◌then◌else◌, length}
use numi_orderbook.Base.Dict.{lookup, insert}
use numi_orderbook.Wire.{Outcome, ok, ◌>>=◌, slice, le_value}

-- `le_u16` and `le_u64` of a slice of the frame.
unfoldable pub field_at : List ℕ → ℕ → ℕ → Outcome ℕ
unfolding slice
field_at frame from to = slice frame from to >>= λ b. ok (le_value b)

abbrev pub last_or_zero : Option ℕ → ℕ
last_or_zero none = 0
last_or_zero (some n) = n

-- The fields that the client reads: instrument, sequence and message type.
unfoldable pub read_fields : List ℕ → Outcome (ℕ × ℕ × ℕ)
unfolding field_at
read_fields frame = field_at frame 16 24 >>= λ instr.
    field_at frame 24 32 >>= λ seq. field_at frame 6 8 >>= λ mtype. ok (instr, seq, mtype)

-- The last sequence of each instrument: `none` when the frame is short, a duplicate or old.
unfoldable pub on_fields : ℕ × ℕ × ℕ → List (ℕ × ℕ) → Option (ℕ × ℕ × ℕ) × List (ℕ × ℕ)
on_fields (instr, seq, mtype) last =
    if leb seq (last_or_zero (lookup instr last))
    then (none, insert instr (last_or_zero (lookup instr last)) last)
    else (some (instr, seq, mtype), insert instr seq last)

unfoldable pub on_frame : List ℕ → List (ℕ × ℕ) → Outcome (Option (ℕ × ℕ × ℕ) × List (ℕ × ℕ))
unfolding on_fields
on_frame frame last =
    if ltb (length frame) 40
    then ok (none, last)
    else (read_fields frame >>= λ f. ok (on_fields f last))
