-- ===== src/Server.antt =====
-- src/ws_server.rs: one client of the publisher. Its request, the export of the snapshot file, and the
-- steps of the publishers between its reads are arguments; sending does not fail, and leaves the list
-- of all frames sent. The n-th frame that the server builds has the time `clock n`.
pub mod Follow
pub mod Shown
pub mod Session
mod Examples
use numi_orderbook.Base.{
  ℕ, suc, ◌+◌, ◌%◌, ◌^◌, Bool, true, false, not, Option, none, some, List, [], ◌∷◌, ◌++◌, length,
  if◌then◌else◌,
}
use numi_orderbook.Base.Int.{ℤ}
use numi_orderbook.Wire.{Outcome, ok, panic, ◌>>=◌, le_bytes}
use numi_orderbook.Obo.{OboAddV1, add_bytes, bits64, side_to_u8, obo_l3, obo_add}
use numi_orderbook.Book.Export.{OrderExport, InstrumentExport, BookExport}
use numi_orderbook.Pubsub.{
  Ring, Bus, Subscription, Recv, push_frame, frame_of, recv_next, subscribe, set_cursor,
  set_cursor_to_tail,
}
use numi_orderbook.Pubsub.Session.{Op}
use numi_orderbook.Snapshot.{same_bytes}

abbrev pub msg_gap : ℕ
msg_gap = 2

abbrev pub snapshot_start : ℕ
snapshot_start = 3

abbrev pub snapshot_end : ℕ
snapshot_end = 4

abbrev pub snapshot_hdr : ℕ
snapshot_hdr = 104

-- `as_bytes` of `GapV1` and of `FullBookSnapshotHdrV1`.
unfoldable pub gap_bytes : (from_inclusive to_inclusive : ℕ) → List ℕ
gap_bytes from_inclusive to_inclusive = le_bytes 8 from_inclusive ++ le_bytes 8 to_inclusive

unfoldable pub hdr_bytes : (level_count total_orders : ℕ) → List ℕ
hdr_bytes level_count total_orders = le_bytes 4 level_count ++ le_bytes 4 total_orders

unfoldable pub build_frame : (now msg_ty instrument_id sequence : ℕ) → List ℕ → List ℕ
unfolding frame_of
build_frame now msg_ty instrument_id sequence payload =
    frame_of now msg_ty obo_l3 instrument_id sequence payload

-- A message before its frame: its type, instrument and payload.
abbrev pub Message : Type 0
Message = ℕ × ℕ × List ℕ

unfoldable pub order_message : ℕ → OrderExport → Message
unfolding add_bytes
order_message instr o = (
  obo_add,
  instr,
  add_bytes (record {
    order_id = o.order_id;
    price_e8 = o.price;
    qty = bits64 o.qty;
    side = side_to_u8 o.side;
    flags = 0;
  }),
)

unfoldable pub order_messages : ℕ → List OrderExport → List Message
order_messages instr [] = []
order_messages instr (o ∷ os) = order_message instr o ∷ order_messages instr os

-- The header of an instrument is a control message, which names no instrument.
unfoldable pub instrument_messages : List InstrumentExport → List Message
unfolding order_messages hdr_bytes
instrument_messages [] = []
instrument_messages (ie ∷ ies) =
    (snapshot_hdr, 0, hdr_bytes 0 (length ie.orders % 2 ^ 32))
    ∷ (order_messages ie.instr ie.orders ++ instrument_messages ies)

unfoldable pub snapshot_messages : BookExport → List Message
unfolding instrument_messages
snapshot_messages exp =
    (snapshot_start, 0, []) ∷ (instrument_messages exp.instruments ++ ((snapshot_end, 0, []) ∷ []))

-- What the client asks for, and the value of its `Authorization` header.
pub record Request : Type 0 where
  pub from_seq : Option ℕ
  pub snapshot : Bool
  pub authorization : Option (List ℕ)

abbrev pub bearer : List ℕ
bearer = b'B' ∷ b'e' ∷ b'a' ∷ b'r' ∷ b'e' ∷ b'r' ∷ b' ' ∷ []

unfoldable pub is_authorized : Option (List ℕ) → Option (List ℕ) → Bool
is_authorized none header = true
is_authorized (some token) none = false
is_authorized (some token) (some v) = same_bytes v (bearer ++ token)

unfoldable pub cursor_of : Option ℕ → Bus → Subscription
unfolding subscribe set_cursor set_cursor_to_tail
cursor_of (some g) b = set_cursor g (subscribe b)
cursor_of none b = set_cursor_to_tail b.ring (subscribe b)

module _ (clock : ℕ → ℕ) where
  unfoldable pub frames : ℕ → List Message → List (List ℕ)
  unfolding build_frame
  frames n [] = []
  frames n ((ty, instr, payload) ∷ ms) =
      build_frame (clock n) ty instr 0 payload ∷ frames (suc n) ms

  -- What the client is sent for one result: a gap ends its session. No result leaves it waiting.
  unfoldable pub on_recv : ℕ → Recv → Outcome (List (List ℕ)) → Outcome (List (List ℕ))
  unfolding build_frame gap_bytes
  on_recv n (Recv.frame f) rest = rest >>= λ fs. ok (f ∷ fs)
  on_recv n Recv.wait rest = rest
  on_recv n (Recv.gap from to) rest =
      ok (build_frame (clock n) msg_gap 0 0 (gap_bytes from to) ∷ [])
  on_recv n Recv.out_of_range rest = panic

  unfoldable pub follow : ℕ → Ring → Subscription → List Op → Outcome (List (List ℕ))
  unfolding on_recv
  follow n r s [] = ok []
  follow n r s (Op.publish f ∷ ops) = follow n (push_frame f r) s ops
  follow n r s (Op.read ∷ ops) = on_recv n (recv_next r s).0 (follow n r (recv_next r s).1 ops)

  abbrev pub snapshot_part : Bool → Option BookExport → List Message
  snapshot_part false exp = []
  snapshot_part true none = []
  snapshot_part true (some exp) = snapshot_messages exp

  -- `snap` is the export of the book in the snapshot file, where there is one that can be loaded.
  -- `none` is a client that is turned away.
  unfoldable pub handle_client :
      Option (List ℕ)
      → Option BookExport
      → Request
      → Bus
      → List Op
      → Outcome (Option (List (List ℕ)))
  unfolding is_authorized cursor_of follow snapshot_messages frames
  handle_client auth_token snap req b ops =
      let ms = snapshot_part req.snapshot snap in
      if not (is_authorized auth_token req.authorization)
      then ok none
      else (follow (length ms) b.ring (cursor_of req.from_seq b) ops >>= λ fs.
          ok (some (frames 0 ms ++ fs)))
