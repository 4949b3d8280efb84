-- ===== src/Server/Shown.antt =====
-- src/ws_server.rs: the frames of a snapshot, as docs/obo_raw_v1.md lays them out.
use numi_orderbook.Base.{
  ℕ, suc, ◌%◌, ◌^◌, ◌<◌, ◌≡◌, refl, ap, sym, ◌∙◌, Bool, true, false, Option, none, some, List, [],
  ◌∷◌, ◌++◌, All, length, arith,
}
use mathlib.Core.Path.{subst}
use numi_orderbook.Base.Int.{ℤ, pos, negsuc}
use numi_orderbook.Event.{Side, bid, ask}
use numi_orderbook.Wire.{le_bytes}
use numi_orderbook.Wire.Slices.{slice-in}
use numi_orderbook.Wire.Values.{le_value-le_bytes}
use numi_orderbook.Obo.{add_bytes, bits64, side_to_u8, obo_l3}
use numi_orderbook.Book.Export.{OrderExport, InstrumentExport, BookExport}
use numi_orderbook.Pubsub.Frame.{FieldAt, IsFrame, frame_of-IsFrame}
use numi_orderbook.Server.{
  Message, build_frame, msg_gap, gap_bytes, hdr_bytes, order_message, order_messages,
  instrument_messages, snapshot_messages, snapshot_part, frames,
}

-- What a snapshot says, line by line.
pub data Line : Type 0 where
  begin finish : Line
  header : (total_orders : ℕ) → Line
  order : (instr : ℕ) → OrderExport → Line

abbrev pub order_lines : ℕ → List OrderExport → List Line
order_lines instr [] = []
order_lines instr (o ∷ os) = Line.order instr o ∷ order_lines instr os

abbrev pub book_lines : List InstrumentExport → List Line
book_lines [] = []
book_lines (ie ∷ ies) =
    Line.header (length ie.orders) ∷ (order_lines ie.instr ie.orders ++ book_lines ies)

-- The lines for a client: none, unless it asks for a snapshot and there is one.
abbrev pub lines_for : Bool → Option BookExport → List Line
lines_for false snap = []
lines_for true none = []
lines_for true (some exp) = Line.begin ∷ (book_lines exp.instruments ++ (Line.finish ∷ []))

abbrev pub LineFits : Line → Type 0
LineFits Line.begin = Unit {0}
LineFits Line.finish = Unit {0}
LineFits (Line.header n) = n < 2 ^ 32
LineFits (Line.order instr o) = (instr < 2 ^ 64) × (o.order_id < 2 ^ 64)

abbrev side_number : Side → ℕ
side_number bid = 0
side_number ask = 1

-- The frame of a line: its type, its instrument, the sequence 0, and the fields of its body.
pub record ShowsOrder (now instr : ℕ) (o : OrderExport) (f : List ℕ) : Type 0 where
  pub body : List ℕ
  pub is_frame : IsFrame f 100 0 instr 0 now body
  pub id_at : FieldAt body 0 8 o.order_id
  pub price_at : FieldAt body 8 16 (bits64 o.price)
  pub qty_at : FieldAt body 16 24 (bits64 o.qty)
  pub side_at : FieldAt body 24 25 (side_number o.side)

pub record ShowsHeader (now total_orders : ℕ) (f : List ℕ) : Type 0 where
  pub body : List ℕ
  pub is_frame : IsFrame f 104 0 0 0 now body
  pub levels_at : FieldAt body 0 4 0
  pub orders_at : FieldAt body 4 8 total_orders

abbrev pub ShowsLine : ℕ → Line → List ℕ → Type 0
ShowsLine now Line.begin f = IsFrame f 3 0 0 0 now []
ShowsLine now Line.finish f = IsFrame f 4 0 0 0 now []
ShowsLine now (Line.header n) f = ShowsHeader now n f
ShowsLine now (Line.order instr o) f = ShowsOrder now instr o f

bits64-lt : (z : ℤ) → bits64 z < 2 ^ 64
unfolding bits64
bits64-lt (pos n) = omega arith
bits64-lt (negsuc n) = omega arith

side_to_u8-number : (s : Side) → (side_to_u8 s ≡ side_number s) × (side_number s < 256)
unfolding side_to_u8
side_to_u8-number bid = (refl, omega arith)
side_to_u8-number ask = (refl, omega arith)

-- A control frame that says which numbers are missing.
pub record ShowsGap (now from to : ℕ) (f : List ℕ) : Type 0 where
  pub body : List ℕ
  pub is_frame : IsFrame f 2 0 0 0 now body
  pub from_at : FieldAt body 0 8 from
  pub to_at : FieldAt body 8 16 to

build_frame-IsFrame :
    (now ty instr : ℕ) (body : List ℕ)
    → now < 2 ^ 64
    → ty < 2 ^ 16
    → instr < 2 ^ 64
    → length body < 2 ^ 32
    → IsFrame (build_frame now ty instr 0 body) ty 0 instr 0 now body
unfolding build_frame
build_frame-IsFrame now ty instr body h_now h_ty h_instr h_len =
    frame_of-IsFrame now ty obo_l3 instr 0 body h_ty (omega arith) h_instr (omega arith) h_now h_len

pub build_frame-ShowsGap :
    (now from to : ℕ)
    → now < 2 ^ 64
    → from < 2 ^ 64
    → to < 2 ^ 64
    → ShowsGap now from to (build_frame now msg_gap 0 0 (gap_bytes from to))
unfolding gap_bytes le_bytes
build_frame-ShowsGap now from to h_now h_from h_to =
    let p = gap_bytes from to in
    record {
      body = p;
      is_frame =
          build_frame-IsFrame now msg_gap 0 p h_now (omega arith) (omega arith) (omega arith);
      from_at =
          (_, slice-in p 0 8 (omega arith) (omega arith), le_value-le_bytes 8 from (omega arith));
      to_at =
          (_, slice-in p 8 16 (omega arith) (omega arith), le_value-le_bytes 8 to (omega arith));
    }

order-Shows :
    (now instr : ℕ) (o : OrderExport)
    → now < 2 ^ 64
    → instr < 2 ^ 64
    → o.order_id < 2 ^ 64
    → ShowsOrder now instr o (build_frame now 100 instr 0 (order_message instr o).2)
unfolding order_message add_bytes le_bytes
order-Shows now instr o h_now h_instr h_id =
    let p = (order_message instr o).2 in
    let (same, small) = side_to_u8-number o.side in
    let h_price = bits64-lt o.price in
    let h_qty = bits64-lt o.qty in
    record {
      body = p;
      is_frame = build_frame-IsFrame now 100 instr p h_now (omega arith) h_instr (omega arith);
      id_at = (
        _,
        slice-in p 0 8 (omega arith) (omega arith),
        le_value-le_bytes 8 o.order_id (omega arith),
      );
      price_at = (
        _,
        slice-in p 8 16 (omega arith) (omega arith),
        le_value-le_bytes 8 (bits64 o.price) (omega arith),
      );
      qty_at = (
        _,
        slice-in p 16 24 (omega arith) (omega arith),
        le_value-le_bytes 8 (bits64 o.qty) (omega arith),
      );
      side_at = (
        _,
        slice-in p 24 25 (omega arith) (omega arith),
        le_value-le_bytes 1 (side_to_u8 o.side) (omega (arith, same)) ∙ same,
      );
    }

header-Shows :
    (now n : ℕ)
    → now < 2 ^ 64
    → n < 2 ^ 32
    → ShowsHeader now n (build_frame now 104 0 0 (hdr_bytes 0 (n % 2 ^ 32)))
unfolding hdr_bytes le_bytes
header-Shows now n h_now h_n =
    let p = hdr_bytes 0 (n % 2 ^ 32) in
    record {
      body = p;
      is_frame = build_frame-IsFrame now 104 0 p h_now (omega arith) (omega arith) (omega arith);
      levels_at =
          (_, slice-in p 0 4 (omega arith) (omega arith), le_value-le_bytes 4 0 (omega arith));
      orders_at = (
        _,
        slice-in p 4 8 (omega arith) (omega arith),
        le_value-le_bytes 4 (n % 2 ^ 32) (omega arith) ∙ omega arith,
      );
    }

abbrev message_of_line : Line → Message
message_of_line Line.begin = (3, 0, [])
message_of_line Line.finish = (4, 0, [])
message_of_line (Line.header n) = (104, 0, hdr_bytes 0 (n % 2 ^ 32))
message_of_line (Line.order instr o) = order_message instr o

abbrev messages_of : List Line → List Message
messages_of [] = []
messages_of (l ∷ ls) = message_of_line l ∷ messages_of ls

module _ (clock : ℕ → ℕ) (bounded : (n : ℕ) → clock n < 2 ^ 64) where
  -- One frame for each line, in order, each with its own reading of the clock.
  abbrev pub Shows : ℕ → List Line → List (List ℕ) → Type 0
  Shows n [] [] = Unit {0}
  Shows n [] (f ∷ fs) = ⊥
  Shows n (l ∷ ls) [] = ⊥
  Shows n (l ∷ ls) (f ∷ fs) = ShowsLine (clock n) l f × Shows (suc n) ls fs

  line-Shows :
      (n : ℕ) (l : Line)
      → LineFits l
      → ShowsLine (clock n) l (
          build_frame (clock n) (message_of_line l).0 (message_of_line l).1 0 (message_of_line l).2)
  unfolding order_message
  line-Shows n Line.begin h =
      build_frame-IsFrame (clock n) 3 0 [] (bounded n) (omega arith) (omega arith) (omega arith)
  line-Shows n Line.finish h =
      build_frame-IsFrame (clock n) 4 0 [] (bounded n) (omega arith) (omega arith) (omega arith)
  line-Shows n (Line.header k) h = header-Shows (clock n) k (bounded n) h
  line-Shows n (Line.order instr o) (h_instr, h_id) =
      order-Shows (clock n) instr o (bounded n) h_instr h_id

  frames-Shows :
      (n : ℕ) (ls : List Line) → All LineFits ls → Shows n ls (frames clock n (messages_of ls))
  unfolding frames
  frames-Shows n [] h = tt
  frames-Shows n (l ∷ ls) (h, hs) = (line-Shows n l h, frames-Shows (suc n) ls hs)

  messages_of-append :
      (xs ys : List Line) → messages_of (xs ++ ys) ≡ messages_of xs ++ messages_of ys
  messages_of-append [] ys = refl
  messages_of-append (x ∷ xs) ys = ap (◌∷◌ (message_of_line x)) (messages_of-append xs ys)

  order_messages-lines :
      (instr : ℕ) (os : List OrderExport)
      → order_messages instr os ≡ messages_of (order_lines instr os)
  unfolding order_messages
  order_messages-lines instr [] = refl
  order_messages-lines instr (o ∷ os) =
      ap (◌∷◌ (order_message instr o)) (order_messages-lines instr os)

  instrument_messages-lines :
      (ies : List InstrumentExport) → instrument_messages ies ≡ messages_of (book_lines ies)
  unfolding instrument_messages
  instrument_messages-lines [] = refl
  instrument_messages-lines (ie ∷ ies) =
      ap (◌∷◌ (message_of_line (Line.header (length ie.orders)))) (
        rw (order_messages-lines ie.instr ie.orders, instrument_messages-lines ies)
          (sym (messages_of-append (order_lines ie.instr ie.orders) (book_lines ies))))

  pub snapshot_part-lines :
      (wanted : Bool) (snap : Option BookExport)
      → snapshot_part clock wanted snap ≡ messages_of (lines_for wanted snap)
  unfolding snapshot_messages
  snapshot_part-lines false snap = refl
  snapshot_part-lines true none = refl
  snapshot_part-lines true (some exp) = ap (◌∷◌ (message_of_line Line.begin)) (
      rw (instrument_messages-lines exp.instruments)
        (sym (messages_of-append (book_lines exp.instruments) (Line.finish ∷ []))))

  pub length-messages_of : (ls : List Line) → length (messages_of ls) ≡ length ls
  length-messages_of [] = refl
  length-messages_of (l ∷ ls) = ap suc (length-messages_of ls)

  -- The frames of the snapshot part show its lines.
  pub snapshot_part-Shows :
      (wanted : Bool) (snap : Option BookExport)
      → All LineFits (lines_for wanted snap)
      → Shows 0 (lines_for wanted snap) (frames clock 0 (snapshot_part clock wanted snap))
  snapshot_part-Shows wanted snap h =
      subst (λ ms. Shows 0 (lines_for wanted snap) (frames clock 0 ms))
        (sym (snapshot_part-lines wanted snap)) (frames-Shows 0 (lines_for wanted snap) h)
