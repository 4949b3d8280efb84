-- ===== src/Decode/Cancel.antt =====
-- src/decode.rs: the frame that a cancelled order is published in.
use numi_orderbook.Base.{
  ℕ, suc, ◌+◌, ◌%◌, ◌^◌, ◌<◌, ◌≡◌, ◌≢◌, refl, some, List, [], ◌∷◌, ◌++◌, length, ==_ne, arith,
}
use numi_orderbook.Base.Dict.{lookup, lookup-insert_self, lookup-insert_other}
use numi_orderbook.Event.{Event}
use numi_orderbook.Wire.{ok, le_bytes}
use numi_orderbook.Obo.{map_event_to_obo_parts, message_of, cancel_bytes, obo_l3, obo_cancel}
use numi_orderbook.Pubsub.{Bus, publish_raw, next_seq_for_instrument, seq_or_first, frame_of}
use numi_orderbook.Pubsub.Log.{IsLog, push_frame-IsLog}
use numi_orderbook.Pubsub.Frame.{IsFrame, frame_of-IsFrame}
use numi_orderbook.Book.Orders.{OrderBook, apply}
use numi_orderbook.Decode.{on_events, publish_event, publish}
use numi_orderbook.Decode.Publish.{del_instr, del_instr-before, del_instr-after, gone}

-- The sequence number that an instrument is given next.
abbrev pub next_number : ℕ → Bus → ℕ
next_number instr b = seq_or_first (lookup instr b.per_instr_seq)

abbrev pub cancel_payload : ℕ → List ℕ
cancel_payload id = le_bytes 8 id ++ (le_bytes 8 0 ++ le_bytes 1 0)

-- What publishing a cancel under an instrument does.
pub record CancelSent (now instr id : ℕ) (log : List (List ℕ)) (b b' : Bus) : Type 0 where
  pub frame : List ℕ
  pub is_frame : IsFrame frame 102 0 instr (next_number instr b) now (cancel_payload id)
  pub on_log : IsLog (log ++ (frame ∷ [])) b'.ring
  pub counted : lookup instr b'.per_instr_seq ≡ some ((next_number instr b + 1) % 2 ^ 64)
  pub others : (i : ℕ) → instr ≢ i → lookup i b'.per_instr_seq ≡ lookup i b.per_instr_seq

publish_event-CancelSent :
    (now instr id : ℕ) (ob : OrderBook) (b : Bus) (log : List (List ℕ))
    → del_instr id ob ≡ instr
    → IsLog log b.ring
    → length log + 1 < 2 ^ 64
    → now < 2 ^ 64
    → instr < 2 ^ 64
    → next_number instr b < 2 ^ 64
    → CancelSent now instr id log b (publish_event now (Event.del id) ob b)
unfolding publish_event publish map_event_to_obo_parts message_of cancel_bytes publish_raw
    next_seq_for_instrument le_bytes
publish_event-CancelSent now instr id ob b log at v small h_now h_instr h_seq =
    let seq = next_number instr b in
    let f = frame_of now obo_cancel obo_l3 instr seq (cancel_payload id) in
    rw at (record {
      frame = f;
      is_frame =
          frame_of-IsFrame now obo_cancel obo_l3 instr seq (cancel_payload id) (omega arith)
            (omega arith) h_instr h_seq h_now (omega arith);
      on_log = push_frame-IsLog log b.ring v f small;
      counted = lookup-insert_self instr ((seq + 1) % 2 ^ 64) b.per_instr_seq;
      others = λ i ne.
          lookup-insert_other instr i ((seq + 1) % 2 ^ 64) b.per_instr_seq (==_ne instr i ne);
    })

-- The cancel of a live order of any instrument is put on the publisher's log as a frame of the
-- instrument 0, with the next sequence number of instrument 0, and the numbers of all other
-- instruments stay, though the book before the event names the order's own instrument.
pub on_events-cancel :
    (clock : ℕ → ℕ) (fresh id instr h reads : ℕ) (ob ob' : OrderBook) (b : Bus)
    (log : List (List ℕ))
    → lookup id ob.index ≡ some (instr, h)
    → apply fresh (Event.del id) ob ≡ some ob'
    → IsLog log b.ring
    → length log + 1 < 2 ^ 64
    → clock reads < 2 ^ 64
    → next_number 0 b < 2 ^ 64
    → (b' : Bus) × (on_events clock ((fresh, Event.del id) ∷ []) reads ob (some b)
        ≡ ok (suc reads, ob', some b'))
      × CancelSent (clock reads) 0 id log b b'
      × (del_instr id ob ≡ instr)
unfolding on_events
on_events-cancel clock fresh id instr h reads ob ob' b log live run v small h_now h_seq =
    let sent =
      publish_event-CancelSent (clock reads) 0 id ob' b log
        (del_instr-after id ob' (gone fresh id instr h ob ob' live run)) v small h_now (omega arith)
        h_seq in
    (
      publish_event (clock reads) (Event.del id) ob' b,
      rw run refl,
      sent,
      del_instr-before id instr h ob live,
    )
