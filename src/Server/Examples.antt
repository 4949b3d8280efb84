-- ===== src/Server/Examples.antt =====
-- src/ws_server.rs: a client that falls behind a ring of two frames, and one that is turned away.
use numi_orderbook.Base.{Option, true, ◌++◌, ℕ, ◌+◌, ◌≡◌, refl, false, none, some, List, [], ◌∷◌}
use numi_orderbook.Wire.{ok}
use numi_orderbook.Pubsub.{new_bus, recv_next, push_frame}
use numi_orderbook.Pubsub.Session.{Op}
use numi_orderbook.Book.Export.{BookExport}
use numi_orderbook.Server.{
  Request, bearer, follow, on_recv, build_frame, gap_bytes, handle_client, is_authorized,
  snapshot_messages, hdr_bytes, order_messages, instrument_messages,
}
use numi_orderbook.Base.Int.{pos}
use numi_orderbook.Event.{ask}

abbrev clock : ℕ → ℕ
clock n = 1000 + n

abbrev ops : List Op
ops =
    Op.read
    ∷ Op.publish (1 ∷ [])
    ∷ Op.read
    ∷ Op.publish (2 ∷ [])
    ∷ Op.publish (3 ∷ [])
    ∷ Op.publish (4 ∷ [])
    ∷ Op.read
    ∷ []

-- Frame 0 is sent, then the gap of frame 1.
follow_test :
    follow clock 0 (new_bus 2).ring (record { next_global = 0 }) ops
    ≡ ok ((1 ∷ []) ∷ build_frame 1000 2 0 0 (gap_bytes 1 1) ∷ [])
unfolding follow on_recv new_bus recv_next push_frame
follow_test = refl

unauthorized_test :
    handle_client clock
      (some (1 ∷ []))
      none
      (record { from_seq = none; snapshot = false; authorization = none })
      (new_bus 2)
      ops
    ≡ ok none
unfolding handle_client is_authorized
unauthorized_test = refl

empty_snapshot_test :
    snapshot_messages (record { version = 1; instruments = record { instr = 3; orders = [] } ∷ [] })
    ≡ (3, 0, []) ∷ (104, 0, hdr_bytes 0 0) ∷ (4, 0, []) ∷ []
unfolding snapshot_messages instrument_messages order_messages
empty_snapshot_test = refl

abbrev token : Option (List ℕ)
token = some (b'k' ∷ [])

abbrev snap : Option BookExport
snap = some (record {
  version = 1;
  instruments =
      record {
        instr = 3;
        orders = record { order_id = 7; price = pos 100; qty = pos 5; side = ask } ∷ [];
      }
      ∷ [];
})

abbrev request : Request
request = record {
  from_seq = some 0;
  snapshot = true;
  authorization = some (bearer ++ (b'k' ∷ []));
}

authorized_test : is_authorized token request.authorization ≡ true
unfolding is_authorized
authorized_test = refl

-- A clock that stands still.
abbrev still : ℕ → ℕ
still n = 1000
