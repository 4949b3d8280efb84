-- ===== src/Client/Examples.antt =====
-- src/codec_raw.rs and src/bin/ws_client.rs: a frame of instrument 7, misread.
use numi_orderbook.Base.{◌*◌, ◌^◌, ◌≡◌, [], ◌∷◌, arith}
use numi_orderbook.Wire.{ok}
use numi_orderbook.Pubsub.{frame_of}
use numi_orderbook.Client.{read_fields}
use numi_orderbook.Client.Layout.{client_misreads}

client_misreads_example :
    read_fields (frame_of 1000 100 0 7 3 (1 ∷ 2 ∷ [])) ≡ ok (3 * 2 ^ 32, 1000 * 2 ^ 32, 100)
client_misreads_example =
    client_misreads 1000 100 0 7 3 (1 ∷ 2 ∷ []) (omega arith) (omega arith) (omega arith)
