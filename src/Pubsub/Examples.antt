-- ===== src/Pubsub/Examples.antt =====
-- src/pubsub.rs: a ring of two frames, its reader, and the sequence numbers.
use numi_orderbook.Base.{◌≡◌, refl, List, [], ◌∷◌, arith}
use numi_orderbook.Pubsub.{frame_of, Recv, new_bus, recv_next, push_frame, next_seq_for_instrument}
use numi_orderbook.Pubsub.Frame.{IsFrame, frame_of-IsFrame}
use numi_orderbook.Pubsub.Session.{
  Op, run, run_log, run_refines, new_bus-IsLog, after, next_seq-count,
}

abbrev ops : List Op
ops =
    Op.read
    ∷ Op.publish (1 ∷ [])
    ∷ Op.read
    ∷ Op.publish (2 ∷ [])
    ∷ Op.publish (3 ∷ [])
    ∷ Op.publish (4 ∷ [])
    ∷ Op.read
    ∷ []

run_test :
    run (new_bus 2).ring (record { next_global = 0 }) ops
    ≡ Recv.wait ∷ Recv.frame (1 ∷ []) ∷ Recv.gap 1 1 ∷ []
unfolding run new_bus recv_next push_frame
run_test = refl

run_refines_example : run (new_bus 2).ring (record { next_global = 0 }) ops ≡ run_log 2 [] 0 ops
unfolding new_bus
run_refines_example =
    run_refines ops [] (new_bus 2).ring 0 (new_bus-IsLog 2 (omega arith)) (omega arith)

next_seq-count_example : (next_seq_for_instrument 5 (after (5 ∷ 8 ∷ 5 ∷ []) [])).0 ≡ 3
next_seq-count_example = next_seq-count (5 ∷ 8 ∷ 5 ∷ []) 5 (omega arith)

frame_of-IsFrame_example :
    IsFrame (frame_of 1000 100 0 7 3 (1 ∷ 2 ∷ [])) 100 0 7 3 1000 (1 ∷ 2 ∷ [])
frame_of-IsFrame_example =
    frame_of-IsFrame 1000 100 0 7 3 (1 ∷ 2 ∷ []) (omega arith) (omega arith) (omega arith)
      (omega arith) (omega arith) (omega arith)
