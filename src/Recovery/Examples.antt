-- ===== src/Recovery/Examples.antt =====
-- src/recovery.rs: three requests, of which two join, and a replay of two packets.
use numi_orderbook.Pool.{Pkt}
use numi_orderbook.Base.{
  if◌then◌else◌, ◌==◌, ◌&&◌, ◌⊎◌, ℕ, ◌+◌, ◌≡◌, refl, Option, none, some, List, [], ◌∷◌, ◌++◌, arith,
}
use numi_orderbook.Wire.{ok, be_bytes, be_value}
use numi_orderbook.Recovery.{
  replayed, RecoveryRequest, notify_gap, coalesce, Ending, Injector, fetch_and_inject,
  inject_stream, run_injector,
}
use numi_orderbook.Recovery.Replay.{wire, wire_packet, AllSent, fetch_and_inject-AllSent}
use numi_orderbook.Recovery.Requests.{Ran, Idle, run_injector-Ran}

abbrev sent : List (ℕ × List ℕ)
sent = (7, 1 ∷ 2 ∷ []) ∷ (8, 3 ∷ []) ∷ []

abbrev idle : Injector
idle = record { backlog = some []; injected = []; reads = 0 }

abbrev clock : ℕ → ℕ
clock n = 100 + n

abbrev requests : List RecoveryRequest
requests = notify_gap 10 12 (notify_gap 20 21 (notify_gap 5 9 (notify_gap 4 3 [])))

abbrev silent : ℕ → ℕ → Option (List ℕ)
silent from to = none

-- The service has packets 7 and 8 for the range 5 to 12, and nothing else.
abbrev served : ℕ → ℕ → Option (List ℕ)
served from to = if (from == 5) && (to == 12) then some (wire sent) else none

coalesce_test :
    coalesce (RecoveryRequest.gap 20 21 ∷ RecoveryRequest.gap 10 12 ∷ []) 5 9 (some [])
    ≡ ((5, 12), some ((20, 21) ∷ []))
unfolding coalesce
coalesce_test = refl

run_injector_test :
    run_injector clock 4 silent requests idle
    ≡ ok (record { backlog = some ((20, 21) ∷ (5, 12) ∷ []); injected = []; reads = 0 })
unfolding run_injector notify_gap
run_injector_test = refl

fetch_and_inject_test :
    fetch_and_inject clock 1 (some (wire sent)) idle ≡ ok (Ending.too_large, idle)
unfolding fetch_and_inject inject_stream wire_packet be_bytes be_value
fetch_and_inject_test = refl

fetch_and_inject-AllSent_example :
    (after : Injector) × (ps : List Pkt) × (fetch_and_inject clock 4
        (some (wire sent ++ (0 ∷ [])))
        idle
      ≡ ok (Ending.done, after))
    × (after.injected ≡ [] ++ ps)
    × AllSent clock 4 sent ps
    × (after.backlog ≡ some [])
fetch_and_inject-AllSent_example =
    fetch_and_inject-AllSent clock 4 sent (0 ∷ []) idle
      (
        record {
          seq_u64 = omega arith;
          len_u32 = omega arith;
          filled = omega arith;
          fits = omega arith;
        },
        (
          record {
            seq_u64 = omega arith;
            len_u32 = omega arith;
            filled = omega arith;
            fits = omega arith;
          },
          tt,
        ),
      )
      (omega arith)

run_injector-Ran_example : Idle clock 4 served requests idle ⊎ Ran clock 4 served requests idle
run_injector-Ran_example = run_injector-Ran clock 4 served requests idle

-- The range is fetched and its packets injected; the gap apart is in the log.
replay_test :
    run_injector clock 4 served requests idle
    ≡ ok (record {
      backlog = some ((20, 21) ∷ (5, 12) ∷ []);
      injected = replayed 100 7 (1 ∷ 2 ∷ []) ∷ replayed 101 8 (3 ∷ []) ∷ [];
      reads = 2;
    })
unfolding run_injector notify_gap inject_stream wire_packet be_bytes be_value replayed
replay_test = refl
