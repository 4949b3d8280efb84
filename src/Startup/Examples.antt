-- ===== src/Startup/Examples.antt =====
-- src/config.rs, src/parser.rs and src/main.rs: a configuration that passes, and the theorems at it.
use numi_orderbook.Base.{
  ℕ, ◌^◌, ◌≤◌, ◌<◌, ◌≡◌, refl, ◌⊎◌, true, false, none, some, List, [], ◌∷◌, arith, length,
}
use numi_orderbook.Wire.{ok}
use numi_orderbook.Settings.{AppConfig, ChannelCfg, Endian, ParserKind}
use numi_orderbook.Config.{
  validate, validate_core, validate_feeds, validate_snapshot, validate_recovery, validate_afxdp,
  is_multicast, is_blank, is_whitespace, contains,
}
use numi_orderbook.Config.Limits.{IsChecked, validate-IsChecked}
use numi_orderbook.Parser.{extract_seq}
use numi_orderbook.Parser.Sequence.{extract_seq_validated}
use numi_orderbook.Merge.{start}
use numi_orderbook.Reorder.{Merge, adapt}
use numi_orderbook.Startup.{seq_cfg, merge_config}
use numi_orderbook.Startup.Window.{window_outgrows_ring}

abbrev channel : ℕ → ChannelCfg
channel port = record {
  group = record { octet0 = 239; octet1 = 10; octet2 = 10; octet3 = 1 };
  port = port;
  iface_addr = record { octet0 = 10; octet1 = 0; octet2 = 0; octet3 = 1 };
  reuse_port = true;
  recv_buffer_bytes = 4096;
  busy_poll_us = none;
  nonblocking = true;
  timestamping = none;
  workers = some 2;
}

abbrev app : AppConfig
app = record {
  general = record {
    max_packet_size = 2048;
    pool_size = 64;
    rx_queue_capacity = 64;
    merge_queue_capacity = 64;
    spin_loops_per_yield = 64;
    rx_recvmmsg_batch = none;
    mlock_all = false;
    json_logs = false;
  };
  sequence = record { offset = 2; len = 4; endian = Endian.be };
  parser = record { kind = ParserKind.itch50; max_messages_per_packet = 16 };
  channels = record { a = channel 5001; b = channel 5002 };
  merge = record {
    initial_expected_seq = 1;
    reorder_window = 4;
    max_pending_packets = 64;
    dwell_ns = none;
    adaptive = true;
    reorder_window_max = none;
  };
  book = record { max_depth = 10; snapshot_interval_ms = 100; consume_trades = false };
  cpu = record {
    a_rx_core = none;
    b_rx_core = none;
    merge_core = none;
    decode_core = none;
    rt_priority = none;
  };
  metrics = none;
  snapshot = some (record { path = b'/' ∷ b's' ∷ []; load_on_start = false; enable_writer = true });
  recovery =
      some (record {
        enable_injector = true;
        endpoint = b'h' ∷ b':' ∷ b'1' ∷ [];
        backlog_path = none;
      });
  afxdp = none;
  feeds = none;
}

app_passes : validate app ≡ none
unfolding validate validate_core validate_feeds validate_snapshot validate_recovery validate_afxdp
    is_multicast is_blank is_whitespace contains
app_passes = refl

validate-IsChecked_example : IsChecked app
validate-IsChecked_example = validate-IsChecked app app_passes

abbrev packet : List ℕ
packet = 9 ∷ 9 ∷ 0 ∷ 0 ∷ 1 ∷ 2 ∷ 7 ∷ []

extract_seq_validated_example :
    ((length packet < 6) × (extract_seq (seq_cfg app) packet ≡ ok none))
    ⊎ ((n : ℕ) × (extract_seq (seq_cfg app) packet ≡ ok (some n)) × (n < 256 ^ 4))
extract_seq_validated_example = extract_seq_validated app packet app_passes (omega arith)

abbrev with_gap : Merge
with_gap = record (start (λ n. n) (merge_config app)) {
  forwarded_since_check = 4100;
  recent_gaps = 2;
}

window_outgrows_ring_example :
    ((merge_config app).reorder_window_max ≡ 32)
    × ((adapt (merge_config app) with_gap).reorder_window ≡ 5)
    × ((adapt (merge_config app) with_gap).cap ≤ (adapt (merge_config app) with_gap).reorder_window)
unfolding start merge_config
window_outgrows_ring_example =
    window_outgrows_ring (λ n. n) app with_gap app_passes refl refl (omega arith) refl refl
      (omega arith) (omega arith)
