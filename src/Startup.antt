-- ===== src/Startup.antt =====
-- src/main.rs: how the options become the settings of the parser and of the arbitration.
pub mod Window
mod Examples
use Prim.Native.Nat.{min, max}
use numi_orderbook.Base.{ℕ, ◌+◌, ◌-◌, ◌*◌, ◌^◌, ◌%◌, none, some}
use numi_orderbook.Settings.{AppConfig}
use numi_orderbook.Parser.{SeqCfg, Parser, build_parser}
use numi_orderbook.Reorder.{MergeConfig}

unfoldable pub seq_cfg : AppConfig → SeqCfg
seq_cfg app = record {
  offset = app.sequence.offset;
  len = app.sequence.len;
  endian = app.sequence.endian;
}

unfoldable pub parser_of : AppConfig → Parser
unfolding seq_cfg build_parser
parser_of app = build_parser app.parser.kind (seq_cfg app) app.parser.max_messages_per_packet

unfoldable pub window_max : AppConfig → ℕ
window_max app = elim app.merge.reorder_window_max [
  | some n ↦ n
  | none ↦
      max (min (app.merge.reorder_window * 8) (2 ^ 64 - 1))
        ((app.merge.reorder_window + 1) % 2 ^ 64)
]

unfoldable pub merge_config : AppConfig → MergeConfig
unfolding window_max
merge_config app = record {
  next_seq = app.merge.initial_expected_seq;
  reorder_window = app.merge.reorder_window;
  max_pending = app.merge.max_pending_packets;
  dwell_ns = elim app.merge.dwell_ns [ none ↦ 2000000 | some n ↦ n ];
  adaptive = app.merge.adaptive;
  reorder_window_max = window_max app;
}
