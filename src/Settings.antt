-- ===== src/Settings.antt =====
-- src/config.rs: the options of the program. A string is the list of its code points. Reading the file
-- and its TOML is the work of another package; the fields that only other parts read are kept.
use numi_orderbook.Base.{ℕ, Bool, Option, List}
use numi_orderbook.Base.Int.{ℤ}

pub data Endian : Type 0 where
  be le : Endian

pub data ParserKind : Type 0 where
  fixed_binary fast_like itch50 : ParserKind

pub data TimestampingMode : Type 0 where
  off software hardware hardware_raw : TimestampingMode

abbrev pub Text : Type 0
Text = List ℕ

pub record Ipv4Addr : Type 0 where
  pub octet0 : ℕ
  pub octet1 : ℕ
  pub octet2 : ℕ
  pub octet3 : ℕ

pub record General : Type 0 where
  pub max_packet_size : ℕ
  pub pool_size : ℕ
  pub rx_queue_capacity : ℕ
  pub merge_queue_capacity : ℕ
  pub spin_loops_per_yield : ℕ
  pub rx_recvmmsg_batch : Option ℕ
  pub mlock_all : Bool
  pub json_logs : Bool

pub record Sequence : Type 0 where
  pub offset : ℕ
  pub len : ℕ
  pub endian : Endian

pub record ParserOptions : Type 0 where
  pub kind : ParserKind
  pub max_messages_per_packet : ℕ

pub record ChannelCfg : Type 0 where
  pub group : Ipv4Addr
  pub port : ℕ
  pub iface_addr : Ipv4Addr
  pub reuse_port : Bool
  pub recv_buffer_bytes : ℕ
  pub busy_poll_us : Option ℕ
  pub nonblocking : Bool
  pub timestamping : Option TimestampingMode
  pub workers : Option ℕ

pub record Channels : Type 0 where
  pub a : ChannelCfg
  pub b : ChannelCfg

pub record MergeOptions : Type 0 where
  pub initial_expected_seq : ℕ
  pub reorder_window : ℕ
  pub max_pending_packets : ℕ
  pub dwell_ns : Option ℕ
  pub adaptive : Bool
  pub reorder_window_max : Option ℕ

pub record BookOptions : Type 0 where
  pub max_depth : ℕ
  pub snapshot_interval_ms : ℕ
  pub consume_trades : Bool

pub record RecoveryCfg : Type 0 where
  pub enable_injector : Bool
  pub endpoint : Text
  pub backlog_path : Option Text

pub record Cpu : Type 0 where
  pub a_rx_core : Option ℕ
  pub b_rx_core : Option ℕ
  pub merge_core : Option ℕ
  pub decode_core : Option ℕ
  pub rt_priority : Option ℤ

pub record Metrics : Type 0 where
  pub bind : Text

pub record SnapshotCfg : Type 0 where
  pub path : Text
  pub load_on_start : Bool
  pub enable_writer : Bool

pub record AfxdpCfg : Type 0 where
  pub enable : Bool
  pub ifname : Text
  pub queues : Option ℕ

pub record Pop : Type 0 where
  pub ws_endpoints : List Text
  pub h3_endpoints : List Text

pub record TlsCfg : Type 0 where
  pub cert_path : Text
  pub key_path : Text

pub record BuffersCfg : Type 0 where
  pub pub_queue : ℕ

pub record OboFeedCfg : Type 0 where
  pub enabled : Bool
  pub buffers : Option BuffersCfg

pub record Feeds : Type 0 where
  pub enabled : Bool
  pub pops : List Pop
  pub tls : Option TlsCfg
  pub obo : Option OboFeedCfg
  pub auth_token : Option Text

pub record AppConfig : Type 0 where
  pub general : General
  pub sequence : Sequence
  pub parser : ParserOptions
  pub channels : Channels
  pub merge : MergeOptions
  pub book : BookOptions
  pub cpu : Cpu
  pub metrics : Option Metrics
  pub snapshot : Option SnapshotCfg
  pub recovery : Option RecoveryCfg
  pub afxdp : Option AfxdpCfg
  pub feeds : Option Feeds
