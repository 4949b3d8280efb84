-- ===== src/Config.antt =====
-- src/config.rs: the validation of the options in Settings.
pub mod Limits
use numi_orderbook.Base.{
  ℕ, Bool, true, false, not, ◌&&◌, ◌||◌, Option, none, some, List, [], ◌∷◌, ltb, leb, ◌==◌,
  if◌then◌else◌, length,
}
use numi_orderbook.Base.Int.{ℤ}
use numi_orderbook.Settings.{
  AfxdpCfg, AppConfig, BookOptions, BuffersCfg, ChannelCfg, Channels, Cpu, Endian, Feeds, General,
  Ipv4Addr, MergeOptions, Metrics, OboFeedCfg, ParserKind, ParserOptions, Pop, RecoveryCfg,
  Sequence, SnapshotCfg, Text, TimestampingMode, TlsCfg,
}

-- One for each message of `bail!`.
pub data ConfigError : Type 0 where
  not_multicast bad_sequence_length bad_max_packet_size zero_reorder_window : ConfigError
  workers_a_need_reuse_port workers_b_need_reuse_port zero_max_depth : ConfigError
  zero_snapshot_interval bad_ws_endpoints bad_h3_endpoints no_pops empty_auth_token : ConfigError
  empty_tls_paths zero_pub_queue empty_snapshot_path bad_recovery_endpoint empty_ifname :
      ConfigError

-- `validate` gives `none` for `Ok(())`.
infixl 5 ◌>>◌
abbrev pub ◌>>◌ : Option ConfigError → Option ConfigError → Option ConfigError
none >> k = k
some e >> k = some e

abbrev pub refuse : Bool → ConfigError → Option ConfigError
refuse bad e = if bad then some e else none

-- `Ipv4Addr::is_multicast`, 224.0.0.0/4.
unfoldable pub is_multicast : Ipv4Addr → Bool
is_multicast a = leb 224 a.octet0 && leb a.octet0 239

-- `char::is_whitespace`
unfoldable pub is_whitespace : ℕ → Bool
is_whitespace c =
    leb 9 c && leb c 13
    || c == 32
    || c == 0x85
    || c == 0xa0
    || c == 0x1680
    || leb 0x2000 c && leb c 0x200a
    || c == 0x2028
    || c == 0x2029
    || c == 0x202f
    || c == 0x205f
    || c == 0x3000

-- `s.trim().is_empty()`
unfoldable pub is_blank : Text → Bool
unfolding is_whitespace
is_blank [] = true
is_blank (c ∷ s) = is_whitespace c && is_blank s

-- `s.contains(c)`
unfoldable pub contains : ℕ → Text → Bool
contains c [] = false
contains c (d ∷ s) = d == c || contains c s

abbrev pub workers_of : ChannelCfg → ℕ
workers_of c = elim c.workers [ none ↦ 1 | some n ↦ n ]

unfoldable pub validate_pops : List Pop → Option ConfigError
validate_pops [] = none
validate_pops (p ∷ ps) =
    refuse (not (length p.ws_endpoints == 2)) ConfigError.bad_ws_endpoints
    >> refuse (not (length p.h3_endpoints == 2)) ConfigError.bad_h3_endpoints
    >> validate_pops ps

unfoldable pub validate_token : Option Text → Option ConfigError
validate_token none = none
validate_token (some tok) = refuse (is_blank tok) ConfigError.empty_auth_token

unfoldable pub validate_tls : Option TlsCfg → Option ConfigError
validate_tls none = none
validate_tls (some t) =
    refuse (is_blank t.cert_path || is_blank t.key_path) ConfigError.empty_tls_paths

unfoldable pub validate_obo : Option OboFeedCfg → Option ConfigError
validate_obo none = none
validate_obo (some o) = elim o.buffers [
  | none ↦ none
  | some b ↦ refuse (b.pub_queue == 0) ConfigError.zero_pub_queue
]

unfoldable pub validate_feeds : Option Feeds → Option ConfigError
unfolding validate_pops validate_token validate_tls validate_obo
validate_feeds none = none
validate_feeds (some f) =
    validate_pops f.pops
    >> refuse (f.enabled && length f.pops == 0) ConfigError.no_pops
    >> validate_token f.auth_token
    >> validate_tls f.tls
    >> validate_obo f.obo

unfoldable pub validate_snapshot : Option SnapshotCfg → Option ConfigError
validate_snapshot none = none
validate_snapshot (some s) = refuse (is_blank s.path) ConfigError.empty_snapshot_path

unfoldable pub validate_recovery : Option RecoveryCfg → Option ConfigError
validate_recovery none = none
validate_recovery (some r) =
    refuse (r.enable_injector && (is_blank r.endpoint || not (contains b':' r.endpoint)))
      ConfigError.bad_recovery_endpoint

unfoldable pub validate_afxdp : Option AfxdpCfg → Option ConfigError
validate_afxdp none = none
validate_afxdp (some a) = refuse (is_blank a.ifname) ConfigError.empty_ifname

unfoldable pub validate_core : AppConfig → Option ConfigError
unfolding is_multicast
validate_core cfg =
    refuse (not (is_multicast cfg.channels.a.group) || not (is_multicast cfg.channels.b.group))
      ConfigError.not_multicast
    >> refuse (not (cfg.sequence.len == 4) && not (cfg.sequence.len == 8))
        ConfigError.bad_sequence_length
    >> refuse (ltb cfg.general.max_packet_size 512 || ltb 65535 cfg.general.max_packet_size)
        ConfigError.bad_max_packet_size
    >> refuse (cfg.merge.reorder_window == 0) ConfigError.zero_reorder_window
    >> refuse (ltb 1 (workers_of cfg.channels.a) && not cfg.channels.a.reuse_port)
        ConfigError.workers_a_need_reuse_port
    >> refuse (ltb 1 (workers_of cfg.channels.b) && not cfg.channels.b.reuse_port)
        ConfigError.workers_b_need_reuse_port
    >> refuse (cfg.book.max_depth == 0) ConfigError.zero_max_depth
    >> refuse (cfg.book.snapshot_interval_ms == 0) ConfigError.zero_snapshot_interval

unfoldable pub validate : AppConfig → Option ConfigError
unfolding validate_core validate_feeds validate_snapshot validate_recovery validate_afxdp
validate cfg =
    validate_core cfg
    >> validate_feeds cfg.feeds
    >> validate_snapshot cfg.snapshot
    >> validate_recovery cfg.recovery
    >> validate_afxdp cfg.afxdp
