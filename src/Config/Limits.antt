-- ===== src/Config/Limits.antt =====
-- src/config.rs: what a configuration that passes validation satisfies.
use numi_orderbook.Base.{
  ℕ, ◌≡◌, ◌≤◌, ◌<◌, refl, ◌⊎◌, inl, inr, Bool, true, false, not, ◌&&◌, ◌||◌, ltb, ◌==◌, Bool-cases,
  Option, none, some, arith,
}
use numi_orderbook.Settings.{AppConfig, Ipv4Addr, ChannelCfg}
use numi_orderbook.Config.{
  ConfigError, validate, validate_core, refuse, is_multicast, workers_of, ◌>>◌,
}

abbrev pub MayShare : ChannelCfg → Type 0
MayShare c = (workers_of c ≤ 1) ⊎ (c.reuse_port ≡ true)

abbrev pub InMulticast : Ipv4Addr → Type 0
InMulticast a = (224 ≤ a.octet0) × (a.octet0 ≤ 239)

pub record IsChecked (app : AppConfig) : Type 0 where
  pub multicast_a : InMulticast app.channels.a.group
  pub multicast_b : InMulticast app.channels.b.group
  pub sequence_len : (app.sequence.len ≡ 4) ⊎ (app.sequence.len ≡ 8)
  pub packet_size_min : 512 ≤ app.general.max_packet_size
  pub packet_size_max : app.general.max_packet_size ≤ 65535
  pub window_pos : 0 < app.merge.reorder_window
  pub share_a : MayShare app.channels.a
  pub share_b : MayShare app.channels.b
  pub depth_pos : 0 < app.book.max_depth
  pub interval_pos : 0 < app.book.snapshot_interval_ms

then-none : (a b : Option ConfigError) → (a >> b) ≡ none → (a ≡ none) × (b ≡ none)
then-none none b h = (refl, h)
then-none (some e) b h = cc h

refuse-none : (bad : Bool) (e : ConfigError) → refuse bad e ≡ none → bad ≡ false
refuse-none true e h = cc h
refuse-none false e h = refl

both-false : (a b : Bool) → (not a || not b) ≡ false → (a ≡ true) × (b ≡ true)
both-false true true h = (refl, refl)
both-false true false h = cc h
both-false false b h = cc h

one-of : (n : ℕ) → (not (n == 4) && not (n == 8)) ≡ false → (n ≡ 4) ⊎ (n ≡ 8)
one-of n h = elim (Bool-cases (n == 4)) [ inl e ↦ inl (ground arith) | inr ne ↦ inr (ground arith) ]

may-share : (c : ChannelCfg) → (ltb 1 (workers_of c) && not c.reuse_port) ≡ false → MayShare c
may-share c h = elim (Bool-cases c.reuse_port) [ inl e ↦ inr e | inr ne ↦ inl (ground arith) ]

multicast : (a : Ipv4Addr) → is_multicast a ≡ true → InMulticast a
unfolding is_multicast
multicast a h = (ground arith, ground arith)

core-IsChecked : (app : AppConfig) → validate_core app ≡ none → IsChecked app
unfolding validate_core
core-IsChecked app h =
    let (h1, interval) = then-none _ _ h in
    let (h2, depth) = then-none _ _ h1 in
    let (h3, share_b) = then-none _ _ h2 in
    let (h4, share_a) = then-none _ _ h3 in
    let (h5, window) = then-none _ _ h4 in
    let (h6, size) = then-none _ _ h5 in
    let (groups, len) = then-none _ _ h6 in
    let (ga, gb) = both-false _ _ (refuse-none _ _ groups) in
    record {
      multicast_a = multicast app.channels.a.group ga;
      multicast_b = multicast app.channels.b.group gb;
      sequence_len = one-of app.sequence.len (refuse-none _ _ len);
      packet_size_min = ground (arith, refuse-none _ _ size);
      packet_size_max = ground (arith, refuse-none _ _ size);
      window_pos = ground (arith, refuse-none _ _ window);
      share_a = may-share app.channels.a (refuse-none _ _ share_a);
      share_b = may-share app.channels.b (refuse-none _ _ share_b);
      depth_pos = ground (arith, refuse-none _ _ depth);
      interval_pos = ground (arith, refuse-none _ _ interval);
    }

-- A configuration that passes validation has multicast groups, a sequence field of 4 or 8 bytes, a
-- packet size from 512 to 65535, a positive reorder window, depth and snapshot interval, and more
-- than one worker only on a channel that may share its port.
pub validate-IsChecked : (app : AppConfig) → validate app ≡ none → IsChecked app
unfolding validate
validate-IsChecked app h =
    let (h1, afxdp) = then-none _ _ h in
    let (h2, recovery) = then-none _ _ h1 in
    let (h3, snapshot) = then-none _ _ h2 in
    let (core, feeds) = then-none _ _ h3 in core-IsChecked app core
