-- ===== src/Startup/Window.antt =====
-- src/main.rs and src/merge.rs: the adaptive window of a configuration that sets no maximum.
use Prim.Native.Nat.{max}
use numi_orderbook.Base.{ℕ, ◌+◌, ◌*◌, ◌/◌, ◌^◌, ◌≤◌, ◌<◌, ◌≡◌, ap, true, none, arith}
use numi_orderbook.Settings.{AppConfig}
use numi_orderbook.Config.{validate}
use numi_orderbook.Config.Limits.{validate-IsChecked}
use numi_orderbook.Reorder.{Merge, MergeConfig, adapt, adapt_window, wrap64, sat64}
use numi_orderbook.Merge.{start}
use numi_orderbook.Startup.{merge_config, window_max}

window_max-default :
    (app : AppConfig)
    → app.merge.reorder_window_max ≡ none
    → 0 < app.merge.reorder_window
    → 8 * app.merge.reorder_window < 2 ^ 64
    → window_max app ≡ 8 * app.merge.reorder_window
unfolding window_max
window_max-default app default some_window small = ground arith

-- A window below its maximum grows when there was a gap.
adapt_window-gap :
    (m : ℕ) (s : Merge)
    → 0 < s.recent_gaps
    → s.reorder_window + max (s.reorder_window / 4) 1 ≤ m
    → m < 2 ^ 64
    → adapt_window m s ≡ s.reorder_window + max (s.reorder_window / 4) 1
unfolding adapt_window wrap64
adapt_window-gap m s gaps room small = ground arith

adapt-due :
    (cfg : MergeConfig) (s : Merge)
    → cfg.adaptive ≡ true
    → 4096 ≤ s.forwarded_since_check
    → ((adapt cfg s).reorder_window ≡ adapt_window cfg.reorder_window_max s)
      × ((adapt cfg s).cap ≡ s.cap)
unfolding adapt
adapt-due cfg s on due = (ground arith, ground arith)

start-cap :
    (clock : ℕ → ℕ) (cfg : MergeConfig)
    → cfg.reorder_window + 1 < 2 ^ 64
    → (start clock cfg).cap ≡ cfg.reorder_window + 1
unfolding start sat64
start-cap clock cfg small = ground arith

-- Under a configuration that passes validation, adapts the window and sets no maximum of it (with
-- eight times the window below 2^64), the start-up takes eight times the window as the maximum. At
-- the first look at the window, with the window and the ring of the start and a gap since then, it
-- grows by a quarter, or by one if that is less, and so reaches the size of the ring, which stays.
pub window_outgrows_ring :
    (clock : ℕ → ℕ) (app : AppConfig) (s : Merge)
    → validate app ≡ none
    → app.merge.adaptive ≡ true
    → app.merge.reorder_window_max ≡ none
    → 8 * app.merge.reorder_window < 2 ^ 64
    → s.reorder_window ≡ app.merge.reorder_window
    → s.cap ≡ (start clock (merge_config app)).cap
    → 4096 ≤ s.forwarded_since_check
    → 0 < s.recent_gaps
    → ((merge_config app).reorder_window_max ≡ 8 * app.merge.reorder_window)
      × ((adapt (merge_config app) s).reorder_window
          ≡ app.merge.reorder_window + max (app.merge.reorder_window / 4) 1)
      × ((adapt (merge_config app) s).cap ≤ (adapt (merge_config app) s).reorder_window)
unfolding merge_config
window_outgrows_ring clock app s valid adaptive default small same ring due gaps =
    let cfg = merge_config app in
    let pos_window = (validate-IsChecked app valid).window_pos in
    let top = window_max-default app default pos_window small in
    let (grown, cap) = adapt-due cfg s adaptive due in
    let slots = start-cap clock cfg (omega arith) in
    let size = adapt_window-gap (window_max app) s gaps (omega (arith, top)) (omega (arith, top)) in
    (
      top,
      omega (arith, grown, size, ap (λ w. max (w / 4) 1) same),
      omega (arith, grown, size, cap, slots),
    )
