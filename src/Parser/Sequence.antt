-- ===== src/Parser/Sequence.antt =====
-- src/parser.rs: the extractor of sequence numbers, on its own and under a validated configuration.
use numi_orderbook.Base.{
  ℕ, ◌+◌, ◌-◌, ◌^◌, ◌<◌, ◌≤◌, ◌≡◌, sym, ◌⊎◌, inl, inr, Bool-cases, none, some, List, ltb, length,
  All, take, drop, arith, length-take, length-drop, zero, suc, [], ◌∷◌,
}
use numi_orderbook.Wire.{ok, IsByte}
use numi_orderbook.Wire.Slices.{slice-in}
use numi_orderbook.Wire.Values.{le_value-lt, be_value-lt}
use mathlib.Core.Path.{subst}
use numi_orderbook.Settings.{AppConfig, Endian}
use numi_orderbook.Config.{validate}
use numi_orderbook.Config.Limits.{validate-IsChecked}
use numi_orderbook.Parser.{SeqCfg, extract_seq, value_in}
use numi_orderbook.Startup.{seq_cfg}

value_in-lt : (e : Endian) (bs : List ℕ) → All IsByte bs → value_in e bs < 256 ^ length bs
value_in-lt Endian.be bs h = be_value-lt bs h
value_in-lt Endian.le bs h = le_value-lt bs h

take-IsByte : (n : ℕ) (xs : List ℕ) → All IsByte xs → All IsByte (take n xs)
take-IsByte zero xs h = tt
take-IsByte (suc n) [] h = tt
take-IsByte (suc n) (x ∷ xs) h = (h.0, take-IsByte n xs h.1)

drop-IsByte : (n : ℕ) (xs : List ℕ) → All IsByte xs → All IsByte (drop n xs)
drop-IsByte zero xs h = h
drop-IsByte (suc n) [] h = tt
drop-IsByte (suc n) (x ∷ xs) h = drop-IsByte n xs h.1

module _ (cfg : SeqCfg) (pkt : List ℕ) (h : All IsByte pkt) where
  abbrev part : ℕ → ℕ
  part n = value_in cfg.endian (take (cfg.offset + n - cfg.offset) (drop cfg.offset pkt))

  part-lt : (n : ℕ) → cfg.offset + n ≤ length pkt → part n < 256 ^ n
  part-lt n fits =
      let bytes = take (cfg.offset + n - cfg.offset) (drop cfg.offset pkt) in
      let len : length bytes ≡ n = omega (
        arith,
        length-take (cfg.offset + n - cfg.offset) (drop cfg.offset pkt),
        length-drop cfg.offset pkt,
      ) in
      subst (λ k. value_in cfg.endian bytes < 256 ^ k) len
        (value_in-lt cfg.endian bytes (
          take-IsByte (cfg.offset + n - cfg.offset) (drop cfg.offset pkt)
            (drop-IsByte cfg.offset pkt h)))

  extract_seq_long :
      (cfg.len ≡ 4) ⊎ (cfg.len ≡ 8)
      → cfg.offset + cfg.len ≤ length pkt
      → (n : ℕ) × (extract_seq cfg pkt ≡ ok (some n)) × (n < 256 ^ cfg.len)
  unfolding extract_seq
  extract_seq_long (inl four) fits = (
    part 4,
    ground (arith, slice-in pkt cfg.offset (cfg.offset + 4) (omega arith) (omega arith)),
    subst (λ k. part 4 < 256 ^ k) (sym four) (part-lt 4 (omega arith)),
  )
  extract_seq_long (inr eight) fits = (
    part 8,
    ground (arith, slice-in pkt cfg.offset (cfg.offset + 8) (omega arith) (omega arith)),
    subst (λ k. part 8 < 256 ^ k) (sym eight) (part-lt 8 (omega arith)),
  )

  extract_seq_short : length pkt < cfg.offset + cfg.len → extract_seq cfg pkt ≡ ok none
  unfolding extract_seq
  extract_seq_short short = ground arith

-- Under a configuration that passes validation, the extractor of sequence numbers never panics: a
-- packet too short for the field gives nothing, and any other packet of bytes gives a number that
-- fits the field.
pub extract_seq_validated :
    (app : AppConfig) (pkt : List ℕ)
    → validate app ≡ none
    → All IsByte pkt
    → ((length pkt < app.sequence.offset + app.sequence.len)
        × (extract_seq (seq_cfg app) pkt ≡ ok none))
      ⊎ ((n : ℕ) × (extract_seq (seq_cfg app) pkt ≡ ok (some n)) × (n < 256 ^ app.sequence.len))
unfolding seq_cfg
extract_seq_validated app pkt valid h =
    elim (Bool-cases (ltb (length pkt) (app.sequence.offset + app.sequence.len))) [
      | inl short ↦ inl (ground arith, extract_seq_short (seq_cfg app) pkt h (ground arith))
      | inr long ↦ inr (
          extract_seq_long (seq_cfg app) pkt h (validate-IsChecked app valid).sequence_len
            (ground arith))
    ]
