-- ===== src/Parser.antt =====
-- src/parser.rs: the sequence number of a packet, and the choice of the decoder. `Side` and `Event` are
-- in Event.
pub mod Sequence
use Prim.Native.Nat.{max}
use numi_orderbook.Base.{ℕ, ◌+◌, Option, none, some, List, ltb, ◌==◌, if◌then◌else◌, length}
use numi_orderbook.Settings.{Endian, ParserKind}
use numi_orderbook.Event.{Event}
use numi_orderbook.Wire.{Outcome, ok, ◌>>=◌, slice, be_value, le_value}
use numi_orderbook.Eobi
use numi_orderbook.Fast
use numi_orderbook.Itch
use numi_orderbook.Itch.{Inner, new_inner}

-- `offset` is a u16, `len` a u8.
pub record SeqCfg : Type 0 where
  pub offset : ℕ
  pub len : ℕ
  pub endian : Endian

abbrev pub value_in : Endian → List ℕ → ℕ
value_in Endian.be = be_value
value_in Endian.le = le_value

-- `FixedSeq::extract_seq`: `len` bytes at `offset`, where `len` is 8 or 4.
unfoldable pub extract_seq : SeqCfg → List ℕ → Outcome (Option ℕ)
extract_seq cfg pkt =
    if ltb (length pkt) (cfg.offset + cfg.len)
    then ok none
    else if cfg.len == 8
    then (slice pkt cfg.offset (cfg.offset + 8) >>= λ b. ok (some (value_in cfg.endian b)))
    else if cfg.len == 4
    then (slice pkt cfg.offset (cfg.offset + 4) >>= λ b. ok (some (value_in cfg.endian b)))
    else ok none

-- The decoder of ITCH has its tracked orders as state.
pub data DecoderImpl : Type 0 where
  fixed fast : DecoderImpl
  itch : Inner → DecoderImpl

pub record Parser : Type 0 where
  pub seq : SeqCfg
  pub dec : DecoderImpl
  pub max_messages_per_packet : ℕ

unfoldable pub decode : DecoderImpl → List ℕ → List Event → Outcome (DecoderImpl × List Event)
decode DecoderImpl.fixed payload out =
    Eobi.decode_messages payload out >>= λ evs. ok (DecoderImpl.fixed, evs)
decode DecoderImpl.fast payload out =
    Fast.decode_messages payload out >>= λ evs. ok (DecoderImpl.fast, evs)
decode (DecoderImpl.itch st) payload out =
    Itch.decode_messages payload (st, out) >>= λ s. ok (DecoderImpl.itch s.0, s.1)

unfoldable pub decode_into : Parser → List ℕ → List Event → Outcome (Parser × List Event)
unfolding decode
decode_into p payload out = decode p.dec payload out >>= λ r. ok (record p { dec = r.0 }, r.1)

unfoldable pub decoder_of : ParserKind → DecoderImpl
decoder_of ParserKind.fixed_binary = DecoderImpl.fixed
decoder_of ParserKind.fast_like = DecoderImpl.fast
decoder_of ParserKind.itch50 = DecoderImpl.itch new_inner

unfoldable pub build_parser : ParserKind → SeqCfg → ℕ → Parser
unfolding decoder_of
build_parser kind seq max_per_packet = record {
  seq = seq;
  dec = decoder_of kind;
  max_messages_per_packet = max max_per_packet 1;
}
