-- ===== src/Fast/Loop.antt =====
-- The loop of the FAST decoder on arbitrary bytes.
use mathlib.Core.List.{append-nil, append_assoc}
use numi_orderbook.Base.{
  ℕ, zero, suc, ◌+◌, ◌-◌, ◌%◌, ◌^◌, ◌≤◌, ◌<◌, ◌≡◌, ◌⊎◌, refl, ap, sym, ◌∙◌, inl, inr, true, false,
  some, List, [], ◌++◌, arith, Bool-cases, Option-cases, length, length-append, take, drop, ltb,
  leb,
}
use numi_orderbook.Event.{Event}
use numi_orderbook.Wire.{Outcome, ok, panic, slice}
use numi_orderbook.Wire.Slices.{slice-in}
use numi_orderbook.Fast.{read_header, decode_from, decode_messages}
use numi_orderbook.Fast.Total.{read_header-start, on_template-AtMostOne}

-- A header in the payload whose body would end at 2^64 or beyond.
pub record Wraps (payload : List ℕ) : Type 0 where
  pub off : ℕ
  pub pmap : ℕ
  pub tmpl : ℕ
  pub body_len : ℕ
  pub start : ℕ
  pub inside : off < length payload
  pub header : read_header payload off ≡ some (pmap, tmpl, body_len, start)
  pub beyond : 2 ^ 64 ≤ start + body_len

-- Events are appended, no more than there are bytes from `off` on; or a body wraps.
abbrev Ends : List ℕ → ℕ → List Event → Outcome (List Event) → Type 0
Ends payload off out r =
    ((evs : List Event) × (r ≡ ok (out ++ evs)) × (off + length evs ≤ length payload))
    ⊎ ((r ≡ panic) × Wraps payload)

Ends-nothing :
    (payload : List ℕ) (off : ℕ) (out : List Event)
    → off ≤ length payload
    → Ends payload off out (ok out)
Ends-nothing payload off out h = inl ([], ap ok (sym (append-nil out)), omega arith)

Ends-more :
    (payload : List ℕ) (off off' : ℕ) (out : List Event) (evs : List Event)
    (r : Outcome (List Event))
    → off < off'
    → length evs ≤ 1
    → Ends payload off' (out ++ evs) r
    → Ends payload off out r
Ends-more payload off off' out evs r h few (inr stop) = inr stop
Ends-more payload off off' out evs r h few (inl (evs', e, fits)) =
    inl (evs ++ evs', e ∙ ap ok (append_assoc out evs evs'), omega (arith, length-append evs evs'))

slice-reversed : (b : List ℕ) (from to : ℕ) → leb from to ≡ false → slice b from to ≡ panic
unfolding slice
slice-reversed b from to h = ground arith

end_of_no_wrap :
    (start body_len : ℕ)
    → start + body_len < 2 ^ 64
    → (start + body_len) % 2 ^ 64 ≡ start + body_len
end_of_no_wrap start body_len h = omega arith

decode_from-Ends :
    (fuel : ℕ) (payload : List ℕ) (off : ℕ) (out : List Event)
    → off ≤ length payload
    → length payload < fuel + off
    → Ends payload off out (decode_from fuel payload off out)
unfolding decode_from
decode_from-Ends zero payload off out h f = absurd (omega arith)
decode_from-Ends (suc fuel) payload off out h f = elim (Bool-cases (ltb off (length payload))) [
  | inr at_end ↦ rw at_end (Ends-nothing payload off out h)
  | inl more ↦ elim (Option-cases (read_header payload off)) [
    | inl cut ↦ rw (more, cut) (Ends-nothing payload off out h)
    | inr ((pmap, tmpl, body_len, start), e) ↦
        let end = (start + body_len) % 2 ^ 64 in
        let (forward, within) =
          read_header-start payload off pmap tmpl body_len start e (ground arith) in
        rw (more, e)
          (elim (Bool-cases (ltb (length payload) end)) [
            | inl short ↦ rw short (Ends-nothing payload off out h)
            | inr whole ↦ rw whole (elim (Bool-cases (leb start end)) [
              | inr reversed ↦ rw (slice-reversed payload start end reversed) (
                  inr (
                    refl,
                    record {
                      off = off;
                      pmap = pmap;
                      tmpl = tmpl;
                      body_len = body_len;
                      start = start;
                      inside = ground arith;
                      header = e;
                      beyond = ground arith;
                    },
                  ))
              | inl in_order ↦
                  let body = take (end - start) (drop start payload) in
                  let (evs, appended, few) = on_template-AtMostOne tmpl pmap body out in
                  rw (slice-in payload start end (ground arith) (ground arith), appended)
                    (Ends-more payload off end out evs _ (ground arith) few (
                      decode_from-Ends fuel payload end (out ++ evs) (ground arith) (ground arith)))
            ])
          ])
  ]
]

-- On any bytes the loop ends on its fuel: either it appends events to `out`, no more than there are
-- bytes, or it panics, and then some header in the payload has a body length that carries the end of
-- the body to 2^64 or beyond.
pub decode_messages_ends :
    (payload : List ℕ) (out : List Event)
    → ((evs : List Event) × (decode_messages payload out ≡ ok (out ++ evs))
        × (length evs ≤ length payload))
      ⊎ ((decode_messages payload out ≡ panic) × Wraps payload)
unfolding decode_messages
decode_messages_ends payload out =
    elim (decode_from-Ends (suc (length payload)) payload 0 out (omega arith) (omega arith)) [
      | inl (evs, e, fits) ↦ inl (evs, e, omega arith)
      | inr stop ↦ inr stop
    ]

-- A payload whose first body length carries the end of the body past 2^64, to before the start of the
-- body, makes the decoder panic, whatever follows.
pub decode_messages_wraps :
    (payload : List ℕ) (out : List Event) (pmap tmpl body_len start : ℕ)
    → 0 < length payload
    → read_header payload 0 ≡ some (pmap, tmpl, body_len, start)
    → (start + body_len) % 2 ^ 64 < start
    → decode_messages payload out ≡ panic
unfolding decode_messages decode_from
decode_messages_wraps payload out pmap tmpl body_len start some_bytes e wraps =
    let end = (start + body_len) % 2 ^ 64 in
    let (forward, within) = read_header-start payload 0 pmap tmpl body_len start e some_bytes in
    let more : ltb 0 (length payload) ≡ true = ground arith in
    let whole : ltb (length payload) end ≡ false = ground arith in
    let reversed : leb start end ≡ false = ground arith in
    rw (more, e, whole, slice-reversed payload start end reversed) refl
