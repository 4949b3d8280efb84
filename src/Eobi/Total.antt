-- ===== src/Eobi/Total.antt =====
-- The SBE decoder on arbitrary bytes.
use mathlib.Core.List.{append-nil, append_assoc}
use numi_orderbook.Base.{
  ℕ, zero, suc, ◌+◌, ◌-◌, ◌*◌, ◌<◌, ◌≤◌, ◌≡◌, refl, ap, sym, ◌∙◌, inl, inr, Option, none, some,
  List, [], ◌∷◌, ◌++◌, arith, length, length-append, take, drop, ltb, leb, Bool-cases, ◌==◌,
}
use numi_orderbook.Event.{Event}
use numi_orderbook.Wire.{Outcome, ok, le_value}
use numi_orderbook.Wire.Slices.{slice-in}
use numi_orderbook.Eobi.{
  le_u16_at, read_header, push, parse_add, parse_mod, parse_del, parse_trade, on_template,
  decode_from, decode_messages,
}

abbrev u16_at : List ℕ → ℕ → ℕ
u16_at payload off = le_value (take (off + 2 - off) (drop off payload))

le_u16_at-in :
    (payload : List ℕ) (off : ℕ)
    → off + 2 ≤ length payload
    → le_u16_at payload off ≡ ok (u16_at payload off)
unfolding le_u16_at
le_u16_at-in payload off h = rw (slice-in payload off (off + 2) (omega arith) h) refl

read_header-in :
    (payload : List ℕ) (off : ℕ)
    → off + 8 ≤ length payload
    → (block_len template_id : ℕ) × (read_header payload off ≡ ok (block_len, template_id))
unfolding read_header
read_header-in payload off h = (
  u16_at payload off,
  u16_at payload (off + 2),
  rw
      (
        le_u16_at-in payload off (omega arith),
        le_u16_at-in payload (off + 2) (omega arith),
        le_u16_at-in payload (off + 4) (omega arith),
        le_u16_at-in payload (off + 6) (omega arith),
      )
      refl,
)

push_at_most_one :
    (out : List Event) (ev : Option Event)
    → (evs : List Event) × (push out ev ≡ out ++ evs) × (length evs ≤ 1)
push_at_most_one out none = ([], sym (append-nil out), omega arith)
push_at_most_one out (some ev) = (ev ∷ [], refl, omega arith)

on_template_at_most_one :
    (template_id : ℕ) (body : List ℕ) (out : List Event)
    → (evs : List Event) × (on_template template_id body out ≡ out ++ evs) × (length evs ≤ 1)
unfolding on_template
on_template_at_most_one t body out = elim (Bool-cases (t == 1001)) [
  | inl p ↦ rw p (push_at_most_one out (parse_add body))
  | inr p ↦ rw p (elim (Bool-cases (t == 1002)) [
    | inl q ↦ rw q (push_at_most_one out (parse_mod body))
    | inr q ↦ rw q (elim (Bool-cases (t == 1003)) [
      | inl r ↦ rw r (push_at_most_one out (parse_del body))
      | inr r ↦ rw r (elim (Bool-cases (t == 1004)) [
        | inl s ↦ rw s (push_at_most_one out (parse_trade body))
        | inr s ↦ rw s (push_at_most_one out none)
      ])
    ])
  ])
]

abbrev Decodes : List ℕ → ℕ → List Event → Outcome (List Event) → Type 0
Decodes payload off out r =
    (evs : List Event) × (r ≡ ok (out ++ evs)) × (off + 8 * length evs ≤ length payload)

Decodes-nothing :
    (payload : List ℕ) (off : ℕ) (out : List Event)
    → off ≤ length payload
    → Decodes payload off out (ok out)
Decodes-nothing payload off out h = ([], ap ok (sym (append-nil out)), omega arith)

Decodes-more :
    (payload : List ℕ) (off off' : ℕ) (out out' : List Event) (r : Outcome (List Event))
    → off + 8 ≤ off'
    → (evs : List Event) × (out' ≡ out ++ evs) × (length evs ≤ 1)
    → Decodes payload off' out' r
    → Decodes payload off out r
Decodes-more payload off off' out out' r h (evs, e, few) (evs', e', fits) = (
  evs ++ evs',
  e' ∙ ap ok (ap (λ o. o ++ evs') e ∙ append_assoc out evs evs'),
  omega (arith, length-append evs evs'),
)

decode_from_total :
    (fuel : ℕ) (payload : List ℕ) (off : ℕ) (out : List Event)
    → off ≤ length payload
    → length payload < fuel + off
    → Decodes payload off out (decode_from fuel payload off out)
unfolding decode_from
decode_from_total zero payload off out h f = absurd (omega arith)
decode_from_total (suc fuel) payload off out h f =
    elim (Bool-cases (leb (off + 8) (length payload))) [
      | inr short ↦ rw short (Decodes-nothing payload off out h)
      | inl long ↦
          let (block_len, t, e) = read_header-in payload off (ground arith) in
          rw (long, e)
            (elim (Bool-cases (ltb (length payload) (off + 8 + block_len))) [
              | inl cut ↦ rw cut (Decodes-nothing payload off out h)
              | inr whole ↦
                  let end = off + 8 + block_len in
                  let body = take (end - (off + 8)) (drop (off + 8) payload) in
                  rw (whole, slice-in payload (off + 8) end (omega arith) (ground arith))
                    (Decodes-more payload off end out (on_template t body out) _ (omega arith)
                      (on_template_at_most_one t body out)
                      (decode_from_total fuel payload end (on_template t body out) (ground arith)
                        (omega arith)))
            ])
    ]

-- On any bytes the decoder ends without a panic, its fuel is enough, it appends to `out`, and every
-- event that it appends has a header of eight bytes in the payload.
pub decode_messages_total :
    (payload : List ℕ) (out : List Event)
    → (evs : List Event) × (decode_messages payload out ≡ ok (out ++ evs))
      × (8 * length evs ≤ length payload)
unfolding decode_messages
decode_messages_total payload out =
    let (evs, e, fits) =
      decode_from_total (suc (length payload)) payload 0 out (omega arith) (omega arith) in
    (evs, e, omega arith)
