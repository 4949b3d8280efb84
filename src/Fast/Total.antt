-- ===== src/Fast/Total.antt =====
-- What one message of the FAST decoder takes from the payload, and what it appends.
use Prim.Native.Nat.{bit_and, bit_or}
use mathlib.Core.List.{append-nil}
use numi_orderbook.Base.{
  ℕ, zero, suc, ◌+◌, ◌-◌, ◌*◌, ◌%◌, ◌^◌, ◌≤◌, ◌<◌, ◌≡◌, refl, ap, sym, inl, inr, Bool, true, false,
  not, ◌&&◌, Option, none, some, List, [], ◌∷◌, ◌++◌, arith, ◌==◌, if◌then◌else◌, Bool-cases,
  length, ltb, leb,
}
use numi_orderbook.Base.Int.{ℤ}
use numi_orderbook.Event.{Event, Side}
use numi_orderbook.Wire.{Outcome, ok, ◌>>=◌, index}
use numi_orderbook.Wire.Slices.{index-in}
use numi_orderbook.Fast.{
  read_groups, from_off, read_pmap, read_sbi_u64, side_of, on_add, on_mod, on_del, push_trade,
  on_trade, on_template, read_header,
}

length-from_off : (b : List ℕ) (off : ℕ) → length (from_off b off) ≡ length b - off
length-from_off b zero = omega arith
length-from_off [] (suc n) = omega arith
length-from_off (x ∷ b) (suc n) = omega (arith, length-from_off b n)

-- A stop-bit integer takes no byte beyond the end.
read_groups-consumed :
    (m : ℕ) (b : List ℕ) (v shift consumed : ℕ)
    → (read_groups m b v shift consumed).1 ≤ consumed + length b
unfolding read_groups
read_groups-consumed m [] v shift consumed = omega arith
read_groups-consumed m (x ∷ b) v shift consumed =
    let v' = bit_or v (bit_and x 0x7f * 2 ^ shift % 2 ^ 64) in
    let rest = read_groups-consumed m b v' (shift + 7) (consumed + 1) in
    elim (Bool-cases (bit_and x 0x80 == 0)) [
      | inl last ↦ rw last (omega arith)
      | inr more ↦ rw more (elim (Bool-cases (ltb m (shift + 7))) [
        | inl full ↦ rw full (omega arith)
        | inr room ↦ rw room (omega (arith, rest))
      ])
    ]

module _ (b : List ℕ) (off : ℕ) where
  read_pmap-consumed : (read_pmap b off).1 ≤ length b - off
  unfolding read_pmap
  read_pmap-consumed =
      omega (arith, read_groups-consumed 56 (from_off b off) 0 0 0, length-from_off b off)

  read_sbi-consumed : (read_sbi_u64 b off).1 ≤ length b - off
  unfolding read_sbi_u64
  read_sbi-consumed =
      omega (arith, read_groups-consumed 63 (from_off b off) 0 0 0, length-from_off b off)

-- The header's end lies behind its start and in the payload.
pub read_header-start :
    (payload : List ℕ) (off pmap tmpl body_len start : ℕ)
    → read_header payload off ≡ some (pmap, tmpl, body_len, start)
    → off < length payload
    → (off < start) × (start ≤ length payload)
unfolding read_header
read_header-start payload off pmap tmpl body_len start e h = ground (
  arith,
  read_pmap-consumed payload off,
  read_sbi-consumed payload (off + (read_pmap payload off).1),
  read_sbi-consumed payload (
      off + (read_pmap payload off).1 + (read_sbi_u64 payload (off + (read_pmap payload off).1)).1),
)

-- At most one event is appended.
abbrev pub AtMostOne : List Event → Outcome (List Event) → Type 0
AtMostOne out r = (evs : List Event) × (r ≡ ok (out ++ evs)) × (length evs ≤ 1)

nothing : (out : List Event) → AtMostOne out (ok out)
nothing out = ([], ap ok (sym (append-nil out)), omega arith)

one : (out : List Event) (ev : Event) → AtMostOne out (ok (out ++ (ev ∷ [])))
one out ev = (ev ∷ [], refl, omega arith)

module _ (body : List ℕ) (out : List Event) where
  on_mod-AtMostOne : AtMostOne out (on_mod body out)
  unfolding on_mod
  on_mod-AtMostOne = elim (Bool-cases ((read_sbi_u64 body 0).1 == 0)) [
    | inl a ↦ rw a (nothing out)
    | inr a ↦ rw a (one out _)
  ]

  on_del-AtMostOne : AtMostOne out (on_del body out)
  unfolding on_del
  on_del-AtMostOne = one out _

  on_add-AtMostOne : AtMostOne out (on_add body out)
  unfolding on_add
  on_add-AtMostOne =
      let n1 = (read_sbi_u64 body 0).1 in
      let n2 = (read_sbi_u64 body n1).1 in
      let o = n1 + n2 in
      let n3 = (read_sbi_u64 body (o + 1)).1 in
      let n4 = (read_sbi_u64 body (o + 1 + n3)).1 in
      elim (Bool-cases (n1 == 0)) [
        | inl a ↦ rw a (nothing out)
        | inr a ↦ rw a (elim (Bool-cases (n2 == 0)) [
          | inl b ↦ rw b (nothing out)
          | inr b ↦ rw b (elim (Bool-cases (leb (length body) o)) [
            | inl c ↦ rw c (nothing out)
            | inr c ↦
                let (side, e) = index-in body o (ground arith) in
                rw (c, e)
                  (elim (Bool-cases (n3 == 0)) [
                    | inl d ↦ rw d (nothing out)
                    | inr d ↦ rw d (elim (Bool-cases (n4 == 0)) [
                      | inl f ↦ rw f (nothing out)
                      | inr f ↦ rw f (one out _)
                    ])
                  ])
          ])
        ])
      ]

  -- The taker's side is read inside the body.
  side_read :
      (c : Bool) (o : ℕ) (f : ℕ → Event) (g : Event)
      → AtMostOne out (
          if c && ltb o (length body)
          then (do b ← index body o; ok (out ++ (f b ∷ [])))
          else ok (out ++ (g ∷ [])))
  side_read false o f g = one out g
  side_read true o f g = elim (Bool-cases (ltb o (length body))) [
    | inl inside ↦ let (b, e) = index-in body o (ground arith) in rw (inside, e) (one out (f b))
    | inr outside ↦ rw outside (one out g)
  ]

  push_trade-AtMostOne :
      (pmap instr : ℕ) (px qty : ℤ) (o : ℕ)
      → AtMostOne out (push_trade body out pmap instr px qty o)
  unfolding push_trade
  push_trade-AtMostOne pmap instr px qty o =
      let n4 = (read_sbi_u64 body o).1 in
      let oid = (read_sbi_u64 body o).0 in
      let taker = not (bit_and pmap 2 == 0) in
      let trade = λ (maker : Option ℕ) (side : Option Side). Event.trade instr px qty maker side in
      elim (Bool-cases (bit_and pmap 1 == 0)) [
        | inl a ↦ rw a (side_read taker o (λ b. trade none (some (side_of b))) (trade none none))
        | inr a ↦ rw a (elim (Bool-cases (n4 == 0)) [
          | inl z ↦ rw z (nothing out)
          | inr z ↦ rw z (
              side_read taker (o + n4) (λ b. trade (some oid) (some (side_of b)))
                (trade (some oid) none))
        ])
      ]

  on_trade-AtMostOne : (pmap : ℕ) → AtMostOne out (on_trade body out pmap)
  unfolding on_trade
  on_trade-AtMostOne pmap =
      let n1 = (read_sbi_u64 body 0).1 in
      let n2 = (read_sbi_u64 body n1).1 in
      let n3 = (read_sbi_u64 body (n1 + n2)).1 in
      elim (Bool-cases (n1 == 0)) [
        | inl a ↦ rw a (nothing out)
        | inr a ↦ rw a (elim (Bool-cases (n2 == 0)) [
          | inl b ↦ rw b (nothing out)
          | inr b ↦ rw b (elim (Bool-cases (n3 == 0)) [
            | inl c ↦ rw c (nothing out)
            | inr c ↦ rw c (push_trade-AtMostOne pmap _ _ _ _)
          ])
        ])
      ]

pub on_template-AtMostOne :
    (tmpl pmap : ℕ) (body : List ℕ) (out : List Event)
    → AtMostOne out (on_template tmpl pmap body out)
unfolding on_template
on_template-AtMostOne tmpl pmap body out = elim (Bool-cases (tmpl == 1)) [
  | inl a ↦ rw a (on_add-AtMostOne body out)
  | inr a ↦ rw a (elim (Bool-cases (tmpl == 2)) [
    | inl b ↦ rw b (on_mod-AtMostOne body out)
    | inr b ↦ rw b (elim (Bool-cases (tmpl == 3)) [
      | inl c ↦ rw c (on_del-AtMostOne body out)
      | inr c ↦ rw c (elim (Bool-cases (tmpl == 4)) [
        | inl d ↦ rw d (on_trade-AtMostOne body out pmap)
        | inr d ↦ rw d (nothing out)
      ])
    ])
  ])
]
