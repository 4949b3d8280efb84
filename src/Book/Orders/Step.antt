-- ===== src/Book/Orders/Step.antt =====
-- An operation of `OrderBook` changes one order: its stored node and its index entry together.
use mathlib.Core.Path.{subst}
use numi_orderbook.Base.{
  ℕ, ◌≡◌, ◌≢◌, refl, ap, sym, ◌∙◌, inl, inr, true, false, Option, none, some, arith, ◌==◌, ==_eq,
  if◌then◌else◌, Bool-cases, Option-cases,
}
use numi_orderbook.Base.Int.{neg_part}
use numi_orderbook.Base.Dict.{lookup}
use numi_orderbook.Book.Queue.{order_of}
use numi_orderbook.Book.Instrument.{InstrumentBook}
use numi_orderbook.Book.Instrument.Valid.{Queues, IsValid}
use numi_orderbook.Book.Orders.{OrderBook, book_mut}
use numi_orderbook.Book.Orders.View.{Order, set_at, stored, tag, view, view_of, IsSound}

abbrev pub key : ℕ → ℕ → ℕ × ℕ
key instr h = (instr, h)

-- The index entry of an order that is there, or of none.
abbrev pub entry_for : Option Order → ℕ × ℕ → Option (ℕ × ℕ)
entry_for none e = none
entry_for (some o) e = some e

-- The order `id`, under the key `h` of the instrument's slab, becomes `o`.
pub record OneOrder (ob : OrderBook) (id instr h : ℕ) (b' : InstrumentBook) (o : Option Order)
    (ob' : OrderBook) : Type 0 where
  pub tick : ob'.grid_tick ≡ ob.grid_tick
  pub valid : (q : Queues) × IsValid b' q
  pub book : (i : ℕ) → book_mut i ob' ≡ (if instr == i then b' else book_mut i ob)
  pub node :
      (k : ℕ)
      → order_of (lookup k b'.orders)
        ≡ (if h == k then o else order_of (lookup k (book_mut instr ob).orders))
  pub entry :
      (k : ℕ) → lookup k ob'.index ≡ (if id == k then entry_for o (instr, h) else lookup k ob.index)
  -- No other id has the key.
  pub owner : (k : ℕ) → lookup k ob.index ≡ some (instr, h) → id ≡ k

entry_for-some : (o : Option Order) (e f : ℕ × ℕ) → entry_for o e ≡ some f → (e ≡ f) × (o ≢ none)
entry_for-some none e f eq = cc
entry_for-some (some v) e f eq = (ground arith, λ g. cc)

module _ (ob : OrderBook) (id instr h : ℕ) (b' : InstrumentBook) (o : Option Order)
    (ob' : OrderBook) (sound : IsSound ob) (one : OneOrder ob id instr h b' o ob') where
  stored_self : stored ob' instr h ≡ o
  stored_self = ground (arith, one.book instr, one.node h)

  stored_other : (i k : ℕ) → key i k ≢ key instr h → stored ob' i k ≡ stored ob i k
  stored_other i k ne = elim (Bool-cases (instr == i)) [
    | inr other ↦ ground (arith, one.book i)
    | inl same ↦ elim (Bool-cases (h == k)) [
      | inl both ↦ absurd (ne (ground (arith, ==_eq instr i same, ==_eq h k both)))
      | inr other ↦ ground (arith, one.book i, one.node k, ==_eq instr i same)
    ]
  ]

  entry_other : (k : ℕ) → (id == k) ≡ false → lookup k ob'.index ≡ lookup k ob.index
  entry_other k ne = ground (arith, one.entry k)

  -- The entry of another id leads to another key.
  ne_of_other :
      (k i j : ℕ) → (id == k) ≡ false → lookup k ob.index ≡ some (i, j) → key i j ≢ key instr h
  ne_of_other k i j ne e same = let f = one.owner k (e ∙ ap some same) in ground (arith, f)

  entry_self :
      (k : ℕ) (e : ℕ × ℕ)
      → (id == k) ≡ true
      → lookup k ob'.index ≡ some e
      → (key instr h ≡ e) × (o ≢ none)
  entry_self k e same there = entry_for-some o (key instr h) e (ground (arith, one.entry k))

  live_after : (k i j : ℕ) → lookup k ob'.index ≡ some (key i j) → stored ob' i j ≢ none
  live_after k i j there = elim (Bool-cases (id == k)) [
    | inl same ↦
        let (e, has_order) = entry_self k (key i j) same there in
        λ dead. has_order (sym stored_self ∙ ap (λ (f : ℕ × ℕ). stored ob' f.0 f.1) e ∙ dead)
    | inr other ↦
        let old = sym (entry_other k other) ∙ there in
        λ dead. sound.live k i j old (sym (stored_other i j (ne_of_other k i j other old)) ∙ dead)
  ]

  -- The entry of the order leads to a key that no other id has.
  apart_from :
      (k₁ k₂ : ℕ) (e : ℕ × ℕ)
      → (id == k₁) ≡ true
      → (id == k₂) ≡ false
      → lookup k₁ ob'.index ≡ some e
      → lookup k₂ ob'.index ≡ some e
      → ⊥
  apart_from k₁ k₂ e same other e₁ e₂ =
      let (f, _) = entry_self k₁ e same e₁ in
      let g = one.owner k₂ (sym (entry_other k₂ other) ∙ e₂ ∙ ap some (sym f)) in ground (arith, g)

  unique_after :
      (k₁ k₂ : ℕ) (e : ℕ × ℕ)
      → lookup k₁ ob'.index ≡ some e
      → lookup k₂ ob'.index ≡ some e
      → k₁ ≡ k₂
  unique_after k₁ k₂ e e₁ e₂ = elim (Bool-cases (id == k₁)) [
    | inl same ↦ elim (Bool-cases (id == k₂)) [
      | inl both ↦ sym (==_eq id k₁ same) ∙ ==_eq id k₂ both
      | inr other ↦ absurd (apart_from k₁ k₂ e same other e₁ e₂)
    ]
    | inr other ↦ elim (Bool-cases (id == k₂)) [
      | inl same ↦ absurd (apart_from k₂ k₁ e same other e₂ e₁)
      | inr neither ↦
          sound.unique k₁ k₂ e (sym (entry_other k₁ other) ∙ e₁) (sym (entry_other k₂ neither) ∙ e₂)
    ]
  ]

  pub OneOrder-IsSound : IsSound ob'
  OneOrder-IsSound = record {
    tick = ap neg_part one.tick ∙ sound.tick;
    books = λ i. elim (Bool-cases (instr == i)) [
      | inl same ↦
          let (q, v) = one.valid in
          (q, subst (λ c. IsValid c q) (sym (one.book i ∙ rw same refl)) v)
      | inr other ↦
          let (q, v) = sound.books i in
          (q, subst (λ c. IsValid c q) (sym (one.book i ∙ rw other refl)) v)
    ];
    live = live_after;
    unique = unique_after;
  }

  pub OneOrder-view : (k : ℕ) → view ob' k ≡ set_at id (tag instr o) (view ob) k
  OneOrder-view k = elim (Bool-cases (id == k)) [
    | inl same ↦
        ap (view_of ob') (one.entry k ∙ rw same refl) ∙ by_order o stored_self ∙ rw same refl
    | inr other ↦
        rw (other, entry_other k other)
          (elim (Option-cases (lookup k ob.index)) [
            | inl none_there ↦ rw none_there refl
            | inr ((i, j), there) ↦
                rw there (ap (tag i) (stored_other i j (ne_of_other k i j other there)))
          ])
  ]
    where
      by_order :
          (v : Option Order)
          → stored ob' instr h ≡ v
          → view_of ob' (entry_for v (instr, h)) ≡ tag instr v
      by_order none e = refl
      by_order (some w) e = ap (tag instr) e
