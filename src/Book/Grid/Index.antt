-- ===== src/Book/Grid/Index.antt =====
-- The index of a price in the grid of src/orderbook.rs.
use mathlib.Core.Path.{subst}
use native.Mathlib.Nat.{div-add-mod}
use numi_orderbook.Base.{
  ℕ, ◌*◌, ◌/◌, ◌%◌, ◌<◌, ◌≡◌, ◌≢◌, refl, ap, sym, ◌∙◌, true, false, Option, some, arith, length,
  set, length-set, get_elem?-set_self, get_elem?-set_ne,
}
use numi_orderbook.Base.Int.{
  ℤ, pos, negsuc, pos_part, neg_part, ◌-ℤ◌, IsI64, sub_i64, rem, quot, bits, bits_lt, bits-wrap,
  bits-sub, eq_of_bits, wrap-IsI64, ltb_ℤ, eqb_ℤ,
}
use numi_orderbook.Book.Node.{Level}
use numi_orderbook.Book.Grid.{PriceGrid, slot_at, price_to_idx}

-- The tick is not negative, and an initialized grid has a positive one: its divisions never panic.
pub record GridOk (g : PriceGrid) : Type 0 where
  pub tick_nonneg : neg_part g.tick ≡ 0
  pub tick_pos : g.initialized ≡ true → 0 < pos_part g.tick
  pub start_range : IsI64 g.start_price

pub sub_i64-injective : (p q s : ℤ) → IsI64 p → IsI64 q → sub_i64 p s ≡ sub_i64 q s → p ≡ q
unfolding sub_i64
sub_i64-injective p q s hp hq e = eq_of_bits p q hp hq (
    omega (
      arith,
      bits-wrap (p -ℤ s),
      bits-wrap (q -ℤ s),
      ap bits e,
      bits-sub p s,
      bits-sub q s,
      bits_lt p,
      bits_lt q,
      bits_lt s,
    ))

pub sub_i64-IsI64 : (a b : ℤ) → IsI64 (sub_i64 a b)
unfolding sub_i64
sub_i64-IsI64 a b = wrap-IsI64 (a -ℤ b)

-- A remainder 0 and the quotient give the dividend back.
offset_of_quot :
    (d : ℤ) (t i : ℕ)
    → 0 < t
    → IsI64 d
    → ltb_ℤ d (pos 0) ≡ false
    → eqb_ℤ (rem d (pos t)) (pos 0) ≡ true
    → bits (quot d (pos t)) ≡ i
    → d ≡ pos (t * i)
unfolding rem quot bits
offset_of_quot (pos n) t i ht hd nonneg exact e =
    let r : n % t ≡ 0 = ground arith in
    let q : n / t ≡ i = ground arith in
    ap pos (omega (arith, div-add-mod n t, ap (λ (x : ℕ). t * x) q))
offset_of_quot (negsuc n) t i ht hd nonneg exact e = ground arith

-- What an index says: the window is set, the index is in it, and the price is `index` ticks past its
-- start.
pub record Hit (g : PriceGrid) (price : ℤ) (i : ℕ) : Type 0 where
  pub window : g.initialized ≡ true
  pub inside : i < length g.slots
  pub offset : sub_i64 price g.start_price ≡ pos (pos_part g.tick * i)

price_to_idx_tests :
    (g : PriceGrid) (price : ℤ) (i : ℕ)
    → price_to_idx g price ≡ some i
    → (g.initialized ≡ true)
      × (ltb_ℤ (sub_i64 price g.start_price) (pos 0) ≡ false)
      × (eqb_ℤ (rem (sub_i64 price g.start_price) g.tick) (pos 0) ≡ true)
      × (bits (quot (sub_i64 price g.start_price) g.tick) ≡ i)
      × (i < length g.slots)
unfolding price_to_idx
price_to_idx_tests g price i e = ground arith

pos_of_nonneg : (a : ℤ) → neg_part a ≡ 0 → a ≡ pos (pos_part a)
pos_of_nonneg (pos n) h = refl
pos_of_nonneg (negsuc n) h = absurd (omega arith)

pub price_to_idx-Hit :
    (g : PriceGrid) (price : ℤ) (i : ℕ) → GridOk g → price_to_idx g price ≡ some i → Hit g price i
price_to_idx-Hit g price i ok e =
    let d = sub_i64 price g.start_price in
    let tests = price_to_idx_tests g price i e in
    let tick = pos_of_nonneg g.tick ok.tick_nonneg in
    record {
      window = tests.0;
      inside = tests.4;
      offset =
          offset_of_quot d (pos_part g.tick) i (ok.tick_pos tests.0)
            (sub_i64-IsI64 price g.start_price) tests.1
            (subst (λ t. eqb_ℤ (rem d t) (pos 0) ≡ true) tick tests.2)
            (subst (λ t. bits (quot d t) ≡ i) tick tests.3);
    }

-- Two i64 prices with one index of a well-formed grid are one price.
pub price_to_idx-injective :
    (g : PriceGrid) (p q : ℤ) (i : ℕ)
    → GridOk g
    → IsI64 p
    → IsI64 q
    → price_to_idx g p ≡ some i
    → price_to_idx g q ≡ some i
    → p ≡ q
price_to_idx-injective g p q i ok hp hq e f =
    sub_i64-injective p q g.start_price hp hq
      ((price_to_idx-Hit g p i ok e).offset ∙ sym (price_to_idx-Hit g q i ok f).offset)

abbrev pub with_slot : PriceGrid → ℕ → Option Level → PriceGrid
with_slot g i s = record g { slots = set g.slots i s }

-- Writing a slot moves no price.
pub price_to_idx-with_slot :
    (g : PriceGrid) (i : ℕ) (s : Option Level) (price : ℤ)
    → price_to_idx (with_slot g i s) price ≡ price_to_idx g price
unfolding price_to_idx
price_to_idx-with_slot g i s price = rw (length-set g.slots i s) refl

pub slot_at-with_slot_self :
    (g : PriceGrid) (i : ℕ) (s : Option Level)
    → i < length g.slots
    → slot_at (with_slot g i s) i ≡ s
slot_at-with_slot_self g i s h = rw (get_elem?-set_self g.slots i s h, slot_at) refl

pub slot_at-with_slot_ne :
    (g : PriceGrid) (i j : ℕ) (s : Option Level) → i ≢ j → slot_at (with_slot g i s) j ≡ slot_at g j
slot_at-with_slot_ne g i j s h = rw (get_elem?-set_ne g.slots i j s h, slot_at) refl
