-- ===== src/Book/Grid/Scan.antt =====
-- The scans of src/orderbook.rs for the best level of the window, and the price of a slot.
use mathlib.Core.Path.{subst}
use native.Mathlib.Nat.{
  mul_comm, mul-le-mul_left, mul-lt-mul_of_pos_left, mul-le-mul_right, mul-mod_right,
  mul-div_cancel_left,
}
use numi_orderbook.Base.{
  lt→ltb, ◌-◌, ◌%◌, ◌^◌, ℕ, zero, suc, ◌+◌, ◌*◌, ◌≤◌, ◌<◌, ◌≡◌, ap, sym, ◌∙◌, inl, inr, true, false,
  none, some, arith, length, Option-cases, Bool-cases, ◌==◌,
}
use numi_orderbook.Base.Int.{
  ℤ, pos, pos_part, neg_part, ◌+ℤ◌, ◌-ℤ◌, ◌*ℤ◌, +ℤ_parts, IsI64, add_i64, sub_i64, mul_i64, wrap,
  bits, bits_lt, bits-wrap, bits-sub, bits-add, rem, quot, ltb_ℤ, eqb_ℤ, eq_of_bits, wrap-IsI64,
}
use numi_orderbook.Book.Grid.{PriceGrid, slot_price, price_to_idx, candidate, scan_down, scan_up}
use numi_orderbook.Book.Grid.Index.{GridOk, price_to_idx-Hit, sub_i64-IsI64}

-- A scan down finds the highest candidate below `n`, or there is none.
pub scan_down-none :
    (g : PriceGrid) (n : ℕ) → scan_down g n ≡ none → (i : ℕ) → i < n → candidate g i ≡ none
unfolding scan_down
scan_down-none g zero e i h = absurd (omega arith)
scan_down-none g (suc n) e i h = elim (Bool-cases (i == n)) [
  | inl last ↦ ground (arith)
  | inr below ↦ scan_down-none g n (ground arith) i (ground arith)
]

pub scan_down-some :
    (g : PriceGrid) (n : ℕ) (c : ℤ × ℤ)
    → scan_down g n ≡ some c
    → (i : ℕ) × (i < n)
      × (candidate g i ≡ some c)
      × ((j : ℕ) → i < j → j < n → candidate g j ≡ none)
unfolding scan_down
scan_down-some g zero c e = cc
scan_down-some g (suc n) c e = elim (Option-cases (candidate g n)) [
  | inr (d, here) ↦ (n, omega arith, ground arith, λ j h k. absurd (omega arith))
  | inl not_here ↦
      let (i, h, f, above) = scan_down-some g n c (ground arith) in
      (
        i,
        omega arith,
        f,
        λ j lo hi. elim (Bool-cases (j == n)) [
          | inl last ↦ ground arith
          | inr below ↦ above j lo (ground arith)
        ],
      )
]

pub scan_up-none :
    (g : PriceGrid) (i n : ℕ)
    → scan_up g i n ≡ none
    → (j : ℕ) → i ≤ j
    → j < i + n
    → candidate g j ≡ none
unfolding scan_up
scan_up-none g i zero e j lo hi = absurd (omega arith)
scan_up-none g i (suc n) e j lo hi = elim (Bool-cases (j == i)) [
  | inl first ↦ ground arith
  | inr above ↦ scan_up-none g (suc i) n (ground arith) j (ground arith) (omega arith)
]

pub scan_up-some :
    (g : PriceGrid) (i n : ℕ) (c : ℤ × ℤ)
    → scan_up g i n ≡ some c
    → (k : ℕ) × (i ≤ k)
      × (k < i + n)
      × (candidate g k ≡ some c)
      × ((j : ℕ) → i ≤ j → j < k → candidate g j ≡ none)
unfolding scan_up
scan_up-some g i zero c e = cc
scan_up-some g i (suc n) c e = elim (Option-cases (candidate g i)) [
  | inr (d, here) ↦ (i, omega arith, omega arith, ground arith, λ j h k. absurd (omega arith))
  | inl not_here ↦
      let (k, lo, hi, f, below) = scan_up-some g (suc i) n c (ground arith) in
      (
        k,
        omega arith,
        omega arith,
        f,
        λ j h l. elim (Bool-cases (j == i)) [
          | inl first ↦ ground arith
          | inr above ↦ below j (ground arith) l
        ],
      )
]

mul_pos : (i t : ℕ) → pos i *ℤ pos t ≡ pos (t * i)
unfolding ◌*ℤ◌
mul_pos i t = ground (arith, mul_comm i t)

tick_is_pos : (g : PriceGrid) → GridOk g → g.tick ≡ pos (pos_part g.tick)
tick_is_pos g ok = ground (arith, ok.tick_nonneg)

-- The bits of a slot's price.
bits-slot_price :
    (g : PriceGrid) (i : ℕ)
    → GridOk g
    → bits (slot_price g i) ≡ (bits g.start_price + bits (pos (pos_part g.tick * i))) % 2 ^ 64
unfolding slot_price add_i64 mul_i64
bits-slot_price g i ok =
    let t = pos_part g.tick in
    let m : bits (pos i *ℤ g.tick) ≡ bits (pos (t * i)) =
      ap (λ x. bits (pos i *ℤ x)) (tick_is_pos g ok) ∙ ap bits (mul_pos i t) in
    bits-wrap (g.start_price +ℤ wrap (pos i *ℤ g.tick))
    ∙ bits-add g.start_price (wrap (pos i *ℤ g.tick))
    ∙ ap (λ x. (bits g.start_price + x) % 2 ^ 64) (bits-wrap (pos i *ℤ g.tick) ∙ m)

pub slot_price-IsI64 : (g : PriceGrid) (i : ℕ) → IsI64 (slot_price g i)
unfolding slot_price add_i64
slot_price-IsI64 g i = wrap-IsI64 (g.start_price +ℤ mul_i64 (pos i) g.tick)

bits-sub_i64 : (a b : ℤ) → bits (sub_i64 a b) ≡ (bits a + (2 ^ 64 - bits b)) % 2 ^ 64
unfolding sub_i64
bits-sub_i64 a b = bits-wrap (a -ℤ b) ∙ bits-sub a b

-- The slot of a price has that price.
pub slot_price-price_to_idx :
    (g : PriceGrid) (p : ℤ) (i : ℕ)
    → GridOk g
    → IsI64 p
    → price_to_idx g p ≡ some i
    → slot_price g i ≡ p
slot_price-price_to_idx g p i ok hp e =
    let hit = price_to_idx-Hit g p i ok e in
    eq_of_bits (slot_price g i) p (slot_price-IsI64 g i) hp (
      omega (
        arith,
        bits-slot_price g i ok,
        bits-sub_i64 p g.start_price,
        ap bits hit.offset,
        bits_lt p,
        bits_lt g.start_price,
      ))

-- The prices of the window do not pass the end of i64.
pub record Straight (g : PriceGrid) : Type 0 where
  pub short : pos_part g.tick * length g.slots < 2 ^ 63
  pub below :
      pos_part g.start_price + pos_part g.tick * length g.slots < 2 ^ 63 + neg_part g.start_price

add_pos-IsI64 :
    (s : ℤ) (x : ℕ)
    → IsI64 s
    → pos_part s + x < 2 ^ 63 + neg_part s
    → x < 2 ^ 63
    → IsI64 (s +ℤ pos x)
unfolding ◌+ℤ◌
add_pos-IsI64 s x hs h k = ground arith

offset_le : (t i n : ℕ) → i < n → t * i ≤ t * n
offset_le t i n h = mul-le-mul_left t (omega arith)

pub slot_price-Straight :
    (g : PriceGrid) (i : ℕ)
    → GridOk g
    → Straight g
    → i < length g.slots
    → slot_price g i ≡ g.start_price +ℤ pos (pos_part g.tick * i)
slot_price-Straight g i ok st h =
    let x = pos_part g.tick * i in
    let le = offset_le (pos_part g.tick) i (length g.slots) h in
    eq_of_bits (slot_price g i) (g.start_price +ℤ pos x) (slot_price-IsI64 g i)
      (add_pos-IsI64 g.start_price x ok.start_range (omega (arith, st.below))
        (omega (arith, st.short)))
      (bits-slot_price g i ok ∙ sym (bits-add g.start_price (pos x)))

sub_i64-add_pos : (s : ℤ) (x : ℕ) → x < 2 ^ 63 → sub_i64 (s +ℤ pos x) s ≡ pos x
sub_i64-add_pos s x h =
    eq_of_bits (sub_i64 (s +ℤ pos x) s) (pos x) (sub_i64-IsI64 (s +ℤ pos x) s) (ground arith)
      (omega (arith, bits-sub_i64 (s +ℤ pos x) s, bits-add s (pos x), bits_lt s, bits_lt (pos x)))

price_to_idx_of_tests :
    (g : PriceGrid) (price d : ℤ) (i : ℕ)
    → sub_i64 price g.start_price ≡ d
    → g.initialized ≡ true
    → ltb_ℤ d (pos 0) ≡ false
    → eqb_ℤ (rem d g.tick) (pos 0) ≡ true
    → bits (quot d g.tick) ≡ i
    → i < length g.slots
    → price_to_idx g price ≡ some i
unfolding price_to_idx
price_to_idx_of_tests g price d i e init nonneg exact index inside =
    rw (init, e, nonneg, exact, index) (ground arith)

rem_multiple : (t i : ℕ) → rem (pos (t * i)) (pos t) ≡ pos 0
unfolding rem
rem_multiple t i =
    let same : t + 0 ≡ t = omega arith in ap pos (ap (λ m. t * i % m) same ∙ mul-mod_right t i)

le_mul : (t i : ℕ) → 0 < t → i ≤ t * i
le_mul t i h = omega (arith, mul-le-mul_right {m = 1} {n = t} i (omega arith))

-- The price of a slot of the window is found in that slot.
pub price_to_idx-slot_price :
    (g : PriceGrid) (i : ℕ)
    → GridOk g
    → Straight g
    → g.initialized ≡ true
    → i < length g.slots
    → price_to_idx g (slot_price g i) ≡ some i
unfolding rem quot bits
price_to_idx-slot_price g i ok st init h =
    let t = pos_part g.tick in
    let x = t * i in
    let le = offset_le t i (length g.slots) h in
    let d : sub_i64 (slot_price g i) g.start_price ≡ pos x =
      ap (λ p. sub_i64 p g.start_price) (slot_price-Straight g i ok st h)
      ∙ sub_i64-add_pos g.start_price x (omega (arith, st.short)) in
    let tick = tick_is_pos g ok in
    let exact : rem (pos x) (pos t) ≡ pos 0 = rem_multiple t i in
    let index : quot (pos x) (pos t) ≡ pos i = ap pos (mul-div_cancel_left i (ok.tick_pos init)) in
    let small = le_mul t i (ok.tick_pos init) in
    price_to_idx_of_tests g (slot_price g i) (pos x) i d init (ground arith)
      (subst (λ u. eqb_ℤ (rem (pos x) u) (pos 0) ≡ true) (sym tick)
        (ap (λ z. eqb_ℤ z (pos 0)) exact))
      (subst (λ u. bits (quot (pos x) u) ≡ i) (sym tick) (ap bits index ∙ omega (arith, st.short)))
      h

-- Prices ascend with the index.
pub slot_price_mono :
    (g : PriceGrid) (i j : ℕ)
    → GridOk g
    → Straight g
    → g.initialized ≡ true
    → i < j
    → j < length g.slots
    → ltb_ℤ (slot_price g i) (slot_price g j) ≡ true
slot_price_mono g i j ok st init h k =
    let t = pos_part g.tick in
    rw (slot_price-Straight g i ok st (omega arith), slot_price-Straight g j ok st k)
      (lt→ltb _ _ (
        omega (
          arith,
          +ℤ_parts g.start_price (pos (t * i)),
          +ℤ_parts g.start_price (pos (t * j)),
          mul-lt-mul_of_pos_left {m = i} {n = j} {k = t} h (ok.tick_pos init),
        )))
