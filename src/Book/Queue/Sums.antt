-- ===== src/Book/Queue/Sums.antt =====
-- The total of a queue, as the i64 additions of the code maintain it.
use numi_orderbook.Base.{ℕ, ◌≡◌, refl, ap, ◌∙◌, true, List, [], ◌∷◌, ◌++◌, arith}
use numi_orderbook.Base.Int.{
  ℤ, ◌+ℤ◌, ◌-ℤ◌, wrap, bits, of_bits, add_i64, sub_i64, bits-wrap, bits-add, bits-sub, int_laws,
}
use numi_orderbook.Book.Node.{Orders}
use numi_orderbook.Book.Queue.{has, qty_at, sum_qty}

-- An i64 depends on the bits alone.
pub wrap_of_bits : (a b : ℤ) → bits a ≡ bits b → wrap a ≡ wrap b
unfolding wrap
wrap_of_bits a b e = ap of_bits e

pub add_i64-wrap : (a b : ℤ) → add_i64 (wrap a) b ≡ wrap (a +ℤ b)
unfolding add_i64
add_i64-wrap a b =
    wrap_of_bits (wrap a +ℤ b) (a +ℤ b)
      (omega (arith, bits-add (wrap a) b, bits-add a b, bits-wrap a))

pub sub_i64-wrap : (a b : ℤ) → sub_i64 (wrap a) b ≡ wrap (a -ℤ b)
unfolding sub_i64
sub_i64-wrap a b =
    wrap_of_bits (wrap a -ℤ b) (a -ℤ b)
      (omega (arith, bits-sub (wrap a) b, bits-sub a b, bits-wrap a))

pub add_i64-wrap_difference : (a b c : ℤ) → add_i64 (wrap a) (sub_i64 b c) ≡ wrap (a +ℤ (b -ℤ c))
unfolding sub_i64
add_i64-wrap_difference a b c =
    add_i64-wrap a (wrap (b -ℤ c))
    ∙ wrap_of_bits (a +ℤ wrap (b -ℤ c)) (a +ℤ (b -ℤ c))
        (omega (arith, bits-add a (wrap (b -ℤ c)), bits-add a (b -ℤ c), bits-wrap (b -ℤ c)))

pub sum_qty-append :
    (o : Orders) (xs ys : List ℕ) → sum_qty o (xs ++ ys) ≡ sum_qty o xs +ℤ sum_qty o ys
unfolding sum_qty
sum_qty-append o [] ys = omega int_laws
sum_qty-append o (x ∷ xs) ys = ap (λ s. qty_at o x +ℤ s) (sum_qty-append o xs ys) ∙ omega int_laws

pub sum_qty-frame :
    (o o' : Orders) (hs : List ℕ)
    → ((k : ℕ) → has k hs ≡ true → qty_at o' k ≡ qty_at o k)
    → sum_qty o' hs ≡ sum_qty o hs
unfolding sum_qty
sum_qty-frame o o' [] same = refl
sum_qty-frame o o' (x ∷ hs) same =
    ap (λ q. q +ℤ sum_qty o' hs) (same x (ground arith))
    ∙ ap (λ s. qty_at o x +ℤ s) (sum_qty-frame o o' hs (λ k m. same k (ground arith)))

-- A key more, behind the queue.
pub sum_qty_push :
    (o : Orders) (hs : List ℕ) (h : ℕ) → sum_qty o (hs ++ (h ∷ [])) ≡ sum_qty o hs +ℤ qty_at o h
unfolding sum_qty
sum_qty_push o hs h = sum_qty-append o hs (h ∷ []) ∙ ap (λ s. sum_qty o hs +ℤ s) (omega int_laws)

-- The key in the middle makes the difference.
pub sum_qty_middle :
    (o : Orders) (xs : List ℕ) (h : ℕ) (ys : List ℕ)
    → sum_qty o (xs ++ (h ∷ ys)) ≡ sum_qty o xs +ℤ (qty_at o h +ℤ sum_qty o ys)
unfolding sum_qty
sum_qty_middle o xs h ys = sum_qty-append o xs (h ∷ ys)
