-- ===== src/Book/Queue/Splits.antt =====
-- A queue taken apart at one of its keys.
use numi_orderbook.Base.{
  ℕ, ◌+◌, ◌≡◌, ap, true, false, inl, inr, List, [], ◌∷◌, ◌++◌, arith, ◌==◌, ==_eq, Bool-cases,
  length, length-append,
}
use numi_orderbook.Book.Queue.{has, Distinct}
use numi_orderbook.Book.Queue.Links.{has-append}

pub has-split : (h : ℕ) (hs : List ℕ) → has h hs ≡ true → (xs ys : List ℕ) × (hs ≡ xs ++ (h ∷ ys))
has-split h [] m = cc
has-split h (x ∷ hs) m = elim (Bool-cases (x == h)) [
  | inl e ↦ ([], hs, ap (λ z. z ∷ hs) (==_eq x h e))
  | inr e ↦ let (xs, ys, eq) = has-split h hs (ground arith) in (x ∷ xs, ys, ap (◌∷◌ x) eq)
]

-- The two parts share no key, and each repeats none.
pub Distinct-append :
    (xs ys : List ℕ)
    → Distinct (xs ++ ys)
    → Distinct xs × Distinct ys × ((k : ℕ) → has k xs ≡ true → has k ys ≡ false)
Distinct-append [] ys d = (tt, d, λ k m. absurd (cc))
Distinct-append (x ∷ xs) ys (out, d) =
    let (dx, dy, apart) = Distinct-append xs ys d in
    (
      (ground (arith, has-append x xs ys), dx),
      dy,
      λ k m. elim (Bool-cases (x == k)) [
        | inl e ↦ ground (arith, has-append x xs ys, ==_eq x k e)
        | inr e ↦ apart k (ground arith)
      ],
    )

pub append-Distinct :
    (xs ys : List ℕ)
    → Distinct xs
    → Distinct ys
    → ((k : ℕ) → has k xs ≡ true → has k ys ≡ false)
    → Distinct (xs ++ ys)
append-Distinct [] ys dx dy apart = dy
append-Distinct (x ∷ xs) ys (out, dx) dy apart = (
  ground (arith, has-append x xs ys, apart x),
  append-Distinct xs ys dx dy (λ k m. apart k (ground arith)),
)

-- What holds around a key of a queue without repetition.
pub record Around (h : ℕ) (xs ys : List ℕ) : Type 0 where
  pub before : Distinct xs
  pub behind : Distinct ys
  pub not_before : has h xs ≡ false
  pub not_behind : has h ys ≡ false
  pub apart : (k : ℕ) → has k xs ≡ true → has k ys ≡ false
  pub rest : Distinct (xs ++ ys)

pub Distinct-Around : (h : ℕ) (xs ys : List ℕ) → Distinct (xs ++ (h ∷ ys)) → Around h xs ys
Distinct-Around h xs ys d =
    let (dx, (out, dy), apart) = Distinct-append xs (h ∷ ys) d in
    let off = λ (k : ℕ) (m : has k xs ≡ true). away k (apart k m) in
    record {
      before = dx;
      behind = dy;
      not_before = elim (Bool-cases (has h xs)) [
        | inl m ↦ absurd (ground (arith, apart h m))
        | inr m ↦ m
      ];
      not_behind = out;
      apart = off;
      rest = append-Distinct xs ys dx dy off;
    }
  where
    away : (k : ℕ) → has k (h ∷ ys) ≡ false → has k ys ≡ false
    away k e = ground arith

pub has_middle : (h : ℕ) (xs ys : List ℕ) → has h (xs ++ (h ∷ ys)) ≡ true
has_middle h xs ys = ground (arith, has-append h xs (h ∷ ys))

pub length_middle : (h : ℕ) (xs ys : List ℕ) → length (xs ++ (h ∷ ys)) ≡ length (xs ++ ys) + 1
length_middle h xs ys = omega (arith, length-append xs (h ∷ ys), length-append xs ys)

pub has-ne : (h k : ℕ) (hs : List ℕ) → has h hs ≡ false → has k hs ≡ true → (h == k) ≡ false
has-ne h k hs out m = elim (Bool-cases (h == k)) [
  | inl e ↦ absurd (ground (arith, ap (λ j. has j hs) (==_eq h k e)))
  | inr e ↦ e
]
