-- ===== src/Recovery/Coalesce.antt =====
-- src/recovery.rs: the numbers of the requested gaps when they are coalesced.
use mathlib.Core.List.{append-nil, append_assoc}
use numi_orderbook.Base.{
  ℕ, ◌+◌, ◌≤◌, ◌≡◌, refl, ◌⊎◌, ◌↔◌, inl, inr, true, Bool-cases, ap, Option, none, some, List, [],
  ◌∷◌, ◌++◌, ltb, arith, if◌then◌else◌,
}
use numi_orderbook.Recovery.{RecoveryRequest, log_gap, joins, coalesce}
use numi_orderbook.Reorder.{sat64}

abbrev pub Within : ℕ → ℕ × ℕ → Type 0
Within n (from, to) = (from ≤ n) × (n ≤ to)

-- The number is in one of the ranges.
abbrev pub InRanges : ℕ → List (ℕ × ℕ) → Type 0
InRanges n [] = ⊥
InRanges n (r ∷ rs) = Within n r ⊎ InRanges n rs

abbrev pub Requested : ℕ → List RecoveryRequest → Type 0
Requested n [] = ⊥
Requested n (RecoveryRequest.gap from to ∷ more) = Within n (from, to) ⊎ Requested n more

pub InRanges-append_l : (n : ℕ) (xs ys : List (ℕ × ℕ)) → InRanges n xs → InRanges n (xs ++ ys)
InRanges-append_l n [] ys h = elim h [ ]
InRanges-append_l n (x ∷ xs) ys (inl h) = inl h
InRanges-append_l n (x ∷ xs) ys (inr h) = inr (InRanges-append_l n xs ys h)

pub InRanges-append_r : (n : ℕ) (xs ys : List (ℕ × ℕ)) → InRanges n ys → InRanges n (xs ++ ys)
InRanges-append_r n [] ys h = h
InRanges-append_r n (x ∷ xs) ys h = inr (InRanges-append_r n xs ys h)

pub InRanges-split :
    (n : ℕ) (xs ys : List (ℕ × ℕ)) → InRanges n (xs ++ ys) → InRanges n xs ⊎ InRanges n ys
InRanges-split n [] ys h = inr h
InRanges-split n (x ∷ xs) ys (inl h) = inl (inl h)
InRanges-split n (x ∷ xs) ys (inr h) = elim (InRanges-split n xs ys h) [
  | inl k ↦ inl (inr k)
  | inr k ↦ inr k
]

joins-near : (from to lo hi : ℕ) → joins from to lo hi ≡ true → (from ≤ hi + 1) × (lo ≤ to + 1)
unfolding joins sat64
joins-near from to lo hi h = (ground arith, ground arith)

-- The range of two that join.
abbrev pub low : ℕ → ℕ → ℕ
low from lo = if ltb from lo then from else lo

abbrev pub high : ℕ → ℕ → ℕ
high to hi = if ltb hi to then to else hi

widened-in :
    (n from to lo hi : ℕ)
    → Within n (lo, hi) ⊎ Within n (from, to)
    → Within n (low from lo, high to hi)
widened-in n from to lo hi (inl h) = (ground arith, ground arith)
widened-in n from to lo hi (inr h) = (ground arith, ground arith)

widened-le : (from to lo hi : ℕ) → lo ≤ hi → low from lo ≤ high to hi
widened-le from to lo hi h = ground arith

widened-out :
    (n from to lo hi : ℕ)
    → joins from to lo hi ≡ true
    → lo ≤ hi
    → Within n (low from lo, high to hi)
    → Within n (lo, hi) ⊎ Within n (from, to)
widened-out n from to lo hi j le (above, below) =
    let (near_hi, near_lo) = joins-near from to lo hi j in
    elim (Bool-cases (ltb n lo)) [
      | inl before ↦ inr (ground arith, ground arith)
      | inr p ↦ elim (Bool-cases (ltb hi n)) [
        | inl after ↦ inr (ground arith, ground arith)
        | inr q ↦ inl (ground arith, ground arith)
      ]
    ]

-- The numbers that are to be asked for are exactly those of the range to fetch and of the log.
pub record Coalesced (Asked : ℕ → Type 0) (r : (ℕ × ℕ) × Option (List (ℕ × ℕ))) : Type 0 where
  pub ends : r.0.0 ≤ r.0.1
  pub lines : List (ℕ × ℕ)
  pub is_logged : r.1 ≡ some lines
  pub exact : (n : ℕ) → (Within n r.0 ⊎ InRanges n lines) ↔ Asked n

pub iff_trans : {A B C : Type 0} → A ↔ B → B ↔ C → A ↔ C
iff_trans (f, g) (f', g') = (λ a. f' (f a), λ c. g (g' c))

Coalesced-map :
    {P Q : ℕ → Type 0} {r : (ℕ × ℕ) × Option (List (ℕ × ℕ))}
    → ((n : ℕ) → P n ↔ Q n)
    → Coalesced P r
    → Coalesced Q r
Coalesced-map f c = record {
  ends = c.ends;
  lines = c.lines;
  is_logged = c.is_logged;
  exact = λ n. iff_trans (c.exact n) (f n);
}

abbrev pub Asked : ℕ → ℕ → List (ℕ × ℕ) → List RecoveryRequest → ℕ → Type 0
Asked lo hi b more n = Within n (lo, hi) ⊎ (InRanges n b ⊎ Requested n more)

module _ (from to lo hi : ℕ) (b : List (ℕ × ℕ)) (more : List RecoveryRequest) (n : ℕ) where
  abbrev Widened : Type 0
  Widened = Asked (low from lo) (high to hi) b more n

  abbrev Kept : Type 0
  Kept = Asked lo hi (b ++ ((from, to) ∷ [])) more n

  abbrev AskedAll : Type 0
  AskedAll = Asked lo hi b (RecoveryRequest.gap from to ∷ more) n

  widened→asked : joins from to lo hi ≡ true → lo ≤ hi → Widened → AskedAll
  widened→asked j le (inl h) = elim (widened-out n from to lo hi j le h) [
    | inl k ↦ inl k
    | inr k ↦ inr (inr (inl k))
  ]
  widened→asked j le (inr (inl h)) = inr (inl h)
  widened→asked j le (inr (inr h)) = inr (inr (inr h))

  asked→widened : AskedAll → Widened
  asked→widened (inl h) = inl (widened-in n from to lo hi (inl h))
  asked→widened (inr (inl h)) = inr (inl h)
  asked→widened (inr (inr (inl h))) = inl (widened-in n from to lo hi (inr h))
  asked→widened (inr (inr (inr h))) = inr (inr h)

  kept→asked : Kept → AskedAll
  kept→asked (inl h) = inl h
  kept→asked (inr (inl h)) = elim (InRanges-split n b ((from, to) ∷ []) h) [
    | inl k ↦ inr (inl k)
    | inr (inl k) ↦ inr (inr (inl k))
    | inr (inr k) ↦ elim k [ ]
  ]
  kept→asked (inr (inr h)) = inr (inr (inr h))

  asked→kept : AskedAll → Kept
  asked→kept (inl h) = inl h
  asked→kept (inr (inl h)) = inr (inl (InRanges-append_l n b ((from, to) ∷ []) h))
  asked→kept (inr (inr (inl h))) = inr (inl (InRanges-append_r n b ((from, to) ∷ []) (inl h)))
  asked→kept (inr (inr (inr h))) = inr (inr h)

nothing_more :
    (n lo hi : ℕ) (b : List (ℕ × ℕ)) → (Within n (lo, hi) ⊎ InRanges n b) ↔ Asked lo hi b [] n
nothing_more n lo hi b = (
  λ h. elim h [ inl k ↦ inl k | inr k ↦ inr (inl k) ],
  λ h. elim h [ inl k ↦ inl k | inr (inl k) ↦ inr k | inr (inr k) ↦ elim k [ ] ],
)

pub coalesce-Coalesced :
    (more : List RecoveryRequest) (lo hi : ℕ) (b : List (ℕ × ℕ))
    → lo ≤ hi
    → Coalesced (Asked lo hi b more) (coalesce more lo hi (some b))
unfolding coalesce
coalesce-Coalesced [] lo hi b le = record {
  ends = le;
  lines = b;
  is_logged = refl;
  exact = λ n. nothing_more n lo hi b;
}
coalesce-Coalesced (RecoveryRequest.gap from to ∷ more) lo hi b le =
    elim (Bool-cases (joins from to lo hi)) [
      | inl j ↦ rw j (
          Coalesced-map
            (λ n. (widened→asked from to lo hi b more n j le, asked→widened from to lo hi b more n))
            (coalesce-Coalesced more (low from lo) (high to hi) b (widened-le from to lo hi le)))
      | inr j ↦ rw j (
          Coalesced-map
            (λ n. (kept→asked from to lo hi b more n, asked→kept from to lo hi b more n))
            (coalesce-Coalesced more lo hi (b ++ ((from, to) ∷ [])) le))
    ]

-- The lines that a log gains; without a file they are lost.
abbrev pub logged : List (ℕ × ℕ) → Option (List (ℕ × ℕ)) → Option (List (ℕ × ℕ))
logged lines none = none
logged lines (some old) = some (old ++ lines)

pub logged-nothing : (b : Option (List (ℕ × ℕ))) → logged [] b ≡ b
logged-nothing none = refl
logged-nothing (some old) = ap some (append-nil old)

pub log_gap-logged :
    (from to : ℕ) (lines : List (ℕ × ℕ)) (b : Option (List (ℕ × ℕ)))
    → log_gap from to (logged lines b) ≡ logged (lines ++ ((from, to) ∷ [])) b
log_gap-logged from to lines none = refl
log_gap-logged from to lines (some old) = ap some (append_assoc old lines ((from, to) ∷ []))

-- The same gaps stay apart whatever is in the log, and with no file.
pub coalesce-logged :
    (more : List RecoveryRequest) (lo hi : ℕ) (ls lines : List (ℕ × ℕ)) (b : Option (List (ℕ × ℕ)))
    → (coalesce more lo hi (some ls)).1 ≡ some lines
    → coalesce more lo hi (logged ls b) ≡ ((coalesce more lo hi (some ls)).0, logged lines b)
unfolding coalesce
coalesce-logged [] lo hi ls lines b e = ap (λ l. ((lo, hi), logged l b)) (cc e)
coalesce-logged (RecoveryRequest.gap from to ∷ more) lo hi ls lines b e =
    elim (Bool-cases (joins from to lo hi)) [
      | inl j ↦ rw j (coalesce-logged more (low from lo) (high to hi) ls lines b (rw j at e))
      | inr j ↦
          rw (j, log_gap-logged from to ls b)
            (coalesce-logged more lo hi (ls ++ ((from, to) ∷ [])) lines b (rw j at e))
    ]
