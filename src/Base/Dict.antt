-- ===== src/Base/Dict.antt =====
-- Maps as association lists: `hashbrown::HashMap` and `slab::Slab` by number, and `BTreeMap<i64, _>`
-- with its entries in the order of the keys.
use Prim.Native.Nat.{ℕ}
use mathlib.Core.Path.{◌≡◌, refl}
use mathlib.Core.Bool.{false}
use mathlib.Core.Option.{Option, none, some}
use mathlib.Core.List.{List, [], ◌∷◌}
use native.Mathlib.Omega.{arith}
use numi_orderbook.Base.Tests.{◌==◌, if◌then◌else◌}
use numi_orderbook.Base.Int.{ℤ, ltb_ℤ, eqb_ℤ, eqb_ℤ_eq, eqb_ℤ_refl}
use mathlib.Core.Logic.{◌≢◌}

module _ {ℓ} {V : Type ℓ} where
  unfoldable pub lookup : ℕ → List (ℕ × V) → Option V
  lookup k [] = none
  lookup k ((j, v) ∷ m) = if j == k then some v else lookup k m

  -- A key that is there keeps its place.
  unfoldable pub insert : ℕ → V → List (ℕ × V) → List (ℕ × V)
  insert k v [] = (k, v) ∷ []
  insert k v ((j, w) ∷ m) = if j == k then (k, v) ∷ m else (j, w) ∷ insert k v m

  unfoldable pub erase : ℕ → List (ℕ × V) → List (ℕ × V)
  erase k [] = []
  erase k ((j, w) ∷ m) = if j == k then erase k m else (j, w) ∷ erase k m

  pub lookup-insert :
      (at_key key : ℕ) (value : V) (entries : List (ℕ × V))
      → lookup key (insert at_key value entries)
        ≡ (if at_key == key then some value else lookup key entries)
  unfolding insert lookup
  lookup-insert at_key key value [] = refl
  lookup-insert at_key key value ((first, _) ∷ entries) =
      ground (arith, lookup-insert at_key key value entries)

  pub lookup-erase :
      (k j : ℕ) (m : List (ℕ × V)) → lookup j (erase k m) ≡ (if k == j then none else lookup j m)
  unfolding lookup erase
  lookup-erase k j [] = ground arith
  lookup-erase k j ((i, w) ∷ m) = ground (arith, lookup-erase k j m)

  pub lookup-insert_self : (k : ℕ) (v : V) (m : List (ℕ × V)) → lookup k (insert k v m) ≡ some v
  lookup-insert_self k v m = ground (arith, lookup-insert k k v m)

  pub lookup-insert_other :
      (k j : ℕ) (v : V) (m : List (ℕ × V)) → (k == j) ≡ false → lookup j (insert k v m) ≡ lookup j m
  lookup-insert_other k j v m ne = ground (arith, lookup-insert k j v m)

  -- To remove a key, put it back and remove it again is to remove it.
  pub erase-insert_erased :
      (k : ℕ) (v : V) (m : List (ℕ × V)) → erase k (insert k v (erase k m)) ≡ erase k m
  unfolding erase insert
  erase-insert_erased k v [] = ground arith
  erase-insert_erased k v ((i, w) ∷ m) = ground (arith, erase-insert_erased k v m)

-- `BTreeMap<i64, V>`: the entries ascend.
module _ {ℓ} {V : Type ℓ} where
  unfoldable pub find : ℤ → List (ℤ × V) → Option V
  find k [] = none
  find k ((j, v) ∷ m) = if eqb_ℤ j k then some v else find k m

  unfoldable pub put : ℤ → V → List (ℤ × V) → List (ℤ × V)
  put k v [] = (k, v) ∷ []
  put k v ((j, w) ∷ m) =
      if eqb_ℤ j k
      then (k, v) ∷ m
      else if ltb_ℤ k j
      then (k, v) ∷ (j, w) ∷ m
      else (j, w) ∷ put k v m

  unfoldable pub remove : ℤ → List (ℤ × V) → List (ℤ × V)
  remove k [] = []
  remove k ((j, w) ∷ m) = if eqb_ℤ j k then remove k m else (j, w) ∷ remove k m

module _ {ℓ} {V : Type ℓ} where
  pub find-put_self : (k : ℤ) (v : V) (m : List (ℤ × V)) → find k (put k v m) ≡ some v
  unfolding find put
  find-put_self k v [] = ground (arith, eqb_ℤ_refl k)
  find-put_self k v ((j, w) ∷ m) = ground (arith, eqb_ℤ_refl k, find-put_self k v m)

  pub find-put_ne : (k q : ℤ) (v : V) (m : List (ℤ × V)) → k ≢ q → find q (put k v m) ≡ find q m
  unfolding find put
  find-put_ne k q v [] h = ground (arith, eqb_ℤ_eq k q)
  find-put_ne k q v ((j, w) ∷ m) h =
      ground (arith, eqb_ℤ_eq k q, eqb_ℤ_eq j k, eqb_ℤ_eq j q, find-put_ne k q v m h)

  pub find-remove_self : (k : ℤ) (m : List (ℤ × V)) → find k (remove k m) ≡ none
  unfolding find remove
  find-remove_self k [] = refl
  find-remove_self k ((j, w) ∷ m) = ground (arith, find-remove_self k m)

  pub find-remove_ne : (k q : ℤ) (m : List (ℤ × V)) → k ≢ q → find q (remove k m) ≡ find q m
  unfolding find remove
  find-remove_ne k q [] h = refl
  find-remove_ne k q ((j, w) ∷ m) h =
      ground (arith, eqb_ℤ_eq j k, eqb_ℤ_eq j q, find-remove_ne k q m h)
