-- ===== src/Merge/Valid.antt =====
-- src/merge.rs: the invariant of the reorder ring and its parts.
use numi_orderbook.Base.{
  ℕ, ◌+◌, ◌%◌, ◌^◌, ◌≤◌, ◌<◌, ◌≡◌, ◌≢◌, some, List, [], ◌∷◌, ◌++◌, length, get_elem?,
}
use numi_orderbook.Pool.{Pkt}
use numi_orderbook.Reorder.{Merge, Slot, wrap64}
use numi_orderbook.Merge.Ring.{occupied}

-- An entry stands in its slot, holds the packet of its number, and is not behind the sequence, nor
-- ahead of it by more than `span`, a bound of all windows.
pub record IsEntry (span cap next i e : ℕ) (p : Pkt) : Type 0 where
  pub in_slot : e % cap ≡ i
  pub numbered : p.seq ≡ e
  pub not_behind : next ≤ e
  pub in_span : e ≤ next + span
  pub in_u64 : e < 2 ^ 64

pub record Held (span window cap : ℕ) (ring : List Slot) (pending next : ℕ) : Type 0 where
  pub cap_pos : 0 < cap
  pub in_window : window ≤ span
  pub full_ring : length ring ≡ cap
  pub counted : pending ≡ occupied ring
  pub entries :
      (i e : ℕ) (p : Pkt) → get_elem? ring i ≡ some (some (e, p)) → IsEntry span cap next i e p

abbrev pub Holds : ℕ → Merge → Type 0
Holds span s = Held span s.reorder_window s.cap s.ring s.pending_count s.next_seq

-- No packet that is due is held back.
abbrev pub NotDue : Merge → Type 0
NotDue s = (i : ℕ) (p : Pkt) → get_elem? s.ring i ≢ some (some (s.next_seq, p))

abbrev pub IsValid : ℕ → Merge → Type 0
IsValid span s = Holds span s × NotDue s

-- Packets of consecutive numbers, from `n` to before `m`, with the wrap of u64.
abbrev pub Runs : ℕ → List Pkt → ℕ → Type 0
Runs n [] m = n ≡ m
Runs n (p ∷ ps) m = (p.seq ≡ n) × Runs (wrap64 (n + 1)) ps m

-- What was sent between two states continues the sequence.
abbrev pub Progress : Merge → Merge → Type 0
Progress s s' = (ps : List Pkt) × (s'.out ≡ s.out ++ ps) × Runs s.next_seq ps s'.next_seq
