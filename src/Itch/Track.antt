-- ===== src/Itch/Track.antt =====
-- The orders that the decoder of src/decoder_itch.rs tracks, against the events that it emits.
use mathlib.Core.List.{append-nil, append_assoc}
use numi_orderbook.Base.{
  ℕ, ◌+◌, ◌≤◌, ◌≡◌, refl, ap, sym, ◌∙◌, inl, inr, Option, none, some, List, [], ◌∷◌, ◌++◌, arith,
  ◌==◌, ==_eq, if◌then◌else◌, Bool-cases, length, take, drop,
}
use numi_orderbook.Base.Int.{ℤ, pos, ltb_ℤ}
use numi_orderbook.Base.Dict.{lookup, lookup-insert, lookup-erase}
use numi_orderbook.Event.{Side, Event}
use numi_orderbook.Wire.{ok, be_value}
use numi_orderbook.Itch.{
  OrderState, Inner, State, read_fixed, read_uint, track, forget, reduce_qty, reduce_order,
}

-- What is known of a live order: instrument, side and quantity.
abbrev pub Tracked : Type 0
Tracked = Option (ℕ × Side × ℤ)

abbrev pub seen : Option OrderState → Tracked
seen none = none
seen (some s) = some (s.instr, s.side, s.qty)

abbrev pub tracked : Inner → ℕ → Tracked
tracked st k = seen (lookup k st.orders)

abbrev pub requantified : ℤ → Tracked → Tracked
requantified qty none = none
requantified qty (some (instr, side, old)) = some (instr, side, qty)

-- What an event says of the order `k`.
abbrev pub event_at : Event → ℕ → Tracked → Tracked
event_at (Event.add id instr px qty side) k v = if id == k then some (instr, side, qty) else v
event_at (Event.mod_qty id qty) k v = if id == k then requantified qty v else v
event_at (Event.del id) k v = if id == k then none else v
event_at (Event.trade instr px qty maker taker) k v = v
event_at Event.heartbeat k v = v

abbrev pub replay : List Event → ℕ → Tracked → Tracked
replay [] k v = v
replay (ev ∷ evs) k v = replay evs k (event_at ev k v)

pub replay-append :
    (xs ys : List Event) (k : ℕ) (v : Tracked) → replay (xs ++ ys) k v ≡ replay ys k (replay xs k v)
replay-append [] ys k v = refl
replay-append (x ∷ xs) ys k v = replay-append xs ys k (event_at x k v)

-- Events are appended, and the tracked orders change as they say.
pub record Steps (s s' : State) : Type 0 where
  pub evs : List Event
  pub appended : s'.1 ≡ s.1 ++ evs
  pub agree : (k : ℕ) → tracked s'.0 k ≡ replay evs k (tracked s.0 k)

pub Steps-refl : (s : State) → Steps s s
Steps-refl s = record { evs = []; appended = sym (append-nil s.1); agree = λ k. refl }

pub Steps-trans : (s t u : State) → Steps s t → Steps t u → Steps s u
Steps-trans s t u a b = record {
  evs = a.evs ++ b.evs;
  appended = b.appended ∙ ap (λ o. o ++ b.evs) a.appended ∙ append_assoc s.1 a.evs b.evs;
  agree = λ k.
      b.agree k
      ∙ ap (replay b.evs k) (a.agree k)
      ∙ sym (replay-append a.evs b.evs k (tracked s.0 k));
}

-- One event more, which says nothing of any order.
pub Steps-trade :
    (st : Inner) (out : List Event) (instr : ℕ) (px qty : ℤ) (maker : Option ℕ)
    (taker : Option Side)
    → Steps (st, out) (st, out ++ (Event.trade instr px qty maker taker ∷ []))
Steps-trade st out instr px qty maker taker = record {
  evs = Event.trade instr px qty maker taker ∷ [];
  appended = refl;
  agree = λ k. refl;
}

-- An order is tracked, under its event.
pub Steps-add :
    (st : Inner) (out : List Event) (id : ℕ) (s : OrderState)
    → Steps (st, out) (track id s st, out ++ (Event.add id s.instr s.px s.qty s.side ∷ []))
Steps-add st out id s = record {
  evs = Event.add id s.instr s.px s.qty s.side ∷ [];
  appended = refl;
  agree = λ k. ground (arith, lookup-insert id k s st.orders);
}

pub Steps-del :
    (st : Inner) (out : List Event) (id : ℕ)
    → Steps (st, out) (forget id st, out ++ (Event.del id ∷ []))
Steps-del st out id = record {
  evs = Event.del id ∷ [];
  appended = refl;
  agree = λ k. ground (arith, lookup-erase id k st.orders);
}

-- To forget an order that is not tracked changes nothing.
pub Steps-forget_missing :
    (st : Inner) (out : List Event) (id : ℕ)
    → lookup id st.orders ≡ none
    → Steps (st, out) (forget id st, out)
Steps-forget_missing st out id missing = record {
  evs = [];
  appended = sym (append-nil out);
  agree = λ k. elim (Bool-cases (id == k)) [
    | inl same ↦ ground (arith, lookup-erase id k st.orders, ==_eq id k same)
    | inr other ↦ ground (arith, lookup-erase id k st.orders)
  ];
}

pub Steps-reduce :
    (st : Inner) (out : List Event) (id : ℕ) (s : OrderState) (shares px : ℤ)
    → lookup id st.orders ≡ some s
    → Steps (st, out) (reduce_order id s shares px (st, out))
unfolding reduce_order
Steps-reduce st out id s shares px there =
    let left = reduce_qty s.qty shares in
    elim (Bool-cases (ltb_ℤ (pos 0) left)) [
      | inl positive ↦
          let s' : OrderState = record s { qty = left; px = px } in
          rw (positive) (record {
            evs = Event.mod_qty id left ∷ [];
            appended = refl;
            agree = λ k. elim (Bool-cases (id == k)) [
              | inl same ↦ ground (arith, lookup-insert id k s' st.orders, ==_eq id k same, there)
              | inr other ↦ ground (arith, lookup-insert id k s' st.orders)
            ];
          })
      | inr gone ↦ rw gone (Steps-del st out id)
    ]

-- Reads inside the body.
pub read_fixed-in :
    (n : ℕ) (b : List ℕ) (off : ℕ)
    → off + n ≤ length b
    → read_fixed n b off ≡ some (take n (drop off b), off + n)
unfolding read_fixed
read_fixed-in n b off h = ground arith

pub read_uint-in :
    (n : ℕ) (b : List ℕ) (off : ℕ)
    → off + n ≤ length b
    → read_uint n b off ≡ ok (be_value (take n (drop off b)), off + n)
unfolding read_uint
read_uint-in n b off h = rw (read_fixed-in n b off h) refl
