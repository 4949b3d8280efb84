-- ===== src/Decode/Publish.antt =====
-- src/decode.rs: the events of a packet on the book and on the publisher.
use numi_orderbook.Base.{
  ℕ, suc, ◌+◌, ◌^◌, ◌<◌, ◌≡◌, refl, ap, sym, ◌∙◌, inl, inr, Option-cases, Option, none, some, List,
  [], ◌∷◌, ◌++◌, length, ==_refl, arith, length-append,
}
use mathlib.Core.List.{append-nil, append_assoc}
use mathlib.Core.Path.{subst}
use numi_orderbook.Base.Dict.{lookup, lookup-erase}
use numi_orderbook.Event.{Event}
use numi_orderbook.Wire.{Outcome, ok, panic, stuck, unwrap}
use numi_orderbook.Obo.{OboEventV1, map_event_to_obo_parts}
use numi_orderbook.Pubsub.{Bus, publish_raw}
use numi_orderbook.Pubsub.Log.{IsLog, push_frame-IsLog}
use numi_orderbook.Book.Orders.{
  OrderBook, apply, apply_all, instrument_for_order, cancel_order, index_remove, book_mut,
  with_last, with_book,
}
use numi_orderbook.Book.Instrument.{cancel}
use numi_orderbook.Decode.{on_events, publish_event, publish, with_bus, instr_of, instr_in_book}

abbrev pub book_of : Outcome (ℕ × OrderBook × Option Bus) → Outcome OrderBook
book_of (ok (reads, ob, bus)) = ok ob
book_of panic = panic
book_of stuck = stuck

module _ (clock : ℕ → ℕ) where
  pub on_events-apply_all :
      (evs : List (ℕ × Event)) (reads : ℕ) (ob : OrderBook) (bus : Option Bus)
      → book_of (on_events clock evs reads ob bus) ≡ unwrap (apply_all evs ob)
  unfolding on_events apply_all
  on_events-apply_all [] reads ob bus = refl
  on_events-apply_all ((fresh, ev) ∷ evs) reads ob bus = elim (Option-cases (apply fresh ev ob)) [
    | inl stop ↦ rw stop refl
    | inr (ob', e) ↦ rw e (
        on_events-apply_all evs (suc reads) ob' (with_bus (publish_event (clock reads) ev ob') bus))
  ]

-- The events that are published.
abbrev pub messages : List (ℕ × Event) → ℕ
messages [] = 0
messages ((fresh, Event.add _ _ _ _ _) ∷ evs) = suc (messages evs)
messages ((fresh, Event.mod_qty _ _) ∷ evs) = suc (messages evs)
messages ((fresh, Event.del _) ∷ evs) = suc (messages evs)
messages ((fresh, Event.trade _ _ _ none _) ∷ evs) = messages evs
messages ((fresh, Event.trade _ _ _ (some _) _) ∷ evs) = suc (messages evs)
messages ((fresh, Event.heartbeat) ∷ evs) = messages evs

index-cancel_order :
    (instr h : ℕ) (ob ob' : OrderBook) → cancel_order instr h ob ≡ some ob' → ob'.index ≡ ob.index
unfolding cancel_order with_book
index-cancel_order instr h ob ob' e = elim (Option-cases (cancel h (book_mut instr ob))) [
  | inl stop ↦ cc (rw stop at e)
  | inr (b, run) ↦ sym (same_index (with_last instr (with_book instr b ob)) ob' (rw run at e))
]
  where
    same_index : (o o' : OrderBook) → some o ≡ some o' → o.index ≡ o'.index
    same_index o o' q = cc q

erased : (id : ℕ) (ob : OrderBook) → lookup id (index_remove id ob).index ≡ none
erased id ob = lookup-erase id id ob.index ∙ rw (==_refl id) refl

pub gone :
    (fresh id instr h : ℕ) (ob ob' : OrderBook)
    → lookup id ob.index ≡ some (instr, h)
    → apply fresh (Event.del id) ob ≡ some ob'
    → lookup id ob'.index ≡ none
unfolding apply
gone fresh id instr h ob ob' live e =
    let c : cancel_order instr h (index_remove id ob) ≡ some ob' = ground (arith, live, e) in
    ap (lookup id) (index-cancel_order instr h (index_remove id ob) ob' c) ∙ erased id ob

-- By the book before the event the instrument would be that of the order.
abbrev pub del_instr : ℕ → OrderBook → ℕ
del_instr id ob = instr_of (map_event_to_obo_parts (Event.del id)).0 (Event.del id) ob

pub del_instr-before :
    (id instr h : ℕ) (ob : OrderBook)
    → lookup id ob.index ≡ some (instr, h)
    → del_instr id ob ≡ instr
unfolding instr_of map_event_to_obo_parts instr_in_book instrument_for_order
del_instr-before id instr h ob live = ground (arith, live)

pub del_instr-after : (id : ℕ) (ob : OrderBook) → lookup id ob.index ≡ none → del_instr id ob ≡ 0
unfolding instr_of map_event_to_obo_parts instr_in_book instrument_for_order
del_instr-after id ob dead = ground (arith, dead)

-- One event and the frame that it sends.
publish-IsLog :
    (now instr : ℕ) (obo : OboEventV1) (b : Bus) (log : List (List ℕ))
    → IsLog log b.ring
    → length log + 1 < 2 ^ 64
    → (f : List ℕ) × IsLog (log ++ (f ∷ [])) (publish now instr obo b).ring
unfolding publish publish_raw
publish-IsLog now instr obo b log v small = (_, push_frame-IsLog log b.ring v _ small)

abbrev pub Sent : List (List ℕ) → ℕ → Bus → Type 0
Sent log n b = (fs : List (List ℕ)) × (length fs ≡ n) × IsLog (log ++ fs) b.ring

abbrev sends : Event → ℕ
sends (Event.add _ _ _ _ _) = 1
sends (Event.mod_qty _ _) = 1
sends (Event.del _) = 1
sends (Event.trade _ _ _ none _) = 0
sends (Event.trade _ _ _ (some _) _) = 1
sends Event.heartbeat = 0

messages-cons :
    (fresh : ℕ) (ev : Event) (evs : List (ℕ × Event))
    → messages ((fresh, ev) ∷ evs) ≡ sends ev + messages evs
messages-cons fresh (Event.add _ _ _ _ _) evs = omega arith
messages-cons fresh (Event.mod_qty _ _) evs = omega arith
messages-cons fresh (Event.del _) evs = omega arith
messages-cons fresh (Event.trade _ _ _ none _) evs = omega arith
messages-cons fresh (Event.trade _ _ _ (some _) _) evs = omega arith
messages-cons fresh Event.heartbeat evs = omega arith

one :
    (now instr : ℕ) (obo : OboEventV1) (b : Bus) (log : List (List ℕ))
    → IsLog log b.ring
    → length log + 1 < 2 ^ 64
    → Sent log 1 (publish now instr obo b)
one now instr obo b log v small =
    let (f, w) = publish-IsLog now instr obo b log v small in (f ∷ [], refl, w)

publish_event-Sent :
    (now : ℕ) (ev : Event) (ob : OrderBook) (b : Bus) (log : List (List ℕ))
    → IsLog log b.ring
    → length log + sends ev < 2 ^ 64
    → Sent log (sends ev) (publish_event now ev ob b)
unfolding publish_event map_event_to_obo_parts
publish_event-Sent now (Event.add id i px qty s) ob b log v small = one now _ _ b log v small
publish_event-Sent now (Event.mod_qty id qty) ob b log v small = one now _ _ b log v small
publish_event-Sent now (Event.del id) ob b log v small = one now _ _ b log v small
publish_event-Sent now (Event.trade i px qty none t) ob b log v small =
    ([], refl, subst (λ l. IsLog l b.ring) (sym (append-nil log)) v)
publish_event-Sent now (Event.trade i px qty (some m) t) ob b log v small =
    one now _ _ b log v small
publish_event-Sent now Event.heartbeat ob b log v small =
    ([], refl, subst (λ l. IsLog l b.ring) (sym (append-nil log)) v)

module _ (clock : ℕ → ℕ) where
  -- When the events of a packet apply to the book, the publisher's log gets one frame for each
  -- addition, change, cancel and trade with a maker, and none for the others (its numbers staying
  -- below 2^64).
  pub on_events-Sent :
      (evs : List (ℕ × Event)) (reads : ℕ) (ob ob' : OrderBook) (b : Bus) (log : List (List ℕ))
      → apply_all evs ob ≡ some ob'
      → IsLog log b.ring
      → length log + messages evs < 2 ^ 64
      → (n : ℕ) × (b' : Bus) × (on_events clock evs reads ob (some b) ≡ ok (n, ob', some b'))
        × Sent log (messages evs) b'
  unfolding on_events apply_all
  on_events-Sent [] reads ob ob' b log e v small =
      (reads, b, cc e, ([], refl, subst (λ l. IsLog l b.ring) (sym (append-nil log)) v))
  on_events-Sent ((fresh, ev) ∷ evs) reads ob ob' b log e v small =
      elim (Option-cases (apply fresh ev ob)) [
        | inl stop ↦ cc (rw stop at e)
        | inr (ob₁, one_event) ↦
            let (fs, n, v₁) =
              publish_event-Sent (clock reads) ev ob₁ b log v
                (omega (arith, messages-cons fresh ev evs)) in
            let (m, b', run, (gs, k, v₂)) =
              on_events-Sent evs (suc reads) ob₁ ob' (publish_event (clock reads) ev ob₁ b)
                (log ++ fs) (rw one_event at e) v₁
                (omega (arith, messages-cons fresh ev evs, length-append log fs)) in
            (
              m,
              b',
              rw one_event run,
              (
                fs ++ gs,
                omega (arith, messages-cons fresh ev evs, length-append fs gs, n, k),
                subst (λ l. IsLog l b'.ring) (append_assoc log fs gs) v₂,
              ),
            )
      ]
