-- ===== src/Server/Follow.antt =====
-- src/ws_server.rs: what a client is sent is a stretch of the log of all frames.
use numi_orderbook.Server.Shown.{ShowsGap, build_frame-ShowsGap}
use numi_orderbook.Base.{
  get_elem?-lt, ℕ, zero, suc, ◌+◌, ◌-◌, ◌^◌, ◌<◌, ◌≡◌, refl, ap, sym, ◌∙◌, ◌⊎◌, inl, inr,
  Bool-cases, Option-cases, some, List, [], ◌∷◌, ◌++◌, length, get_elem?, take, drop, arith,
  length-append, ltb,
}
use mathlib.Core.List.{append_assoc}
use mathlib.Core.Path.{subst}
use numi_orderbook.Wire.{Outcome, ok, ◌>>=◌}
use numi_orderbook.Pubsub.{Ring, push_frame}
use numi_orderbook.Pubsub.Log.{IsLog, read_log, push_frame-IsLog, recv_next-log}
use numi_orderbook.Pubsub.Session.{Op}
use numi_orderbook.Server.{build_frame, gap_bytes, msg_gap, on_recv, follow}

abbrev pub published : List Op → List (List ℕ)
published [] = []
published (Op.publish f ∷ ops) = f ∷ published ops
published (Op.read ∷ ops) = published ops

get_elem?-append_l :
    {A : Type 0} (xs ys : List A) (i : ℕ) (a : A)
    → get_elem? xs i ≡ some a
    → get_elem? (xs ++ ys) i ≡ some a
get_elem?-append_l [] ys i a h = cc
get_elem?-append_l (x ∷ xs) ys zero a h = h
get_elem?-append_l (x ∷ xs) ys (suc i) a h = get_elem?-append_l xs ys i a h

take_next :
    {A : Type 0} (xs : List A) (i n : ℕ) (a : A)
    → get_elem? xs i ≡ some a
    → a ∷ take n (drop (suc i) xs) ≡ take (suc n) (drop i xs)
take_next [] i n a h = cc
take_next (x ∷ xs) zero n a h = cc
take_next (x ∷ xs) (suc i) n a h = take_next xs i n a h

module _ (clock : ℕ → ℕ) (bounded : (n : ℕ) → clock n < 2 ^ 64) (k : ℕ) where
  -- The frames sent: from the cursor on, so many of the log, and at most a gap after them.
  pub record Followed (all : List (List ℕ)) (c : ℕ) (r : Outcome (List (List ℕ))) : Type 0 where
    pub count : ℕ
    pub last : List (List ℕ)
    pub is_ok : r ≡ ok (take count (drop c all) ++ last)
    pub ending :
        (last ≡ [])
        ⊎ ((to : ℕ) × (f : List ℕ) × (last ≡ f ∷ []) × ShowsGap (clock k) (c + count) to f)

  Followed-nothing : (all : List (List ℕ)) (c : ℕ) → Followed all c (ok [])
  Followed-nothing all c = record { count = 0; last = []; is_ok = refl; ending = inl refl }

  Followed-frame :
      (all : List (List ℕ)) (c : ℕ) (f : List ℕ) (rest : Outcome (List (List ℕ)))
      → get_elem? all c ≡ some f
      → Followed all (suc c) rest
      → Followed all c (rest >>= λ fs. ok (f ∷ fs))
  Followed-frame all c f rest h d = record {
    count = suc d.count;
    last = d.last;
    is_ok =
        ap (λ o. o >>= λ fs. ok (f ∷ fs)) d.is_ok
        ∙ ap (λ l. ok (l ++ d.last)) (take_next all c d.count f h);
    ending = elim d.ending [
      | inl e ↦ inl e
      | inr (to, g, e, gap) ↦
          let same : suc c + d.count ≡ c + suc d.count = omega arith in
          inr (to, g, e, subst (λ n. ShowsGap (clock k) n to g) same gap)
    ];
  }

  Followed-gap :
      (all : List (List ℕ)) (c to : ℕ)
      → c < 2 ^ 64
      → to < 2 ^ 64
      → Followed all c (ok (build_frame (clock k) msg_gap 0 0 (gap_bytes c to) ∷ []))
  Followed-gap all c to hc ht =
      let same : c ≡ c + 0 = omega arith in
      let f = build_frame (clock k) msg_gap 0 0 (gap_bytes c to) in
      record {
        count = 0;
        last = f ∷ [];
        is_ok = refl;
        ending = inr (
          to,
          f,
          refl,
          subst (λ n. ShowsGap (clock k) n to f) same
              (build_frame-ShowsGap (clock k) c to (bounded k) hc ht),
        );
      }

  -- One read: the entry of the log at the cursor decides what follows.
  Followed-read :
      (all log : List (List ℕ)) (cap c : ℕ) (rest : ℕ → Outcome (List (List ℕ)))
      → length log < 2 ^ 64
      → ((f : List ℕ) → get_elem? log c ≡ some f → get_elem? all c ≡ some f)
      → ((d : ℕ) → Followed all d (rest d))
      → Followed all c (on_recv clock k (read_log cap log c).0 (rest (read_log cap log c).1))
  unfolding on_recv
  Followed-read all log cap c rest small within go = elim (Option-cases (get_elem? log c)) [
    | inl past ↦ rw past (go c)
    | inr (f, e) ↦ elim (Bool-cases (ltb c (length log - cap))) [
      | inl old ↦
          rw (e, old)
            (Followed-gap all c (length log - cap - 1) (omega (arith, get_elem?-lt log c f e))
              (omega arith))
      | inr held ↦
          rw (e, held)
            (let next : suc c ≡ c + 1 = omega arith in
              Followed-frame all c f (rest (c + 1)) (within f e)
                (subst (λ d. Followed all d (rest (c + 1))) (sym next) (go (c + 1))))
    ]
  ]

  pub follow-Followed :
      (ops : List Op) (log : List (List ℕ)) (r : Ring) (c : ℕ)
      → IsLog log r
      → length log + length ops < 2 ^ 64
      → Followed (log ++ published ops) c (follow clock k r (record { next_global = c }) ops)
  unfolding follow
  follow-Followed [] log r c v small = Followed-nothing (log ++ []) c
  follow-Followed (Op.publish f ∷ ops) log r c v small =
      subst (λ l. Followed l c (follow clock k (push_frame f r) (record { next_global = c }) ops))
        (append_assoc log (f ∷ []) (published ops))
        (follow-Followed ops (log ++ (f ∷ [])) (push_frame f r) c
          (push_frame-IsLog log r v f (omega arith)) (omega (arith, length-append log (f ∷ []))))
  follow-Followed (Op.read ∷ ops) log r c v small = rw (recv_next-log log r v c (omega arith)) (
      Followed-read (log ++ published ops) log r.cap c
        (λ d. follow clock k r (record { next_global = d }) ops) (omega arith)
        (λ f e. get_elem?-append_l log (published ops) c f e)
        (λ d. follow-Followed ops log r d v (omega arith)))
