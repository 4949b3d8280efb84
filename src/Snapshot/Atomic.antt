-- ===== src/Snapshot/Atomic.antt =====
-- src/snapshot.rs: what a reader of the file finds while a snapshot is written, and after a failure.
use mathlib.Core.Path.{subst}
use numi_orderbook.Base.{
  ℕ, ◌≡◌, ◌≢◌, refl, ap, sym, ◌∙◌, ◌⊎◌, inl, inr, Option, none, some, List, arith, take,
  Option-cases,
}
use numi_orderbook.Wire.{ok}
use numi_orderbook.Book.Orders.{OrderBook, new_book}
use numi_orderbook.Book.Orders.View.{view, IsSound}
use numi_orderbook.Book.Export.{BookExport, from_export}
use numi_orderbook.Book.Restore.{instruments_on, AllRestorable, from_export-Restored}
use numi_orderbook.Snapshot.{
  contents, snapshot_payload, load, load_body, Loaded, Phase, Saving, Step, Reach, opened,
}
use numi_orderbook.Snapshot.Load.{load-contents}

module _ (payload : List ℕ) (old : Option (List ℕ)) where
  -- The old file stands until the rename, and the new one is complete by then.
  abbrev IsWhole : Phase → Option (List ℕ) → Option (List ℕ) → Type 0
  IsWhole Phase.opening path tmp = path ≡ old
  IsWhole Phase.writing path tmp = path ≡ old
  IsWhole Phase.written path tmp = (path ≡ old) × (tmp ≡ some payload)
  IsWhole Phase.renamed path tmp = path ≡ some payload

  abbrev WholeIn : Saving → Type 0
  WholeIn s = IsWhole s.phase s.path s.tmp

  in_phase : (s : Saving) (p : Phase) → s.phase ≡ p → WholeIn s → IsWhole p s.path s.tmp
  in_phase s p e h = subst (λ x. IsWhole x s.path s.tmp) e h

  Step-WholeIn : (s : Saving) {t : Saving} → Step payload s t → WholeIn s → WholeIn t
  Step-WholeIn s (Step.create t at e) h = subst WholeIn (sym e) (in_phase s Phase.opening at h)
  Step-WholeIn s (Step.write_part n t at e) h = subst WholeIn (sym e) (
      subst (λ x. IsWhole x s.path (some (take n payload))) (sym at)
        (in_phase s Phase.writing at h))
  Step-WholeIn s (Step.write_rest t at e) h =
      subst WholeIn (sym e) (in_phase s Phase.writing at h, refl)
  Step-WholeIn s (Step.rename t at e) h =
      let (stands, whole) = in_phase s Phase.written at h in subst WholeIn (sym e) whole

  Reach-WholeIn : {s t : Saving} → Reach payload s t → WholeIn s → WholeIn t
  Reach-WholeIn Reach.here h = h
  Reach-WholeIn (Reach.next {t = t} r st) h = Step-WholeIn t st (Reach-WholeIn r h)

  old_or_new :
      (p : Phase) (path tmp : Option (List ℕ))
      → IsWhole p path tmp
      → ((p ≢ Phase.renamed) × (path ≡ old)) ⊎ (path ≡ some payload)
  old_or_new Phase.opening path tmp h = inl (λ e. cc, h)
  old_or_new Phase.writing path tmp h = inl (λ e. cc, h)
  old_or_new Phase.written path tmp h = inl (λ e. cc, h.0)
  old_or_new Phase.renamed path tmp h = inr h

module _ (serialize : BookExport → Option (List ℕ)) (deserialize : List ℕ → Option BookExport)
    (exp : BookExport)
    (inverse : (body : List ℕ) → serialize exp ≡ some body → deserialize body ≡ some exp)
    (fresh : OrderBook → ℕ → ℕ) where
  -- The file can be read, and gives a sound order book whose live orders the export lists.
  abbrev pub Restores : Option (List ℕ) → Type 0
  Restores file =
      (ob : OrderBook) × (load deserialize fresh file ≡ ok (Loaded.loaded ob))
      × IsSound ob
      × ((id : ℕ) → view ob id ≡ instruments_on exp.instruments (λ _. none) id)

  snapshot_payload-contents :
      (ts_ns : ℕ) (payload : List ℕ)
      → snapshot_payload serialize ts_ns exp ≡ some payload
      → (body : List ℕ) × (deserialize body ≡ some exp) × (contents ts_ns body ≡ payload)
  unfolding snapshot_payload
  snapshot_payload-contents ts_ns payload e = elim (Option-cases (serialize exp)) [
    | inl fails ↦ ground arith
    | inr (body, encoded) ↦ (body, inverse body encoded, ground arith)
  ]

  load_body-decoded :
      (body : List ℕ) (ob : OrderBook)
      → deserialize body ≡ some exp
      → from_export fresh exp ≡ some ob
      → load_body deserialize fresh body ≡ ok (Loaded.loaded ob)
  unfolding load_body
  load_body-decoded body ob decoded f = rw (decoded, load_body, f) refl

  payload-Restores :
      (ts_ns : ℕ) (payload : List ℕ)
      → snapshot_payload serialize ts_ns exp ≡ some payload
      → AllRestorable fresh exp.instruments (new_book 10)
      → Restores (some payload)
  payload-Restores ts_ns payload e fits =
      let (body, decoded, same) = snapshot_payload-contents ts_ns payload e in
      let (ob, f, sound, orders) = from_export-Restored fresh exp fits in
      (
        ob,
        ap (λ l. load deserialize fresh (some l)) (sym same)
            ∙ load-contents deserialize fresh ts_ns body
            ∙ load_body-decoded body ob decoded f,
        sound,
        orders,
      )

  -- At any time of a write, whatever it has done by then and also if it goes no further: the file is
  -- the old one, or it can be read and restores a sound order book with exactly the live orders of
  -- the export; and once the write has come to its end, it is the second. This holds of an encoding
  -- that can be decoded, and of an export whose orders can be added when their turn comes.
  pub write_atomic-Restores :
      (ts_ns : ℕ) (payload : List ℕ) (old tmp : Option (List ℕ)) (s : Saving)
      → snapshot_payload serialize ts_ns exp ≡ some payload
      → AllRestorable fresh exp.instruments (new_book 10)
      → Reach payload (opened old tmp) s
      → ((s.phase ≢ Phase.renamed) × (s.path ≡ old)) ⊎ Restores s.path
  write_atomic-Restores ts_ns payload old tmp s e fits r =
      elim (old_or_new payload old s.phase s.path s.tmp (Reach-WholeIn payload old r refl)) [
        | inl stands ↦ inl stands
        | inr new ↦ inr (subst Restores (sym new) (payload-Restores ts_ns payload e fits))
      ]
