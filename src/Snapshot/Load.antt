-- ===== src/Snapshot/Load.antt =====
-- src/snapshot.rs: a snapshot is read back as it was written.
use mathlib.Core.List.{append_assoc, append-nil}
use numi_orderbook.Base.{
  ℕ, ◌+◌, ◌≡◌, refl, ap, sym, ◌∙◌, false, Option, some, List, [], ◌++◌, arith, ltb, length,
  length-append,
}
use numi_orderbook.Wire.{ok, slice, be_bytes}
use numi_orderbook.Wire.Slices.{slice_middle}
use numi_orderbook.Wire.Values.{be_value-be_bytes, length-be_bytes}
use numi_orderbook.Book.Orders.{OrderBook}
use numi_orderbook.Book.Export.{BookExport}
use numi_orderbook.Snapshot.{magic, version, contents, load, load_body}

module _ (deserialize : List ℕ → Option BookExport) (fresh : OrderBook → ℕ → ℕ) (ts_ns : ℕ)
    (body : List ℕ) where
  abbrev after_version : List ℕ
  after_version = be_bytes 8 ts_ns ++ body

  length-contents : length (contents ts_ns body) ≡ 20 + length body
  unfolding contents
  length-contents = omega (
    arith,
    length-append (be_bytes 4 version) (be_bytes 8 ts_ns ++ body),
    length-append (be_bytes 8 ts_ns) body,
    length-be_bytes 4 version,
    length-be_bytes 8 ts_ns,
  )

  slice-magic : slice (contents ts_ns body) 0 8 ≡ ok magic
  unfolding contents
  slice-magic =
      slice_middle [] magic (be_bytes 4 version ++ (be_bytes 8 ts_ns ++ body)) 0 8 refl refl

  slice-version : slice (contents ts_ns body) 8 12 ≡ ok (be_bytes 4 version)
  unfolding contents
  slice-version =
      slice_middle magic (be_bytes 4 version) (be_bytes 8 ts_ns ++ body) 8 12 refl
        (omega (arith, length-be_bytes 4 version))

  abbrev header : List ℕ
  header = magic ++ (be_bytes 4 version ++ be_bytes 8 ts_ns)

  header_and_body : contents ts_ns body ≡ header ++ (body ++ [])
  unfolding contents
  header_and_body = simp (append_assoc, append-nil)

  slice-body : slice (contents ts_ns body) 20 (length (contents ts_ns body)) ≡ ok body
  slice-body =
      let len : length header ≡ 20 = omega (
        arith,
        length-append (be_bytes 4 version) (be_bytes 8 ts_ns),
        length-be_bytes 4 version,
        length-be_bytes 8 ts_ns,
      ) in
      ap (λ l. slice l 20 (length (contents ts_ns body))) header_and_body
      ∙ slice_middle header body [] 20 (length (contents ts_ns body)) (sym len)
          (omega (arith, length-contents))

  -- Past the checks, a file that `write_atomic` wrote is its body.
  pub load-contents :
      load deserialize fresh (some (contents ts_ns body)) ≡ load_body deserialize fresh body
  unfolding load
  load-contents =
      let long : ltb (length (contents ts_ns body)) 20 ≡ false = ground (arith, length-contents) in
      rw (long, slice-magic, slice-version, be_value-be_bytes 4 version (omega arith), slice-body)
        refl
