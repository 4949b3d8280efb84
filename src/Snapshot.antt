-- ===== src/Snapshot.antt =====
-- src/snapshot.rs: the file of a snapshot. `serialize` and `deserialize` are the encoding of another
-- package, `none` where they fail. A path is the bytes that it holds, `none` where there is no file.
pub mod Load
pub mod Atomic
mod Examples
use numi_orderbook.Base.{
  ℕ, ◌+◌, ◌≡◌, Bool, true, false, not, ◌&&◌, Option, none, some, List, [], ◌∷◌, ◌++◌, ltb, ◌==◌,
  if◌then◌else◌, length, take,
}
use numi_orderbook.Wire.{Outcome, ok, ◌>>=◌, unwrap, slice, be_value, be_bytes}
use numi_orderbook.Book.Orders.{OrderBook}
use numi_orderbook.Book.Export.{BookExport, from_export}

-- `MAGIC` and `VERSION`
abbrev pub magic : List ℕ
magic = b'O' ∷ b'B' ∷ b'S' ∷ b'N' ∷ b'A' ∷ b'P' ∷ 0 ∷ 0 ∷ []

abbrev pub version : ℕ
version = 1

abbrev pub same_bytes : List ℕ → List ℕ → Bool
same_bytes [] [] = true
same_bytes [] (y ∷ ys) = false
same_bytes (x ∷ xs) [] = false
same_bytes (x ∷ xs) (y ∷ ys) = (x == y) && same_bytes xs ys

-- The contents that `write_atomic` builds before it opens a file.
unfoldable pub contents : ℕ → List ℕ → List ℕ
contents ts_ns body = magic ++ (be_bytes 4 version ++ (be_bytes 8 ts_ns ++ body))

-- A snapshot that cannot be encoded leaves the files alone.
unfoldable pub snapshot_payload : (BookExport → Option (List ℕ)) → ℕ → BookExport → Option (List ℕ)
snapshot_payload serialize ts_ns exp = elim (serialize exp) [
  | none ↦ none
  | some body ↦ some (contents ts_ns body)
]

pub data Loaded : Type 0 where
  loaded : OrderBook → Loaded
  no_file too_small bad_magic bad_version bad_body : Loaded

module _ (deserialize : List ℕ → Option BookExport) (fresh : OrderBook → ℕ → ℕ) where
  unfoldable pub load_body : List ℕ → Outcome Loaded
  load_body body = elim (deserialize body) [
    | none ↦ ok Loaded.bad_body
    | some exp ↦ unwrap (from_export fresh exp) >>= λ ob. ok (Loaded.loaded ob)
  ]

  unfoldable pub load : Option (List ℕ) → Outcome Loaded
  unfolding load_body
  load none = ok Loaded.no_file
  load (some v) =
      if ltb (length v) (8 + 4 + 8)
      then ok Loaded.too_small
      else (slice v 0 8 >>= λ m.
          if not (same_bytes m magic)
          then ok Loaded.bad_magic
          else (slice v 8 12 >>= λ ver.
              if not (be_value ver == version)
              then ok Loaded.bad_version
              else (slice v 20 (length v) >>= λ body. load_body body)))

-- Where `write_atomic` is; an error, or the end of the process, is a write that takes no more steps.
pub data Phase : Type 0 where
  opening writing written renamed : Phase

pub record Saving : Type 0 where
  pub path : Option (List ℕ)
  pub tmp : Option (List ℕ)
  pub phase : Phase

-- The steps of one write on the two files: `write_all` writes the contents in as many parts as it
-- takes, and the rename puts the new file in place of the old one at once.
pub data Step (payload : List ℕ) (s : Saving) : Saving → Type 0 where
  create :
      (t : Saving)
      → s.phase ≡ Phase.opening
      → t ≡ record s { tmp = some []; phase = Phase.writing }
      → Step payload s t
  write_part :
      (n : ℕ) (t : Saving)
      → s.phase ≡ Phase.writing
      → t ≡ record s { tmp = some (take n payload) }
      → Step payload s t
  write_rest :
      (t : Saving)
      → s.phase ≡ Phase.writing
      → t ≡ record s { tmp = some payload; phase = Phase.written }
      → Step payload s t
  rename :
      (t : Saving)
      → s.phase ≡ Phase.written
      → t ≡ record s { path = s.tmp; tmp = none; phase = Phase.renamed }
      → Step payload s t

pub data Reach (payload : List ℕ) (s : Saving) : Saving → Type 0 where
  here : Reach payload s s
  next : {t u : Saving} → Reach payload s t → Step payload t u → Reach payload s u

abbrev pub opened : (path tmp : Option (List ℕ)) → Saving
opened path tmp = record { path = path; tmp = tmp; phase = Phase.opening }
