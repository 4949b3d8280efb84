-- ===== src/Server/Session.antt =====
-- src/ws_server.rs: everything that a client is sent.
use numi_orderbook.Base.{ℕ, ◌^◌, ◌<◌, ◌≡◌, Option, none, some, List, ◌∷◌, ◌++◌, length}
use numi_orderbook.Wire.{Outcome, ok, ◌>>=◌}
use numi_orderbook.Book.Export.{BookExport}
use numi_orderbook.Server.{Request}
use numi_orderbook.Server.Shown.{Line, lines_for, Shows}
use numi_orderbook.Server.Follow.{Followed}

-- Where a client begins: at the number that it asks for, or at the end of the log.
abbrev pub first_number : Option ℕ → List (List ℕ) → ℕ
first_number none log = length log
first_number (some g) log = g

-- Without a token every client may follow; with one, the header is `Bearer` and the token.
abbrev pub MayFollow : Option (List ℕ) → Option (List ℕ) → Type 0
MayFollow none header = Unit {0}
MayFollow (some token) header =
    header ≡ some (b'B' ∷ b'e' ∷ b'a' ∷ b'r' ∷ b'e' ∷ b'r' ∷ b' ' ∷ token)

module _ (clock : ℕ → ℕ) (bounded : (n : ℕ) → clock n < 2 ^ 64) (auth_token : Option (List ℕ))
    (snap : Option BookExport) (req : Request) where
  abbrev pub lines : List Line
  lines = lines_for req.snapshot snap

  -- The frames of the snapshot, and what the loop sends after them.
  pub record Served (all : List (List ℕ)) (c : ℕ) (r : Outcome (Option (List (List ℕ))))
      : Type 0 where
    pub snapshot_frames : List (List ℕ)
    pub shown : Shows clock bounded 0 lines snapshot_frames
    pub sent : Outcome (List (List ℕ))
    pub followed : Followed clock bounded (length lines) all c sent
    pub is_all : r ≡ (sent >>= λ fs. ok (some (snapshot_frames ++ fs)))
