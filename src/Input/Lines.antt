-- ===== src/Input/Lines.antt =====
-- `std::getline`, as the standard describes it, on a stream that holds a text.
pub mod Pieces
use sgcn.Base.{ℕ, Bool, true, false, Option, none, some, List, [], ◌∷◌, ◌==◌, if◌then◌else◌}

-- The rest of the text, and whether no read has met its end yet.
pub record Stream : Type 0 where
  pub rest : List ℕ
  pub good : Bool

-- The characters up to the first `d`, and those behind it if there is one.
unfoldable pub cut : ℕ → List ℕ → List ℕ × Option (List ℕ)
cut d [] = ([], none)
cut d (c ∷ s) = let (line, rest) = cut d s in if c == d then ([], some s) else (c ∷ line, rest)

-- What a read leaves of the stream: without a newline it met the end.
unfoldable pub after : List ℕ × Option (List ℕ) → Stream × List ℕ
after (line, none) = (record { rest = []; good = false }, line)
after (line, some rest) = (record { rest = rest; good = true }, line)

-- `getline(file, line)`: from a stream that met its end nothing is read, and `line` stays.
unfoldable pub getline : Stream → List ℕ → Stream × List ℕ
getline file line = if file.good then after (cut b'\n' file.rest) else (file, line)

-- What `while (getline(s, piece, d))` reads in turn. There is no last piece behind a final `d`.
unfoldable pub pieces : ℕ → List ℕ → List (List ℕ)
pieces d [] = []
pieces d (c ∷ s) =
    let rest = pieces d s in
    if c == d then [] ∷ rest else elim rest [ [] ↦ (c ∷ []) ∷ [] | p ∷ ps ↦ (c ∷ p) ∷ ps ]
