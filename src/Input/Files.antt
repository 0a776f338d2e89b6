-- ===== src/Input/Files.antt =====
-- `ReadData` and `ReadDAVC` of src/preprocessor.cc. A file is its text, and `none` is a file that
-- cannot be opened.
pub mod Print
pub mod Chosen
use sgcn.Base.{ℕ, Bool, true, false, Option, none, some, List, [], ◌∷◌, ltb, if◌then◌else◌}
use sgcn.Base.Int.{ℤ, pos, negsuc}
use sgcn.Common.{Env}
use sgcn.Input.Lines.{Stream, getline, pieces}
use sgcn.Input.Number.{stoi}
use sgcn.Input.Result.{invalid_argument, Result, ok, err, defined, each, ◌>>=◌}
use sgcn.Input.Table.{Text}
use sgcn.Preprocessor.Load.{read_data}

-- `while (getline(ss, temp, ' ')) push_back(stoi(temp))`
unfoldable pub numbers : Text → Result (List ℤ)
numbers line = each stoi (pieces b' ' line)

-- The row pointers are the first line, the column indices the second. If the first is the last and
-- without a newline, the second `getline` leaves `line` as it is.
unfoldable pub read_graph : Option Text → Result (List ℤ × List ℤ)
read_graph none = err invalid_argument
read_graph (some text) =
    let (file, first) = getline (record { rest = text; good = true }) [] in
    let (_, second) = getline file first in
    do row_ptr ← numbers first; col_idx ← numbers second; ok (row_ptr, col_idx)

-- A row each line.
unfoldable pub read_matrix : Option Text → Result (List (List ℤ))
read_matrix none = err invalid_argument
read_matrix (some text) = each numbers (pieces b'\n' text)

-- The indices of a graph that the rest of the development is about are not negative.
unfoldable pub naturals : List ℤ → Option (List ℕ)
naturals [] = some []
naturals (pos n ∷ zs) = elim (naturals zs) [ none ↦ none | some ns ↦ some (n ∷ ns) ]
naturals (negsuc n ∷ zs) = none

-- `ReadData`: the features, as they are read, and the sizes.
unfoldable pub read_files : Option Text → Option Text → Env → Result (List (List ℤ) × Env)
read_files a_file xw_file env = do
  (row_ptr, col_idx) ← read_graph a_file
  xw ← read_matrix xw_file
  pointers ← defined (naturals row_ptr)
  columns ← defined (naturals col_idx)
  env' ← defined (read_data pointers columns xw env)
  ok (xw, env')

unfoldable pub ltb_ℤ : ℤ → ℤ → Bool
ltb_ℤ (pos a) (pos b) = ltb a b
ltb_ℤ (pos a) (negsuc b) = false
ltb_ℤ (negsuc a) (pos b) = true
ltb_ℤ (negsuc a) (negsuc b) = ltb b a

-- `insert` of a `set`, which holds its elements in ascending order, each once.
unfoldable pub insert_int : ℤ → List ℤ → List ℤ
insert_int z [] = z ∷ []
insert_int z (y ∷ s) =
    let rest = insert_int z s in
    if ltb_ℤ z y then z ∷ y ∷ s else if ltb_ℤ y z then y ∷ rest else y ∷ s

-- Number by number: those before one that is refused are already inserted, but the exception ends
-- the program.
unfoldable pub insert_all : List Text → List ℤ → Result (List ℤ)
insert_all [] s = ok s
insert_all (t ∷ ts) s = do z ← stoi t; insert_all ts (insert_int z s)

-- `ReadDAVC`. Without a path, and if the file cannot be opened, nothing is chosen.
unfoldable pub read_davc : Text → Option Text → List ℤ → Result (List ℤ)
read_davc [] file s = ok s
read_davc (c ∷ path) none s = ok s
read_davc (c ∷ path) (some text) s =
    insert_all (pieces b' ' (getline (record { rest = text; good = true }) []).1) s
