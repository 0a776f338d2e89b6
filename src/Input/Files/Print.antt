-- ===== src/Input/Files/Print.antt =====
-- The files of the graph and of the features are read back from their print.
use sgcn.Base.{◌≡◌, refl, ap, ◌∙◌, subst, Bool, true, false, some, List, [], ◌∷◌, ◌++◌, map, arith}
use sgcn.Base.Int.{ℤ}
use sgcn.Input.Files.{numbers, read_graph, read_matrix}
use sgcn.Input.Lines.{after, getline, pieces}
use sgcn.Input.Lines.Pieces.{
  Free-append, Free, AllFree, ended, pieces-ended, cut-Free, piece-first, piece-last,
}
use sgcn.Input.Number.{stoi}
use sgcn.Input.Number.Print.{IsInt, show_int, stoi-show_int, show_int-Free, show_int-first}
use sgcn.Input.Result.{ok, each}
use sgcn.Input.Table.{Text}

abbrev pub AllInts : List ℤ → Type 0
AllInts [] = Unit {0}
AllInts (z ∷ zs) = IsInt z × AllInts zs

-- A line of numbers, and whether a space ends it.
unfoldable pub spaced : Bool → List ℤ → Text
spaced trailing [] = []
spaced true (z ∷ []) = show_int z ++ b' ' ∷ []
spaced false (z ∷ []) = show_int z
spaced trailing (z ∷ y ∷ zs) = show_int z ++ b' ' ∷ spaced trailing (y ∷ zs)

pieces-next :
    (z : ℤ) (s : Text) (ps : List Text)
    → pieces b' ' s ≡ ps
    → pieces b' ' (show_int z ++ b' ' ∷ s) ≡ show_int z ∷ ps
pieces-next z s ps e =
    piece-first b' ' (show_int z) s (show_int-Free b' ' (omega arith) z) ∙ ap (show_int z ∷◌) e

pieces-spaced : (b : Bool) (zs : List ℤ) → pieces b' ' (spaced b zs) ≡ map show_int zs
unfolding spaced pieces
pieces-spaced true [] = refl
pieces-spaced false [] = refl
pieces-spaced true (z ∷ []) = piece-first b' ' (show_int z) [] (show_int-Free b' ' (omega arith) z)
pieces-spaced false (z ∷ []) =
    let (c, s, e) = show_int-first z in
    let free = subst (λ t. Free b' ' t) e (show_int-Free b' ' (omega arith) z) in
    rw e (piece-last b' ' c s free)
pieces-spaced true (z ∷ y ∷ zs) = pieces-next z _ _ (pieces-spaced true (y ∷ zs))
pieces-spaced false (z ∷ y ∷ zs) = pieces-next z _ _ (pieces-spaced false (y ∷ zs))

each_back : (zs : List ℤ) → AllInts zs → each stoi (map show_int zs) ≡ ok zs
each_back [] h = refl
each_back (z ∷ zs) (h, hs) = rw (stoi-show_int z h, each_back zs hs) refl

pub numbers-spaced : (b : Bool) (zs : List ℤ) → AllInts zs → numbers (spaced b zs) ≡ ok zs
unfolding numbers
numbers-spaced b zs h = rw (pieces-spaced b zs) (each_back zs h)

number_line : (z : ℤ) → Free b'\n' (show_int z)
number_line z = show_int-Free b'\n' (omega arith) z

spaced-Free : (b : Bool) (zs : List ℤ) → Free b'\n' (spaced b zs)
unfolding spaced
spaced-Free true [] = tt
spaced-Free false [] = tt
spaced-Free true (z ∷ []) = Free-append b'\n' _ _ (number_line z) (omega arith, tt)
spaced-Free false (z ∷ []) = number_line z
spaced-Free true (z ∷ y ∷ zs) =
    Free-append b'\n' _ _ (number_line z) (omega arith, spaced-Free true (y ∷ zs))
spaced-Free false (z ∷ y ∷ zs) =
    Free-append b'\n' _ _ (number_line z) (omega arith, spaced-Free false (y ∷ zs))

-- The file of a graph: the row pointers, the column indices, and lines that are not read.
unfoldable pub graph_text : Bool → Bool → List ℤ → List ℤ → List Text → Text
graph_text b₁ b₂ row_ptr col_idx more = ended b'\n' (spaced b₁ row_ptr ∷ spaced b₂ col_idx ∷ more)

getline-line :
    (line s before : Text)
    → Free b'\n' line
    → getline (record { rest = line ++ b'\n' ∷ s; good = true }) before
      ≡ (record { rest = s; good = true }, line)
unfolding getline after
getline-line line s before h = rw (cut-Free b'\n' line s h) refl

-- A graph that is written as two lines of `int`s, with a space between two of them and maybe one at
-- the end, each line ended, is read back by `ReadData`, whatever lines follow.
pub read_graph-graph_text :
    (b₁ b₂ : Bool) (row_ptr col_idx : List ℤ) (more : List Text)
    → AllInts row_ptr
    → AllInts col_idx
    → read_graph (some (graph_text b₁ b₂ row_ptr col_idx more)) ≡ ok (row_ptr, col_idx)
unfolding read_graph graph_text ended
read_graph-graph_text b₁ b₂ row_ptr col_idx more h₁ h₂ =
    let first =
      getline-line (spaced b₁ row_ptr) (spaced b₂ col_idx ++ b'\n' ∷ ended b'\n' more) []
        (spaced-Free b₁ row_ptr) in
    let second =
      getline-line (spaced b₂ col_idx) (ended b'\n' more) (spaced b₁ row_ptr)
        (spaced-Free b₂ col_idx) in
    rw (first, second, numbers-spaced b₁ row_ptr h₁, numbers-spaced b₂ col_idx h₂) refl

abbrev pub AllRows : List (List ℤ) → Type 0
AllRows [] = Unit {0}
AllRows (r ∷ rs) = AllInts r × AllRows rs

rows-AllFree : (b : Bool) (rows : List (List ℤ)) → AllFree b'\n' (map (spaced b) rows)
rows-AllFree b [] = tt
rows-AllFree b (r ∷ rs) = (spaced-Free b r, rows-AllFree b rs)

rows_back :
    (b : Bool) (rows : List (List ℤ)) → AllRows rows → each numbers (map (spaced b) rows) ≡ ok rows
rows_back b [] h = refl
rows_back b (r ∷ rs) (h, hs) = rw (numbers-spaced b r h, rows_back b rs hs) refl

-- A matrix of `int`s that is written a row each line is read back.
pub read_matrix-rows :
    (b : Bool) (rows : List (List ℤ))
    → AllRows rows
    → read_matrix (some (ended b'\n' (map (spaced b) rows))) ≡ ok rows
unfolding read_matrix
read_matrix-rows b rows h = rw (pieces-ended b'\n' _ (rows-AllFree b rows)) (rows_back b rows h)
