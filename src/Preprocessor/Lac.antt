-- ===== src/Preprocessor/Lac.antt =====
-- `LAC` of src/preprocessor.cc: the rows of the graph are dealt to the engines in chunks of
-- `lac_width`. `none` stands also for a graph file whose row pointers fall.
pub mod Shares
pub mod Balance
use sgcn.Base.{
  ℕ, zero, suc, ◌+◌, ◌-◌, ◌*◌, ◌/◌, ◌%◌, Bool, true, false, Option, none, some, List, [], ◌∷◌, ◌++◌,
  ◌==◌, leb, if◌then◌else◌, length, get_elem?, set, replicate, ◌>>=◌,
}
use sgcn.Base.Int.{ℤ, pos, negsuc}
use sgcn.Common.{Env, ArchInfo, DataInfo, DataIndex}
use sgcn.Float.{ceil_div, ceil_div₂}
use sgcn.Preprocessor.Csr.{read_range, zero_rows}

-- -1 asks for one chunk to an engine, and 0 for one chunk to an engine and tile.
unfoldable pub chosen_width : ℤ → ℕ → ℕ → ℕ → Option ℤ
chosen_width (negsuc zero) a_h n_tiles n = do
  w ← ceil_div a_h n
  if w == 0 then (do w' ← ceil_div₂ a_h n_tiles n; some (pos w')) else some (pos w)
chosen_width (negsuc (suc k)) a_h n_tiles n = some (negsuc (suc k))
chosen_width (pos zero) a_h n_tiles n = do w ← ceil_div₂ a_h n_tiles n; some (pos w)
chosen_width (pos (suc w)) a_h n_tiles n = some (pos (suc w))

-- `(i / lac_width) % n`. A division by zero is undefined, and so is the use of a negative index.
unfoldable pub lac_index : ℕ → ℤ → ℕ → Option ℕ
lac_index i (pos zero) n = none
lac_index i (pos (suc w)) n = if n == 0 then none else some (i / suc w % n)
lac_index i (negsuc w) n = if n == 0 then none else if i / suc w % n == 0 then some 0 else none

-- `edge_acm`, `row_ptr_lac` and `col_idx_lac`
pub record Split : Type 0 where
  pub edge_acm : List ℕ
  pub row_ptr_lac : List (List ℕ)
  pub col_idx_lac : List (List ℕ)

unfoldable pub init : ℕ → Split
init n = record {
  edge_acm = replicate n 0;
  row_ptr_lac = replicate n (0 ∷ []);
  col_idx_lac = replicate n [];
}

-- One round of the dealing loop, for row `i` between the pointers `lo` and `hi`.
unfoldable pub deal_row : ℤ → ℕ → List ℕ → ℕ → ℕ → ℕ → Split → Option Split
deal_row w n cols i lo hi s =
    if leb lo hi
    then (do
      k ← lac_index i w n
      acm ← get_elem? s.edge_acm k
      ptr ← get_elem? s.row_ptr_lac k
      idx ← get_elem? s.col_idx_lac k
      es ← read_range cols lo (hi - lo)
      some (record {
        edge_acm = set s.edge_acm k (acm + (hi - lo));
        row_ptr_lac = set s.row_ptr_lac k (ptr ++ (acm + (hi - lo)) ∷ []);
        col_idx_lac = set s.col_idx_lac k (idx ++ es);
      }))
    else none

-- The loop over the rows, from row `i` on; `size() - 1` of an empty vector is no bound.
unfoldable pub deal_rows : ℤ → ℕ → List ℕ → ℕ → List ℕ → Split → Option Split
deal_rows w n cols i [] s = none
deal_rows w n cols i (p ∷ []) s = some s
deal_rows w n cols i (lo ∷ hi ∷ ps) s = do
  s' ← deal_row w n cols i lo hi s
  deal_rows w n cols (suc i) (hi ∷ ps) s'

-- What is noted of an engine's rows.
unfoldable pub count_rows : ℕ → List ℕ → DataIndex → DataIndex
count_rows total_urb ptr d = record d {
  row = length ptr - 1;
  zero_row = zero_rows ptr;
  total_write = (length ptr - 1 - zero_rows ptr) * total_urb;
}

unfoldable pub count_all : ℕ → List (List ℕ) → List DataIndex → Option (List DataIndex)
count_all total_urb [] ds = some ds
count_all total_urb (ptr ∷ ptrs) [] = none
count_all total_urb (ptr ∷ ptrs) (d ∷ ds) = do
  rest ← count_all total_urb ptrs ds
  some (count_rows total_urb ptr d ∷ rest)

unfoldable pub lac : Env → Option Env
lac env = do
  let n = env.arch_info.n_of_engine
  w ← chosen_width env.arch_info.lac_width env.data_info.a_h env.data_info.n_tiles n
  ptr ← get_elem? env.row_ptr 0
  cols ← get_elem? env.col_idx 0
  s ← deal_rows w n cols 0 ptr (init n)
  ds ← count_all env.data_info.total_urb s.row_ptr_lac env.data_index
  some (record env {
    arch_info = record (env.arch_info) { lac_width = w };
    data_index = ds;
    row_ptr = s.row_ptr_lac;
    col_idx = s.col_idx_lac;
  })
