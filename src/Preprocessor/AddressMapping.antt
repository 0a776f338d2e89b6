-- ===== src/Preprocessor/AddressMapping.antt =====
-- `AddressMapping` of src/preprocessor.cc: one serial range of addresses, first the graph's values,
-- row pointers and columns, engine by engine, then the features, then the output.
pub mod Graph
pub mod Places
pub mod Step
pub mod Columns
pub mod Folds
pub mod Features
use sgcn.Base.{
  ℕ, zero, suc, ◌+◌, ◌-◌, ◌*◌, ◌/◌, ◌%◌, Bool, true, false, Option, none, some, List, [], ◌∷◌, ◌++◌,
  map, ◌==◌, ltb, if◌then◌else◌, length, get_elem?, set, add64, sub64, u64_mod, ◌>>=◌,
}
use sgcn.Cache.{pop_back}
use sgcn.Common.{
  Env, ArchInfo, DataInfo, DataIndex, RType, row, column, value, empty, FMode, x_cmp, mat, csr,
  x_full_cmp, cache_line_count, cache_line_byte,
}
use sgcn.Float.{ceil_quot, quot_ceil}

-- The cache lines that a vector of the graph takes.
unfoldable pub frags : List ℕ → ℕ
frags v = ceil_quot (length v) cache_line_count

-- An engine's range for one kind of line.
unfoldable pub place : RType → DataIndex → ℕ → ℕ → DataIndex
place value d a b = record d { value_addr_start = a; value_addr_end = b }
place row d a b = record d { row_addr_start = a; row_addr_end = b }
place column d a b = record d { col_addr_start = a; col_addr_end = b }
place empty d a b = d

-- The loop that lays out one kind of line, and the address after it.
unfoldable pub lay_area : RType → List ℕ → List DataIndex → ℕ → Option (List DataIndex × ℕ)
lay_area t [] ds a = some (ds, a)
lay_area t (f ∷ fs) [] a = none
lay_area t (f ∷ fs) (d ∷ ds) a = do
  let b = add64 a (f * cache_line_byte)
  (ds', c) ← lay_area t fs ds b
  some (place t d a b ∷ ds', c)

-- The three areas of the graph.
unfoldable pub map_graph : Env → Option (Env × ℕ)
map_graph env = do
  let row_frags = map frags env.row_ptr
  let col_frags = map frags env.col_idx
  (ds₁, a₁) ← lay_area value col_frags env.data_index 0
  (ds₂, a₂) ← lay_area row row_frags ds₁ a₁
  (ds₃, a₃) ← lay_area column col_frags ds₂ a₂
  some (
    record env {
      arch_info = record (env.arch_info) {
        d_value_addr_start = 0;
        a_row_addr_start = a₁;
        a_col_addr_start = a₂;
        xw_ele_addr_start = a₃;
      };
      data_index = ds₃;
    },
    a₃,
  )

abbrev pub Grid : Type 0
Grid = List (List ℕ)

-- `x_to_addr[i][j] = v`
unfoldable pub write : Grid → ℕ → ℕ → ℕ → Option Grid
write xs i j v = do r ← get_elem? xs i; x ← get_elem? r j; some (set xs i (set r j v))

-- The innermost loop for X_CMP and MAT, `n` rounds from `k` on: only the places marked 1 get an
-- address, and the address moves on at every place.
unfoldable pub map_cols : ℕ → ℕ → ℕ → ℕ → ℕ → ℕ → Grid × ℕ → Option (Grid × ℕ)
map_cols urb total_urb i j k zero s = some s
map_cols urb total_urb i j k (suc n) (xs, a) = elim (i * urb + k == total_urb) [
  | true ↦ some (xs, a)
  | false ↦ do
    r ← get_elem? xs j
    x ← get_elem? r (i * urb + k)
    let xs' = if x == 1 then set xs j (set r (i * urb + k) a) else xs
    map_cols urb total_urb i j (suc k) n (xs', add64 a cache_line_byte)
]

-- The loop over the rows, `n` rounds from `j` on.
unfoldable pub map_rows : ℕ → ℕ → ℕ → ℕ → ℕ → Grid × ℕ → Option (Grid × ℕ)
map_rows urb total_urb i j zero s = some s
map_rows urb total_urb i j (suc n) s = do
  s' ← map_cols urb total_urb i j 0 urb s
  map_rows urb total_urb i (suc j) n s'

-- The loop over the folds, `n` rounds from `i` on.
unfoldable pub map_folds : ℕ → ℕ → ℕ → ℕ → ℕ → Grid × ℕ → Option (Grid × ℕ)
map_folds urb total_urb x_h i zero s = some s
map_folds urb total_urb x_h i (suc n) s = do
  s' ← map_rows urb total_urb i 0 x_h s
  map_folds urb total_urb x_h (suc i) n s'

-- The heads of the rows, `n` rounds from `i` on; `every` heads share a line.
unfoldable pub map_heads : ℕ → ℕ → ℕ → Grid × ℕ → Option (Grid × ℕ)
map_heads every i zero s = some s
map_heads every i (suc n) (xs, a) = if every == 0 then none else (do
  xs' ← write xs (i - 1) 0 a
  map_heads every (suc i) n (xs', if i % every == 0 then add64 a cache_line_byte else a))

-- `(x_to_addr[i].size() - 2) / 2` as an `int`: the wrapped values are negative.
unfoldable pub pairs : List ℕ → ℕ
pairs r = if ltb (length r) 2 then 0 else (length r - 2) / 2

-- The lines of one row, at every second place from `j * 2 + from` on.
unfoldable pub map_pairs : ℕ → ℕ → ℕ → ℕ → Grid × ℕ → Option (Grid × ℕ)
map_pairs from i j zero s = some s
map_pairs from i j (suc n) (xs, a) = do
  xs' ← write xs i (j * 2 + from) a
  map_pairs from i (suc j) n (xs', add64 a cache_line_byte)

-- The loop over the rows of the column lines (`drop` false) or of the value lines, which also takes
-- the row's count off its end. Rows that end inside a line share it with the next.
unfoldable pub map_lines : ℕ → Bool → ℕ → ℕ → ℕ → Grid × ℕ → Option (Grid × ℕ)
map_lines from drop i zero acm s = some s
map_lines from drop i (suc n) acm (xs, a) = do
  r ← get_elem? xs i
  (ys, b) ← map_pairs from i 0 (pairs r) (xs, a)
  r' ← get_elem? ys i
  last ← get_elem? r' (length r' - 1)
  kept ← if drop then pop_back r' else some r'
  let b' = if (acm + last) % cache_line_count == 0 then b else sub64 b cache_line_byte
  map_lines from drop (suc i) n (acm + last) (set ys i kept, b')

-- One row of X_FULL_CMP, and the rows.
unfoldable pub number_row : List ℕ → ℕ → List ℕ × ℕ
number_row [] a = ([], a)
number_row (x ∷ r) a = let (r', b) = number_row r (add64 a cache_line_byte) in (a ∷ r', b)

unfoldable pub number_rows : Grid → ℕ → Grid × ℕ
number_rows [] a = ([], a)
number_rows (r ∷ xs) a =
    let (r', b) = number_row r a in let (xs', c) = number_rows xs b in (r' ∷ xs', c)

unfoldable pub map_features : FMode → ArchInfo → DataInfo → Grid × ℕ → Option (Grid × ℕ)
map_features x_cmp arch info s = map_folds arch.urb info.total_urb info.x_h 0 arch.bf s
map_features mat arch info s = map_folds arch.urb info.total_urb info.x_h 0 arch.bf s
map_features csr arch info s = do
  heads ← map_heads cache_line_count 1 info.x_h s
  cols ← map_lines 1 false 0 info.x_h 0 heads
  map_lines 2 true 0 info.x_h 0 cols
map_features x_full_cmp arch info s = do
  x_change ← quot_ceil cache_line_count info.x_w 32
  (xs, a) ← map_heads x_change 1 info.x_h s
  some (number_rows xs a)

unfoldable pub address_mapping : Env → Option Env
address_mapping env = do
  (env', a) ← map_graph env
  (xs, b) ← map_features env.arch_info.mode env'.arch_info env.data_info (env.x_to_addr, a)
  some (record env' { arch_info = record (env'.arch_info) { axw_addr_start = b }; x_to_addr = xs })
