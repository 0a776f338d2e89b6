-- ===== src/Preprocessor/TransXw.antt =====
-- `TransXW` of src/preprocessor.cc: for each row of the features, which of its cache lines are kept
-- (1) and which are left out (0), under the four modes. `none` is a read outside the matrix or a
-- division by zero, but for one read: X_CMP always reads the place behind each row's last entry. What
-- stands there is the argument `stray`.
pub mod Blocks
pub mod Shape
use sgcn.Base.{
  ℕ, zero, suc, ◌+◌, ◌-◌, ◌*◌, ◌%◌, ◌||◌, Option, none, some, List, [], ◌∷◌, ◌++◌, ◌==◌,
  if◌then◌else◌, length, get_elem?, replicate, ◌>>=◌,
}
use sgcn.Base.Int.{ℤ, pos, rounds, is_zero, is_positive, minus, suc_ℤ}
use sgcn.Common.{
  Env, ArchInfo, DataInfo, DataIndex, FMode, x_cmp, mat, csr, x_full_cmp, cache_line_count,
}
use sgcn.Float.{ceil_quot, ceil_div}

-- Pushes one flag for each of `n` lines of a block, while a line's worth of entries is taken off.
unfoldable pub push_block : ℕ → ℤ → List ℕ
push_block zero count = []
push_block (suc n) count =
    (if is_positive count then 1 else 0) ∷ push_block n (minus count cache_line_count)

-- `xw[i][j]` for `j` up to `x_w`: where the row has no entry `x_w`, `stray` stands there.
unfoldable pub entry : List ℤ → ℕ → ℤ → ℕ → Option ℤ
entry r x_w stray j = elim (get_elem? r j) [
  | some x ↦ some x
  | none ↦ if j == x_w then some stray else none
]

-- The lines of a block that ends at column `j`.
unfoldable pub cur_urb : ArchInfo → DataInfo → ℕ → ℤ
cur_urb arch info j =
    if j == info.x_w then minus (pos info.total_urb) ((arch.bf - 1) * arch.urb) else pos arch.urb

-- The loop over the columns of X_CMP, `n` rounds from `j` on, with the entries of the block so far.
unfoldable pub cmp_cols : ArchInfo → DataInfo → List ℤ → ℤ → ℕ → ℕ → ℤ → Option (List ℕ)
cmp_cols arch info r stray j zero count = some []
cmp_cols arch info r stray j (suc n) count = do
  let ends = j % arch.x_unit == 0 || j == info.x_w
  let block = if ends then push_block (rounds (cur_urb arch info j)) count else []
  let count' = if ends then pos (ceil_quot arch.x_unit 32) else count
  x ← entry r info.x_w stray j
  rest ← cmp_cols arch info r stray (suc j) n (if is_zero x then count' else suc_ℤ count')
  some (block ++ rest)

-- The entries that are not zero among the first `n` from `j` on.
unfoldable pub nonzeros : List ℤ → ℕ → ℕ → Option ℕ
nonzeros r j zero = some 0
nonzeros r j (suc n) = do
  x ← get_elem? r j
  rest ← nonzeros r (suc j) n
  some (if is_zero x then rest else suc rest)

-- `x_to_addr[i].push_back(1)` twice for each block
unfoldable pub two_ones : ℕ → List ℕ
two_ones zero = []
two_ones (suc n) = 1 ∷ 1 ∷ two_ones n

-- The row that a mode makes of a row of the features.
unfoldable pub trans_row : FMode → ArchInfo → DataInfo → ℤ → List ℤ → Option (List ℕ)
trans_row x_cmp arch info stray r =
    cmp_cols arch info r stray 1 info.x_w (pos (ceil_quot arch.x_unit 32))
trans_row mat arch info stray r = some (replicate (ceil_quot info.x_w cache_line_count) 1)
trans_row csr arch info stray r = do
  x_acm ← nonzeros r 0 info.x_w
  some (1 ∷ (two_ones (ceil_quot x_acm cache_line_count) ++ x_acm ∷ []))
trans_row x_full_cmp arch info stray r = do
  count ← nonzeros r 0 info.x_w
  some (1 ∷ replicate (ceil_quot (ceil_quot info.x_w 32 + count) cache_line_count) 1)

-- MAT does not look at the matrix.
unfoldable pub row_of : FMode → Option (List ℤ) → Option (List ℤ)
row_of mat r = some []
row_of x_cmp r = r
row_of csr r = r
row_of x_full_cmp r = r

-- The loop over the rows, `n` rounds from `i` on.
unfoldable pub trans_rows :
    FMode → ArchInfo → DataInfo → (ℕ → ℤ) → List (List ℤ) → ℕ → ℕ → Option (List (List ℕ))
trans_rows mode arch info stray xw i zero = some []
trans_rows mode arch info stray xw i (suc n) = do
  r ← row_of mode (get_elem? xw i)
  t ← trans_row mode arch info (stray i) r
  rest ← trans_rows mode arch info stray xw (suc i) n
  some (t ∷ rest)

-- X_CMP chooses its own blocks first.
unfoldable pub cmp_shape : Env → Option Env
cmp_shape env = do
  bf ← ceil_div env.data_info.x_w env.arch_info.x_unit
  let urb = ceil_quot env.arch_info.x_unit cache_line_count
  some (record env {
    arch_info = record (env.arch_info) { urb = urb; bf = bf };
    data_info = record (env.data_info) { total_urb = bf * urb };
  })

-- And counts the lines that each engine will write anew.
unfoldable pub cmp_writes : ℕ → List (List ℕ) → List DataIndex → Option (List DataIndex)
cmp_writes total_urb [] ds = some ds
cmp_writes total_urb (ptr ∷ ptrs) [] = none
cmp_writes total_urb (ptr ∷ ptrs) (d ∷ ds) = do
  rest ← cmp_writes total_urb ptrs ds
  some (record d { total_write = (length ptr - 1 - d.zero_row) * total_urb } ∷ rest)

unfoldable pub trans_mode : FMode → (ℕ → ℤ) → List (List ℤ) → Env → Option Env
trans_mode x_cmp stray xw env = do
  env' ← cmp_shape env
  xs ← trans_rows x_cmp env'.arch_info env'.data_info stray xw 0 env.data_info.x_h
  ds ← cmp_writes env'.data_info.total_urb env.row_ptr env.data_index
  some (record env' { data_index = ds; x_to_addr = xs })
trans_mode mat stray xw env = do
  xs ← trans_rows mat env.arch_info env.data_info stray xw 0 env.data_info.x_h
  some (record env { x_to_addr = xs })
trans_mode csr stray xw env = do
  xs ← trans_rows csr env.arch_info env.data_info stray xw 0 env.data_info.x_h
  some (record env { x_to_addr = xs })
trans_mode x_full_cmp stray xw env = do
  xs ← trans_rows x_full_cmp env.arch_info env.data_info stray xw 0 env.data_info.x_h
  some (record env { x_to_addr = xs })

unfoldable pub trans_xw : (ℕ → ℤ) → List (List ℤ) → Env → Option Env
trans_xw stray xw env = trans_mode env.arch_info.mode stray xw env
