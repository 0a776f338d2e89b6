-- ===== src/Preprocessor/Load.antt =====
-- The constructor of `Preprocessor` in src/preprocessor.cc, and what `ReadData` derives from the
-- numbers that it read.
use sgcn.Base.{ℕ, Option, none, some, List, [], ◌∷◌, ◌++◌, length, replicate, add64, ◌>>=◌}
use sgcn.Base.Int.{ℤ}
use sgcn.Common.{Env, DataIndex, cache_line_count}
use sgcn.Float.{ceil_quot, ceil_div₂}
use sgcn.Preprocessor.Lac.{lac}
use sgcn.Preprocessor.Tiling.{tiling}
use sgcn.Preprocessor.TransXw.{trans_xw}
use sgcn.Preprocessor.AddressMapping.{address_mapping}

-- `ReadData` once the files are read: the sizes of the graph and of the features. An empty first line
-- of the graph, and an empty matrix, have no sizes.
unfoldable pub read_data : List ℕ → List ℕ → List (List ℤ) → Env → Option Env
read_data [] cols xw env = none
read_data (p ∷ ps) cols [] env = none
read_data (p ∷ ps) cols (r ∷ xw) env = do
  let w = length r
  let h = length ps
  urb ← ceil_div₂ w env.arch_info.bf cache_line_count
  some (record env {
    arch_info = record (env.arch_info) { urb = urb };
    data_info = record (env.data_info) {
      a_h = h;
      a_w = h;
      x_h = h;
      x_w = w;
      w_h = w;
      w_w = w;
      total_urb = ceil_quot w cache_line_count;
      num_e = length cols;
      num_v = h;
    };
    row_ptr = env.row_ptr ++ (p ∷ ps) ∷ [];
    col_idx = env.col_idx ++ cols ∷ [];
  })

-- `DataIndex()`
unfoldable pub no_index : DataIndex
no_index = record {
  value_addr_start = 0;
  value_addr_end = 0;
  row_addr_start = 0;
  row_addr_end = 0;
  col_addr_start = 0;
  col_addr_end = 0;
  row = 0;
  zero_row = 0;
  total_write = 0;
}

-- The sum into `total_write`, from `acc` on.
unfoldable pub sum_writes : ℕ → List DataIndex → ℕ
sum_writes acc [] = acc
sum_writes acc (d ∷ ds) = sum_writes (add64 acc d.total_write) ds

-- The steps of the constructor after the files are read, and the lines to write in all.
unfoldable pub preprocess : (ℕ → ℤ) → List (List ℤ) → Env → Option (Env × ℕ)
preprocess stray xw env = do
  let ready : Env = record env {
    data_index = env.data_index ++ replicate env.arch_info.n_of_engine no_index;
  }
  dealt ← lac ready
  tiled ← tiling dealt
  shaped ← trans_xw stray xw tiled
  mapped ← address_mapping shaped
  some (mapped, sum_writes 0 mapped.data_index)
