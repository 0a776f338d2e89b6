-- ===== src/Tests/Example.antt =====
-- A graph of four vertices for two engines: before the preprocessing, with its rows dealt, and laid
-- out in memory.
use sgcn.Base.{ℕ, List, [], ◌∷◌}
use sgcn.Base.Int.{pos}
use sgcn.Common.{ArchInfo, DataInfo, DataIndex, Env, RType, mat, gcn}
use sgcn.Memory.{Memory}
use sgcn.Preprocessor.Load.{no_index}

abbrev pub vertices : List (List ℕ)
vertices = (1 ∷ []) ∷ (0 ∷ 2 ∷ []) ∷ [] ∷ (3 ∷ []) ∷ []

abbrev pub arch : ArchInfo
arch = record {
  n_of_engine = 2;
  cache_size = 256;
  cache_way = 2;
  cache_set = 2;
  urb = 1;
  bf = 2;
  lac_width = pos 1;
  x_unit = 32;
  mode = mat;
  gnn_mode = gcn;
  d_value_addr_start = 0;
  a_row_addr_start = 0;
  a_col_addr_start = 0;
  xw_ele_addr_start = 0;
  axw_addr_start = 0;
}

abbrev pub info : DataInfo
info = record {
  a_h = 4;
  a_w = 4;
  x_h = 4;
  x_w = 32;
  w_h = 32;
  w_w = 32;
  n_tiles = 1;
  total_urb = 2;
  num_e = 4;
  num_v = 4;
}

abbrev pub raw : Env
raw = record {
  arch_info = arch;
  data_info = info;
  data_index = no_index ∷ no_index ∷ [];
  row_ptr = (0 ∷ 1 ∷ 3 ∷ 3 ∷ 4 ∷ []) ∷ [];
  col_idx = (1 ∷ 0 ∷ 2 ∷ 3 ∷ []) ∷ [];
  x_to_addr = [];
}

abbrev pub dealt : Env
dealt = record raw {
  row_ptr = (0 ∷ 1 ∷ 1 ∷ []) ∷ (0 ∷ 2 ∷ 3 ∷ []) ∷ [];
  col_idx = (1 ∷ []) ∷ (0 ∷ 2 ∷ 3 ∷ []) ∷ [];
}

abbrev pub first_range : DataIndex
first_range = record {
  value_addr_start = 0;
  value_addr_end = 64;
  row_addr_start = 128;
  row_addr_end = 192;
  col_addr_start = 256;
  col_addr_end = 320;
  row = 2;
  zero_row = 1;
  total_write = 2;
}

abbrev pub second_range : DataIndex
second_range = record {
  value_addr_start = 64;
  value_addr_end = 128;
  row_addr_start = 192;
  row_addr_end = 256;
  col_addr_start = 320;
  col_addr_end = 384;
  row = 2;
  zero_row = 0;
  total_write = 4;
}

abbrev pub laid : Env
laid = record dealt {
  arch_info = record arch {
    a_row_addr_start = 128;
    a_col_addr_start = 256;
    xw_ele_addr_start = 384;
    axw_addr_start = 896;
  };
  data_index = first_range ∷ second_range ∷ [];
  x_to_addr = (384 ∷ 640 ∷ []) ∷ (448 ∷ 704 ∷ []) ∷ (512 ∷ 768 ∷ []) ∷ (576 ∷ 832 ∷ []) ∷ [];
}

-- A memory that answers the second engine with a line of each kind.
abbrev pub answers : List RType → List ℕ → Memory
answers q fq = record {
  ms = record { g_access = 0; f_frag_access = 0; f_ele_access = 0; o_access = 0 };
  rq = [] ∷ q ∷ [];
  fq = fq;
  tq = [];
  total_write = 6;
  tq_get = 0;
  xw_get = 0;
  cycle = 0;
}
