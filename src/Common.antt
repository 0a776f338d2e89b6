-- ===== src/Common.antt =====
-- src/common.h: the enumerations, the records that the parts share, and their constants.
use sgcn.Base.{ℕ, Bool, List}
use sgcn.Base.Int.{ℤ}

abbrev pub cache_line_count : ℕ
cache_line_count = 16

abbrev pub cache_line_byte : ℕ
cache_line_byte = 64

abbrev pub request_limit : ℕ
request_limit = 10240

-- R_TYPE
pub data RType : Type 0 where
  row column value empty : RType

-- F_MODE
pub data FMode : Type 0 where
  x_cmp mat csr x_full_cmp : FMode

-- GNN_MODE
pub data GnnMode : Type 0 where
  gcn other : GnnMode

pub record ArchInfo : Type 0 where
  pub n_of_engine : ℕ
  pub cache_size : ℕ
  pub cache_way : ℕ
  pub cache_set : ℕ
  pub urb : ℕ
  pub bf : ℕ
  pub lac_width : ℤ
  pub x_unit : ℕ
  pub mode : FMode
  pub gnn_mode : GnnMode
  pub d_value_addr_start : ℕ
  pub a_row_addr_start : ℕ
  pub a_col_addr_start : ℕ
  pub xw_ele_addr_start : ℕ
  pub axw_addr_start : ℕ

-- F_PATH: the names of the files. A name is the list of its characters' codes.
pub record FPath : Type 0 where
  pub ini : List ℕ
  pub a_data : List ℕ
  pub xw_data : List ℕ
  pub csv_path : List ℕ
  pub davc_path : List ℕ

-- LogInfo, but for what is read from the simulator's result file.
pub record LogInfo : Type 0 where
  pub mode : ℤ
  pub x_unit : ℤ
  pub engine_n : ℤ
  pub mem_type : List ℕ
  pub cache_size : ℤ
  pub dataset : List ℕ
  pub lac_width : ℤ
  pub feature_length : ℕ
  pub urb : ℕ
  pub bf : ℤ
  pub tiling_info : List ℕ
  pub cycle : ℕ
  pub f_frag_access : ℕ
  pub f_ele_access : ℕ
  pub o_access : ℕ
  pub g_access : ℕ

pub record DataInfo : Type 0 where
  pub a_h : ℕ
  pub a_w : ℕ
  pub x_h : ℕ
  pub x_w : ℕ
  pub w_h : ℕ
  pub w_w : ℕ
  pub n_tiles : ℕ
  pub total_urb : ℕ
  pub num_e : ℕ
  pub num_v : ℕ

pub record DataIndex : Type 0 where
  pub value_addr_start : ℕ
  pub value_addr_end : ℕ
  pub row_addr_start : ℕ
  pub row_addr_end : ℕ
  pub col_addr_start : ℕ
  pub col_addr_end : ℕ
  pub row : ℕ
  pub zero_row : ℕ
  pub total_write : ℕ

pub record EdgeInfo : Type 0 where
  pub id : ℕ
  pub is_last : Bool
  pub dst : ℤ
  pub v_fold : ℤ

pub record Transaction : Type 0 where
  pub address : ℕ
  pub is_write : Bool

-- The globals that the parts read after the preprocessing.
pub record Env : Type 0 where
  pub arch_info : ArchInfo
  pub data_info : DataInfo
  pub data_index : List DataIndex
  pub row_ptr : List (List ℕ)
  pub col_idx : List (List ℕ)
  pub x_to_addr : List (List ℕ)
