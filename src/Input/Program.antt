-- ===== src/Input/Program.antt =====
-- The constructor of `Preprocessor` from the options and the files on (src/preprocessor.cc), `main`
-- of src/main.cc around it, and what `PrintMemoryStats` of src/controller.cc notes.
pub mod Folder
pub mod Ended
pub mod Whole
pub mod Csv
use sgcn.Base.{ℕ, ◌+◌, Bool, true, false, Option, none, some, List, [], ◌∷◌, if◌then◌else◌}
use sgcn.Base.Int.{ℤ, pos, negsuc}
use sgcn.Common.{ArchInfo, DataInfo, Env, FPath, LogInfo}
use sgcn.Controller
use sgcn.Controller.{Engines, gcn_inference}
use sgcn.Input.Config.{parse_ini}
use sgcn.Input.Files.{read_files, read_davc}
use sgcn.Input.Number.Print.{show_int}
use sgcn.Input.Options.{Answer, initial, get_options}
use sgcn.Input.Result.{undefined, Result, ok, err, defined, ◌>>=◌}
use sgcn.Input.Settings.{Settings}
use sgcn.Input.Table.{Text, read_ini}
use sgcn.Memory.{Dram, Memory}
use sgcn.Preprocessor.Load.{preprocess}

-- A count that is not negative.
unfoldable pub natural : ℤ → Option ℕ
natural (pos n) = some n
natural (negsuc n) = none

-- `arch_info` and `data_info` as the files find them. The rest of the development is about counts
-- that are not negative.
unfoldable pub begin : Settings → Result Env
begin s = do
  engines ← defined (natural s.n_of_engine)
  size ← defined (natural s.cache_size)
  ways ← defined (natural s.cache_way)
  sets ← defined (natural s.cache_set)
  blocks ← defined (natural s.bf)
  unit ← defined (natural s.x_unit)
  tiles ← defined (natural s.n_tiles)
  ok (record {
    arch_info = record {
      n_of_engine = engines;
      cache_size = size;
      cache_way = ways;
      cache_set = sets;
      urb = 0;
      bf = blocks;
      lac_width = s.lac_width;
      x_unit = unit;
      mode = s.mode;
      gnn_mode = s.gnn_mode;
      d_value_addr_start = s.d_value_addr_start;
      a_row_addr_start = 0;
      a_col_addr_start = 0;
      xw_ele_addr_start = 0;
      axw_addr_start = 0;
    };
    data_info = record {
      a_h = 0;
      a_w = 0;
      x_h = 0;
      x_w = 0;
      w_h = 0;
      w_w = 0;
      n_tiles = tiles;
      total_urb = 0;
      num_e = 0;
      num_v = 0;
    };
    data_index = [];
    row_ptr = [];
    col_idx = [];
    x_to_addr = [];
  })

-- The texts of the files that the options name.
pub record Files : Type 0 where
  pub ini : Option Text
  pub a_data : Option Text
  pub xw_data : Option Text
  pub davc : Option Text

-- What the constructor leaves: the globals, the lines to write, the chosen vertices and the log.
pub record Built : Type 0 where
  pub env : Env
  pub total_write : ℕ
  pub davc_list : List ℤ
  pub settings : Settings

-- The log notes the sizes when the features are read, and the tiles before the graph is cut.
unfoldable pub noted : Settings → Env → Settings
noted s env = record s {
  log = record (s.log) {
    feature_length = env.data_info.w_w;
    urb = env.arch_info.urb;
    tiling_info = show_int s.n_tiles;
  };
}

unfoldable pub construct : (ℕ → ℤ) → Files → Settings → Result Built
construct stray files s = do
  table ← read_ini files.ini []
  s' ← parse_ini table s
  env ← begin s'
  (xw, read) ← read_files files.a_data files.xw_data env
  davc_list ← read_davc s'.f_path.davc_path files.davc []
  (mapped, total) ← defined (preprocess stray xw read)
  ok (record { env = mapped; total_write = total; davc_list = davc_list; settings = noted s' read })

-- `PrintMemoryStats`
unfoldable pub print_memory_stats : Memory → LogInfo → LogInfo
print_memory_stats m log = record log {
  g_access = m.ms.g_access;
  f_frag_access = m.ms.f_frag_access;
  f_ele_access = m.ms.f_ele_access;
  o_access = m.ms.o_access;
}

-- The names of the chosen vertices do not matter to the run, only how many they are.
unfoldable pub places : List ℤ → List ℕ
places [] = []
places (z ∷ zs) = 0 ∷ places zs

module _ (D : Dram) where
  -- `main`, from the answers of `getopt` to the log. `init` is the simulator as it is made, and the
  -- loops that wait for it run on fuel.
  unfoldable pub run_main :
      ℕ → (ℕ → ℤ) → Dram.State D → List Answer → (FPath → Files) → Result LogInfo
  run_main fuel stray d answers disk = do
    s ← get_options answers initial
    built ← construct stray (disk s.f_path) s
    engines ← defined (Controller.init built.env built.total_write)
    (cycle, _, e) ←
        defined (
          gcn_inference D fuel built.env (places built.davc_list) built.env.arch_info.mode d
            engines)
    ok (
        print_memory_stats e.world.mem (record (built.settings.log) {
          cycle = cycle;
          lac_width = built.env.arch_info.lac_width;
        }))
