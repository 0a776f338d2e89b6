-- ===== src/Tests/Building.antt =====
-- The constructor from the text of its files on: the graph of four vertices, and 32 features each.
use sgcn.Base.{
  ℕ, zero, suc, ◌<◌, ◌≡◌, refl, false, none, some, List, [], ◌∷◌, map, arith, replicate,
}
use sgcn.Base.Int.{ℤ, pos}
use sgcn.Common.{Env}
use sgcn.Float.{round_nearest, scale_up, scale_down, round, of_int, div, ceil, ceil_quot, ceil_div₂}
use sgcn.Input.Config.{stem, front, back, parse_ini}
use sgcn.Input.Config.Accepted.{IsConfig, bytes, configured, parse_ini-accepts}
use sgcn.Input.Config.Bounds.{AreSets, parse_ini-AreSets}
use sgcn.Input.Files.Print.{AllInts, AllRows}
use sgcn.Input.Number.{int_mod}
use sgcn.Input.Number.Print.{IsInt, show_int, show_int-Free}
use sgcn.Input.Options.{initial}
use sgcn.Input.Program.{natural, begin, noted, construct}
use sgcn.Input.Program.Whole.{written, construct-written}
use sgcn.Input.Result.{ok}
use sgcn.Input.Settings.{Settings}
use sgcn.Input.Table.{codes, Text, Table, same, lookup, has, read_ini}
use sgcn.Input.Table.Ini.{AllSettings, IsSetting, ini_text, last_value, read_ini-last_value}
use sgcn.Preprocessor.AddressMapping.{
  frags, place, lay_area, map_graph, map_cols, map_rows, map_folds, map_features, address_mapping,
}
use sgcn.Preprocessor.Csr.{read_range, zero_rows}
use sgcn.Preprocessor.Lac.{chosen_width, lac_index, deal_row, deal_rows, count_rows, count_all, lac}
use sgcn.Preprocessor.Lac
use sgcn.Preprocessor.Load.{no_index, read_data, sum_writes, preprocess}
use sgcn.Preprocessor.Split.{is_prefix, break_at, push_token, split_loop, split}
use sgcn.Preprocessor.Tiling.{tiling}
use sgcn.Preprocessor.TransXw.{trans_row, row_of, trans_rows, trans_mode, trans_xw}
use sgcn.Tests.Example.{raw, arch, laid}
use sgcn.Tests.Options.{chosen}

abbrev path : Text
path = codes "m/HBM2_8Gb.ini"

abbrev settings : List (Text × Text)
settings =
    (codes "CacheSize", show_int (pos 1))
    ∷ (codes "UnitSize", codes "KB")
    ∷ (codes "CacheWay", show_int (pos 2))
    ∷ (codes "NumberOfEngine", show_int (pos 2))
    ∷ (codes "BF", show_int (pos 2))
    ∷ (codes "MemoryType", path)
    ∷ []

-- A number as the value of a key.
with_number : (k : Text) (z : ℤ) → IsSetting (k, codes "") → IsSetting (k, show_int z)
with_number k z (no_equals, no_newline, _) =
    (no_equals, no_newline, show_int-Free b'\n' (omega arith) z)

settings-AllSettings : AllSettings settings
settings-AllSettings = (
  with_number (codes "CacheSize") (pos 1) (ground arith),
  (
    ground arith,
    (
      with_number (codes "CacheWay") (pos 2) (ground arith),
      (
        with_number (codes "NumberOfEngine") (pos 2) (ground arith),
        (with_number (codes "BF") (pos 2) (ground arith), (ground arith, tt)),
      ),
    ),
  ),
)

read_ini-last_value_example :
    (table' : Table) × (read_ini (some (ini_text settings)) [] ≡ ok table')
    × ((k : Text) → lookup k table' ≡ last_value k settings (lookup k []))
read_ini-last_value_example = read_ini-last_value settings [] settings-AllSettings

-- The configuration as a table, in the order of the file.
settings-IsConfig :
    IsConfig (λ k. last_value k settings none) 1 2 2 2 (codes "KB") path (codes "HBM2")
unfolding last_value same has stem front back split split_loop push_token break_at is_prefix
settings-IsConfig = record {
  size = refl;
  unit_size = refl;
  ways = refl;
  engines = refl;
  blocks = refl;
  memory = refl;
  unit_bare = refl;
  memory_bare = refl;
  named = refl;
  some_way = omega arith;
  ints = omega arith;
}

settings-IsConfig_table : IsConfig (λ k. lookup k settings) 1 2 2 2 (codes "KB") path (codes "HBM2")
unfolding lookup same has stem front back split split_loop push_token break_at is_prefix
settings-IsConfig_table = record {
  size = refl;
  unit_size = refl;
  ways = refl;
  engines = refl;
  blocks = refl;
  memory = refl;
  unit_bare = refl;
  memory_bare = refl;
  named = refl;
  some_way = omega arith;
  ints = omega arith;
}

abbrev configuration : Settings
configuration = configured chosen 1 2 2 2 (codes "KB") path (codes "HBM2")

one_kilobyte : bytes 1 (codes "KB") < int_mod
unfolding bytes same
one_kilobyte = omega arith

parse_ini-accepts_example : parse_ini settings chosen ≡ ok configuration
parse_ini-accepts_example =
    parse_ini-accepts settings chosen 1 2 2 2 (codes "KB") path (codes "HBM2")
      settings-IsConfig_table one_kilobyte

same_bytes : bytes 1 (codes "KB") ≡ 1024
unfolding bytes same
same_bytes = refl

configured_size : configuration.cache_size ≡ pos 1024
configured_size = rw same_bytes refl

parse_ini-AreSets_example :
    (n : ℕ) × (configuration.cache_set ≡ pos n) × (0 < 2) × (1024 < int_mod) × AreSets 1024 2 n
parse_ini-AreSets_example =
    parse_ini-AreSets settings chosen configuration 1024 2 parse_ini-accepts_example configured_size
      refl

abbrev features : List (List ℤ)
features = replicate 32 (pos 0) ∷ []

abbrev start : Env
start = record {
  arch_info = record arch { cache_size = 1024; cache_set = 8; urb = 0 };
  data_info = record {
    a_h = 0;
    a_w = 0;
    x_h = 0;
    x_w = 0;
    w_h = 0;
    w_w = 0;
    n_tiles = 1;
    total_urb = 0;
    num_e = 0;
    num_v = 0;
  };
  data_index = [];
  row_ptr = [];
  col_idx = [];
  x_to_addr = [];
}

started : begin configuration ≡ ok start
unfolding begin natural bytes same initial
started = refl

abbrev read : Env
read = record raw { arch_info = record arch { cache_size = 1024; cache_set = 8 }; data_index = [] }

sized : read_data (0 ∷ 1 ∷ 3 ∷ 3 ∷ 4 ∷ []) (1 ∷ 0 ∷ 2 ∷ 3 ∷ []) features start ≡ some read
unfolding read_data ceil_div₂ ceil_quot div of_int round ceil scale_up scale_down round_nearest
sized = refl

abbrev mapped : Env
mapped = record laid { arch_info = record (laid.arch_info) { cache_size = 1024; cache_set = 8 } }

prepared : preprocess (λ i. pos 0) features read ≡ some (mapped, 6)
unfolding preprocess lac chosen_width Lac.init deal_rows deal_row lac_index read_range count_all
    count_rows zero_rows tiling trans_xw trans_mode trans_rows row_of trans_row address_mapping
    map_graph lay_area place frags map_features map_folds map_rows map_cols sum_writes no_index
    ceil_quot div of_int round ceil scale_up scale_down round_nearest
prepared = refl

pointers-AllInts : AllInts (map pos (0 ∷ 1 ∷ 3 ∷ 3 ∷ 4 ∷ []))
unfolding IsInt
pointers-AllInts = ground arith

indices-AllInts : AllInts (map pos (1 ∷ 0 ∷ 2 ∷ 3 ∷ []))
unfolding IsInt
indices-AllInts = ground arith

zeros-AllInts : (n : ℕ) → AllInts (replicate n (pos 0))
unfolding IsInt
zeros-AllInts zero = tt
zeros-AllInts (suc n) = (omega arith, zeros-AllInts n)

features-AllRows : AllRows features
features-AllRows = (zeros-AllInts 32, tt)

no_davc_path : chosen.f_path.davc_path ≡ []
unfolding initial
no_davc_path = refl

construct-written_example :
    construct
      (λ i. pos 0)
      (written settings false (0 ∷ 1 ∷ 3 ∷ 3 ∷ 4 ∷ []) (1 ∷ 0 ∷ 2 ∷ 3 ∷ []) [] features)
      chosen
    ≡ ok (record {
      env = mapped;
      total_write = 6;
      davc_list = [];
      settings = noted configuration read;
    })
construct-written_example =
    construct-written (λ i. pos 0) settings false (0 ∷ 1 ∷ 3 ∷ 3 ∷ 4 ∷ []) (1 ∷ 0 ∷ 2 ∷ 3 ∷ []) []
      features chosen 1 2 2 2 (codes "KB") path (codes "HBM2") start read mapped 6
      settings-AllSettings settings-IsConfig one_kilobyte pointers-AllInts indices-AllInts
      features-AllRows no_davc_path started sized prepared
