-- ===== src/Input/Config.antt =====
-- `ParseIni` of src/preprocessor.cc.
pub mod Bounds
pub mod Accepted
use sgcn.Base.{ℕ, Bool, Option, none, some, List, [], ◌∷◌, if◌then◌else◌}
use sgcn.Base.Int.{ℤ, pos}
use sgcn.Common.{LogInfo, cache_line_byte}
use sgcn.Input.Result.{undefined, Result, ok, err, defined, ◌>>=◌}
use sgcn.Input.Settings.{Settings, times, over}
use sgcn.Input.Table.{codes, Text, Table, same, get_string, get_int}
use sgcn.Preprocessor.Split.{split}

-- `front` and `back` of the tokens, which are undefined where there is none.
unfoldable pub front : List Text → Result Text
front [] = err undefined
front (t ∷ ts) = ok t

unfoldable pub back : List Text → Result Text
back [] = err undefined
back (t ∷ []) = ok t
back (t ∷ u ∷ ts) = back (u ∷ ts)

-- The last token of the tokens behind one delimiter, and the first of it behind another.
unfoldable pub stem : Text → Text → Text → Result Text
stem path outer inner = do
  names ← defined (split path outer)
  name ← back names
  parts ← defined (split name inner)
  front parts

-- The size of the cache in bytes.
unfoldable pub cache_bytes : Table → Result ℤ
cache_bytes table = do
  size ← get_int (codes "CacheSize") table
  unit ← get_string (codes "UnitSize") table
  if same unit (codes "KB") then times size 1024 else times size 1048576

-- Its bytes, its ways and its sets.
unfoldable pub cache_shape : Table → Result (ℤ × ℤ × ℤ)
cache_shape table = do
  cache_size ← cache_bytes table
  cache_way ← get_int (codes "CacheWay") table
  way_size ← over cache_size cache_way
  cache_set ← over way_size (pos cache_line_byte)
  ok (cache_size, cache_way, cache_set)

unfoldable pub parse_ini : Table → Settings → Result Settings
parse_ini table s = do
  (cache_size, cache_way, cache_set) ← cache_shape table
  n_of_engine ← get_int (codes "NumberOfEngine") table
  bf ← get_int (codes "BF") table
  mem_type ← get_string (codes "MemoryType") table
  kind ← stem mem_type (codes "/") (codes "_")
  megabytes ← over cache_size (pos 1048576)
  ok (record s {
    cache_size = cache_size;
    cache_way = cache_way;
    cache_set = cache_set;
    n_of_engine = n_of_engine;
    bf = bf;
    d_value_addr_start = 0;
    mem_type = mem_type;
    log = record (s.log) {
      engine_n = n_of_engine;
      mem_type = kind;
      cache_size = megabytes;
      bf = bf;
    };
  })
