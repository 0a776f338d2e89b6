-- ===== src/Input/Options.antt =====
-- The command line: `GetOption` of src/main.cc, and the defaults and the loop of `main`. What `getopt`
-- of the C library answers is an argument.
pub mod Last
use sgcn.Base.{ℕ, Bool, true, false, ◌||◌, List, [], ◌∷◌, ◌==◌, if◌then◌else◌}
use sgcn.Base.Int.{ℤ, pos, negsuc}
use sgcn.Common.{FMode, x_cmp, mat, csr, x_full_cmp, GnnMode, gcn, other, FPath, LogInfo}
use sgcn.Input.Config.{stem}
use sgcn.Input.Number.{stoi}
use sgcn.Input.Result.{undefined, exited, Result, ok, err, ◌>>=◌}
use sgcn.Input.Settings.{Settings}
use sgcn.Input.Table.{codes, Text}

-- An answer of `getopt`: an option and `optarg`, or `?` and `optopt`.
pub data Answer : Type 0 where
  found : ℕ → Text → Answer
  refused : ℕ → Answer

-- The labels of the `switch`.
pub data Label : Type 0 where
  on_i on_x on_a on_t on_c on_m on_l on_u on_g on_d on_none : Label

unfoldable pub label_of : ℕ → Label
label_of c =
    if c == b'i'
    then on_i
    else if c == b'x'
    then on_x
    else if c == b'a'
    then on_a
    else if c == b't'
    then on_t
    else if c == b'c'
    then on_c
    else if c == b'm'
    then on_m
    else if c == b'l'
    then on_l
    else if c == b'u'
    then on_u
    else if c == b'g'
    then on_g
    else if c == b'd'
    then on_d
    else on_none

-- `(F_MODE)z` and `(GNN_MODE)z`: a number outside the enumeration gives no defined value.
unfoldable pub to_mode : ℤ → Result FMode
to_mode (pos n) =
    if n == 0
    then ok x_cmp
    else if n == 1
    then ok mat
    else if n == 2
    then ok csr
    else if n == 3
    then ok x_full_cmp
    else err undefined
to_mode (negsuc n) = err undefined

unfoldable pub to_gnn_mode : ℤ → Result GnnMode
to_gnn_mode (pos n) = if n == 0 then ok gcn else if n == 1 then ok other else err undefined
to_gnn_mode (negsuc n) = err undefined

unfoldable pub mode_number : FMode → ℤ
mode_number x_cmp = pos 0
mode_number mat = pos 1
mode_number csr = pos 2
mode_number x_full_cmp = pos 3

unfoldable pub on_label : Label → Text → Settings → Result Settings
on_label on_i optarg s = ok (record s { f_path = record (s.f_path) { ini = optarg } })
on_label on_x optarg s = ok (record s { f_path = record (s.f_path) { xw_data = optarg } })
on_label on_a optarg s = do
  dataset ← stem optarg (codes "/") (codes ".")
  ok (record s {
    f_path = record (s.f_path) { a_data = optarg };
    log = record (s.log) { dataset = dataset };
  })
on_label on_t optarg s = do ok (record s { n_tiles = (← stoi optarg) })
on_label on_c optarg s = ok (record s { f_path = record (s.f_path) { csv_path = optarg } })
on_label on_m optarg s = do
  number ← stoi optarg
  mode ← to_mode number
  ok (record s { mode = mode; log = record (s.log) { mode = mode_number mode } })
on_label on_l optarg s = do ok (record s { lac_width = (← stoi optarg) })
on_label on_u optarg s = do
  unit ← stoi optarg
  ok (record s { x_unit = unit; log = record (s.log) { x_unit = unit } })
on_label on_g optarg s = do
  number ← stoi optarg
  ok (record s { gnn_mode = (← to_gnn_mode number) })
on_label on_d optarg s = ok (record s { f_path = record (s.f_path) { davc_path = optarg } })
on_label on_none optarg s = ok s

-- An argument that is missing behind one of these is passed over; the others end the program.
unfoldable pub may_lack : ℕ → Bool
may_lack c = c == b't' || c == b'c' || c == b'm' || c == b'l' || c == b'u' || c == b'g' || c == b'd'

unfoldable pub get_option : Answer → Settings → Result Settings
get_option (found opt optarg) s = on_label (label_of opt) optarg s
get_option (refused optopt) s = if may_lack optopt then ok s else err exited

-- The globals as `main` sets them before it reads the options; the others are zero.
unfoldable pub initial : Settings
initial = record {
  cache_size = pos 0;
  cache_way = pos 0;
  cache_set = pos 0;
  n_of_engine = pos 0;
  bf = pos 0;
  lac_width = pos 32;
  x_unit = pos 32;
  n_tiles = pos 1;
  mode = x_cmp;
  gnn_mode = gcn;
  mem_type = [];
  d_value_addr_start = 0;
  f_path = record { ini = []; a_data = []; xw_data = []; csv_path = []; davc_path = [] };
  log = record {
    mode = pos 0;
    x_unit = pos 0;
    engine_n = pos 0;
    mem_type = [];
    cache_size = pos 0;
    dataset = [];
    lac_width = pos 0;
    feature_length = 0;
    urb = 0;
    bf = pos 0;
    tiling_info = [];
    cycle = 0;
    f_frag_access = 0;
    f_ele_access = 0;
    o_access = 0;
    g_access = 0;
  };
}

-- The loop over the options.
unfoldable pub get_options : List Answer → Settings → Result Settings
get_options [] s = ok s
get_options (a ∷ rest) s = do s' ← get_option a s; get_options rest s'
