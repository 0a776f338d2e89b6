-- ===== src/Preprocessor/Tiling.antt =====
-- `Tiling` of src/preprocessor.cc: each engine's graph is cut into `n_tiles` ranges of columns, tile
-- after tile, each with all of the engine's rows.
pub mod Edges
pub mod Tiles
pub mod Engine
pub mod Permutation
pub mod Conservation
use sgcn.Base.{
  ℕ, zero, suc, ◌+◌, ◌-◌, ◌/◌, Option, none, some, List, [], ◌∷◌, ◌++◌, ◌==◌, ltb, leb,
  if◌then◌else◌, length, replicate, ◌>>=◌,
}
use sgcn.Common.{Env}
use sgcn.Float.{ceil_quot}
use sgcn.Preprocessor.Csr.{read_range}
use sgcn.Preprocessor.Lac.{count_all}

-- `t_unit`, the accumulated tile sizes, from `acm` on.
unfoldable pub tile_units : ℕ → ℕ → List ℕ
tile_units acm zero = []
tile_units acm (suc n) = (acm + 1) ∷ tile_units (acm + 1) n

-- The search for the first tile whose unit lies above the index, from tile `l` on.
unfoldable pub tile_of : ℕ → ℕ → List ℕ → Option ℕ
tile_of t_idx l [] = none
tile_of t_idx l (u ∷ us) = if ltb t_idx u then some l else tile_of t_idx (suc l) us

-- `v_list` and `e_list` of an engine: for each tile the sizes of the rows, and the columns.
pub record Tiled : Type 0 where
  pub v_list : List (List ℕ)
  pub e_list : List (List ℕ)

-- `v[l]` with `x` pushed.
unfoldable pub push_at : List (List ℕ) → ℕ → ℕ → List (List ℕ)
push_at [] l x = []
push_at (v ∷ vs) zero x = (v ++ x ∷ []) ∷ vs
push_at (v ∷ vs) (suc l) x = v ∷ push_at vs l x

-- `edge_acm[l]++`
unfoldable pub bump_at : List ℕ → ℕ → List ℕ
bump_at [] l = []
bump_at (x ∷ xs) zero = suc x ∷ xs
bump_at (x ∷ xs) (suc l) = x ∷ bump_at xs l

-- One column of a row; a column that no tile takes is passed over.
unfoldable pub tile_edge : ℕ → List ℕ → ℕ → List ℕ × List (List ℕ) → List ℕ × List (List ℕ)
tile_edge unit_v units c (edge_acm, e_list) = elim (tile_of (c / unit_v) 0 units) [
  | none ↦ (edge_acm, e_list)
  | some l ↦ (bump_at edge_acm l, push_at e_list l c)
]

unfoldable pub tile_edges : ℕ → List ℕ → List ℕ → List ℕ × List (List ℕ) → List ℕ × List (List ℕ)
tile_edges unit_v units [] s = s
tile_edges unit_v units (c ∷ cs) s = tile_edges unit_v units cs (tile_edge unit_v units c s)

-- `v_list[k].push_back(edge_acm[k])` for all k
unfoldable pub push_all : List (List ℕ) → List ℕ → List (List ℕ)
push_all [] xs = []
push_all (v ∷ vs) [] = v ∷ vs
push_all (v ∷ vs) (x ∷ xs) = (v ++ x ∷ []) ∷ push_all vs xs

-- The row between the pointers `lo` and `hi`. With no edge between them nothing is read and no
-- column is divided by `unit_v`.
unfoldable pub tile_row : ℕ → List ℕ → List ℕ → ℕ → ℕ → Tiled → Option Tiled
tile_row unit_v units cols lo hi t =
    if leb hi lo
    then some (record t { v_list = push_all t.v_list (replicate (length units) 0) })
    else if unit_v == 0
    then none
    else (do
      cs ← read_range cols lo (hi - lo)
      let (edge_acm, e_list) = tile_edges unit_v units cs (replicate (length units) 0, t.e_list)
      some (record { v_list = push_all t.v_list edge_acm; e_list = e_list }))

unfoldable pub tile_rows : ℕ → List ℕ → List ℕ → List ℕ → Tiled → Option Tiled
tile_rows unit_v units cols [] t = none
tile_rows unit_v units cols (p ∷ []) t = some t
tile_rows unit_v units cols (lo ∷ hi ∷ ps) t = do
  t' ← tile_row unit_v units cols lo hi t
  tile_rows unit_v units cols (hi ∷ ps) t'

-- The accumulated sizes of a tile's rows, and the last of them.
unfoldable pub accumulate : ℕ → List ℕ → List ℕ × ℕ
accumulate acm [] = ([], acm)
accumulate acm (v ∷ vs) = let (ps, last) = accumulate (acm + v) vs in ((acm + v) ∷ ps, last)

-- The pointers of all tiles, behind `acm`, and their columns.
unfoldable pub tile_ptrs : ℕ → List (List ℕ) → List ℕ
tile_ptrs acm [] = []
tile_ptrs acm (v ∷ vs) = let (ps, last) = accumulate acm v in ps ++ tile_ptrs last vs

unfoldable pub tile_cols : List (List ℕ) → List ℕ
tile_cols [] = []
tile_cols (e ∷ es) = e ++ tile_cols es

-- One engine.
unfoldable pub tile_engine : ℕ → ℕ → List ℕ → List ℕ → Option (List ℕ × List ℕ)
tile_engine n_tiles unit_v ptr cols = do
  let units = tile_units 0 n_tiles
  t ←
      tile_rows unit_v units cols ptr
        (record { v_list = replicate n_tiles []; e_list = replicate n_tiles [] })
  some (0 ∷ tile_ptrs 0 t.v_list, tile_cols t.e_list)

unfoldable pub tile_all :
    ℕ → ℕ → List (List ℕ) → List (List ℕ) → Option (List (List ℕ) × List (List ℕ))
tile_all n_tiles unit_v [] cols = some ([], [])
tile_all n_tiles unit_v (ptr ∷ ptrs) [] = none
tile_all n_tiles unit_v (ptr ∷ ptrs) (cs ∷ css) = do
  (p, c) ← tile_engine n_tiles unit_v ptr cs
  (ps, es) ← tile_all n_tiles unit_v ptrs css
  some (p ∷ ps, c ∷ es)

-- With one tile nothing changes.
unfoldable pub tiling : Env → Option Env
tiling env =
    let n_tiles = env.data_info.n_tiles in
    if ltb 1 n_tiles
    then (do
      (ptrs, cols) ← tile_all n_tiles (ceil_quot env.data_info.a_w n_tiles) env.row_ptr env.col_idx
      ds ← count_all env.data_info.total_urb ptrs env.data_index
      some (record env { data_index = ds; row_ptr = ptrs; col_idx = cols }))
    else some env
