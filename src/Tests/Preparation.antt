-- ===== src/Tests/Preparation.antt =====
-- The preprocessor on the graph of four vertices.
use mathlib.Core.List.{Perm}
use sgcn.Base.{
  ℕ, ◌+◌, ◌-◌, ◌/◌, ◌<◌, ◌≡◌, refl, sym, subst, some, List, [], ◌∷◌, map, arith, get_elem?,
}
use sgcn.Base.Int.{pos}
use sgcn.Common.{Env, row, column, value}
use sgcn.Float.{round_nearest, scale_up, scale_down, round, of_int, div, ceil, ceil_quot}
use sgcn.Float.Exact.{ceil_quot-exact}
use sgcn.Memory.Routing.{Layout}
use sgcn.Preprocessor.AddressMapping.{map_graph}
use sgcn.Preprocessor.AddressMapping.Graph.{Spans, Fits, row_lines, col_lines, map_graph-Layout}
use sgcn.Preprocessor.Csr.{csr_ptr, columns}
use sgcn.Preprocessor.Lac.{chosen_width, lac}
use sgcn.Preprocessor.Lac.Balance.{join, lac-Perm}
use sgcn.Preprocessor.Lac.Shares.{IsGraph, share, shares, noted_all, lac-shares}
use sgcn.Preprocessor.Tiling.{tile_engine, tiling}
use sgcn.Preprocessor.Tiling.Conservation.{EngineTiles, tiling-tiled}
use sgcn.Preprocessor.Tiling.Edges.{InTiles}
use sgcn.Preprocessor.Tiling.Permutation.{tile_engine-Perm}
use sgcn.Preprocessor.Tiling.Tiles.{tiled, AllInTiles}
use sgcn.Tests.Example.{vertices, arch, info, raw, dealt}

raw-IsGraph : IsGraph raw vertices
raw-IsGraph = record { pointers = refl; indices = refl; engines = omega arith; indexed = refl }

width : chosen_width (pos 1) 4 1 2 ≡ some (pos 1)
unfolding chosen_width
width = refl

lac-shares_example :
    let ss = shares 1 2 vertices in
    lac raw
    ≡ some (record raw {
      arch_info = record arch { lac_width = pos 1 };
      data_index = noted_all 2 ss raw.data_index;
      row_ptr = map (csr_ptr 0) ss;
      col_idx = map columns ss;
    })
lac-shares_example = lac-shares raw vertices 0 raw-IsGraph width

lac-Perm_example :
    (env' : Env) × (ss : List (List (List ℕ))) × (lac raw ≡ some env')
    × (env'.row_ptr ≡ map (csr_ptr 0) ss)
    × (env'.col_idx ≡ map columns ss)
    × Perm (join ss) vertices
    × ((k : ℕ) → k < 2 → get_elem? ss k ≡ some (share 1 2 k 0 vertices))
lac-Perm_example = lac-Perm raw vertices 0 raw-IsGraph width

dealt-Fits : Fits dealt
dealt-Fits = record {
  engines = refl;
  rows = refl;
  cols = refl;
  short_rows = (omega arith, (omega arith, tt));
  short_cols = (omega arith, (omega arith, tt));
  room = omega arith;
}

map_graph-Layout_example :
    (env' : Env) × (map_graph dealt ≡ some (env', env'.arch_info.xw_ele_addr_start))
    × Layout env'
    × Spans value env'.arch_info.d_value_addr_start (col_lines dealt) env'.data_index
    × Spans row env'.arch_info.a_row_addr_start (row_lines dealt) env'.data_index
    × Spans column env'.arch_info.a_col_addr_start (col_lines dealt) env'.data_index
map_graph-Layout_example = map_graph-Layout dealt dealt-Fits

ceil_quot-exact_example : ceil_quot 100 16 ≡ (100 + 16 - 1) / 16
ceil_quot-exact_example = ceil_quot-exact 100 16 (omega arith) (omega arith) (omega arith)

-- Two tiles of two columns.
abbrev split : Env
split = record dealt { data_info = record info { n_tiles = 2 } }

abbrev split_shares : List (List (List ℕ))
split_shares = ((1 ∷ []) ∷ [] ∷ []) ∷ ((0 ∷ 2 ∷ []) ∷ (3 ∷ []) ∷ []) ∷ []

tile_width : ceil_quot 4 2 ≡ 2
unfolding ceil_quot div of_int round ceil scale_up scale_down round_nearest
tile_width = refl

split-EngineTiles : EngineTiles 2 2 split_shares
unfolding EngineTiles AllInTiles InTiles
split-EngineTiles = (
  ((omega arith, tt), (tt, tt)),
  (((omega arith, (omega arith, tt)), ((omega arith, tt), tt)), tt),
)

tiling-tiled_example :
    let u = ceil_quot 4 2 in
    let ts = map (tiled u 0 2) split_shares in
    tiling split
    ≡ some (record split {
      data_index = noted_all 2 ts split.data_index;
      row_ptr = map (csr_ptr 0) ts;
      col_idx = map columns ts;
    })
tiling-tiled_example =
    tiling-tiled split split_shares refl refl refl (omega arith) (omega (arith, tile_width))
      (subst (λ u. EngineTiles u 2 split_shares) (sym tile_width) split-EngineTiles)

vertices-AllInTiles : AllInTiles 2 2 vertices
unfolding AllInTiles InTiles
vertices-AllInTiles =
    ((omega arith, tt), ((omega arith, (omega arith, tt)), (tt, ((omega arith, tt), tt))))

tile_engine-Perm_example :
    (ptr cols : List ℕ) × (tile_engine 2 2 (csr_ptr 0 vertices) (columns vertices)
      ≡ some (ptr, cols))
    × Perm cols (columns vertices)
tile_engine-Perm_example = tile_engine-Perm 2 2 vertices (omega arith) vertices-AllInTiles
