-- ===== src/Preprocessor/Tiling/Conservation.antt =====
-- `Tiling` of src/preprocessor.cc on the shares of all engines, and that no edge is lost or added.
use sgcn.Base.{
  ℕ, ◌<◌, ◌≡◌, refl, ◌∙◌, true, some, List, [], ◌∷◌, ltb, arith, length, map, length-map,
}
use sgcn.Common.{Env}
use sgcn.Float.{ceil_quot}
use sgcn.Preprocessor.Csr.{csr_ptr, columns}
use sgcn.Preprocessor.Lac.Shares.{noted_all, count_all_lem}
use sgcn.Preprocessor.Tiling.{tile_all, tiling}
use sgcn.Preprocessor.Tiling.Tiles.{Rows, tiled, AllInTiles}
use sgcn.Preprocessor.Tiling.Engine.{tile_engine_lem}

-- Every engine's columns lie in the tiles.
unfoldable pub EngineTiles : ℕ → ℕ → List Rows → Type 0
EngineTiles u n [] = Unit {0}
EngineTiles u n (s ∷ ss) = AllInTiles u n s × EngineTiles u n ss

tile_all_lem :
    (u n : ℕ) (ss : List Rows)
    → 0 < u
    → EngineTiles u n ss
    → tile_all n u (map (csr_ptr 0) ss) (map columns ss)
      ≡ some (map (csr_ptr 0) (map (tiled u 0 n) ss), map columns (map (tiled u 0 n) ss))
unfolding tile_all EngineTiles
tile_all_lem u n [] wide all = refl
tile_all_lem u n (s ∷ ss) wide (here, all) =
    rw (tile_engine_lem u n s wide here, tile_all_lem u n ss wide all) refl

-- With more than one tile, a width of the tiles above 0, and every column in one of them, `Tiling` is
-- defined and gives each engine, tile after tile, the compressed rows of its share cut to the tile's
-- columns, and notes their number, the empty ones among them, and the lines the others will write.
pub tiling-tiled :
    (env : Env) (ss : List Rows)
    → let n = env.data_info.n_tiles in
      let u = ceil_quot env.data_info.a_w n in
      let ts = map (tiled u 0 n) ss in
      env.row_ptr ≡ map (csr_ptr 0) ss
      → env.col_idx ≡ map columns ss
      → length ss ≡ length env.data_index
      → 1 < n
      → 0 < u
      → EngineTiles u n ss
      → tiling env
        ≡ some (record env {
          data_index = noted_all env.data_info.total_urb ts env.data_index;
          row_ptr = map (csr_ptr 0) ts;
          col_idx = map columns ts;
        })
unfolding tiling
tiling-tiled env ss p q size many wide all =
    let n = env.data_info.n_tiles in
    let u = ceil_quot env.data_info.a_w n in
    let more : ltb 1 n ≡ true = ground arith in
    let engines = tile_all_lem u n ss wide all in
    let counted =
      count_all_lem env.data_info.total_urb (map (tiled u 0 n) ss) env.data_index
        (length-map ss (tiled u 0 n) ∙ size) in
    rw (more, p, q, engines, counted) refl
