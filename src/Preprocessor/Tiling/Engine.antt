-- ===== src/Preprocessor/Tiling/Engine.antt =====
-- One engine in `Tiling` of src/preprocessor.cc: the pointers and columns of its tiles.
use sgcn.Base.{
  ℕ, zero, suc, ◌+◌, ◌<◌, ◌≡◌, refl, sym, ap, ◌∙◌, Option, some, List, [], ◌∷◌, ◌++◌, arith, length,
  replicate, map, ◌>>=◌,
}
use sgcn.Preprocessor.Csr.{csr_ptr, columns, edges, columns-append}
use sgcn.Preprocessor.Tiling.{
  tile_units, Tiled, tile_rows, accumulate, tile_ptrs, tile_cols, tile_engine,
}
use sgcn.Preprocessor.Tiling.Edges.{part}
use sgcn.Preprocessor.Tiling.Tiles.{Rows, tiled, AllInTiles, sizes, lists, cut, tile_rows_lem}

sizes-nil : (u t n : ℕ) → sizes u t n [] ≡ replicate n []
unfolding sizes
sizes-nil u t zero = refl
sizes-nil u t (suc n) = ap ([] ∷◌) (sizes-nil u (suc t) n)

lists-nil : (u t n : ℕ) → lists u t n [] ≡ replicate n []
unfolding lists
lists-nil u t zero = refl
lists-nil u t (suc n) = ap ([] ∷◌) (lists-nil u (suc t) n)

-- The pointers behind `acc`.
unfoldable ptrs : ℕ → Rows → List ℕ
ptrs acc [] = []
ptrs acc (r ∷ rs) = (acc + length r) ∷ ptrs (acc + length r) rs

csr_ptr-ptrs : (acc : ℕ) (rs : Rows) → csr_ptr acc rs ≡ acc ∷ ptrs acc rs
unfolding ptrs
csr_ptr-ptrs acc [] = refl
csr_ptr-ptrs acc (r ∷ rs) = ap (acc ∷◌) (csr_ptr-ptrs (acc + length r) rs)

accumulate_lem :
    (acc : ℕ) (rs : Rows) → accumulate acc (map length rs) ≡ (ptrs acc rs, acc + edges rs)
unfolding accumulate ptrs
accumulate_lem acc [] = let e : acc ≡ acc + 0 = omega arith in λ i. ([], e i)
accumulate_lem acc (r ∷ rs) =
    let rest = accumulate_lem (acc + length r) rs in
    let e : acc + length r + edges rs ≡ acc + (length r + edges rs) = omega arith in
    λ i. ((acc + length r) ∷ (rest i).0, ((ap (λ p. p.1) rest) ∙ e) i)

ptrs-append :
    (acc : ℕ) (rs ss : Rows) → ptrs acc (rs ++ ss) ≡ ptrs acc rs ++ ptrs (acc + edges rs) ss
unfolding ptrs
ptrs-append acc [] ss = ap (λ k. ptrs k ss) (omega arith)
ptrs-append acc (r ∷ rs) ss =
    let e : acc + length r + edges rs ≡ acc + (length r + edges rs) = omega arith in
    ap (λ l. (acc + length r) ∷ l)
      (ptrs-append (acc + length r) rs ss ∙ ap (λ k. ptrs (acc + length r) rs ++ ptrs k ss) e)

tile_ptrs_lem :
    (u t n acc : ℕ) (rs : Rows) → tile_ptrs acc (sizes u t n rs) ≡ ptrs acc (tiled u t n rs)
unfolding tile_ptrs sizes tiled ptrs
tile_ptrs_lem u t zero acc rs = refl
tile_ptrs_lem u t (suc n) acc rs =
    let ss = map (part u t) rs in
    ap (λ p. p.0 ++ tile_ptrs p.1 (sizes u (suc t) n rs)) (accumulate_lem acc ss)
    ∙ ap (ptrs acc ss ++◌) (tile_ptrs_lem u (suc t) n (acc + edges ss) rs)
    ∙ sym (ptrs-append acc ss (tiled u (suc t) n rs))

tile_cols_lem : (u t n : ℕ) (rs : Rows) → tile_cols (lists u t n rs) ≡ columns (tiled u t n rs)
unfolding tile_cols lists tiled
tile_cols_lem u t zero rs = refl
tile_cols_lem u t (suc n) rs =
    ap (columns (map (part u t) rs) ++◌) (tile_cols_lem u (suc t) n rs)
    ∙ sym (columns-append (map (part u t) rs) (tiled u (suc t) n rs))

-- One engine's tiling: its compressed rows become those of its rows cut by tiles.
pub tile_engine_lem :
    (u n : ℕ) (rs : Rows)
    → 0 < u
    → AllInTiles u n rs
    → tile_engine n u (csr_ptr 0 rs) (columns rs)
      ≡ some (csr_ptr 0 (tiled u 0 n rs), columns (tiled u 0 n rs))
unfolding tile_engine cut
tile_engine_lem u n rs wide all =
    let v = sym (sizes-nil u 0 n) in
    let e = sym (lists-nil u 0 n) in
    let finish : Tiled → Option (List ℕ × List ℕ) =
      λ t. some (0 ∷ tile_ptrs 0 t.v_list, tile_cols t.e_list) in
    let p = ap (0 ∷◌) (tile_ptrs_lem u 0 n 0 rs) ∙ sym (csr_ptr-ptrs 0 (tiled u 0 n rs)) in
    let c = tile_cols_lem u 0 n rs in
    ap (λ t. tile_rows u (tile_units 0 n) (columns rs) (csr_ptr 0 rs) t >>= finish)
      (λ i. record { v_list = v i; e_list = e i })
    ∙ ap (λ o. o >>= finish) (tile_rows_lem u n 0 [] [] rs wide refl all)
    ∙ (λ i. some (p i, c i))
