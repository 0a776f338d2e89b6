-- ===== src/Pipeline.antt =====
-- From the graph that src/preprocessor.cc reads to the edges that the readers of src/g_reader.cc pass.
use sgcn.Base.{
  ℕ, zero, suc, ◌<◌, ◌≡◌, refl, sym, ap, ◌∙◌, subst, false, some, List, [], ◌∷◌, ◌++◌, arith,
  length, get_elem?, replicate, map, ltb, >>=-eq-some, some_inj,
}
use sgcn.Base.Int.{ℤ, pos}
use sgcn.Common.{Env, EdgeInfo, FMode, x_cmp, mat, csr, x_full_cmp, row, column, value}
use sgcn.Float.{ceil_div}
use sgcn.GraphReader.{GraphReader, init}
use sgcn.GraphReader.Run.{Run, IsEdge, run-edges}
use sgcn.GraphReader.Rows.{IsCsr}
use sgcn.GraphReader.Share.{csr_ptr-IsCsr}
use sgcn.Preprocessor.AddressMapping.{frags, lay_area, map_graph, map_features, address_mapping}
use sgcn.Preprocessor.Csr.{csr_ptr, columns}
use sgcn.Preprocessor.Lac.{chosen_width, lac}
use sgcn.Preprocessor.Lac.Shares.{Rows, IsGraph, share, shares, lac-shares, shares-share}
use sgcn.Preprocessor.Load.{no_index, preprocess}
use sgcn.Preprocessor.Tiling.{tiling}
use sgcn.Preprocessor.TransXw.{cmp_shape, cmp_writes, trans_rows, trans_mode, trans_xw}

-- Two environments with the same graph.
record SameGraph (env env' : Env) : Type 0 where
  pub row_ptr_eq : env'.row_ptr ≡ env.row_ptr
  pub col_idx_eq : env'.col_idx ≡ env.col_idx

-- The end of a chain of steps that leave the graph alone.
kept :
    (env v env' : Env)
    → v.row_ptr ≡ env.row_ptr
    → v.col_idx ≡ env.col_idx
    → some v ≡ some env'
    → SameGraph env env'
kept env v env' p q h =
    subst (SameGraph env) (some_inj h) (record { row_ptr_eq = p; col_idx_eq = q })

cmp_shape-SameGraph : (env env' : Env) → cmp_shape env ≡ some env' → SameGraph env env'
unfolding cmp_shape
cmp_shape-SameGraph env env' h =
    let (bf, e, rest) = >>=-eq-some (ceil_div env.data_info.x_w env.arch_info.x_unit) _ h in
    kept env _ env' refl refl rest

trans_mode-SameGraph :
    (mode : FMode) (stray : ℕ → ℤ) (xw : List (List ℤ)) (env env' : Env)
    → trans_mode mode stray xw env ≡ some env'
    → SameGraph env env'
unfolding trans_mode
trans_mode-SameGraph x_cmp stray xw env env' h =
    let (v, e, h₁) = >>=-eq-some (cmp_shape env) _ h in
    let (xs, e₂, h₂) =
      >>=-eq-some (trans_rows x_cmp v.arch_info v.data_info stray xw 0 env.data_info.x_h) _ h₁ in
    let (ds, e₃, h₃) =
      >>=-eq-some (cmp_writes v.data_info.total_urb env.row_ptr env.data_index) _ h₂ in
    let s = cmp_shape-SameGraph env v e in kept env _ env' s.row_ptr_eq s.col_idx_eq h₃
trans_mode-SameGraph mat stray xw env env' h =
    let (xs, e, rest) =
      >>=-eq-some (trans_rows mat env.arch_info env.data_info stray xw 0 env.data_info.x_h) _ h in
    kept env _ env' refl refl rest
trans_mode-SameGraph csr stray xw env env' h =
    let (xs, e, rest) =
      >>=-eq-some (trans_rows csr env.arch_info env.data_info stray xw 0 env.data_info.x_h) _ h in
    kept env _ env' refl refl rest
trans_mode-SameGraph x_full_cmp stray xw env env' h =
    let (xs, e, rest) =
      >>=-eq-some (trans_rows x_full_cmp env.arch_info env.data_info stray xw 0 env.data_info.x_h) _
        h in
    kept env _ env' refl refl rest

map_graph-SameGraph : (env env' : Env) (a : ℕ) → map_graph env ≡ some (env', a) → SameGraph env env'
unfolding map_graph
map_graph-SameGraph env env' a h =
    let ((ds₁, a₁), e₁, h₁) =
      >>=-eq-some (lay_area value (map frags env.col_idx) env.data_index 0) _ h in
    let ((ds₂, a₂), e₂, h₂) = >>=-eq-some (lay_area row (map frags env.row_ptr) ds₁ a₁) _ h₁ in
    let ((ds₃, a₃), e₃, h₃) = >>=-eq-some (lay_area column (map frags env.col_idx) ds₂ a₂) _ h₂ in
    kept env _ env' refl refl (ap (λ p. some p.0) (some_inj h₃))

address_mapping-SameGraph : (env env' : Env) → address_mapping env ≡ some env' → SameGraph env env'
unfolding address_mapping
address_mapping-SameGraph env env' h =
    let ((v, a), e₁, h₁) = >>=-eq-some (map_graph env) _ h in
    let ((xs, b), e₂, h₂) =
      >>=-eq-some (map_features env.arch_info.mode v.arch_info env.data_info (env.x_to_addr, a)) _
        h₁ in
    let s = map_graph-SameGraph env v a e₁ in kept env _ env' s.row_ptr_eq s.col_idx_eq h₂

-- What the constructor starts `LAC` with.
abbrev pub ready : Env → Env
ready env = record env {
  data_index = env.data_index ++ replicate env.arch_info.n_of_engine no_index;
}

tiling_one : (env : Env) → ltb 1 env.data_info.n_tiles ≡ false → tiling env ≡ some env
unfolding tiling
tiling_one env one = rw one refl

trans_xw_mode :
    (stray : ℕ → ℤ) (xw : List (List ℤ)) (env env' : Env)
    → trans_xw stray xw env ≡ some env'
    → trans_mode env.arch_info.mode stray xw env ≡ some env'
unfolding trans_xw
trans_xw_mode stray xw env env' h = h

preprocess-SameGraph :
    (stray : ℕ → ℤ) (xw : List (List ℤ)) (env dealt env' : Env) (total : ℕ)
    → lac (ready env) ≡ some dealt
    → ltb 1 dealt.data_info.n_tiles ≡ false
    → preprocess stray xw env ≡ some (env', total)
    → SameGraph dealt env'
unfolding preprocess
preprocess-SameGraph stray xw env dealt env' total runs one h =
    let (d, e₁, h₁) = >>=-eq-some (lac (ready env)) _ h in
    let (t, e₂, h₂) = >>=-eq-some (tiling d) _ h₁ in
    let (v, e₃, h₃) = >>=-eq-some (trans_xw stray xw t) _ h₂ in
    let (m, e₄, h₄) = >>=-eq-some (address_mapping v) _ h₃ in
    let same : d ≡ dealt = some_inj (sym e₁ ∙ runs) in
    let one' : ltb 1 d.data_info.n_tiles ≡ false = ap (λ x. ltb 1 x.data_info.n_tiles) same ∙ one in
    let untiled : t ≡ d = some_inj (sym e₂ ∙ tiling_one d one') in
    let shaped =
      trans_mode-SameGraph t.arch_info.mode stray xw t v (trans_xw_mode stray xw t v e₃) in
    let mapped = address_mapping-SameGraph v m e₄ in
    let last : m ≡ env' = ap (λ p. p.0) (some_inj h₄) in
    record {
      row_ptr_eq =
          ap (λ x. x.row_ptr) (sym last)
          ∙ mapped.row_ptr_eq
          ∙ shaped.row_ptr_eq
          ∙ ap (λ x. x.row_ptr) (untiled ∙ same);
      col_idx_eq =
          ap (λ x. x.col_idx) (sym last)
          ∙ mapped.col_idx_eq
          ∙ shaped.col_idx_eq
          ∙ ap (λ x. x.col_idx) (untiled ∙ same);
    }

get_elem?-map :
    {A B : Type 0} (f : A → B) (xs : List A) (i : ℕ) (x : A)
    → get_elem? xs i ≡ some x
    → get_elem? (map f xs) i ≡ some (f x)
get_elem?-map f [] i x h = ground arith
get_elem?-map f (y ∷ xs) zero x h = ap some (ap f (some_inj h))
get_elem?-map f (y ∷ xs) (suc i) x h = get_elem?-map f xs i x h

share-IsCsr : (rs : Rows) → 0 < length rs → IsCsr (csr_ptr 0 rs) (columns rs)
share-IsCsr [] h = elim h [ ]
share-IsCsr (r ∷ rs) h = csr_ptr-IsCsr r rs

-- From a well-formed graph, with a positive width of the dealing and at most one tile: when the
-- preprocessing succeeds, the `i`-th edge that the reader of engine `k` passes from its start on, in
-- any run of its calls, is the column `i % m` of the `m` columns of the rows `r` with
-- `(r / lac_width) % n = k`, in the order of the graph, with the number `i / m` of the pass; the
-- engine has at least one row.
pub preprocess-run :
    (stray : ℕ → ℤ) (xw : List (List ℤ)) (env env' : Env) (total : ℕ) (rs : Rows) (w k : ℕ)
    → let n = env.arch_info.n_of_engine in
      let mine = share (suc w) n k 0 rs in
      IsGraph (ready env) rs
      → chosen_width env.arch_info.lac_width env.data_info.a_h env.data_info.n_tiles n
        ≡ some (pos (suc w))
      → ltb 1 env.data_info.n_tiles ≡ false
      → preprocess stray xw env ≡ some (env', total)
      → k < n
      → 0 < length mine
      → (g g' : GraphReader) (es : List EdgeInfo) → init env' k ≡ some g
      → Run env' g es g'
      → (i : ℕ) (ei : EdgeInfo) → get_elem? es i ≡ some ei
      → IsEdge (columns mine) k i ei
preprocess-run stray xw env env' total rs w k graph width one runs inside some_rows g g' es starts
      run i ei h =
    let n = env.arch_info.n_of_engine in
    let mine = share (suc w) n k 0 rs in
    let own = shares-share (suc w) n k rs inside in
    let same =
      preprocess-SameGraph stray xw env _ env' total (lac-shares (ready env) rs w graph width) one
        runs in
    run-edges env' k (csr_ptr 0 mine) (columns mine) g g' es (share-IsCsr mine some_rows)
      (ap (λ v. get_elem? v k) same.row_ptr_eq
        ∙ get_elem?-map (csr_ptr 0) (shares (suc w) n rs) k mine own)
      (ap (λ v. get_elem? v k) same.col_idx_eq
        ∙ get_elem?-map columns (shares (suc w) n rs) k mine own)
      starts run i ei h
