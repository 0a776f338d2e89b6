-- ===== src/Preprocessor/AddressMapping/Graph.antt =====
-- The graph's part of `AddressMapping` of src/preprocessor.cc, and that it is the layout on which the
-- callbacks of src/memory.cc rely.
use mathlib.Core.Path.{subst₂}
use sgcn.Base.{
  ℕ, suc, ◌+◌, ◌-◌, ◌*◌, ◌/◌, ◌<◌, ◌≡◌, ◌≢◌, refl, sym, ap, ap₂, ◌∙◌, some, List, [], ◌∷◌, map,
  arith, length, add64, u64_mod, length-map,
}
use sgcn.Common.{Env, DataIndex, RType, row, column, value, empty, cache_line_byte}
use sgcn.Float.{max_significand}
use sgcn.Float.Exact.{ceil_quot-exact}
use sgcn.Memory.Routing.{begin, end, Tiles, Layout}
use sgcn.Preprocessor.AddressMapping.{frags, place, lay_area, map_graph}

-- The bytes of that many lines.
abbrev pub bytes : List ℕ → ℕ
bytes [] = 0
bytes (f ∷ fs) = f * cache_line_byte + bytes fs

-- The engines' ranges start at `a`, follow one another, and have exactly their lines.
abbrev pub Spans : RType → ℕ → List ℕ → List DataIndex → Type 0
Spans t a [] [] = Unit {0}
Spans t a [] (d ∷ ds) = ⊥
Spans t a (f ∷ fs) [] = ⊥
Spans t a (f ∷ fs) (d ∷ ds) =
    (begin t d ≡ a) × (end t d ≡ a + f * cache_line_byte) × Spans t (a + f * cache_line_byte) fs ds

place-begin :
    (t : RType) (d : DataIndex) (a b : ℕ)
    → t ≢ empty
    → (begin t (place t d a b) ≡ a) × (end t (place t d a b) ≡ b)
unfolding place
place-begin value d a b ne = (refl, refl)
place-begin row d a b ne = (refl, refl)
place-begin column d a b ne = (refl, refl)
place-begin empty d a b ne = absurd (ne refl)

place-keeps :
    (t u : RType) (d : DataIndex) (a b : ℕ)
    → t ≢ u
    → (begin u (place t d a b) ≡ begin u d) × (end u (place t d a b) ≡ end u d)
unfolding place
place-keeps value value d a b ne = absurd (ne refl)
place-keeps row row d a b ne = absurd (ne refl)
place-keeps column column d a b ne = absurd (ne refl)
place-keeps _ _ d a b ne = (refl, refl)

-- What the loop over one kind of line computes, while the addresses do not wrap.
unfoldable pub laid : RType → List ℕ → List DataIndex → ℕ → List DataIndex
laid t [] ds a = ds
laid t (f ∷ fs) [] a = []
laid t (f ∷ fs) (d ∷ ds) a =
    place t d a (a + f * cache_line_byte) ∷ laid t fs ds (a + f * cache_line_byte)

lay_area_lem :
    (t : RType) (fs : List ℕ) (ds : List DataIndex) (a : ℕ)
    → length fs ≡ length ds
    → a + bytes fs < u64_mod
    → lay_area t fs ds a ≡ some (laid t fs ds a, a + bytes fs)
unfolding lay_area laid
lay_area_lem t [] ds a size fits = let e : a ≡ a + 0 = omega arith in λ i. some (ds, e i)
lay_area_lem t (f ∷ fs) [] a size fits = absurd (omega arith)
lay_area_lem t (f ∷ fs) (d ∷ ds) a size fits =
    let small : add64 a (f * cache_line_byte) ≡ a + f * cache_line_byte = omega arith in
    let rest = lay_area_lem t fs ds (a + f * cache_line_byte) (omega arith) (omega arith) in
    let e : a + f * cache_line_byte + bytes fs ≡ a + (f * cache_line_byte + bytes fs) =
      omega arith in
    rw (small, rest)
      (λ i.
        some (place t d a (a + f * cache_line_byte) ∷ laid t fs ds (a + f * cache_line_byte), e i))

length-laid :
    (t : RType) (fs : List ℕ) (ds : List DataIndex) (a : ℕ)
    → length fs ≡ length ds
    → length (laid t fs ds a) ≡ length ds
unfolding laid
length-laid t [] ds a size = refl
length-laid t (f ∷ fs) [] a size = absurd (omega arith)
length-laid t (f ∷ fs) (d ∷ ds) a size =
    ap suc (length-laid t fs ds (a + f * cache_line_byte) (omega arith))

laid-Spans :
    (t : RType) (fs : List ℕ) (ds : List DataIndex) (a : ℕ)
    → t ≢ empty
    → length fs ≡ length ds
    → Spans t a fs (laid t fs ds a)
unfolding laid
laid-Spans t [] [] a ne size = tt
laid-Spans t [] (d ∷ ds) a ne size = absurd (omega arith)
laid-Spans t (f ∷ fs) [] a ne size = absurd (omega arith)
laid-Spans t (f ∷ fs) (d ∷ ds) a ne size =
    let ends = place-begin t d a (a + f * cache_line_byte) ne in
    (ends.0, ends.1, laid-Spans t fs ds (a + f * cache_line_byte) ne (omega arith))

-- The other kinds of line stay where they are.
laid-keeps :
    (t u : RType) (fs gs : List ℕ) (ds : List DataIndex) (a b : ℕ)
    → t ≢ u
    → Spans u b gs ds
    → length fs ≡ length ds
    → Spans u b gs (laid t fs ds a)
unfolding laid
laid-keeps t u [] gs ds a b ne s size = s
laid-keeps t u (f ∷ fs) gs [] a b ne s size = absurd (omega arith)
laid-keeps t u (f ∷ fs) [] (d ∷ ds) a b ne s size = absurd s
laid-keeps t u (f ∷ fs) (g ∷ gs) (d ∷ ds) a b ne s size =
    let same = place-keeps t u d a (a + f * cache_line_byte) ne in
    (
      same.0 ∙ s.0,
      same.1 ∙ s.1,
      laid-keeps t u fs gs ds (a + f * cache_line_byte) (b + g * cache_line_byte) ne s.2
          (omega arith),
    )

Spans-Tiles :
    (t : RType) (a : ℕ) (fs : List ℕ) (ds : List DataIndex)
    → Spans t a fs ds
    → Tiles t a (a + bytes fs) ds
Spans-Tiles t a [] [] s = omega arith
Spans-Tiles t a [] (d ∷ ds) s = absurd s
Spans-Tiles t a (f ∷ fs) [] s = absurd s
Spans-Tiles t a (f ∷ fs) (d ∷ ds) s =
    let e : a + f * cache_line_byte + bytes fs ≡ a + (f * cache_line_byte + bytes fs) =
      omega arith in
    let rest = Spans-Tiles t (a + f * cache_line_byte) fs ds s.2 in
    (s.0, omega (arith, s.1), subst₂ (λ x y. Tiles t x y ds) (sym s.1) e rest)

-- A line holds 16 entries.
abbrev pub lines : List ℕ → ℕ
lines v = (length v + 15) / 16

abbrev pub row_lines : Env → List ℕ
row_lines env = map lines env.row_ptr

abbrev pub col_lines : Env → List ℕ
col_lines env = map lines env.col_idx

-- Vectors whose sizes a `float` holds exactly.
abbrev pub AllShort : List (List ℕ) → Type 0
AllShort [] = Unit {0}
AllShort (v ∷ vs) = (length v < max_significand) × AllShort vs

frags-lines : (v : List ℕ) → length v < max_significand → frags v ≡ lines v
unfolding frags
frags-lines v h =
    let e : length v + 16 - 1 ≡ length v + 15 = omega arith in
    ceil_quot-exact (length v) 16 h (omega arith) (omega arith) ∙ ap (◌/ 16) e

map-frags : (vs : List (List ℕ)) → AllShort vs → map frags vs ≡ map lines vs
map-frags [] h = refl
map-frags (v ∷ vs) h = ap₂ (◌∷◌) (frags-lines v h.0) (map-frags vs h.1)

-- The engines are numbered alike in all the vectors, the vectors are short enough, and the graph's
-- lines fit the address space.
pub record Fits (env : Env) : Type 0 where
  pub engines : length env.data_index ≡ env.arch_info.n_of_engine
  pub rows : length env.row_ptr ≡ env.arch_info.n_of_engine
  pub cols : length env.col_idx ≡ env.arch_info.n_of_engine
  pub short_rows : AllShort env.row_ptr
  pub short_cols : AllShort env.col_idx
  pub room : 2 * bytes (col_lines env) + bytes (row_lines env) < u64_mod

-- The environment after the three loops.
mapped : Env → Env
mapped env = record env {
  arch_info = record (env.arch_info) {
    d_value_addr_start = 0;
    a_row_addr_start = a₁;
    a_col_addr_start = a₁ + bytes (row_lines env);
    xw_ele_addr_start = a₁ + bytes (row_lines env) + bytes (col_lines env);
  };
  data_index =
      laid column (col_lines env)
        (laid row (row_lines env) (laid value (col_lines env) env.data_index 0) a₁)
        (a₁ + bytes (row_lines env));
}
  where
    a₁ : ℕ
    a₁ = 0 + bytes (col_lines env)

module _ (env : Env) (f : Fits env) where
  cols_size : length (col_lines env) ≡ length env.data_index
  cols_size = length-map env.col_idx lines ∙ f.cols ∙ sym f.engines

  rows_size : length (row_lines env) ≡ length env.data_index
  rows_size = length-map env.row_ptr lines ∙ f.rows ∙ sym f.engines

  ds₁ : List DataIndex
  ds₁ = laid value (col_lines env) env.data_index 0

  size₁ : length ds₁ ≡ length env.data_index
  unfolding ds₁
  size₁ = length-laid value (col_lines env) env.data_index 0 cols_size

  ds₂ : List DataIndex
  ds₂ = laid row (row_lines env) ds₁ (0 + bytes (col_lines env))

  size₂ : length ds₂ ≡ length env.data_index
  unfolding ds₂
  size₂ =
      length-laid row (row_lines env) ds₁ (0 + bytes (col_lines env)) (rows_size ∙ sym size₁)
      ∙ size₁

  runs : map_graph env ≡ some (mapped env, (mapped env).arch_info.xw_ele_addr_start)
  unfolding map_graph mapped ds₁ ds₂
  runs =
      rw
        (
          map-frags env.row_ptr f.short_rows,
          map-frags env.col_idx f.short_cols,
          lay_area_lem value (col_lines env) env.data_index 0 cols_size (omega (arith, f.room)),
          lay_area_lem row (row_lines env) ds₁ (0 + bytes (col_lines env)) (rows_size ∙ sym size₁)
              (omega (arith, f.room)),
          lay_area_lem column (col_lines env) ds₂
              (0 + bytes (col_lines env) + bytes (row_lines env)) (cols_size ∙ sym size₂)
              (omega (arith, f.room)),
        )
        refl

  Spans-value : Spans value 0 (col_lines env) (mapped env).data_index
  unfolding mapped ds₁ ds₂
  Spans-value =
      laid-keeps column value _ _ ds₂ _ 0 (λ e. cc)
        (laid-keeps row value _ _ ds₁ _ 0 (λ e. cc)
          (laid-Spans value (col_lines env) env.data_index 0 (λ e. cc) cols_size)
          (rows_size ∙ sym size₁))
        (cols_size ∙ sym size₂)

  Spans-row :
      Spans row (mapped env).arch_info.a_row_addr_start (row_lines env) (mapped env).data_index
  unfolding mapped ds₁ ds₂
  Spans-row =
      laid-keeps column row _ _ ds₂ _ _ (λ e. cc)
        (laid-Spans row (row_lines env) ds₁ _ (λ e. cc) (rows_size ∙ sym size₁))
        (cols_size ∙ sym size₂)

  Spans-column :
      Spans column (mapped env).arch_info.a_col_addr_start (col_lines env) (mapped env).data_index
  unfolding mapped ds₁ ds₂
  Spans-column = laid-Spans column (col_lines env) ds₂ _ (λ e. cc) (cols_size ∙ sym size₂)

  mapped-Layout : Layout (mapped env)
  unfolding mapped ds₁ ds₂
  mapped-Layout = record {
    engines = length-laid column (col_lines env) ds₂ _ (cols_size ∙ sym size₂) ∙ size₂ ∙ f.engines;
    values = Spans-Tiles value 0 (col_lines env) _ Spans-value;
    rows = Spans-Tiles row _ (row_lines env) _ Spans-row;
    cols = Spans-Tiles column _ (col_lines env) _ Spans-column;
  }

-- With a vector of row pointers, a vector of columns and an index for each engine, each vector of
-- fewer than 2 ^ 24 entries, and while the graph's lines fit the address space, the mapping of the
-- graph is defined and gives the layout that the memory's callbacks need: for each kind of line the
-- engines' ranges follow one another without gaps, each of as many lines of 64 bytes as the entries
-- of its vector need at 16 to a line; the features start behind them.
pub map_graph-Layout :
    (env : Env)
    → Fits env
    → (env' : Env) × (map_graph env ≡ some (env', env'.arch_info.xw_ele_addr_start))
      × Layout env'
      × Spans value env'.arch_info.d_value_addr_start (col_lines env) env'.data_index
      × Spans row env'.arch_info.a_row_addr_start (row_lines env) env'.data_index
      × Spans column env'.arch_info.a_col_addr_start (col_lines env) env'.data_index
unfolding mapped
map_graph-Layout env f = (
  mapped env,
  runs env f,
  mapped-Layout env f,
  Spans-value env f,
  Spans-row env f,
  Spans-column env f,
)
