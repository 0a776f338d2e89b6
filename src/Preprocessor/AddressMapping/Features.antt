-- ===== src/Preprocessor/AddressMapping/Features.antt =====
-- The addresses of the features under X_CMP and MAT.
use sgcn.Base.{
  ℕ, ◌+◌, ◌*◌, ◌≤◌, ◌<◌, ◌≡◌, ◌⊎◌, refl, sym, ap, ◌∙◌, inl, inr, some, map, arith, subst, u64_mod,
  some_inj, >>=-eq-some,
}
use sgcn.Common.{Env, ArchInfo, DataInfo, FMode, x_cmp, mat, csr, x_full_cmp, row, column, value}
use sgcn.Preprocessor.AddressMapping.{
  Grid, frags, lay_area, map_graph, map_folds, map_features, address_mapping,
}
use sgcn.Preprocessor.AddressMapping.Columns.{IsGrid}
use sgcn.Preprocessor.AddressMapping.Folds.{folds-Reaches}
use sgcn.Preprocessor.AddressMapping.Places.{IsBehind, AreLaid}
use sgcn.Preprocessor.AddressMapping.Step.{same_places}

-- The blocks of a row cover its lines, and none starts behind them.
pub record AreBlocks (urb bf total : ℕ) : Type 0 where
  pub cover : total ≤ bf * urb
  pub starts : (t : ℕ) → t < bf → t * urb ≤ total

abbrev pub Everywhere : ℕ → ℕ → Type 0
Everywhere j c = Unit {0}

none_passed : (urb j c : ℕ) → ¬ IsBehind (0 * urb) urb 0 0 j c
none_passed urb j c p = ground (arith, p)

start-AreLaid : (urb h w a : ℕ) (xs : Grid) → AreLaid h w (IsBehind (0 * urb) urb 0 0) a a xs xs
start-AreLaid urb h w a xs = record {
  placed = λ j c p _. absurd (none_passed urb j c p);
  apart = λ j c j' c' p _ _ _ _. absurd (none_passed urb j c p);
  unpassed = λ j c _ _ _. refl;
  left_out = λ j c _ _ _. refl;
  aligned = (0, omega arith);
}

map_folds-AreLaid :
    (urb bf h w a : ℕ) (xs : Grid)
    → IsGrid h w xs
    → AreBlocks urb bf w
    → a + h * w * 64 < u64_mod
    → (ys : Grid) × (map_folds urb w h 0 bf (xs, a) ≡ some (ys, a + h * w * 64))
      × AreLaid h w Everywhere a (a + h * w * 64) xs ys
map_folds-AreLaid urb bf h w a xs grid blocks room =
    let (ys, runs, l) =
      folds-Reaches h w a xs grid urb bf bf 0 w a xs (omega arith) blocks.cover blocks.starts
        (inl (omega arith)) room (start-AreLaid urb h w a xs) in
    (
      ys,
      runs,
      same_places h w (IsBehind (bf * urb) urb 0 0) Everywhere a _ xs ys
          (λ j c _ hc _. inl (omega (arith, blocks.cover, hc))) (λ j c _ _ _. tt) l,
    )

-- What the layout of the graph leaves of the sizes.
map_graph-sizes :
    (env env₁ : Env) (a : ℕ)
    → map_graph env ≡ some (env₁, a)
    → (env₁.arch_info.urb ≡ env.arch_info.urb)
      × (env₁.arch_info.bf ≡ env.arch_info.bf)
      × (env₁.arch_info.xw_ele_addr_start ≡ a)
unfolding map_graph
map_graph-sizes env env₁ a h =
    let ((ds₁, a₁), e₁, h₁) =
      >>=-eq-some (lay_area value (map frags env.col_idx) env.data_index 0) _ h in
    let ((ds₂, a₂), e₂, h₂) = >>=-eq-some (lay_area row (map frags env.row_ptr) ds₁ a₁) _ h₁ in
    let ((ds₃, a₃), e₃, h₃) = >>=-eq-some (lay_area column (map frags env.col_idx) ds₂ a₂) _ h₂ in
    let same = some_inj h₃ in
    (
      sym (ap (λ p. p.0.arch_info.urb) same),
      sym (ap (λ p. p.0.arch_info.bf) same),
      sym (ap (λ p. p.0.arch_info.xw_ele_addr_start) same) ∙ ap (λ p. p.1) same,
    )

-- The modes that keep the lines of a row in one place each.
abbrev pub IsByLine : FMode → Type 0
IsByLine mode = (mode ≡ x_cmp) ⊎ (mode ≡ mat)

by_line :
    (mode : FMode) (arch : ArchInfo) (info : DataInfo) (s : Grid × ℕ)
    → IsByLine mode
    → map_features mode arch info s ≡ map_folds arch.urb info.total_urb info.x_h 0 arch.bf s
unfolding map_features
by_line x_cmp arch info s h = refl
by_line mat arch info s h = refl
by_line csr arch info s (inl e) = cc
by_line csr arch info s (inr e) = cc
by_line x_full_cmp arch info s (inl e) = cc
by_line x_full_cmp arch info s (inr e) = cc

-- Under X_CMP and MAT, if the blocks of a row of the features cover its lines and none starts behind
-- them, and the addresses do not wrap around, then `AddressMapping` succeeds. It gives the features as
-- many lines of 64 bytes as there are rows times lines of a row, from the end of the graph to the start
-- of the output. Each line that is kept has the address of one of them, no two the same; what stands
-- for a line that is left out stays.
pub address_mapping-AreLaid :
    (env env₁ : Env) (a : ℕ)
    → IsByLine env.arch_info.mode
    → IsGrid env.data_info.x_h env.data_info.total_urb env.x_to_addr
    → AreBlocks env.arch_info.urb env.arch_info.bf env.data_info.total_urb
    → map_graph env ≡ some (env₁, a)
    → a + env.data_info.x_h * env.data_info.total_urb * 64 < u64_mod
    → (env' : Env) × (address_mapping env ≡ some env')
      × (env'.arch_info.xw_ele_addr_start ≡ a)
      × (env'.arch_info.axw_addr_start ≡ a + env.data_info.x_h * env.data_info.total_urb * 64)
      × AreLaid env.data_info.x_h env.data_info.total_urb Everywhere a env'.arch_info.axw_addr_start
          env.x_to_addr env'.x_to_addr
unfolding address_mapping
address_mapping-AreLaid env env₁ a mode grid blocks runs room =
    let (same_urb, same_bf, same_start) = map_graph-sizes env env₁ a runs in
    let h = env.data_info.x_h in
    let w = env.data_info.total_urb in
    let blocks₁ : AreBlocks env₁.arch_info.urb env₁.arch_info.bf w =
      subst (λ t. AreBlocks t env₁.arch_info.bf w) (sym same_urb)
        (subst (λ t. AreBlocks env.arch_info.urb t w) (sym same_bf) blocks) in
    let (ys, maps, l) =
      map_folds-AreLaid env₁.arch_info.urb env₁.arch_info.bf h w a env.x_to_addr grid blocks₁
        room in
    let maps' =
      by_line env.arch_info.mode env₁.arch_info env.data_info (env.x_to_addr, a) mode ∙ maps in
    (
      record env₁ {
        arch_info = record (env₁.arch_info) { axw_addr_start = a + h * w * 64 };
        x_to_addr = ys;
      },
      rw (runs, maps') refl,
      same_start,
      refl,
      l,
    )
