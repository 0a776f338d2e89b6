-- ===== src/Simd/Start.antt =====
-- The output of an engine from its constructor on, in src/simd.cc, against what src/preprocessor.cc
-- notes of the engine.
use sgcn.Base.{
  ℕ, suc, ◌-◌, ◌*◌, ◌<◌, ◌≡◌, refl, sym, ap, ◌∙◌, some, subst, arith, get_elem?, >>=-eq-some,
  some_inj,
}
use sgcn.Base.Int.{pos}
use sgcn.Common.{Env, DataIndex}
use sgcn.Float.{ceil_div}
use sgcn.Simd.Defs.{Simd, init}
use sgcn.Simd.Totals.{At, WidthsFit, run_folds, total_lines}

init-At :
    (env : Env) (id : ℕ) (d : DataIndex) (s : Simd)
    → get_elem? env.data_index id ≡ some d
    → init env id ≡ some s
    → At (d.row - d.zero_row) 1 0 0 (pos env.arch_info.urb) s
unfolding init
init-At env id d s found h =
    let (rows, e₁, h₁) = >>=-eq-some (ceil_div env.data_info.a_h env.arch_info.n_of_engine) _ h in
    let (d', e₂, h₂) = >>=-eq-some (get_elem? env.data_index id) _ h₁ in
    let same : d' ≡ d = some_inj (sym e₂ ∙ found) in
    subst (At (d.row - d.zero_row) 1 0 0 (pos env.arch_info.urb)) (some_inj h₂) (record {
      rows_eq = ap (λ x. x.row - x.zero_row) same;
      fold_eq = refl;
      row_eq = refl;
      cnt_eq = refl;
      width_eq = refl;
    })

-- For an engine with at least one row that has edges, and widths of the folds that fit: from its
-- start, over all rows and folds, `SIMD` queues exactly as many lines as `total_write` notes for the
-- engine, where that is the number of these rows times `total_urb`, as `LAC` and `Tiling` note it.
pub init-total_write :
    (env : Env) (id : ℕ) (d : DataIndex) (s : Simd)
    → get_elem? env.data_index id ≡ some d
    → d.total_write ≡ (d.row - d.zero_row) * env.data_info.total_urb
    → 0 < d.row - d.zero_row
    → WidthsFit env
    → init env id ≡ some s
    → (run_folds env env.arch_info.bf (d.row - d.zero_row) s).cnt ≡ d.total_write
init-total_write env id d s found noted some_row fits h =
    let rows : suc (d.row - d.zero_row - 1) ≡ d.row - d.zero_row = omega (arith, some_row) in
    let at' = init-At env id d s found h in
    let lines =
      total_lines env (d.row - d.zero_row - 1) s fits
        (subst (λ k. At k 1 0 0 (pos env.arch_info.urb) s) (sym rows) at') in
    ap (λ k. (run_folds env env.arch_info.bf k s).cnt) (sym rows)
    ∙ lines
    ∙ ap (λ k. k * env.data_info.total_urb) rows
    ∙ sym noted
