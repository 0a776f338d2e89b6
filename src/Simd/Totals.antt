-- ===== src/Simd/Totals.antt =====
-- How many lines an engine of src/simd.cc writes over all its rows and folds, against `total_write`
-- of src/preprocessor.cc.
use mathlib.Core.Path.{subst₂}
use native.Mathlib.Nat.{mul-le-mul_left}
use sgcn.Base.{
  ℕ, zero, suc, ◌+◌, ◌-◌, ◌*◌, ◌≤◌, ◌<◌, ◌≡◌, refl, sym, ap, ap₂, subst, ◌∙◌, arith, true, false,
  if◌then◌else◌, ◌==◌, ◌⊎◌, inl, inr,
}
use sgcn.Base.Int.{ℤ, pos, rounds, minus}
use sgcn.Common.{Env}
use sgcn.Simd.Defs.{Simd, push_lines, end_row, get_feature}
use sgcn.Simd.Addresses.{push_lines-Pushed}

-- `n` complete rows.
unfoldable pub run_rows : Env → ℕ → Simd → Simd
run_rows env zero s = s
run_rows env (suc n) s = run_rows env n (get_feature env s (pos 0))

-- `n` folds of that many complete rows.
unfoldable pub run_folds : Env → ℕ → ℕ → Simd → Simd
run_folds env zero rows s = s
run_folds env (suc n) rows s = run_folds env n rows (run_rows env rows s)

-- The block width in the last fold.
unfoldable pub last_width : Env → ℤ
last_width env = minus (pos env.data_info.total_urb) (env.arch_info.urb * (env.arch_info.bf - 1))

-- Fold, row, lines so far and width of a block.
pub record At (rows fold row cnt : ℕ) (width : ℤ) (s : Simd) : Type 0 where
  pub rows_eq : s.nonzero_row ≡ rows
  pub fold_eq : s.cur_bf ≡ fold
  pub row_eq : s.cur_row_idx ≡ row
  pub cnt_eq : s.cnt ≡ cnt
  pub width_eq : s.write_urb ≡ width

module _ (env : Env) where
  row_inside :
      (N b r c : ℕ) (w : ℤ) (s : Simd)
      → At N b r c w s
      → suc r < N
      → At N b (suc r) (c + rounds w) w (get_feature env s (pos 0))
  unfolding get_feature end_row
  row_inside N b r c w s a h =
      let p = push_lines-Pushed (rounds s.write_urb) s in
      let more : ((push_lines (rounds s.write_urb) s).cur_row_idx + 1
            == (push_lines (rounds s.write_urb) s).nonzero_row)
          ≡ false =
        ground (arith, p.row, p.rows, a.row_eq, a.rows_eq) in
      rw more (record {
        rows_eq = p.rows ∙ a.rows_eq;
        fold_eq = p.fold ∙ a.fold_eq;
        row_eq = omega (arith, p.row, a.row_eq);
        cnt_eq = omega (arith, p.count, a.cnt_eq, ap rounds a.width_eq);
        width_eq = p.width ∙ a.width_eq;
      })

  row_last :
      (N b r c : ℕ) (w : ℤ) (s : Simd)
      → At N b r c w s
      → suc r ≡ N
      → At N
          (suc b)
          0
          (c + rounds w)
          (if suc b == env.arch_info.bf then last_width env else w)
          (get_feature env s (pos 0))
  unfolding get_feature end_row last_width
  row_last N b r c w s a h =
      let p = push_lines-Pushed (rounds s.write_urb) s in
      let done : ((push_lines (rounds s.write_urb) s).cur_row_idx + 1
            == (push_lines (rounds s.write_urb) s).nonzero_row)
          ≡ true =
        ground (arith, p.row, p.rows, a.row_eq, a.rows_eq) in
      rw done (record {
        rows_eq = p.rows ∙ a.rows_eq;
        fold_eq = omega (arith, p.fold, a.fold_eq);
        row_eq = refl;
        cnt_eq = omega (arith, p.count, a.cnt_eq, ap rounds a.width_eq);
        width_eq =
            ap₂ (λ (x : ℕ) (y : ℤ). if x == env.arch_info.bf then last_width env else y)
              (omega (arith, p.fold, a.fold_eq)) (p.width ∙ a.width_eq);
      })

  -- The rows that are left of a fold, `k` of them after the next.
  fold_rest :
      (k N b r c : ℕ) (w : ℤ) (s : Simd)
      → At N b r c w s
      → suc (r + k) ≡ N
      → At N
          (suc b)
          0
          (c + suc k * rounds w)
          (if suc b == env.arch_info.bf then last_width env else w)
          (run_rows env (suc k) s)
  unfolding run_rows
  fold_rest zero N b r c w s a h =
      subst
        (λ (x : ℕ).
          At N (suc b) 0 x (if suc b == env.arch_info.bf then last_width env else w)
            (get_feature env s (pos 0)))
        (omega arith) (row_last N b r c w s a (omega arith))
  fold_rest (suc k) N b r c w s a h =
      subst
        (λ (x : ℕ).
          At N (suc b) 0 x (if suc b == env.arch_info.bf then last_width env else w)
            (run_rows env (suc k) (get_feature env s (pos 0))))
        (omega arith)
        (fold_rest k N b (suc r) (c + rounds w) w (get_feature env s (pos 0))
          (row_inside N b r c w s a (omega arith)) (omega arith))

  -- Folds before the last, which are all of the same width.
  full_folds :
      (k N b c : ℕ) (w : ℤ) (s : Simd)
      → At (suc N) b 0 c w s
      → b + k < env.arch_info.bf
      → At (suc N) (b + k) 0 (c + k * (suc N * rounds w)) w (run_folds env k (suc N) s)
  unfolding run_folds
  full_folds zero N b c w s a h =
      let eb : b ≡ b + 0 = omega arith in
      let ec : c ≡ c + 0 * (suc N * rounds w) = omega arith in
      subst₂ (λ (x y : ℕ). At (suc N) x 0 y w s) eb ec a
  full_folds (suc k) N b c w s a h =
      let inner : (suc b == env.arch_info.bf) ≡ false = ground arith in
      let first = rw inner at (fold_rest N (suc N) b 0 c w s a (omega arith)) in
      let eb : suc b + k ≡ b + suc k = omega arith in
      let ec : c + suc N * rounds w + k * (suc N * rounds w) ≡ c + suc k * (suc N * rounds w) =
        omega arith in
      subst₂ (λ (x y : ℕ). At (suc N) x 0 y w (run_folds env k (suc N) (run_rows env (suc N) s))) eb
        ec
        (full_folds k N (suc b) (c + suc N * rounds w) w (run_rows env (suc N) s) first
          (omega arith))

  run_folds-add :
      (m n N : ℕ) (s : Simd) → run_folds env n N (run_folds env m N s) ≡ run_folds env (m + n) N s
  unfolding run_folds
  run_folds-add zero n N s =
      let e : n ≡ 0 + n = omega arith in ap (λ (x : ℕ). run_folds env x N s) e
  run_folds-add (suc m) n N s =
      let e : suc (m + n) ≡ suc m + n = omega arith in
      run_folds-add m n N (run_rows env N s) ∙ ap (λ (x : ℕ). run_folds env x N s) e

  single_fold :
      (N : ℕ) (s : Simd)
      → At (suc N) 1 0 0 (pos env.arch_info.urb) s
      → (run_folds env 1 (suc N) s).cnt ≡ suc N * env.arch_info.urb
  unfolding run_folds
  single_fold N s a =
      (fold_rest N (suc N) 1 0 0 (pos env.arch_info.urb) s a (omega arith)).cnt_eq ∙ omega arith

  -- All the lines of an engine with rows and at least two folds.
  lines_written :
      (B N : ℕ) (s : Simd)
      → env.arch_info.bf ≡ suc (suc B)
      → At (suc N) 1 0 0 (pos env.arch_info.urb) s
      → (run_folds env (suc (suc B)) (suc N) s).cnt
        ≡ suc N * (env.arch_info.urb * suc B + rounds (last_width env))
  unfolding run_folds
  lines_written B N s bf a =
      let full = full_folds B N 1 0 (pos env.arch_info.urb) s a (omega arith) in
      let at_end : (suc (1 + B) == env.arch_info.bf) ≡ true = ground arith in
      let s₁ = run_folds env B (suc N) s in
      let s₂ = run_rows env (suc N) s₁ in
      let before =
        rw at_end at
          (fold_rest N (suc N) (1 + B) 0 _ (pos env.arch_info.urb) s₁ full (omega arith)) in
      let last = fold_rest N (suc N) (suc (1 + B)) 0 _ (last_width env) s₂ before (omega arith) in
      let e : B + 2 ≡ suc (suc B) = omega arith in
      let order : run_rows env (suc N) s₂ ≡ run_folds env (suc (suc B)) (suc N) s =
        run_folds-add B 2 (suc N) s ∙ ap (λ (x : ℕ). run_folds env x (suc N) s) e in
      ap (λ t. t.cnt) (sym order) ∙ last.cnt_eq ∙ omega arith

last_rounds :
    (env : Env) (B : ℕ)
    → env.arch_info.bf ≡ suc (suc B)
    → rounds (last_width env) ≡ env.data_info.total_urb - env.arch_info.urb * suc B
unfolding last_width
last_rounds env B bf =
    let e : env.arch_info.bf - 1 ≡ suc B = omega arith in
    ap (λ (x : ℕ). rounds (minus (pos env.data_info.total_urb) (env.arch_info.urb * x))) e
    ∙ clip env.data_info.total_urb (env.arch_info.urb * suc B)
  where
    clip : (t u : ℕ) → rounds (minus (pos t) u) ≡ t - u
    clip t u = ground arith

folds_lem :
    (env : Env) (B N : ℕ) (s : Simd)
    → env.arch_info.bf ≡ suc (suc B)
    → At (suc N) 1 0 0 (pos env.arch_info.urb) s
    → (run_folds env env.arch_info.bf (suc N) s).cnt
      ≡ suc N * (env.arch_info.urb * suc B + (env.data_info.total_urb - env.arch_info.urb * suc B))
folds_lem env B N s bf a =
    ap (λ (x : ℕ). (run_folds env x (suc N) s).cnt) bf
    ∙ lines_written env B N s bf a
    ∙ ap (λ (x : ℕ). suc N * (env.arch_info.urb * suc B + x)) (last_rounds env B bf)

-- The widths of the folds fit a feature: one fold is a whole feature, and of several the full ones
-- do not exceed it.
unfoldable pub WidthsFit : Env → Type 0
WidthsFit env =
    (env.arch_info.bf ≡ 1) × (env.arch_info.urb ≡ env.data_info.total_urb)
    ⊎ (1 < env.arch_info.bf)
      × (env.arch_info.urb * (env.arch_info.bf - 1) ≤ env.data_info.total_urb)

-- If the widths of the folds fit, an engine with at least one row that has edges writes over all
-- rows and folds exactly `nonzero_row * total_urb` lines, which is what the preprocessor counts as
-- its `total_write`.
pub total_lines :
    (env : Env) (N : ℕ) (s : Simd)
    → WidthsFit env
    → At (suc N) 1 0 0 (pos env.arch_info.urb) s
    → (run_folds env env.arch_info.bf (suc N) s).cnt ≡ suc N * env.data_info.total_urb
unfolding WidthsFit
total_lines env N s (inl (one, same)) a =
    ap (λ (x : ℕ). (run_folds env x (suc N) s).cnt) one
    ∙ single_fold env N s a
    ∙ ap (λ (x : ℕ). suc N * x) same
total_lines env N s (inr (many, fits)) a =
    let b : ℕ = env.arch_info.bf - 2 in
    let bf : env.arch_info.bf ≡ suc (suc b) = omega arith in
    let e : env.arch_info.bf - 1 ≡ suc b = omega arith in
    let fits' = rw e at fits in
    folds_lem env b N s bf a ∙ ap (λ (x : ℕ). suc N * x) (omega (arith, fits'))

-- With more than one fold, and the full folds wider together than a feature, an engine at its start
-- with at least one row that has edges writes over all rows and folds more than the `nonzero_row *
-- total_urb` lines that the preprocessor counts.
pub too_many_lines :
    (env : Env) (N : ℕ) (s : Simd)
    → 1 < env.arch_info.bf
    → env.data_info.total_urb < env.arch_info.urb * (env.arch_info.bf - 1)
    → At (suc N) 1 0 0 (pos env.arch_info.urb) s
    → suc N * env.data_info.total_urb < (run_folds env env.arch_info.bf (suc N) s).cnt
too_many_lines env N s many exceeds a =
    let b : ℕ = env.arch_info.bf - 2 in
    let bf : env.arch_info.bf ≡ suc (suc b) = omega arith in
    let e : env.arch_info.bf - 1 ≡ suc b = omega arith in
    let exceeds' = rw e at exceeds in
    let u : ℕ = env.arch_info.urb * suc b in
    let all : u + (env.data_info.total_urb - u) ≡ u = omega (arith, exceeds') in
    let count = folds_lem env b N s bf a ∙ ap (λ (x : ℕ). suc N * x) all in
    let more : suc N * (env.data_info.total_urb + 1) ≤ suc N * u =
      mul-le-mul_left (suc N) (omega (arith, exceeds')) in
    omega (arith, count, more)
