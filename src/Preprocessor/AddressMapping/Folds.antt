-- ===== src/Preprocessor/AddressMapping/Folds.antt =====
-- The loops of `AddressMapping` for X_CMP and MAT over the rows and over the folds.
use sgcn.Base.{
  ℕ, zero, suc, ◌+◌, ◌-◌, ◌*◌, ◌≤◌, ◌<◌, ◌≡◌, ◌⊎◌, refl, sym, ap, ◌∙◌, inl, inr, some, arith, subst,
  u64_mod,
}
use sgcn.Preprocessor.AddressMapping.{Grid, map_rows, map_folds}
use sgcn.Preprocessor.AddressMapping.Columns.{IsGrid, IsWidth, Reaches, cols-Reaches}
use sgcn.Preprocessor.AddressMapping.Places.{IsBehind, AreLaid}
use sgcn.Preprocessor.AddressMapping.Step.{same_places}

-- The end of a fold.
fold_passed :
    (h b urb j' c' : ℕ) → j' < h → IsBehind (b + urb) urb 0 0 j' c' → IsBehind b urb h 0 j' c'
fold_passed h b urb j' c' hj p = ground (arith, hj, p)

passed_fold : (h b urb j' c' : ℕ) → IsBehind b urb h 0 j' c' → IsBehind (b + urb) urb 0 0 j' c'
passed_fold h b urb j' c' p = ground (arith, p)

le_or_lt : (x y : ℕ) → (x ≤ y) ⊎ (y < x)
le_or_lt x y = ground arith

next_fold :
    (w b urb q : ℕ)
    → b ≤ w
    → (b + q ≡ w) ⊎ ((q ≡ 0) × (w ≤ b))
    → (v q' : ℕ) × IsWidth w b urb v
      × (v + q' ≡ q)
      × ((b + urb + q' ≡ w) ⊎ ((q' ≡ 0) × (w ≤ b + urb)))
next_fold w b urb q begins rest =
    let fits : b + q ≡ w = ground (arith, begins, rest) in
    elim (le_or_lt urb q) [
      | inl le ↦ (
        urb,
        q - urb,
        (omega arith, omega (arith, le, fits), inl refl),
        omega (arith, le),
        inl (omega (arith, le, fits)),
      )
      | inr lt ↦ (
        q,
        0,
        (omega (arith, lt), omega (arith, fits), inr fits),
        omega arith,
        inr (refl, omega (arith, lt, fits)),
      )
    ]

lines_sum : (e h v q' q : ℕ) → v + q' ≡ q → e + h * v * 64 + h * q' * 64 ≡ e + h * q * 64
lines_sum e h v q' q sum = rw (sym sum) (grind arith)

no_lines : (e h q : ℕ) → q ≡ 0 → e ≡ e + h * q * 64
no_lines e h q none = rw none (grind arith)

module _ (h w a : ℕ) (xs : Grid) (grid : IsGrid h w xs) where
  rows-Reaches :
      (urb i n j v e : ℕ) (ys : Grid)
      → j + n ≡ h
      → IsWidth w (i * urb) urb v
      → e + n * v * 64 < u64_mod
      → AreLaid h w (IsBehind (i * urb) urb j 0) a e xs ys
      → Reaches h w a xs grid
          (map_rows urb w i j n (ys, e))
          (IsBehind (i * urb) urb h 0)
          (e + n * v * 64)
  unfolding map_rows
  rows-Reaches urb i zero j v e ys hj wide fits l =
      let same : e ≡ e + 0 * v * 64 = omega arith in
      let all : j ≡ h = omega (arith, hj) in
      (
        ys,
        ap (λ t. some (ys, t)) same,
        subst (λ t. AreLaid h w (IsBehind (i * urb) urb h 0) a t xs ys) same
            (subst (λ t. AreLaid h w (IsBehind (i * urb) urb t 0) a e xs ys) all l),
      )
  rows-Reaches urb i (suc n) j v e ys hj wide fits l =
      let less : e + v * 64 + n * v * 64 ≡ e + suc n * v * 64 = grind arith in
      let from_0 : v ≡ 0 + v = omega arith in
      let wide' : IsWidth w (i * urb) urb (0 + v) =
        subst (λ t. IsWidth w (i * urb) urb t) from_0 wide in
      let (zs, runs, l') =
        cols-Reaches h w a xs grid urb i j 0 urb v e ys (omega arith) (omega (arith, hj)) wide'
          (omega (arith, less, fits)) l in
      let (us, runs', l'') =
        rows-Reaches urb i n (suc j) v (e + v * 64) zs (omega (arith, hj)) wide
          (omega (arith, less, fits)) l' in
      (
        us,
        rw runs (runs' ∙ ap (λ t. some (us, t)) less),
        subst (λ t. AreLaid h w (IsBehind (i * urb) urb h 0) a t xs us) less l'',
      )

  -- The columns from the fold that starts at `b` on.
  abbrev IsRest : ℕ → ℕ → Type 0
  IsRest b q = (b + q ≡ w) ⊎ ((q ≡ 0) × (w ≤ b))

  pub folds-Reaches :
      (urb bf n i q e : ℕ) (ys : Grid)
      → i + n ≡ bf
      → w ≤ bf * urb
      → ((t : ℕ) → t < bf → t * urb ≤ w)
      → IsRest (i * urb) q
      → e + h * q * 64 < u64_mod
      → AreLaid h w (IsBehind (i * urb) urb 0 0) a e xs ys
      → Reaches h w a xs grid
          (map_folds urb w h i n (ys, e))
          (IsBehind (bf * urb) urb 0 0)
          (e + h * q * 64)
  unfolding map_folds
  folds-Reaches urb bf zero i q e ys hi cover starts rest fits l =
      let last : i ≡ bf = omega (arith, hi) in
      let none_left : q ≡ 0 =
        let past : w ≤ i * urb = subst (λ t. w ≤ t * urb) (sym last) cover in
        omega (arith, past, rest) in
      let same : e ≡ e + h * q * 64 = no_lines e h q none_left in
      (
        ys,
        ap (λ t. some (ys, t)) same,
        subst (λ t. AreLaid h w (IsBehind (bf * urb) urb 0 0) a t xs ys) same
            (subst (λ t. AreLaid h w (IsBehind (t * urb) urb 0 0) a e xs ys) last l),
      )
  folds-Reaches urb bf (suc n) i q e ys hi cover starts rest fits l =
      let begins : i * urb ≤ w = starts i (omega (arith, hi)) in
      let (v, q', wide, sum, rest') = next_fold w (i * urb) urb q begins rest in
      let total : e + h * v * 64 + h * q' * 64 ≡ e + h * q * 64 = lines_sum e h v q' q sum in
      let (zs, runs, l') =
        rows-Reaches urb i h 0 v e ys (omega arith) wide (omega (arith, total, fits)) l in
      let next : i * urb + urb ≡ suc i * urb = omega arith in
      let l'' : AreLaid h w (IsBehind (suc i * urb) urb 0 0) a (e + h * v * 64) xs zs =
        subst (λ t. AreLaid h w (IsBehind t urb 0 0) a (e + h * v * 64) xs zs) next
          (same_places h w (IsBehind (i * urb) urb h 0) (IsBehind (i * urb + urb) urb 0 0) a _ xs zs
            (λ j' c' hj _ p. fold_passed h (i * urb) urb j' c' hj p)
            (λ j' c' _ _ p. passed_fold h (i * urb) urb j' c' p) l') in
      let (us, runs', l₃) =
        folds-Reaches urb bf n (suc i) q' (e + h * v * 64) zs (omega (arith, hi)) cover starts
          (subst (λ t. IsRest t q') next rest') (omega (arith, total, fits)) l'' in
      (
        us,
        rw runs (runs' ∙ ap (λ t. some (us, t)) total),
        subst (λ t. AreLaid h w (IsBehind (bf * urb) urb 0 0) a t xs us) total l₃,
      )
