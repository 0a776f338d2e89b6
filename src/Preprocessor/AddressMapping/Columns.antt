-- ===== src/Preprocessor/AddressMapping/Columns.antt =====
-- The innermost loop of `AddressMapping` for X_CMP and MAT, over the columns of a fold.
use sgcn.Base.{
  ℕ, zero, suc, ◌+◌, ◌-◌, ◌*◌, ◌≤◌, ◌<◌, ◌≡◌, ◌≢◌, ◌⊎◌, refl, sym, ap, ◌∙◌, inl, inr, true, false,
  some, List, arith, ◌==◌, if◌then◌else◌, Option, get_elem?, set, some_inj, subst, Bool-cases,
  add64, u64_mod, ==_iff,
}
use sgcn.Preprocessor.AddressMapping.{Grid, map_cols}
use sgcn.Preprocessor.AddressMapping.Places.{at_place, at_place-row, IsBehind, AreLaid}
use sgcn.Preprocessor.AddressMapping.Step.{With, same_places, step-skip, step-place}

-- A grid of `h` rows and `w` columns.
abbrev pub IsGrid : ℕ → ℕ → Grid → Type 0
IsGrid h w xs = (j c : ℕ) → j < h → c < w → (x : ℕ) × (at_place xs j c ≡ some x)

-- A round at the column `c`.
abbrev marked : Grid → ℕ → List ℕ → ℕ → ℕ → ℕ → Grid
marked ys j r c x e = if x == 1 then set ys j (set r c e) else ys

not_one : (x : ℕ) → (x == 1) ≡ false → x ≢ 1
not_one x h = ground (arith, h)

next_passed :
    (b urb j k j' c' : ℕ)
    → IsBehind b urb j (suc k) j' c'
    → With (IsBehind b urb j k) j (b + k) j' c'
next_passed b urb j k j' c' p = ground (arith, p)

passed_next :
    (b urb j k j' c' : ℕ)
    → k < urb
    → With (IsBehind b urb j k) j (b + k) j' c'
    → IsBehind b urb j (suc k) j' c'
passed_next b urb j k j' c' h p = ground (arith, h, p)

-- The end of a row, and of the columns.
row_passed :
    (w b urb j k j' c' : ℕ)
    → c' < w
    → (k ≡ urb) ⊎ (b + k ≡ w)
    → IsBehind b urb (suc j) 0 j' c'
    → IsBehind b urb j k j' c'
row_passed w b urb j k j' c' hc end p = ground (arith, hc, end, p)

passed_row :
    (b urb j k j' c' : ℕ) → k ≤ urb → IsBehind b urb j k j' c' → IsBehind b urb (suc j) 0 j' c'
passed_row b urb j k j' c' h p = ground (arith, h, p)

-- The columns of the fold that starts at `b`: all of it, or up to the last column.
abbrev pub IsWidth : ℕ → ℕ → ℕ → ℕ → Type 0
IsWidth w b urb v = (v ≤ urb) × (b + v ≤ w) × ((v ≡ urb) ⊎ (b + v ≡ w))

not_passed : (b urb j k : ℕ) → ¬ IsBehind b urb j k j (b + k)
not_passed b urb j k = ground arith

differs : (x y : ℕ) → (x == y) ≡ false → x ≢ y
differs x y h = ground (arith, h)

no_wrap : (e : ℕ) → e + 64 < u64_mod → add64 e 64 ≡ e + 64
no_wrap e h = omega (arith, h)

some_place : (w b urb k n m : ℕ) → k + suc n ≡ urb → IsWidth w b urb (k + m) → b + k ≢ w → 0 < m
some_place w b urb k n m hn h apart = ground (arith, hn, h, apart)

narrow : (w b urb k m : ℕ) → 0 < m → IsWidth w b urb (k + m) → IsWidth w b urb (suc k + (m - 1))
narrow w b urb k m some_left h = ground (arith, some_left, h)

cols_stop :
    (urb w i j k n e : ℕ) (ys : Grid)
    → (i * urb + k == w) ≡ true
    → map_cols urb w i j k (suc n) (ys, e) ≡ some (ys, e)
unfolding map_cols
cols_stop urb w i j k n e ys h = rw (map_cols, h) refl

cols_go :
    (urb w i j k n e x : ℕ) (ys : Grid) (r : List ℕ)
    → (i * urb + k == w) ≡ false
    → get_elem? ys j ≡ some r
    → get_elem? r (i * urb + k) ≡ some x
    → add64 e 64 ≡ e + 64
    → map_cols urb w i j k (suc n) (ys, e)
      ≡ map_cols urb w i j (suc k) n (marked ys j r (i * urb + k) x e, e + 64)
unfolding map_cols
cols_go urb w i j k n e x ys r h₁ h₂ h₃ h₄ = rw (map_cols, h₁, h₂, h₃, h₄) refl

module _ (h w a : ℕ) (xs : Grid) (grid : IsGrid h w xs) where
  round-AreLaid :
      (b urb j k e x : ℕ) (ys : Grid) (r : List ℕ)
      → k < urb
      → j < h
      → b + k < w
      → at_place xs j (b + k) ≡ some x
      → get_elem? ys j ≡ some r
      → get_elem? r (b + k) ≡ some x
      → AreLaid h w (IsBehind b urb j k) a e xs ys
      → AreLaid h w (IsBehind b urb j (suc k)) a (e + 64) xs (marked ys j r (b + k) x e)
  round-AreLaid b urb j k e x ys r hk hj hc at_xs at_r at_x l =
      let new : ¬ IsBehind b urb j k j (b + k) = not_passed b urb j k in
      let moved : AreLaid h w (With (IsBehind b urb j k) j (b + k)) a (e + 64) xs
          (marked ys j r (b + k) x e) =
        elim (Bool-cases (x == 1)) [
          | inl one ↦
              let is_one : x ≡ 1 = (==_iff x 1).0 one in
              rw one (
                step-place h w (IsBehind b urb j k) a e j (b + k) x xs ys r new at_r at_x
                  (at_xs ∙ ap some is_one) l)
          | inr other ↦
              let out : at_place xs j (b + k) ≢ some 1 =
                λ one. absurd (not_one x other (some_inj (sym at_xs ∙ one))) in
              rw other (step-skip h w (IsBehind b urb j k) a e j (b + k) xs ys out l)
        ] in
      same_places h w (With (IsBehind b urb j k) j (b + k)) (IsBehind b urb j (suc k)) a (e + 64) xs
        _ (λ j' c' _ _ p. next_passed b urb j k j' c' p)
        (λ j' c' _ _ p. passed_next b urb j k j' c' hk p) moved

  -- What a loop leaves: a grid with more places passed, and the address moved on by `n` lines.
  abbrev pub Reaches : Option (Grid × ℕ) → (ℕ → ℕ → Type 0) → ℕ → Type 0
  Reaches run P e = (zs : Grid) × (run ≡ some (zs, e)) × AreLaid h w P a e xs zs

  pub cols-Reaches :
      (urb i j k n m e : ℕ) (ys : Grid)
      → k + n ≡ urb
      → j < h
      → IsWidth w (i * urb) urb (k + m)
      → e + m * 64 < u64_mod
      → AreLaid h w (IsBehind (i * urb) urb j k) a e xs ys
      → Reaches (map_cols urb w i j k n (ys, e)) (IsBehind (i * urb) urb (suc j) 0) (e + m * 64)
  unfolding map_cols
  cols-Reaches urb i j k zero m e ys hn hj (fold, cut, full) fits l =
      let none_left : m ≡ 0 = omega (arith, hn, fold) in
      let same : e ≡ e + m * 64 = omega (arith, none_left) in
      (
        ys,
        ap (λ t. some (ys, t)) same,
        subst (λ t. AreLaid h w (IsBehind (i * urb) urb (suc j) 0) a t xs ys) same
            (same_places h w (IsBehind (i * urb) urb j k) (IsBehind (i * urb) urb (suc j) 0) a e xs
              ys
              (λ j' c' _ hc p. row_passed w (i * urb) urb j k j' c' hc (inl (omega (arith, hn))) p)
              (λ j' c' _ _ p. passed_row (i * urb) urb j k j' c' (omega (arith, hn)) p) l),
      )
  cols-Reaches urb i j k (suc n) m e ys hn hj (fold, cut, full) fits l =
      elim (Bool-cases (i * urb + k == w)) [
        | inl at_end ↦
            let end : i * urb + k ≡ w = (==_iff (i * urb + k) w).0 at_end in
            let none_left : m ≡ 0 = omega (arith, end, cut) in
            let same : e ≡ e + m * 64 = omega (arith, none_left) in
            (
              ys,
              cols_stop urb w i j k n e ys at_end ∙ ap (λ t. some (ys, t)) same,
              subst (λ t. AreLaid h w (IsBehind (i * urb) urb (suc j) 0) a t xs ys) same
                  (same_places h w (IsBehind (i * urb) urb j k) (IsBehind (i * urb) urb (suc j) 0) a
                    e xs ys (λ j' c' _ hc p. row_passed w (i * urb) urb j k j' c' hc (inr end) p)
                    (λ j' c' _ _ p. passed_row (i * urb) urb j k j' c' (omega (arith, hn)) p) l),
            )
        | inr inside ↦
            let apart : i * urb + k ≢ w = differs (i * urb + k) w inside in
            let some_left : 0 < m = some_place w (i * urb) urb k n m hn (fold, cut, full) apart in
            let hc : i * urb + k < w = omega (arith, cut, some_left) in
            let (x, at_xs) = grid j (i * urb + k) hj hc in
            let new : ¬ IsBehind (i * urb) urb j k j (i * urb + k) = not_passed (i * urb) urb j k in
            let (r, at_r, at_x) =
              at_place-row ys j (i * urb + k) x (l.unpassed j (i * urb + k) hj hc new ∙ at_xs) in
            let l' =
              round-AreLaid (i * urb) urb j k e x ys r (omega (arith, hn)) hj hc at_xs at_r at_x
                l in
            let moved : add64 e 64 ≡ e + 64 = no_wrap e (omega (arith, fits, some_left)) in
            let (zs, runs, l'') =
              cols-Reaches urb i j (suc k) n (m - 1) (e + 64) (marked ys j r (i * urb + k) x e)
                (omega (arith, hn)) hj (narrow w (i * urb) urb k m some_left (fold, cut, full))
                (omega (arith, fits, some_left)) l' in
            let end : e + 64 + (m - 1) * 64 ≡ e + m * 64 = omega (arith, some_left) in
            (
              zs,
              cols_go urb w i j k n e x ys r inside at_r at_x moved
                  ∙ runs
                  ∙ ap (λ t. some (zs, t)) end,
              subst (λ t. AreLaid h w (IsBehind (i * urb) urb (suc j) 0) a t xs zs) end l'',
            )
      ]
