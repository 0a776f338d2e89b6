-- ===== src/Preprocessor/Tiling/Edges.antt =====
-- The distribution of a row's columns to the tiles, in `Tiling` of src/preprocessor.cc.
use mathlib.Core.List.{append_assoc, append-nil}
use sgcn.Base.{
  ℕ, zero, suc, ◌+◌, ◌/◌, ◌≤◌, ◌<◌, ◌≡◌, refl, sym, ap, ap₂, ◌∙◌, inl, inr, true, false, some, List,
  [], ◌∷◌, ◌++◌, ◌==◌, ltb, if◌then◌else◌, arith, length, Bool-cases,
}
use sgcn.Preprocessor.Tiling.{tile_units, tile_of, push_at, bump_at, tile_edge, tile_edges}

-- The columns of a row that lie in tile `t` of width `u`.
unfoldable pub part : ℕ → ℕ → List ℕ → List ℕ
part u t [] = []
part u t (c ∷ cs) = let rest = part u t cs in if c / u == t then c ∷ rest else rest

-- The counts and the columns of the tiles from `t` on, after a row was added to them.
unfoldable pub add_parts : ℕ → ℕ → List ℕ → List ℕ → List ℕ
add_parts u t cs [] = []
add_parts u t cs (x ∷ xs) = (x + length (part u t cs)) ∷ add_parts u (suc t) cs xs

unfoldable pub app_parts : ℕ → ℕ → List ℕ → List (List ℕ) → List (List ℕ)
app_parts u t cs [] = []
app_parts u t cs (v ∷ vs) = (v ++ part u t cs) ∷ app_parts u (suc t) cs vs

-- Every column lies in one of the `n` tiles.
unfoldable pub InTiles : ℕ → ℕ → List ℕ → Type 0
InTiles u n [] = Unit {0}
InTiles u n (c ∷ cs) = (c / u < n) × InTiles u n cs

tile_of_lem : (x l k : ℕ) → l ≤ x → x < l + k → tile_of x l (tile_units l k) ≡ some x
unfolding tile_of tile_units
tile_of_lem x l zero p q = let bad : 0 < 0 = omega (arith, p, q) in elim bad [ ]
tile_of_lem x l (suc k) p q =
    let e : suc l ≡ l + 1 = omega arith in
    elim (Bool-cases (ltb x (l + 1))) [
      | inl here ↦ rw here (ap some (ground arith))
      | inr further ↦ rw further (
          ap (λ n. tile_of x n (tile_units (l + 1) k)) e
          ∙ tile_of_lem x (l + 1) k (ground arith) (omega (arith, q)))
    ]

add_parts-past :
    (u t c : ℕ) (cs xs : List ℕ) → c / u < t → add_parts u t (c ∷ cs) xs ≡ add_parts u t cs xs
unfolding add_parts part
add_parts-past u t c cs [] h = refl
add_parts-past u t c cs (x ∷ xs) h =
    let e : (c / u == t) ≡ false = ground arith in
    rw e
      (ap (λ ys. (x + length (part u t cs)) ∷ ys) (add_parts-past u (suc t) c cs xs (omega arith)))

app_parts-past :
    (u t c : ℕ) (cs : List ℕ) (vs : List (List ℕ))
    → c / u < t
    → app_parts u t (c ∷ cs) vs ≡ app_parts u t cs vs
unfolding app_parts part
app_parts-past u t c cs [] h = refl
app_parts-past u t c cs (v ∷ vs) h =
    let e : (c / u == t) ≡ false = ground arith in
    rw e (ap (λ ys. (v ++ part u t cs) ∷ ys) (app_parts-past u (suc t) c cs vs (omega arith)))

add_parts-bump :
    (u t j c : ℕ) (cs xs : List ℕ)
    → c / u ≡ t + j
    → j < length xs
    → add_parts u t cs (bump_at xs j) ≡ add_parts u t (c ∷ cs) xs
unfolding add_parts part bump_at
add_parts-bump u t j c cs [] h l = elim l [ ]
add_parts-bump u t zero c cs (x ∷ xs) h l =
    let e : (c / u == t) ≡ true = ground arith in
    rw e (
      ap₂ (λ (y : ℕ) (ys : List ℕ). y ∷ ys) (omega arith)
        (sym (add_parts-past u (suc t) c cs xs (omega arith))))
add_parts-bump u t (suc j) c cs (x ∷ xs) h l =
    let e : (c / u == t) ≡ false = ground arith in
    rw e (
      ap (λ ys. (x + length (part u t cs)) ∷ ys)
        (add_parts-bump u (suc t) j c cs xs (omega arith) (omega arith)))

app_parts-push :
    (u t j c : ℕ) (cs : List ℕ) (vs : List (List ℕ))
    → c / u ≡ t + j
    → j < length vs
    → app_parts u t cs (push_at vs j c) ≡ app_parts u t (c ∷ cs) vs
unfolding app_parts part push_at
app_parts-push u t j c cs [] h l = elim l [ ]
app_parts-push u t zero c cs (v ∷ vs) h l =
    let e : (c / u == t) ≡ true = ground arith in
    rw e (
      ap₂ (λ (y : List ℕ) (ys : List (List ℕ)). y ∷ ys) (append_assoc v (c ∷ []) (part u t cs))
        (sym (app_parts-past u (suc t) c cs vs (omega arith))))
app_parts-push u t (suc j) c cs (v ∷ vs) h l =
    let e : (c / u == t) ≡ false = ground arith in
    rw e (
      ap (λ ys. (v ++ part u t cs) ∷ ys)
        (app_parts-push u (suc t) j c cs vs (omega arith) (omega arith)))

pub add_parts-nil : (u t : ℕ) (xs : List ℕ) → add_parts u t [] xs ≡ xs
unfolding add_parts part
add_parts-nil u t [] = refl
add_parts-nil u t (x ∷ xs) =
    ap₂ (λ (y : ℕ) (ys : List ℕ). y ∷ ys) (omega arith) (add_parts-nil u (suc t) xs)

pub app_parts-nil : (u t : ℕ) (vs : List (List ℕ)) → app_parts u t [] vs ≡ vs
unfolding app_parts part
app_parts-nil u t [] = refl
app_parts-nil u t (v ∷ vs) =
    ap₂ (λ (y : List ℕ) (ys : List (List ℕ)). y ∷ ys) (append-nil v) (app_parts-nil u (suc t) vs)

length-bump : (xs : List ℕ) (j : ℕ) → length (bump_at xs j) ≡ length xs
unfolding bump_at
length-bump [] j = refl
length-bump (x ∷ xs) zero = refl
length-bump (x ∷ xs) (suc j) = ap suc (length-bump xs j)

length-push : (vs : List (List ℕ)) (j c : ℕ) → length (push_at vs j c) ≡ length vs
unfolding push_at
length-push [] j c = refl
length-push (v ∷ vs) zero c = refl
length-push (v ∷ vs) (suc j) c = ap suc (length-push vs j c)

-- A row whose columns lie in the tiles adds to each tile its part of the row.
pub tile_edges_lem :
    (u n : ℕ) (cs xs : List ℕ) (vs : List (List ℕ))
    → length xs ≡ n
    → length vs ≡ n
    → InTiles u n cs
    → tile_edges u (tile_units 0 n) cs (xs, vs) ≡ (add_parts u 0 cs xs, app_parts u 0 cs vs)
unfolding tile_edges tile_edge InTiles
tile_edges_lem u n [] xs vs p q h =
    λ i. (sym (add_parts-nil u 0 xs) i, sym (app_parts-nil u 0 vs) i)
tile_edges_lem u n (c ∷ cs) xs vs p q (h, hs) =
    let found = tile_of_lem (c / u) 0 n (omega arith) (omega (arith, h)) in
    let xs' = bump_at xs (c / u) in
    let vs' = push_at vs (c / u) c in
    let rest =
      tile_edges_lem u n cs xs' vs' (length-bump xs (c / u) ∙ p) (length-push vs (c / u) c ∙ q)
        hs in
    let counts = add_parts-bump u 0 (c / u) c cs xs (omega arith) (omega (arith, p, h)) in
    let lists = app_parts-push u 0 (c / u) c cs vs (omega arith) (omega (arith, q, h)) in
    rw (tile_edges, tile_edge, found) (rest ∙ (λ i. (counts i, lists i)))
