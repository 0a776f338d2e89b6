-- ===== src/Preprocessor/Tiling/Permutation.antt =====
-- The tiles of src/preprocessor.cc hold the edges of the graph.
use mathlib.Core.List.{Perm, perm_middle, perm_append_comm, append_assoc}
use mathlib.Core.List.Perm
use sgcn.Base.{
  ℕ, zero, suc, ◌+◌, ◌/◌, ◌≤◌, ◌<◌, ◌≡◌, refl, sym, ap, subst, inl, inr, false, List, [], ◌∷◌, ◌++◌,
  ◌==◌, arith, map, some, Bool-cases,
}
use sgcn.Preprocessor.Tiling.{tile_engine}
use sgcn.Preprocessor.Tiling.Engine.{tile_engine_lem}
use sgcn.Preprocessor.Csr.{csr_ptr, columns, columns-append}
use sgcn.Preprocessor.Tiling.Edges.{part, InTiles}
use sgcn.Preprocessor.Tiling.Tiles.{Rows, tiled, AllInTiles}

-- The parts of a row, tile after tile.
unfoldable parts : ℕ → ℕ → ℕ → List ℕ → List ℕ
parts u t zero r = []
parts u t (suc n) r = part u t r ++ parts u (suc t) n r

parts-past : (u t n c : ℕ) (r : List ℕ) → c / u < t → parts u t n (c ∷ r) ≡ parts u t n r
unfolding parts part
parts-past u t zero c r h = refl
parts-past u t (suc n) c r h =
    let e : (c / u == t) ≡ false = ground arith in
    rw e (ap (part u t r ++◌) (parts-past u (suc t) n c r (omega arith)))

parts-cons :
    (u t n c : ℕ) (r : List ℕ)
    → t ≤ c / u
    → c / u < t + n
    → Perm (parts u t n (c ∷ r)) (c ∷ parts u t n r)
unfolding parts part
parts-cons u t zero c r lo hi = let bad : 0 < 0 = omega (arith, lo, hi) in elim bad [ ]
parts-cons u t (suc n) c r lo hi = elim (Bool-cases (c / u == t)) [
  | inl here ↦
      rw (here, parts-past u (suc t) n c r (ground arith))
        (Perm.refl (c ∷ (part u t r ++ parts u (suc t) n r)))
  | inr further ↦ rw further (
      Perm.trans
        (Perm.append (Perm.refl (part u t r))
          (parts-cons u (suc t) n c r (ground arith) (omega (arith, hi))))
        (perm_middle (part u t r) (parts u (suc t) n r)))
]

parts-nil : (u t n : ℕ) → parts u t n [] ≡ []
unfolding parts part
parts-nil u t zero = refl
parts-nil u t (suc n) = parts-nil u (suc t) n

parts-Perm : (u n : ℕ) (r : List ℕ) → InTiles u n r → Perm (parts u 0 n r) r
unfolding InTiles
parts-Perm u n [] h = subst (λ l. Perm l []) (sym (parts-nil u 0 n)) (Perm.refl [])
parts-Perm u n (c ∷ r) (h, hs) =
    Perm.trans (parts-cons u 0 n c r (omega arith) (omega (arith, h)))
      (Perm.append (Perm.refl (c ∷ [])) (parts-Perm u n r hs))

-- `a ++ (b ++ l)` with its first two parts exchanged.
exchange : (a b l : List ℕ) → Perm (a ++ (b ++ l)) (b ++ (a ++ l))
exchange a b l =
    subst (λ x. Perm x (b ++ (a ++ l))) (append_assoc a b l)
      (subst (Perm ((a ++ b) ++ l)) (append_assoc b a l)
        (Perm.append (perm_append_comm a b) (Perm.refl l)))

tiled-cons :
    (u t n : ℕ) (r : List ℕ) (rs : Rows)
    → Perm (columns (tiled u t n (r ∷ rs))) (parts u t n r ++ columns (tiled u t n rs))
unfolding tiled parts
tiled-cons u t zero r rs = Perm.refl []
tiled-cons u t (suc n) r rs =
    let p = part u t r in
    let c = columns (map (part u t) rs) in
    let more = parts u (suc t) n r in
    let rest = columns (tiled u (suc t) n rs) in
    let split = columns-append (map (part u t) (r ∷ rs)) (tiled u (suc t) n (r ∷ rs)) in
    let joined = columns-append (map (part u t) rs) (tiled u (suc t) n rs) in
    let inner : Perm (c ++ columns (tiled u (suc t) n (r ∷ rs))) (more ++ (c ++ rest)) =
      Perm.trans (Perm.append (Perm.refl c) (tiled-cons u (suc t) n r rs)) (exchange c more rest) in
    subst (λ x. Perm x ((p ++ more) ++ columns (tiled u t (suc n) rs))) (sym split)
      (subst (λ x. Perm ((p ++ c) ++ columns (tiled u (suc t) n (r ∷ rs))) ((p ++ more) ++ x))
        (sym joined)
        (subst (λ x. Perm x ((p ++ more) ++ (c ++ rest)))
          (sym (append_assoc p c (columns (tiled u (suc t) n (r ∷ rs)))))
          (subst (Perm (p ++ (c ++ columns (tiled u (suc t) n (r ∷ rs)))))
            (sym (append_assoc p more (c ++ rest))) (Perm.append (Perm.refl p) inner))))

tiled-nil : (u t n : ℕ) → columns (tiled u t n []) ≡ []
unfolding tiled
tiled-nil u t zero = refl
tiled-nil u t (suc n) = tiled-nil u (suc t) n

-- Cutting the rows by tiles neither loses nor adds an edge, where each column lies in a tile.
tiled-Perm :
    (u n : ℕ) (rs : Rows) → AllInTiles u n rs → Perm (columns (tiled u 0 n rs)) (columns rs)
unfolding AllInTiles
tiled-Perm u n [] h = subst (λ l. Perm l []) (sym (tiled-nil u 0 n)) (Perm.refl [])
tiled-Perm u n (r ∷ rs) (h, hs) =
    Perm.trans (tiled-cons u 0 n r rs) (Perm.append (parts-Perm u n r h) (tiled-Perm u n rs hs))

-- With tiles of a width above 0, and every column in one of them, the tiling of an engine's
-- compressed rows is defined, and its columns are those of the engine, in another order.
pub tile_engine-Perm :
    (u n : ℕ) (rs : Rows)
    → 0 < u
    → AllInTiles u n rs
    → (ptr cols : List ℕ) × (tile_engine n u (csr_ptr 0 rs) (columns rs) ≡ some (ptr, cols))
      × Perm cols (columns rs)
tile_engine-Perm u n rs wide all = (_, _, tile_engine_lem u n rs wide all, tiled-Perm u n rs all)
