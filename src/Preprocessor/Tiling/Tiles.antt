-- ===== src/Preprocessor/Tiling/Tiles.antt =====
-- The loop over an engine's rows in `Tiling` of src/preprocessor.cc, against the rows cut by tiles.
use mathlib.Core.List.{append_assoc, append-nil}
use sgcn.Base.{
  ℕ, zero, suc, ◌+◌, ◌-◌, ◌<◌, ◌≡◌, refl, sym, ap, ap₂, ◌∙◌, true, false, some, List, [], ◌∷◌, ◌++◌,
  ◌==◌, leb, arith, length, replicate, map, length-append, length-replicate, ◌>>=◌,
}
use sgcn.Preprocessor.Csr.{csr_ptr, columns, read_range, read_range-append, columns-append}
use sgcn.Preprocessor.Tiling.{tile_units, Tiled, tile_edges, push_all, tile_row, tile_rows}
use sgcn.Preprocessor.Tiling.Edges.{
  part, add_parts, app_parts, InTiles, add_parts-nil, app_parts-nil, tile_edges_lem,
}

abbrev pub Rows : Type 0
Rows = List (List ℕ)

-- The rows of the tiles from `t` on, `n` of them, tile after tile.
unfoldable pub tiled : ℕ → ℕ → ℕ → Rows → Rows
tiled u t zero rs = []
tiled u t (suc n) rs = map (part u t) rs ++ tiled u (suc t) n rs

-- Every column of every row lies in one of the `n` tiles.
unfoldable pub AllInTiles : ℕ → ℕ → Rows → Type 0
AllInTiles u n [] = Unit {0}
AllInTiles u n (r ∷ rs) = InTiles u n r × AllInTiles u n rs

-- `v_list` and `e_list` after the rows.
unfoldable pub sizes : ℕ → ℕ → ℕ → Rows → List (List ℕ)
sizes u t zero rs = []
sizes u t (suc n) rs = map length (map (part u t) rs) ∷ sizes u (suc t) n rs

unfoldable pub lists : ℕ → ℕ → ℕ → Rows → List (List ℕ)
lists u t zero rs = []
lists u t (suc n) rs = columns (map (part u t) rs) ∷ lists u (suc t) n rs

unfoldable pub cut : ℕ → ℕ → Rows → Tiled
cut u n rs = record { v_list = sizes u 0 n rs; e_list = lists u 0 n rs }

length-lists : (u t n : ℕ) (rs : Rows) → length (lists u t n rs) ≡ n
unfolding lists
length-lists u t zero rs = refl
length-lists u t (suc n) rs = ap suc (length-lists u (suc t) n rs)

map-snoc :
    {A B : Type 0} (f : A → B) (xs : List A) (x : A) → map f (xs ++ x ∷ []) ≡ map f xs ++ f x ∷ []
map-snoc f [] x = refl
map-snoc f (y ∷ xs) x = ap (f y ∷◌) (map-snoc f xs x)

sizes-snoc :
    (u t n : ℕ) (pre : Rows) (r : List ℕ)
    → push_all (sizes u t n pre) (add_parts u t r (replicate n 0)) ≡ sizes u t n (pre ++ r ∷ [])
unfolding sizes push_all add_parts
sizes-snoc u t zero pre r = refl
sizes-snoc u t (suc n) pre r =
    let e : 0 + length (part u t r) ≡ length (part u t r) = omega arith in
    ap₂ (λ (y : List ℕ) (ys : List (List ℕ)). y ∷ ys)
      (ap (λ (k : ℕ). map length (map (part u t) pre) ++ k ∷ []) e
        ∙ sym (map-snoc length (map (part u t) pre) (part u t r))
        ∙ ap (map length) (sym (map-snoc (part u t) pre r)))
      (sizes-snoc u (suc t) n pre r)

lists-snoc :
    (u t n : ℕ) (pre : Rows) (r : List ℕ)
    → app_parts u t r (lists u t n pre) ≡ lists u t n (pre ++ r ∷ [])
unfolding lists app_parts
lists-snoc u t zero pre r = refl
lists-snoc u t (suc n) pre r =
    ap₂ (λ (y : List ℕ) (ys : List (List ℕ)). y ∷ ys)
      (ap (λ (k : List ℕ). columns (map (part u t) pre) ++ k) (sym (append-nil (part u t r)))
        ∙ sym (columns-append (map (part u t) pre) (part u t r ∷ []))
        ∙ ap columns (sym (map-snoc (part u t) pre r)))
      (lists-snoc u (suc t) n pre r)

length-units : (l n : ℕ) → length (tile_units l n) ≡ n
unfolding tile_units
length-units l zero = refl
length-units l (suc n) = ap suc (length-units (l + 1) n)

-- The state after one more row.
abbrev grown : ℕ → ℕ → List ℕ → Rows → Tiled
grown u n r done = record {
  v_list = push_all (sizes u 0 n done) (add_parts u 0 r (replicate n 0));
  e_list = app_parts u 0 r (lists u 0 n done);
}

grown-cut : (u n : ℕ) (r : List ℕ) (done : Rows) → grown u n r done ≡ cut u n (done ++ r ∷ [])
unfolding cut
grown-cut u n r done =
    let v = sizes-snoc u 0 n done r in
    let e = lists-snoc u 0 n done r in λ i. record { v_list = v i; e_list = e i }

tile_row-grown :
    (u n lo : ℕ) (pre r post : List ℕ) (done : Rows)
    → 0 < u
    → lo ≡ length pre
    → InTiles u n r
    → tile_row u (tile_units 0 n) (pre ++ (r ++ post)) lo (lo + length r) (cut u n done)
      ≡ some (grown u n r done)
unfolding tile_row cut
tile_row-grown u n lo pre [] post done wide at' fits =
    let none_there : leb (lo + 0) lo ≡ true = ground arith in
    let v =
      ap (push_all (sizes u 0 n done))
        (ap (λ k. replicate k 0) (length-units 0 n) ∙ sym (add_parts-nil u 0 (replicate n 0))) in
    let e = sym (app_parts-nil u 0 (lists u 0 n done)) in
    rw none_there (λ i. some (record { v_list = v i; e_list = e i }))
tile_row-grown u n lo pre (x ∷ r) post done wide at' fits =
    let some_there : leb (lo + suc (length r)) lo ≡ false = ground arith in
    let not_zero : (u == 0) ≡ false = ground arith in
    let size : lo + suc (length r) - lo ≡ suc (length r) = omega arith in
    let read =
      ap (read_range (pre ++ (x ∷ r ++ post)) lo) size
      ∙ read_range-append pre (x ∷ r) post lo at' in
    let dealt =
      ap (λ k. tile_edges u (tile_units 0 n) (x ∷ r) (replicate k 0, lists u 0 n done))
        (length-units 0 n)
      ∙ tile_edges_lem u n (x ∷ r) (replicate n 0) (lists u 0 n done) (length-replicate n 0)
          (length-lists u 0 n done) fits in
    rw (some_there, not_zero, read)
      (λ i.
        some (record { v_list = push_all (sizes u 0 n done) (dealt i).0; e_list = (dealt i).1 }))

tile_row_lem :
    (u n lo : ℕ) (pre r post : List ℕ) (done : Rows)
    → 0 < u
    → lo ≡ length pre
    → InTiles u n r
    → tile_row u (tile_units 0 n) (pre ++ (r ++ post)) lo (lo + length r) (cut u n done)
      ≡ some (cut u n (done ++ r ∷ []))
tile_row_lem u n lo pre r post done wide at' fits =
    tile_row-grown u n lo pre r post done wide at' fits ∙ ap some (grown-cut u n r done)

tile_rows_next :
    (u lo hi : ℕ) (units cols : List ℕ) (rs : Rows) (t : Tiled)
    → tile_rows u units cols (lo ∷ csr_ptr hi rs) t
      ≡ (tile_row u units cols lo hi t >>= tile_rows u units cols (csr_ptr hi rs))
unfolding tile_rows
tile_rows_next u lo hi units cols [] t = refl
tile_rows_next u lo hi units cols (r ∷ rs) t = refl

pub tile_rows_lem :
    (u n lo : ℕ) (pre : List ℕ) (done rs : Rows)
    → 0 < u
    → lo ≡ length pre
    → AllInTiles u n rs
    → tile_rows u (tile_units 0 n) (pre ++ columns rs) (csr_ptr lo rs) (cut u n done)
      ≡ some (cut u n (done ++ rs))
unfolding AllInTiles tile_rows
tile_rows_lem u n lo pre done [] wide at' fits = ap (λ d. some (cut u n d)) (sym (append-nil done))
tile_rows_lem u n lo pre done (r ∷ rs) wide at' (fits, all) =
    let units = tile_units 0 n in
    let cols = pre ++ (r ++ columns rs) in
    let next = λ (v : List ℕ). tile_rows u units v (csr_ptr (lo + length r) rs) in
    tile_rows_next u lo (lo + length r) units cols rs (cut u n done)
    ∙ ap (λ o. o >>= next cols) (tile_row_lem u n lo pre r (columns rs) done wide at' fits)
    ∙ ap (λ v. next v (cut u n (done ++ r ∷ []))) (sym (append_assoc pre r (columns rs)))
    ∙ tile_rows_lem u n (lo + length r) (pre ++ r) (done ++ r ∷ []) rs wide
        (omega (arith, length-append pre r)) all
    ∙ ap (λ d. some (cut u n d)) (append_assoc done (r ∷ []) rs)
