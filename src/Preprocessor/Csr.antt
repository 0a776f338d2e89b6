-- ===== src/Preprocessor/Csr.antt =====
-- The compressed sparse rows that src/preprocessor.cc reads and writes, against lists of rows.
use mathlib.Core.List.{append_assoc}
use sgcn.Base.{
  ℕ, zero, suc, ◌+◌, ◌≡◌, refl, sym, ap, ◌∙◌, List, [], ◌∷◌, ◌++◌, Option, some, arith, length,
  length-append, get_elem?, ◌==◌, if◌then◌else◌, ◌>>=◌,
}

-- The row pointers of rows that start at `acc`.
abbrev pub csr_ptr : ℕ → List (List ℕ) → List ℕ
csr_ptr acc [] = acc ∷ []
csr_ptr acc (r ∷ rs) = acc ∷ csr_ptr (acc + length r) rs

-- The columns of the rows, one row after the other.
abbrev pub columns : List (List ℕ) → List ℕ
columns [] = []
columns (r ∷ rs) = r ++ columns rs

abbrev pub edges : List (List ℕ) → ℕ
edges [] = 0
edges (r ∷ rs) = length r + edges rs

abbrev pub empty_rows : List (List ℕ) → ℕ
empty_rows [] = 0
empty_rows ([] ∷ rs) = suc (empty_rows rs)
empty_rows ((x ∷ r) ∷ rs) = empty_rows rs

pub length-columns : (rs : List (List ℕ)) → length (columns rs) ≡ edges rs
length-columns [] = refl
length-columns (r ∷ rs) = omega (arith, length-append r (columns rs), length-columns rs)

pub edges-append : (rs ss : List (List ℕ)) → edges (rs ++ ss) ≡ edges rs + edges ss
edges-append [] ss = omega arith
edges-append (r ∷ rs) ss = omega (arith, edges-append rs ss)

pub columns-append : (rs ss : List (List ℕ)) → columns (rs ++ ss) ≡ columns rs ++ columns ss
columns-append [] ss = refl
columns-append (r ∷ rs) ss =
    rw (columns-append rs ss) (sym (append_assoc r (columns rs) (columns ss)))

pub csr_ptr-snoc :
    (acc : ℕ) (rs : List (List ℕ)) (r : List ℕ)
    → csr_ptr acc (rs ++ r ∷ []) ≡ csr_ptr acc rs ++ (acc + edges rs + length r) ∷ []
csr_ptr-snoc acc [] r = ap (λ (t : ℕ). acc ∷ t ∷ []) (omega arith)
csr_ptr-snoc acc (x ∷ rs) r = ap (◌∷◌ acc) (
    csr_ptr-snoc (acc + length x) rs r
    ∙ ap (λ (t : ℕ). csr_ptr (acc + length x) rs ++ t ∷ []) (omega arith))

pub length-csr_ptr : (acc : ℕ) (rs : List (List ℕ)) → length (csr_ptr acc rs) ≡ suc (length rs)
length-csr_ptr acc [] = refl
length-csr_ptr acc (r ∷ rs) = omega (arith, length-csr_ptr (acc + length r) rs)

-- The loop over `v[j]` for j from `lo` on, `n` reads: none where one is out of the vector.
unfoldable pub read_range : List ℕ → ℕ → ℕ → Option (List ℕ)
read_range v j zero = some []
read_range v j (suc n) = do x ← get_elem? v j; rest ← read_range v (suc j) n; some (x ∷ rest)

get_elem?-append : (pre post : List ℕ) (x : ℕ) → get_elem? (pre ++ x ∷ post) (length pre) ≡ some x
get_elem?-append [] post x = refl
get_elem?-append (y ∷ pre) post x = get_elem?-append pre post x

pub read_range-append :
    (pre r post : List ℕ) (j : ℕ)
    → j ≡ length pre
    → read_range (pre ++ (r ++ post)) j (length r) ≡ some r
unfolding read_range
read_range-append pre [] post j e = refl
read_range-append pre (x ∷ r) post j e =
    let shift : pre ++ (x ∷ (r ++ post)) ≡ (pre ++ (x ∷ [])) ++ (r ++ post) =
      sym (append_assoc pre (x ∷ []) (r ++ post)) in
    let rest =
      read_range-append (pre ++ x ∷ []) r post (suc (length pre))
        (omega (arith, length-append pre (x ∷ []))) in
    let rest' = ap (λ l. read_range l (suc (length pre)) (length r)) shift ∙ rest in
    rw (e, get_elem?-append pre (r ++ post) x) (ap (λ o. o >>= λ r'. some (x ∷ r')) rest')

-- The count of empty rows, as the source counts it: equal neighbours among the pointers.
unfoldable pub zero_rows : List ℕ → ℕ
zero_rows [] = 0
zero_rows (x ∷ []) = 0
zero_rows (x ∷ y ∷ ps) = (if y == x then 1 else 0) + zero_rows (y ∷ ps)

pub zero_rows-csr_ptr : (acc : ℕ) (rs : List (List ℕ)) → zero_rows (csr_ptr acc rs) ≡ empty_rows rs
unfolding zero_rows
zero_rows-csr_ptr acc [] = refl
zero_rows-csr_ptr acc ([] ∷ []) = ground (arith, zero_rows-csr_ptr (acc + 0) [])
zero_rows-csr_ptr acc ([] ∷ s ∷ rs) = ground (arith, zero_rows-csr_ptr (acc + 0) (s ∷ rs))
zero_rows-csr_ptr acc ((x ∷ r) ∷ []) = ground (arith, zero_rows-csr_ptr (acc + suc (length r)) [])
zero_rows-csr_ptr acc ((x ∷ r) ∷ s ∷ rs) =
    ground (arith, zero_rows-csr_ptr (acc + suc (length r)) (s ∷ rs))
