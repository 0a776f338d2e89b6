-- ===== src/GraphReader/Share.antt =====
-- The shares that `LAC` of src/preprocessor.cc deals out are what `NextFeature` of src/g_reader.cc
-- needs, and its indices are in step from the start.
use sgcn.Base.{
  ℕ, zero, suc, ◌+◌, ◌-◌, ◌≤◌, ◌≡◌, refl, sym, ap, ◌∙◌, some, List, [], ◌∷◌, arith, length,
  get_elem?,
}
use sgcn.Common.{Env}
use sgcn.GraphReader.Defs.{GraphReader, init}
use sgcn.GraphReader.Rows.{IsCsr}
use sgcn.GraphReader.Edges.{Aligned}
use sgcn.Preprocessor.Csr.{csr_ptr, columns, edges, length-columns, length-csr_ptr}

csr_ptr-first : (a : ℕ) (rs : List (List ℕ)) → get_elem? (csr_ptr a rs) 0 ≡ some a
csr_ptr-first a [] = refl
csr_ptr-first a (r ∷ rs) = refl

csr_ptr-last :
    (a : ℕ) (rs : List (List ℕ)) → get_elem? (csr_ptr a rs) (length rs) ≡ some (a + edges rs)
csr_ptr-last a [] = ap some (omega arith)
csr_ptr-last a (r ∷ rs) = csr_ptr-last (a + length r) rs ∙ ap some (omega arith)

csr_ptr-rising :
    (a : ℕ) (rs : List (List ℕ)) (i lo hi : ℕ)
    → get_elem? (csr_ptr a rs) i ≡ some lo
    → get_elem? (csr_ptr a rs) (suc i) ≡ some hi
    → lo ≤ hi
csr_ptr-rising a [] zero lo hi p q = ground arith
csr_ptr-rising a [] (suc i) lo hi p q = ground arith
csr_ptr-rising a (r ∷ rs) zero lo hi p q =
    let next : some (a + length r) ≡ some hi = sym (csr_ptr-first (a + length r) rs) ∙ q in
    ground arith
csr_ptr-rising a (r ∷ rs) (suc i) lo hi p q = csr_ptr-rising (a + length r) rs i lo hi p q

csr_ptr-bounded :
    (a : ℕ) (rs : List (List ℕ)) (i p : ℕ) → get_elem? (csr_ptr a rs) i ≡ some p → p ≤ a + edges rs
csr_ptr-bounded a [] zero p h = ground arith
csr_ptr-bounded a [] (suc i) p h = ground arith
csr_ptr-bounded a (r ∷ rs) zero p h = ground arith
csr_ptr-bounded a (r ∷ rs) (suc i) p h = omega (arith, csr_ptr-bounded (a + length r) rs i p h)

pub csr_ptr-IsCsr :
    (r : List ℕ) (rs : List (List ℕ)) → IsCsr (csr_ptr 0 (r ∷ rs)) (columns (r ∷ rs))
csr_ptr-IsCsr r rs =
    let size = length-csr_ptr 0 (r ∷ rs) in
    let e : length (csr_ptr 0 (r ∷ rs)) - 1 ≡ length (r ∷ rs) = omega (arith, size) in
    let all : 0 + edges (r ∷ rs) ≡ length (columns (r ∷ rs)) =
      omega (arith, length-columns (r ∷ rs)) in
    record {
      rows = omega (arith, size);
      starts = refl;
      ends = ap (get_elem? (csr_ptr 0 (r ∷ rs))) e ∙ csr_ptr-last 0 (r ∷ rs) ∙ ap some all;
      rising = csr_ptr-rising 0 (r ∷ rs);
      bounded = λ i p h. omega (arith, csr_ptr-bounded 0 (r ∷ rs) i p h, all);
    }

-- A reader that is just made is in step with every well-formed share.
pub init-Aligned :
    (env : Env) (id : ℕ) (ptr cols : List ℕ) (g : GraphReader)
    → IsCsr ptr cols
    → init env id ≡ some g
    → Aligned ptr cols g
unfolding init
init-Aligned env id ptr cols g c h =
    let e : g.grs.cur_row_idx - 1 ≡ 0 = ground arith in
    record {
      in_step = record {
        first = ground arith;
        last = ground (arith, c.rows);
        left = 0;
        left_eq = ground arith;
        stop = 0;
        stop_eq = ap (get_elem? ptr) e ∙ c.starts;
        step = ground arith;
      };
      col_le = ground arith;
      end_le = ground arith;
    }
