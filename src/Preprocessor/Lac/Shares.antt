-- ===== src/Preprocessor/Lac/Shares.antt =====
-- What `LAC` of src/preprocessor.cc gives to each engine: a graph of its own rows, in their order.
use mathlib.Core.List.{append_assoc, append-nil}
use native.Mathlib.Nat.{mod-lt}
use sgcn.Base.{
  ℕ, zero, suc, ◌+◌, ◌-◌, ◌*◌, ◌/◌, ◌%◌, ◌<◌, ◌≡◌, refl, sym, ap, ◌∙◌, true, some, List, [], ◌∷◌,
  ◌++◌, map, ◌==◌, leb, if◌then◌else◌, arith, length, length-append, get_elem?, set, replicate,
  ◌>>=◌, length-replicate, get_elem?_total,
}
use sgcn.Base.Int.{ℤ, pos}
use sgcn.Common.{Env, DataIndex}
use sgcn.Preprocessor.Csr.{
  csr_ptr, columns, edges, empty_rows, columns-append, edges-append, csr_ptr-snoc, length-csr_ptr,
  read_range-append, zero_rows-csr_ptr,
}
use sgcn.Preprocessor.Lac.{
  Split, init, lac_index, chosen_width, deal_row, deal_rows, count_rows, count_all, lac,
}

abbrev pub Rows : Type 0
Rows = List (List ℕ)

-- Row `r` is put at the end of share `k`.
unfoldable pub give : List Rows → ℕ → List ℕ → List Rows
give [] k r = []
give (s ∷ ss) zero r = (s ++ r ∷ []) ∷ ss
give (s ∷ ss) (suc k) r = s ∷ give ss k r

-- The dealing without pointers: row `i` goes to share `(i / w) % n`.
unfoldable pub deal : ℕ → ℕ → ℕ → Rows → List Rows → List Rows
deal w n i [] ss = ss
deal w n i (r ∷ rs) ss = deal w n (suc i) rs (give ss (i / w % n) r)

-- The vectors of the source for given shares.
abbrev pub split_of : List Rows → Split
split_of ss = record {
  edge_acm = map edges ss;
  row_ptr_lac = map (csr_ptr 0) ss;
  col_idx_lac = map columns ss;
}

get_elem?-map :
    {A B : Type 0} (f : A → B) (xs : List A) (k : ℕ) (x : A)
    → get_elem? xs k ≡ some x
    → get_elem? (map f xs) k ≡ some (f x)
get_elem?-map f [] k x h = ground arith
get_elem?-map f (y ∷ xs) zero x h = ground arith
get_elem?-map f (y ∷ xs) (suc k) x h = get_elem?-map f xs k x h

pub length-give : (ss : List Rows) (k : ℕ) (r : List ℕ) → length (give ss k r) ≡ length ss
unfolding give
length-give [] k r = refl
length-give (s ∷ ss) zero r = refl
length-give (s ∷ ss) (suc k) r = ap suc (length-give ss k r)

set-map-give :
    {B : Type 0} (f : Rows → B) (ss : List Rows) (k : ℕ) (r : List ℕ) (s : Rows) (v : B)
    → get_elem? ss k ≡ some s
    → v ≡ f (s ++ r ∷ [])
    → set (map f ss) k v ≡ map f (give ss k r)
unfolding give
set-map-give f [] k r s v h e = refl
set-map-give f (x ∷ ss) zero r s v h e = ground arith
set-map-give f (x ∷ ss) (suc k) r s v h e = ap (◌∷◌ (f x)) (set-map-give f ss k r s v h e)

deal_row_lem :
    (w n i k lo : ℕ) (pre r post : List ℕ) (ss : List Rows) (s : Rows)
    → lac_index i (pos w) n ≡ some k
    → lo ≡ length pre
    → get_elem? ss k ≡ some s
    → deal_row (pos w) n (pre ++ (r ++ post)) i lo (lo + length r) (split_of ss)
      ≡ some (split_of (give ss k r))
unfolding deal_row
deal_row_lem w n i k lo pre r post ss s index at' found =
    let size : lo + length r - lo ≡ length r = omega arith in
    let fits : leb lo (lo + length r) ≡ true = ground arith in
    rw
      (
        fits,
        index,
        get_elem?-map edges ss k s found,
        get_elem?-map (csr_ptr 0) ss k s found,
        get_elem?-map columns ss k s found,
        size,
        read_range-append pre r post lo at',
      )
      (λ j. some (record {
        edge_acm =
            set-map-give edges ss k r s (edges s + length r) found
              (omega (arith, edges-append s (r ∷ []))) j;
        row_ptr_lac =
            set-map-give (csr_ptr 0) ss k r s _ found (sym (csr_ptr-snoc 0 s r ∙ zeroed)) j;
        col_idx_lac =
            set-map-give columns ss k r s _ found (sym (columns-append s (r ∷ []) ∙ unnil)) j;
      }))
  where
    zeroed : csr_ptr 0 s ++ (0 + edges s + length r) ∷ [] ≡ csr_ptr 0 s ++ (edges s + length r) ∷ []
    zeroed = ap (λ (t : ℕ). csr_ptr 0 s ++ t ∷ []) (omega arith)

    unnil : columns s ++ (r ++ []) ≡ columns s ++ r
    unnil = ap (◌++◌ (columns s)) (append-nil r)

lac_index_lem : (i w n : ℕ) → 0 < n → lac_index i (pos (suc w)) n ≡ some (i / suc w % n)
unfolding lac_index
lac_index_lem i w n h = ground arith

deal_rows_next :
    (w : ℤ) (n : ℕ) (cols : List ℕ) (i lo hi : ℕ) (rs : Rows) (s : Split)
    → deal_rows w n cols i (lo ∷ csr_ptr hi rs) s
      ≡ (deal_row w n cols i lo hi s >>= deal_rows w n cols (suc i) (csr_ptr hi rs))
unfolding deal_rows
deal_rows_next w n cols i lo hi [] s = refl
deal_rows_next w n cols i lo hi (r ∷ rs) s = refl

deal_rows_lem :
    (w n i lo : ℕ) (pre : List ℕ) (rs : Rows) (ss : List Rows)
    → 0 < n
    → length ss ≡ n
    → lo ≡ length pre
    → deal_rows (pos (suc w)) n (pre ++ columns rs) i (csr_ptr lo rs) (split_of ss)
      ≡ some (split_of (deal (suc w) n i rs ss))
unfolding deal_rows deal
deal_rows_lem w n i lo pre [] ss n0 size at' = refl
deal_rows_lem w n i lo pre (r ∷ rs) ss n0 size at' =
    let k = i / suc w % n in
    let (s, found) = get_elem?_total ss k (omega (arith, size, mod-lt (i / suc w) n0)) in
    let step =
      deal_row_lem (suc w) n i k lo pre r (columns rs) ss s (lac_index_lem i w n n0) at' found in
    let rest =
      deal_rows_lem w n (suc i) (lo + length r) (pre ++ r) rs (give ss k r) n0
        (length-give ss k r ∙ size) (omega (arith, length-append pre r)) in
    let moved : pre ++ (r ++ columns rs) ≡ (pre ++ r) ++ columns rs =
      sym (append_assoc pre r (columns rs)) in
    deal_rows_next (pos (suc w)) n _ i lo (lo + length r) rs (split_of ss)
    ∙ ap
        (λ o.
          o
          >>= deal_rows (pos (suc w)) n (pre ++ (r ++ columns rs)) (suc i)
              (csr_ptr (lo + length r) rs))
        step
    ∙ ap
        (λ v.
          deal_rows (pos (suc w)) n v (suc i) (csr_ptr (lo + length r) rs) (split_of (give ss k r)))
        moved
    ∙ rest

-- The rows of engine `k`, in the order of the graph: those with `(i / w) % n = k`.
unfoldable pub share : ℕ → ℕ → ℕ → ℕ → Rows → Rows
share w n k i [] = []
share w n k i (r ∷ rs) =
    let rest = share w n k (suc i) rs in if i / w % n == k then r ∷ rest else rest

get_elem?-give :
    (ss : List Rows) (k j : ℕ) (r : List ℕ) (s : Rows)
    → get_elem? ss j ≡ some s
    → get_elem? (give ss k r) j ≡ some (if k == j then s ++ r ∷ [] else s)
unfolding give
get_elem?-give [] k j r s h = ground arith
get_elem?-give (x ∷ ss) zero zero r s h = ground arith
get_elem?-give (x ∷ ss) zero (suc j) r s h = ground arith
get_elem?-give (x ∷ ss) (suc k) zero r s h = ground arith
get_elem?-give (x ∷ ss) (suc k) (suc j) r s h = ground (arith, get_elem?-give ss k j r s)

deal-share :
    (w n k i : ℕ) (rs : Rows) (ss : List Rows) (s : Rows)
    → get_elem? ss k ≡ some s
    → get_elem? (deal w n i rs ss) k ≡ some (s ++ share w n k i rs)
unfolding deal share
deal-share w n k i [] ss s h = h ∙ ap some (sym (append-nil s))
deal-share w n k i (r ∷ rs) ss s h =
    deal-share w n k (suc i) rs (give ss (i / w % n) r) _ (get_elem?-give ss (i / w % n) k r s h)
    ∙ ground (arith, append_assoc s (r ∷ []) (share w n k (suc i) rs))

length-deal : (w n i : ℕ) (rs : Rows) (ss : List Rows) → length (deal w n i rs ss) ≡ length ss
unfolding deal
length-deal w n i [] ss = refl
length-deal w n i (r ∷ rs) ss =
    length-deal w n (suc i) rs (give ss (i / w % n) r) ∙ length-give ss (i / w % n) r

-- The shares of all engines.
unfoldable pub shares : ℕ → ℕ → Rows → List Rows
shares w n rs = deal w n 0 rs (replicate n [])

init-split_of : (n : ℕ) → init n ≡ split_of (replicate n [])
unfolding init
init-split_of n = λ j. record {
  edge_acm = map-replicate edges n [] j;
  row_ptr_lac = map-replicate (csr_ptr 0) n [] j;
  col_idx_lac = map-replicate columns n [] j;
}
  where
    map-replicate :
        {A B : Type 0} (f : A → B) (n : ℕ) (a : A) → replicate n (f a) ≡ map f (replicate n a)
    map-replicate f zero a = refl
    map-replicate f (suc n) a = ap (◌∷◌ (f a)) (map-replicate f n a)

-- What the source notes of an engine with the rows `s`.
abbrev pub noted : ℕ → Rows → DataIndex → DataIndex
noted total_urb s d = record d {
  row = length s;
  zero_row = empty_rows s;
  total_write = (length s - empty_rows s) * total_urb;
}

abbrev pub noted_all : ℕ → List Rows → List DataIndex → List DataIndex
noted_all u [] ds = ds
noted_all u (s ∷ ss) [] = []
noted_all u (s ∷ ss) (d ∷ ds) = noted u s d ∷ noted_all u ss ds

count_rows_lem : (u : ℕ) (s : Rows) (d : DataIndex) → count_rows u (csr_ptr 0 s) d ≡ noted u s d
unfolding count_rows
count_rows_lem u s d =
    let len : length (csr_ptr 0 s) - 1 ≡ length s = omega (arith, length-csr_ptr 0 s) in
    λ j. record d {
      row = len j;
      zero_row = zero_rows-csr_ptr 0 s j;
      total_write = (len j - zero_rows-csr_ptr 0 s j) * u;
    }

pub count_all_lem :
    (u : ℕ) (ss : List Rows) (ds : List DataIndex)
    → length ss ≡ length ds
    → count_all u (map (csr_ptr 0) ss) ds ≡ some (noted_all u ss ds)
unfolding count_all
count_all_lem u [] ds h = refl
count_all_lem u (s ∷ ss) [] h = absurd (omega arith)
count_all_lem u (s ∷ ss) (d ∷ ds) h =
    rw (count_all_lem u ss ds (omega arith), count_rows_lem u s d) refl

-- A graph as its rows, where `LAC` starts: one pointer vector and one column vector.
pub record IsGraph (env : Env) (rs : Rows) : Type 0 where
  pub pointers : env.row_ptr ≡ csr_ptr 0 rs ∷ []
  pub indices : env.col_idx ≡ columns rs ∷ []
  pub engines : 0 < env.arch_info.n_of_engine
  pub indexed : length env.data_index ≡ env.arch_info.n_of_engine

-- On a well-formed graph and with a positive width, `LAC` is defined and gives each engine the
-- compressed rows of its share; it notes for the engine how many rows these are, how many are empty,
-- and how many lines the others will write.
pub lac-shares :
    (env : Env) (rs : Rows) (w : ℕ)
    → IsGraph env rs
    → chosen_width env.arch_info.lac_width env.data_info.a_h env.data_info.n_tiles
        env.arch_info.n_of_engine
      ≡ some (pos (suc w))
    → let ss = shares (suc w) env.arch_info.n_of_engine rs in
      lac env
      ≡ some (record env {
        arch_info = record (env.arch_info) { lac_width = pos (suc w) };
        data_index = noted_all env.data_info.total_urb ss env.data_index;
        row_ptr = map (csr_ptr 0) ss;
        col_idx = map columns ss;
      })
unfolding lac shares
lac-shares env rs w g width =
    let n = env.arch_info.n_of_engine in
    let dealt =
      deal_rows_lem w n 0 0 [] rs (replicate n []) g.engines (length-replicate n []) refl in
    let counted =
      count_all_lem env.data_info.total_urb (deal (suc w) n 0 rs (replicate n [])) env.data_index
        (length-deal (suc w) n 0 rs (replicate n []) ∙ length-replicate n [] ∙ sym g.indexed) in
    rw (width, g.pointers, g.indices, init-split_of n, dealt, counted) refl

-- For every `k` below the number `n` of engines, the share of engine `k` is exactly the rows `i` of
-- the graph with `(i / w) % n = k`, in their order.
pub shares-share :
    (w n k : ℕ) (rs : Rows) → k < n → get_elem? (shares w n rs) k ≡ some (share w n k 0 rs)
unfolding shares
shares-share w n k rs h = deal-share w n k 0 rs (replicate n []) [] (get_elem?-replicate n k h)
  where
    get_elem?-replicate : (n k : ℕ) → k < n → get_elem? (replicate {A = Rows} n []) k ≡ some []
    get_elem?-replicate zero k h = elim h [ ]
    get_elem?-replicate (suc n) zero h = refl
    get_elem?-replicate (suc n) (suc k) h = get_elem?-replicate n k (omega arith)
