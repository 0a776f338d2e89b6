-- ===== src/Preprocessor/Lac/Balance.antt =====
-- No row of the graph is lost or doubled by `LAC` of src/preprocessor.cc.
use mathlib.Core.List.{Perm, perm_middle, append_assoc, append-nil}
use mathlib.Core.List.Perm
use native.Mathlib.Nat.{mod-lt}
use sgcn.Base.{
  ℕ, zero, suc, ◌/◌, ◌%◌, ◌<◌, some, map, get_elem?, ◌≡◌, refl, sym, subst, List, [], ◌∷◌, ◌++◌,
  arith, length, replicate, length-replicate, ◌∙◌,
}
use sgcn.Base.Int.{pos}
use sgcn.Common.{Env}
use sgcn.Preprocessor.Csr.{csr_ptr, columns}
use sgcn.Preprocessor.Lac.{chosen_width, lac}
use sgcn.Preprocessor.Lac.Shares.{
  IsGraph, share, lac-shares, shares-share, Rows, give, deal, shares, length-give,
}

-- All rows of the shares, share after share.
abbrev pub join : List Rows → Rows
join [] = []
join (s ∷ ss) = s ++ join ss

give-perm :
    (ss : List Rows) (k : ℕ) (r : List ℕ) → k < length ss → Perm (join (give ss k r)) (r ∷ join ss)
unfolding give
give-perm [] k r h = elim h [ ]
give-perm (s ∷ ss) zero r h =
    subst (λ l. Perm l (r ∷ (s ++ join ss))) (sym (append_assoc s (r ∷ []) (join ss)))
      (perm_middle s (join ss))
give-perm (s ∷ ss) (suc k) r h =
    Perm.trans (Perm.append (Perm.refl s) (give-perm ss k r (omega arith)))
      (perm_middle s (join ss))

deal-perm :
    (w n i : ℕ) (rs : Rows) (ss : List Rows)
    → 0 < n
    → length ss ≡ n
    → Perm (join (deal w n i rs ss)) (join ss ++ rs)
unfolding deal
deal-perm w n i [] ss n0 size =
    subst (Perm (join ss)) (sym (append-nil (join ss))) (Perm.refl (join ss))
deal-perm w n i (r ∷ rs) ss n0 size =
    Perm.trans
      (deal-perm w n (suc i) rs (give ss (i / w % n) r) n0 (length-give ss (i / w % n) r ∙ size))
      (Perm.trans
        (Perm.append (give-perm ss (i / w % n) r (omega (arith, size, mod-lt (i / w) n0)))
          (Perm.refl rs))
        (Perm.symm (perm_middle (join ss) rs)))

join-nil : (n : ℕ) → join (replicate n []) ≡ []
join-nil zero = refl
join-nil (suc n) = join-nil n

-- With at least one engine, the shares of the engines hold together exactly the rows of the graph,
-- each as often.
shares-perm : (w n : ℕ) (rs : Rows) → 0 < n → Perm (join (shares w n rs)) rs
unfolding shares
shares-perm w n rs n0 =
    subst (λ l. Perm (join (deal w n 0 rs (replicate n []))) (l ++ rs)) (join-nil n)
      (deal-perm w n 0 rs (replicate n []) n0 (length-replicate n []))

-- On a well-formed graph and with a positive width, `LAC` is defined, and what it gives the engines
-- are the compressed rows of lists of rows that hold together exactly the rows of the graph, each as
-- often; engine `k` has the rows `i` with `(i / lac_width) % n = k`, in the order of the graph.
pub lac-Perm :
    (env : Env) (rs : Rows) (w : ℕ)
    → let n = env.arch_info.n_of_engine in
      IsGraph env rs
      → chosen_width env.arch_info.lac_width env.data_info.a_h env.data_info.n_tiles n
        ≡ some (pos (suc w))
      → (env' : Env) × (ss : List Rows) × (lac env ≡ some env')
        × (env'.row_ptr ≡ map (csr_ptr 0) ss)
        × (env'.col_idx ≡ map columns ss)
        × Perm (join ss) rs
        × ((k : ℕ) → k < n → get_elem? ss k ≡ some (share (suc w) n k 0 rs))
lac-Perm env rs w g width =
    let n = env.arch_info.n_of_engine in
    (
      _,
      shares (suc w) n rs,
      lac-shares env rs w g width,
      refl,
      refl,
      shares-perm (suc w) n rs g.engines,
      λ k h. shares-share (suc w) n k rs h,
    )
