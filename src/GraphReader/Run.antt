-- ===== src/GraphReader/Run.antt =====
-- An engine's reader over time: the calls of src/controller.cc on one `GraphReader`, in any order,
-- and the edges that `NextFeature` passes among them.
use native.Mathlib.Nat.{mul-add-div_right, mul-add-mod_self_right, div-eq_of_lt, mod-eq_of_lt}
use sgcn.Base.{
  ℕ, zero, suc, ◌+◌, ◌*◌, ◌/◌, ◌%◌, ◌<◌, ◌≡◌, ◌≢◌, sym, ap, ap₂, ◌∙◌, subst, ◌⊎◌, inl, inr, some,
  List, [], ◌∷◌, arith, length, get_elem?, get_elem?_lt, some_inj,
}
use sgcn.Base.Int.{pos, negsuc}
use sgcn.Common.{Env, EdgeInfo}
use sgcn.Memory.{Memory}
use sgcn.GraphReader.Defs.{GraphReader, init, vertex_request, edge_request}
use sgcn.GraphReader.Receiving.{graph_receive}
use sgcn.GraphReader.Passing.{next_feature, no_edge}
use sgcn.GraphReader.Rows.{IsCsr}
use sgcn.GraphReader.Edges.{Aligned, Passed, Waited, passed}
use sgcn.GraphReader.Pass.{next_feature-Answers}
use sgcn.GraphReader.Receive.{Stays, vertex_request-Stays, edge_request-Stays, graph_receive-Stays}
use sgcn.GraphReader.Share.{init-Aligned}

-- Calls that lead from one state of the reader to another, and the edges passed on the way. What the
-- memory answers between them is free.
pub data Run (env : Env) : GraphReader → List EdgeInfo → GraphReader → Type 0 where
  done : {g : GraphReader} → Run env g [] g
  vertex :
      {g g₁ g' : GraphReader} (m m' : Memory) {es : List EdgeInfo}
      → vertex_request env g m ≡ some (g₁, m')
      → Run env g₁ es g'
      → Run env g es g'
  edge :
      {g g₁ g' : GraphReader} (m m' : Memory) {es : List EdgeInfo}
      → edge_request env g m ≡ some (g₁, m')
      → Run env g₁ es g'
      → Run env g es g'
  receive :
      {g g₁ g' : GraphReader} (m m' : Memory) {es : List EdgeInfo}
      → graph_receive env g m ≡ some (g₁, m')
      → Run env g₁ es g'
      → Run env g es g'
  waits :
      {g g₁ g' : GraphReader} {es : List EdgeInfo}
      → next_feature env g ≡ some (g₁, no_edge g.id)
      → Run env g₁ es g'
      → Run env g es g'
  passes :
      {g g₁ g' : GraphReader} {ei : EdgeInfo} {es : List EdgeInfo}
      → next_feature env g ≡ some (g₁, ei)
      → ei.dst ≢ negsuc 0
      → Run env g₁ es g'
      → Run env g (ei ∷ es) g'

-- The edge is number `p` of all passes over the columns.
pub record IsEdge (cols : List ℕ) (id p : ℕ) (ei : EdgeInfo) : Type 0 where
  pub id_eq : ei.id ≡ id
  pub dst : ℕ
  pub column : get_elem? cols (p % length cols) ≡ some dst
  pub dst_eq : ei.dst ≡ pos dst
  pub fold_eq : ei.v_fold ≡ pos (p / length cols)

quotient : (q r l : ℕ) → r < l → (q * l + r) / l ≡ q
quotient q r l h = mul-add-div_right (omega arith) q r ∙ omega (arith, div-eq_of_lt h)

remainder : (q r l : ℕ) → r < l → (q * l + r) % l ≡ r
remainder q r l h = mul-add-mod_self_right q l r ∙ mod-eq_of_lt h

module _ (ptr cols : List ℕ) (c : IsCsr ptr cols) (env : Env) where
  Passed-IsEdge :
      (g g' : GraphReader) (ei : EdgeInfo)
      → Passed ptr cols g g' ei
      → IsEdge cols g.id (passed cols g) ei × (passed cols g' ≡ passed cols g + 1)
  Passed-IsEdge g g' ei p =
      let inside : p.col < length cols = get_elem?_lt cols p.col p.dst p.column in
      let here : passed cols g ≡ g'.g_pass_count * length cols + p.col = elim p.order [
        | inl (same_col, same_pass) ↦
            ap₂ (λ n k. n * length cols + k) (sym same_pass) (sym same_col)
        | inr (ends, first, next_pass) ↦
            ap (λ k. g.g_pass_count * length cols + k) ends
            ∙ omega arith
            ∙ ap₂ (λ n k. n * length cols + k) (sym next_pass) (sym first)
      ] in
      (
        record {
          id_eq = p.id_eq;
          dst = p.dst;
          column =
              ap (λ n. get_elem? cols (n % length cols)) here
              ∙ ap (get_elem? cols) (remainder g'.g_pass_count p.col (length cols) inside)
              ∙ p.column;
          dst_eq = p.dst_eq;
          fold_eq =
              p.fold_eq
              ∙ ap pos (
                  sym (
                    ap (◌/ length cols) here
                    ∙ quotient g'.g_pass_count p.col (length cols) inside));
        },
        omega (arith, p.moved, here),
      )

  before : (id n k : ℕ) (ei : EdgeInfo) → n ≡ k → IsEdge cols id n ei → IsEdge cols id k ei
  before id n k ei e = subst (λ p. IsEdge cols id p ei) e

  stayed :
      (g g₁ : GraphReader) (i : ℕ) → Stays ptr cols g g₁ → passed cols g₁ + i ≡ passed cols g + i
  stayed g g₁ i s = ap₂ (λ n k. n * length cols + k + i) s.same_pass s.same_col

  -- The answer of a known call.
  answered :
      (g g₁ : GraphReader) (ei : EdgeInfo)
      → get_elem? env.row_ptr g.id ≡ some ptr
      → get_elem? env.col_idx g.id ≡ some cols
      → Aligned ptr cols g
      → next_feature env g ≡ some (g₁, ei)
      → Aligned ptr cols g₁ × (Waited cols g g₁ ei ⊎ Passed ptr cols g g₁ ei)
  answered g g₁ ei p q a e =
      let (g₂, ei₂, e₂, a₂, answer) = next_feature-Answers env ptr cols g c p q a in
      let same : (g₂, ei₂) ≡ (g₁, ei) = some_inj (sym e₂ ∙ e) in
      subst (λ r. Aligned ptr cols r.0 × (Waited cols g r.0 r.1 ⊎ Passed ptr cols g r.0 r.1)) same
        (a₂, answer)

  waits_on :
      (g g₁ : GraphReader)
      → Waited cols g g₁ (no_edge g.id) ⊎ Passed ptr cols g g₁ (no_edge g.id)
      → Waited cols g g₁ (no_edge g.id)
  unfolding no_edge
  waits_on g g₁ (inl w) = w
  waits_on g g₁ (inr d) = ground (arith, d.dst_eq)

  passes_on :
      (g g₁ : GraphReader) (ei : EdgeInfo)
      → ei.dst ≢ negsuc 0
      → Waited cols g g₁ ei ⊎ Passed ptr cols g g₁ ei
      → Passed ptr cols g g₁ ei
  unfolding no_edge
  passes_on g g₁ ei n (inl w) = absurd (n (ap (λ x. x.dst) w.none_eq))
  passes_on g g₁ ei n (inr d) = d

  module _ (id : ℕ) (p : get_elem? env.row_ptr id ≡ some ptr)
      (q : get_elem? env.col_idx id ≡ some cols) where
    -- The edges of a run are the edges from the reader's place on, one after the other.
    run_from :
        (g g' : GraphReader) (es : List EdgeInfo)
        → g.id ≡ id
        → Aligned ptr cols g
        → Run env g es g'
        → (i : ℕ) (ei : EdgeInfo) → get_elem? es i ≡ some ei
        → IsEdge cols id (passed cols g + i) ei
    run_from g g' es own a done i ei h = ground arith
    run_from g g' es own a (vertex {g₁} m m' e r) i ei h =
        let s = vertex_request-Stays ptr cols env g g₁ m m' a e in
        before id _ _ ei (stayed g g₁ i s) (run_from g₁ g' es (s.same_id ∙ own) s.aligned r i ei h)
    run_from g g' es own a (edge {g₁} m m' e r) i ei h =
        let s = edge_request-Stays ptr cols env g g₁ m m' a e in
        before id _ _ ei (stayed g g₁ i s) (run_from g₁ g' es (s.same_id ∙ own) s.aligned r i ei h)
    run_from g g' es own a (receive {g₁} m m' e r) i ei h =
        let s =
          graph_receive-Stays ptr cols env g g₁ m m' (ap (get_elem? env.row_ptr) own ∙ p)
            (ap (get_elem? env.col_idx) own ∙ q) a e in
        before id _ _ ei (stayed g g₁ i s) (run_from g₁ g' es (s.same_id ∙ own) s.aligned r i ei h)
    run_from g g' es own a (waits {g₁} e r) i ei h =
        let (a₁, answer) =
          answered g g₁ (no_edge g.id) (ap (get_elem? env.row_ptr) own ∙ p)
            (ap (get_elem? env.col_idx) own ∙ q) a e in
        let w = waits_on g g₁ answer in
        before id _ _ ei (ap (◌+ i) w.same_place) (run_from g₁ g' es (w.same_id ∙ own) a₁ r i ei h)
    run_from g g' (ei₀ ∷ es) own a (passes {g₁} e n r) i ei h =
        let (a₁, answer) =
          answered g g₁ ei₀ (ap (get_elem? env.row_ptr) own ∙ p)
            (ap (get_elem? env.col_idx) own ∙ q) a e in
        let d = passes_on g g₁ ei₀ n answer in
        let (edge', moved) = Passed-IsEdge g g₁ ei₀ d in
        run_passed g g₁ g' ei₀ es i ei own edge' moved h
          (λ j. run_from g₁ g' es (d.same_id ∙ own) a₁ r j ei)
      where
        run_passed :
            (g g₁ g' : GraphReader) (ei₀ : EdgeInfo) (es : List EdgeInfo) (i : ℕ) (ei : EdgeInfo)
            → g.id ≡ id
            → IsEdge cols g.id (passed cols g) ei₀
            → passed cols g₁ ≡ passed cols g + 1
            → get_elem? (ei₀ ∷ es) i ≡ some ei
            → ((j : ℕ) → get_elem? es j ≡ some ei → IsEdge cols id (passed cols g₁ + j) ei)
            → IsEdge cols id (passed cols g + i) ei
        run_passed g g₁ g' ei₀ es zero ei own edge' moved h rest =
            subst (IsEdge cols id (passed cols g + 0)) (some_inj h) (
              subst (λ k. IsEdge cols k (passed cols g + 0) ei₀) own
                (before g.id _ _ ei₀ (omega arith) edge'))
        run_passed g g₁ g' ei₀ es (suc i) ei own edge' moved h rest =
            before id _ _ ei (omega (arith, moved)) (rest i h)

starts :
    (env : Env) (id : ℕ) (cols : List ℕ) (g : GraphReader)
    → init env id ≡ some g
    → (g.id ≡ id) × (passed cols g ≡ 0)
unfolding init
starts env id cols g s = (ground arith, ground arith)

-- Whatever calls of the graph reader are made, in whatever order and with whatever answers of the
-- memory, on a well-formed share of the graph: from its start on, edge number `i` that the reader
-- passes is column `i % n` of its `n` columns, with the number `i / n` of the pass over them.
pub run-edges :
    (env : Env) (id : ℕ) (ptr cols : List ℕ) (g g' : GraphReader) (es : List EdgeInfo)
    → IsCsr ptr cols
    → get_elem? env.row_ptr id ≡ some ptr
    → get_elem? env.col_idx id ≡ some cols
    → init env id ≡ some g
    → Run env g es g'
    → (i : ℕ) (ei : EdgeInfo) → get_elem? es i ≡ some ei
    → IsEdge cols id i ei
run-edges env id ptr cols g g' es c p q s r i ei h =
    let (own, none_yet) = starts env id cols g s in
    before ptr cols c env id (passed cols g + i) i ei (omega (arith, none_yet))
      (run_from ptr cols c env id p q g g' es own (init-Aligned env id ptr cols g c s) r i ei h)
