-- ===== src/GraphReader/Pass.antt =====
-- `NextFeature` of src/g_reader.cc: which edges it passes on, and in which order.
use sgcn.Base.{
  ℕ, ◌+◌, ◌*◌, ◌≡◌, ◌⊎◌, inl, inr, refl, sym, ap, ap₂, ◌∙◌, ◌&&◌, some, List, ◌==◌, arith, length,
  get_elem?, Bool-cases,
}
use sgcn.Common.{Env, EdgeInfo}
use sgcn.GraphReader.Defs.{GraphReader}
use sgcn.GraphReader.Passing.{no_edge, passed_over, next_feature}
use sgcn.GraphReader.Rows.{IsCsr}
use sgcn.GraphReader.Edges.{Aligned, Passed, Waited, next_row-Aligned, pass_edge-Answers}

-- An answer from a state with the same indices.
Answers-before :
    (ptr cols : List ℕ) (g g₁ g' : GraphReader) (ei : EdgeInfo)
    → g₁.id ≡ g.id
    → g₁.grs.cur_col_idx ≡ g.grs.cur_col_idx
    → g₁.g_pass_count ≡ g.g_pass_count
    → Waited cols g₁ g' ei ⊎ Passed ptr cols g₁ g' ei
    → Waited cols g g' ei ⊎ Passed ptr cols g g' ei
Answers-before ptr cols g g₁ g' ei same_id same_col same_pass (inl w) = inl (record {
  none_eq = w.none_eq ∙ ap no_edge same_id;
  same_id = w.same_id ∙ same_id;
  same_place = w.same_place ∙ ap₂ (λ n k. n * length cols + k) same_pass same_col;
})
Answers-before ptr cols g g₁ g' ei same_id same_col same_pass (inr p) = inr (record {
  id_eq = p.id_eq ∙ same_id;
  same_id = p.same_id ∙ same_id;
  col = p.col;
  dst = p.dst;
  column = p.column;
  dst_eq = p.dst_eq;
  fold_eq = p.fold_eq;
  moved = p.moved;
  order = elim p.order [
    | inl (here, pass) ↦ inl (here ∙ same_col, pass ∙ same_pass)
    | inr (ends, start, pass) ↦ inr (sym same_col ∙ ends, start, omega (arith, pass, same_pass))
  ];
  is_last_iff = p.is_last_iff;
})

-- On a well-formed share of the graph, and with the indices in step, `NextFeature` is defined and
-- keeps them in step. It answers no edge and keeps its place, or the edge at its place: the next
-- column of the pass, or the first column of the next pass after the last one, with the number of the
-- pass, and it marks the edge as last exactly where a row of the graph ends.
pub next_feature-Answers :
    (env : Env) (ptr cols : List ℕ) (g : GraphReader)
    → IsCsr ptr cols
    → get_elem? env.row_ptr g.id ≡ some ptr
    → get_elem? env.col_idx g.id ≡ some cols
    → Aligned ptr cols g
    → (g' : GraphReader) × (ei : EdgeInfo) × (next_feature env g ≡ some (g', ei))
      × Aligned ptr cols g'
      × (Waited cols g g' ei ⊎ Passed ptr cols g g' ei)
unfolding next_feature passed_over
next_feature-Answers env ptr cols g c p q a =
    let (g₁, rows, a₁, same_id, same_col, same_pass) = next_row-Aligned ptr cols c g a in
    let (g', ei, runs, a', answer) = pass_edge-Answers ptr cols c env.arch_info g₁ a₁ in
    elim (Bool-cases (g.grs.cur_col_idx == length cols && g.g_pass_count + 1 == env.arch_info.bf)) [
      | inl over ↦ (
        passed_over g,
        no_edge g.id,
        rw (p, q, over) refl,
        record { in_step = a.in_step; col_le = a.col_le; end_le = a.end_le },
        inl (record { none_eq = refl; same_id = refl; same_place = refl }),
      )
      | inr goes_on ↦ (
        g',
        ei,
        rw (p, q, goes_on, rows) runs,
        a',
        Answers-before ptr cols g g₁ g' ei same_id same_col same_pass answer,
      )
    ]
