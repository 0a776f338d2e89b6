-- ===== src/GraphReader/Edges.antt =====
-- The edges that `NextFeature` of src/g_reader.cc takes from the columns, row by row.
use native.Mathlib.Decide.{dec_lt}
use sgcn.Base.{
  ℕ, zero, suc, ◌+◌, ◌-◌, ◌*◌, ◌≤◌, ◌<◌, ◌≡◌, ◌⊎◌, ◌↔◌, inl, inr, refl, ap, ◌∙◌, true, false, ◌||◌,
  some, List, ◌==◌, ltb, arith, length, get_elem?, get_elem?_total, Bool-cases,
}
use sgcn.Base.Int.{ℤ, pos, negsuc, is_zero, is_positive, pred_ℤ}
use sgcn.Common.{ArchInfo, EdgeInfo}
use sgcn.GraphReader.Defs.{GraphReader}
use sgcn.GraphReader.Passing.{
  RowPos, next_row, no_edge, passed_over, wrap_cols, take_edge, has_edge, pass_edge,
}
use sgcn.GraphReader.Rows.{IsCsr, InStep, skip_fuel-enough}

abbrev pub row_pos : GraphReader → RowPos
row_pos g = record {
  cur_row_idx = g.grs.cur_row_idx;
  row_overflow = g.grs.row_overflow;
  remain_edge = g.grs.remain_edge;
}

-- The reader's indices are in step, and within the columns.
pub record Aligned (ptr cols : List ℕ) (g : GraphReader) : Type 0 where
  pub in_step : InStep ptr cols g.grs.cur_col_idx (row_pos g)
  pub col_le : g.grs.cur_col_idx ≤ length cols
  pub end_le : g.grs.col_end_idx ≤ length cols

-- How many edges were passed when the indices stand so.
abbrev pub passed : List ℕ → GraphReader → ℕ
passed cols g = g.g_pass_count * length cols + g.grs.cur_col_idx

-- No edge was passed on the way from `g` to `g'`.
pub record Waited (cols : List ℕ) (g g' : GraphReader) (ei : EdgeInfo) : Type 0 where
  pub none_eq : ei ≡ no_edge g.id
  pub same_id : g'.id ≡ g.id
  pub same_place : passed cols g' ≡ passed cols g

-- The edge that the reader passed on its way from `g` to `g'`: the next one of the columns, or the
-- first one of the next pass after the last; it is marked as last exactly where its row ends.
pub record Passed (ptr cols : List ℕ) (g g' : GraphReader) (ei : EdgeInfo) : Type 0 where
  pub id_eq : ei.id ≡ g.id
  pub same_id : g'.id ≡ g.id
  pub col : ℕ
  pub dst : ℕ
  pub column : get_elem? cols col ≡ some dst
  pub dst_eq : ei.dst ≡ pos dst
  pub fold_eq : ei.v_fold ≡ pos g'.g_pass_count
  pub moved : g'.grs.cur_col_idx ≡ col + 1
  pub order :
      (col ≡ g.grs.cur_col_idx) × (g'.g_pass_count ≡ g.g_pass_count)
      ⊎ (g.grs.cur_col_idx ≡ length cols) × (col ≡ 0) × (g'.g_pass_count ≡ g.g_pass_count + 1)
  pub is_last_iff :
      (ei.is_last ≡ true) ↔ (get_elem? ptr (g'.grs.cur_row_idx - 1) ≡ some g'.grs.cur_col_idx)

module _ (ptr cols : List ℕ) (c : IsCsr ptr cols) where
  pub next_row-Aligned :
      (g : GraphReader)
      → Aligned ptr cols g
      → (g' : GraphReader) × (next_row ptr g ≡ some g')
        × Aligned ptr cols g'
        × (g'.id ≡ g.id)
        × (g'.grs.cur_col_idx ≡ g.grs.cur_col_idx)
        × (g'.g_pass_count ≡ g.g_pass_count)
  unfolding next_row
  next_row-Aligned g a =
      let (p, runs, t) =
        skip_fuel-enough ptr cols g.grs.row_end_idx g.grs.cur_col_idx (row_pos g) c a.in_step in
      elim (Bool-cases (ltb g.grs.cur_row_idx g.grs.row_end_idx || ltb 0 g.grs.row_overflow)) [
        | inl there ↦ (
          record g {
            grs = record (g.grs) {
              cur_row_idx = p.cur_row_idx;
              row_overflow = p.row_overflow;
              remain_edge = p.remain_edge;
            };
          },
          rw (there, runs) refl,
          record { in_step = t; col_le = a.col_le; end_le = a.end_le },
          refl,
          refl,
          refl,
        )
        | inr waits ↦ (g, rw waits refl, a, refl, refl, refl)
      ]

  -- The edge under an index inside the columns, where `g` is `g₀` or its next pass.
  take_edge-Passed :
      (g₀ g : GraphReader) (left : ℕ)
      → (1 ≤ g.grs.cur_row_idx) × (g.grs.cur_row_idx ≤ length ptr)
      → g.grs.col_end_idx ≤ length cols
      → g.id ≡ g₀.id
      → g.grs.remain_edge ≡ pos (suc left)
      → g.grs.cur_col_idx + suc left ≤ length cols
      → get_elem? ptr (g.grs.cur_row_idx - 1) ≡ some (g.grs.cur_col_idx + suc left)
      → (g.grs.cur_col_idx ≡ g₀.grs.cur_col_idx) × (g.g_pass_count ≡ g₀.g_pass_count)
        ⊎ (g₀.grs.cur_col_idx ≡ length cols)
          × (g.grs.cur_col_idx ≡ 0)
          × (g.g_pass_count ≡ g₀.g_pass_count + 1)
      → (g' : GraphReader) × (ei : EdgeInfo) × (take_edge cols g ≡ some (g', ei))
        × Aligned ptr cols g'
        × Passed ptr cols g₀ g' ei
  unfolding take_edge
  take_edge-Passed g₀ g left rows ends same rem inside stop how =
      let (dst, found) = get_elem?_total cols g.grs.cur_col_idx (omega arith) in
      let less : pred_ℤ g.grs.remain_edge ≡ pos left = ground arith in
      (
        record g {
          grs = record (g.grs) {
            cur_col_idx = g.grs.cur_col_idx + 1;
            cur_val_idx = g.grs.cur_val_idx + 1;
            remain_edge = pred_ℤ g.grs.remain_edge;
          };
        },
        record {
          id = g.id;
          is_last = is_zero (pred_ℤ g.grs.remain_edge);
          dst = pos dst;
          v_fold = pos g.g_pass_count;
        },
        rw found refl,
        record {
          in_step = record {
            first = rows.0;
            last = rows.1;
            left = left;
            left_eq = less;
            stop = g.grs.cur_col_idx + suc left;
            stop_eq = stop;
            step = inl (omega arith);
          };
          col_le = omega arith;
          end_le = ends;
        },
        record {
          id_eq = same;
          same_id = same;
          col = g.grs.cur_col_idx;
          dst = dst;
          column = found;
          dst_eq = refl;
          fold_eq = refl;
          moved = refl;
          order = how;
          is_last_iff = (λ h. ground (arith, h, less, stop), λ h. ground (arith, h, less, stop));
        },
      )

  -- What `NextFeature` may answer: no edge, or the next one.
  abbrev pub Answers : GraphReader → GraphReader → EdgeInfo → Type 0
  Answers g g' ei = Waited cols g g' ei ⊎ Passed ptr cols g g' ei

  has_edge_lem :
      (g : GraphReader)
      → has_edge g ≡ true
      → ((left : ℕ) × (g.grs.remain_edge ≡ pos (suc left)))
        × ((g.grs.cur_col_idx < g.grs.col_end_idx) ⊎ (0 < g.grs.col_overflow))
  unfolding has_edge
  has_edge_lem g h = (positive g.grs.remain_edge (ground arith), ground arith)
    where
      positive : (z : ℤ) → is_positive z ≡ true → (left : ℕ) × (z ≡ pos (suc left))
      positive (pos zero) e = ground arith
      positive (pos (suc n)) e = (n, refl)
      positive (negsuc n) e = ground arith

  -- The reader at the start of the next pass.
  abbrev wrapped : GraphReader → GraphReader
  wrapped g = record g {
    grs = record (g.grs) {
      cur_col_idx = 0;
      cur_val_idx = 0;
      col_overflow = g.grs.col_overflow - 1;
      val_overflow = pred_ℤ g.grs.val_overflow;
    };
    g_pass_count = g.g_pass_count + 1;
  }

  -- At the end of the columns.
  pass_next :
      (arch : ArchInfo) (g : GraphReader) (left : ℕ) (a : Aligned ptr cols g)
      → has_edge g ≡ true
      → g.grs.remain_edge ≡ pos (suc left)
      → g.grs.cur_col_idx ≡ length cols
      → 0 < g.grs.col_overflow
      → (g' : GraphReader) × (ei : EdgeInfo) × (pass_edge arch cols g ≡ some (g', ei))
        × Aligned ptr cols g'
        × Answers g g' ei
  unfolding pass_edge wrap_cols passed_over
  pass_next arch g left a there rem ends more =
      let t = a.in_step in
      let at_end : (g.grs.cur_col_idx == length cols) ≡ true = ground arith in
      let over : ltb 0 g.grs.col_overflow ≡ true = ground arith in
      let same : t.left ≡ suc left = ground (arith, t.left_eq, rem) in
      let bound = c.bounded (g.grs.cur_row_idx - 1) t.stop t.stop_eq in
      let stop : t.stop ≡ 0 + suc left = ground (arith, t.step, same, bound, ends) in
      elim (Bool-cases (g.g_pass_count + 1 == arch.bf)) [
        | inl last ↦ (
          passed_over (wrapped g),
          no_edge g.id,
          rw (there, at_end, over, last) refl,
          record {
            in_step = record {
              first = t.first;
              last = t.last;
              left = t.left;
              left_eq = t.left_eq;
              stop = t.stop;
              stop_eq = t.stop_eq;
              step = inl (omega arith);
            };
            col_le = omega arith;
            end_le = a.end_le;
          },
          inl (record { none_eq = refl; same_id = refl; same_place = omega (arith, ends) }),
        )
        | inr goes_on ↦
            let (g', ei, runs, a', passed) =
              take_edge-Passed g (wrapped g) left (t.first, t.last) a.end_le refl rem
                (omega (arith, bound, stop)) (t.stop_eq ∙ ap some stop) (inr (ends, refl, refl)) in
            (g', ei, rw (there, at_end, over, goes_on) runs, a', inr passed)
      ]

  -- Before it.
  pass_here :
      (arch : ArchInfo) (g : GraphReader) (left : ℕ) (a : Aligned ptr cols g)
      → has_edge g ≡ true
      → g.grs.remain_edge ≡ pos (suc left)
      → g.grs.cur_col_idx < length cols
      → (g' : GraphReader) × (ei : EdgeInfo) × (pass_edge arch cols g ≡ some (g', ei))
        × Aligned ptr cols g'
        × Answers g g' ei
  unfolding pass_edge wrap_cols
  pass_here arch g left a there rem inside =
      let t = a.in_step in
      let before : (g.grs.cur_col_idx == length cols) ≡ false = ground arith in
      let same : t.left ≡ suc left = ground (arith, t.left_eq, rem) in
      let bound = c.bounded (g.grs.cur_row_idx - 1) t.stop t.stop_eq in
      let stop : t.stop ≡ g.grs.cur_col_idx + suc left = ground (arith, t.step, same) in
      let (g', ei, runs, a', passed) =
        take_edge-Passed g g left (t.first, t.last) a.end_le refl rem (omega (arith, bound, stop))
          (t.stop_eq ∙ ap some stop) (inl (refl, refl)) in
      (g', ei, rw (there, before) runs, a', inr passed)

  without_edge :
      (arch : ArchInfo) (g : GraphReader)
      → has_edge g ≡ false
      → pass_edge arch cols g ≡ some (g, no_edge g.id)
  unfolding pass_edge
  without_edge arch g absent = rw absent refl

  pub pass_edge-Answers :
      (arch : ArchInfo) (g : GraphReader)
      → Aligned ptr cols g
      → (g' : GraphReader) × (ei : EdgeInfo) × (pass_edge arch cols g ≡ some (g', ei))
        × Aligned ptr cols g'
        × Answers g g' ei
  pass_edge-Answers arch g a = elim (Bool-cases (has_edge g)) [
    | inr absent ↦ (
      g,
      no_edge g.id,
      without_edge arch g absent,
      a,
      inl (record { none_eq = refl; same_id = refl; same_place = refl }),
    )
    | inl there ↦
        let ((left, rem), more) = has_edge_lem g there in
        elim (dec_lt g.grs.cur_col_idx (length cols)) [
          | yes inside ↦ pass_here arch g left a there rem inside
          | no ends ↦
              pass_next arch g left a there rem (omega (arith, a.col_le))
                (omega (arith, more, a.end_le))
        ]
  ]
