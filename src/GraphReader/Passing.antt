-- ===== src/GraphReader/Passing.antt =====
-- `NextFeature` of src/g_reader.cc.
use sgcn.Base.{
  ℕ, zero, suc, ◌+◌, ◌-◌, ◌*◌, Bool, true, false, ◌&&◌, ◌||◌, not, Option, none, some, List, ◌==◌,
  ltb, if◌then◌else◌, length, get_elem?, ◌>>=◌,
}
use sgcn.Base.Int.{ℤ, pos, negsuc, sub_ℕ, is_zero, is_positive, pred_ℤ}
use sgcn.Common.{Env, ArchInfo, EdgeInfo}
use sgcn.GraphReader.Defs.{GraphReader}

-- The position among the rows: `cur_row_idx`, `row_overflow` and `remain_edge`.
pub record RowPos : Type 0 where
  pub cur_row_idx : ℕ
  pub row_overflow : ℕ
  pub remain_edge : ℤ

-- One round of the loop of `NextFeature`, and whether it goes on. At the end of the rows the next
-- round of the graph begins if it is there.
unfoldable pub skip_row : List ℕ → ℕ → RowPos → Option (RowPos × Bool)
skip_row ptr row_end_idx p =
    let wraps = p.cur_row_idx == length ptr in
    if wraps && p.row_overflow == 0 then some (p, false) else (do
      let cur = if wraps then 1 else p.cur_row_idx
      let overflow = if wraps then p.row_overflow - 1 else p.row_overflow
      hi ← get_elem? ptr cur
      lo ← get_elem? ptr (cur - 1)
      some (
        record { cur_row_idx = cur + 1; row_overflow = overflow; remain_edge = sub_ℕ hi lo },
        not (cur + 1 == row_end_idx && overflow == 0),
      ))

-- The loop itself: rows without edges are passed over. `none` is also the end of the fuel.
unfoldable pub skip_rows : ℕ → List ℕ → ℕ → RowPos → Option RowPos
skip_rows zero ptr row_end_idx p = none
skip_rows (suc f) ptr row_end_idx p = elim (is_zero p.remain_edge) [
  | false ↦ some p
  | true ↦ elim (skip_row ptr row_end_idx p) [
    | none ↦ none
    | some (p', false) ↦ some p'
    | some (p', true) ↦ skip_rows f ptr row_end_idx p'
  ]
]

-- More rounds than the loop can make.
unfoldable pub skip_fuel : List ℕ → RowPos → ℕ
skip_fuel ptr p = (p.row_overflow + 1) * length ptr + 2

unfoldable pub next_row : List ℕ → GraphReader → Option GraphReader
next_row ptr g =
    let s = g.grs in
    let p : RowPos = record {
      cur_row_idx = s.cur_row_idx;
      row_overflow = s.row_overflow;
      remain_edge = s.remain_edge;
    } in
    if ltb s.cur_row_idx s.row_end_idx || ltb 0 s.row_overflow
    then (do
      p' ← skip_rows (skip_fuel ptr p) ptr s.row_end_idx p
      some (record g {
        grs = record s {
          cur_row_idx = p'.cur_row_idx;
          row_overflow = p'.row_overflow;
          remain_edge = p'.remain_edge;
        };
      }))
    else some g

-- The answer where no edge can be passed.
unfoldable pub no_edge : ℕ → EdgeInfo
no_edge id = record { id = id; is_last = false; dst = negsuc 0; v_fold = negsuc 0 }

unfoldable pub passed_over : GraphReader → GraphReader
passed_over g = record g { grf = record (g.grf) { pass_over = true } }

-- At the end of the columns the next pass over the graph begins if it is there.
unfoldable pub wrap_cols : List ℕ → GraphReader → GraphReader
wrap_cols cols g =
    let s = g.grs in
    if s.cur_col_idx == length cols && ltb 0 s.col_overflow
    then record g {
      grs = record s {
        cur_col_idx = 0;
        cur_val_idx = 0;
        col_overflow = s.col_overflow - 1;
        val_overflow = pred_ℤ s.val_overflow;
      };
      g_pass_count = g.g_pass_count + 1;
    }
    else g

-- The edge under the column index is passed.
unfoldable pub take_edge : List ℕ → GraphReader → Option (GraphReader × EdgeInfo)
take_edge cols g = do
  let s = g.grs
  dst ← get_elem? cols s.cur_col_idx
  some (
    record g {
      grs = record s {
        cur_col_idx = s.cur_col_idx + 1;
        cur_val_idx = s.cur_val_idx + 1;
        remain_edge = pred_ℤ s.remain_edge;
      };
    },
    record {
      id = g.id;
      is_last = is_zero (pred_ℤ s.remain_edge);
      dst = pos dst;
      v_fold = pos g.g_pass_count;
    },
  )

-- Whether the column and the value under the indices are there.
unfoldable pub has_edge : GraphReader → Bool
has_edge g =
    let s = g.grs in
    is_positive s.remain_edge
    && (ltb s.cur_col_idx s.col_end_idx || ltb 0 s.col_overflow)
    && (ltb s.cur_val_idx s.val_end_idx || is_positive s.val_overflow)

unfoldable pub pass_edge : ArchInfo → List ℕ → GraphReader → Option (GraphReader × EdgeInfo)
pass_edge arch cols g =
    if has_edge g
    then (let g' = wrap_cols cols g in
        if g.grs.cur_col_idx == length cols && g'.g_pass_count == arch.bf
        then some (passed_over g', no_edge g.id)
        else take_edge cols g')
    else some (g, no_edge g.id)

-- `NextFeature`
unfoldable pub next_feature : Env → GraphReader → Option (GraphReader × EdgeInfo)
next_feature env g = do
  ptr ← get_elem? env.row_ptr g.id
  cols ← get_elem? env.col_idx g.id
  let last = g.g_pass_count + 1 == env.arch_info.bf
  if g.grs.cur_col_idx == length cols && last
      then some (passed_over g, no_edge g.id)
      else (do g' ← next_row ptr g; pass_edge env.arch_info cols g')
