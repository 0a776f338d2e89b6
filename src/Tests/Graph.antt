-- ===== src/Tests/Graph.antt =====
-- The graph reader of the second engine.
use sgcn.Base.{ℕ, ◌≡◌, ◌⊎◌, ◌+◌, ◌*◌, refl, true, false, some, List, [], ◌∷◌, arith}
use sgcn.Base.Int.{pos}
use sgcn.Common.{DataIndex, EdgeInfo, row, column, value}
use sgcn.Memory.{get_graph}
use sgcn.GraphReader.{
  GraphReader, init, receive, receive_row, receive_column, receive_value, advance, moved,
  note_received, graph_receive, RowPos, skip_row, skip_rows, skip_fuel, next_row, wrap_cols,
  take_edge, has_edge, pass_edge, next_feature,
}
use sgcn.GraphReader.Edges.{row_pos, Aligned, Passed, Waited}
use sgcn.GraphReader.Pass.{next_feature-Answers}
use sgcn.GraphReader.Requests.{
  Rounds, vertex_cursor, edge_cursor, next_vertices, next_edges, vertex-Rounds, edge-Rounds,
  empty_columns_never_over,
}
use sgcn.GraphReader.Rows.{IsCsr, InStep, skip_fuel-enough}
use sgcn.GraphReader.Run.{Run, IsEdge, run-edges}
use sgcn.GraphReader.Share.{csr_ptr-IsCsr, init-Aligned}
use sgcn.Tests.Example.{laid, answers, second_range}

abbrev ptr : List ℕ
ptr = 0 ∷ 2 ∷ 3 ∷ []

abbrev cols : List ℕ
cols = 0 ∷ 2 ∷ 3 ∷ []

is_csr : IsCsr ptr cols
is_csr = csr_ptr-IsCsr (0 ∷ 2 ∷ []) ((3 ∷ []) ∷ [])

abbrev pub start : GraphReader
start = record {
  grs = record {
    row_end_idx = 0;
    col_end_idx = 0;
    val_end_idx = 0;
    cur_row_idx = 1;
    cur_col_idx = 0;
    cur_val_idx = 0;
    row_overflow = 0;
    col_overflow = 0;
    val_overflow = pos 0;
    remain_edge = pos 0;
    next_v_addr = 192;
    next_e_addr = 320;
    next_val_addr = 64;
  };
  grf = record {
    v_req_over = false;
    e_req_over = false;
    v_reci_over = false;
    e_reci_over = false;
    val_reci_over = false;
    reci_over = false;
    pass_over = false;
  };
  id = 1;
  v_req_count = 0;
  e_req_count = 0;
  v_reci_count = 0;
  e_reci_count = 0;
  val_reci_count = 0;
  g_pass_count = 0;
}

starts : init laid 1 ≡ some start
unfolding init
starts = refl

-- After all three lines were received.
abbrev filled : GraphReader
filled = record start {
  grs = record (start.grs) { row_end_idx = 3; col_end_idx = 3; val_end_idx = 3 };
  v_reci_count = 1;
  e_reci_count = 1;
  val_reci_count = 1;
}

abbrev with_rows : GraphReader
with_rows = record start { grs = record (start.grs) { row_end_idx = 3 }; v_reci_count = 1 }

abbrev with_cols : GraphReader
with_cols = record with_rows { grs = record (with_rows.grs) { col_end_idx = 3 }; e_reci_count = 1 }

-- After the first edge.
abbrev one_passed : GraphReader
one_passed = record filled {
  grs = record (filled.grs) {
    cur_row_idx = 2;
    cur_col_idx = 1;
    cur_val_idx = 1;
    remain_edge = pos 1;
  };
}

abbrev pub two_passed : GraphReader
two_passed = record filled {
  grs = record (filled.grs) {
    cur_row_idx = 2;
    cur_col_idx = 2;
    cur_val_idx = 2;
    remain_edge = pos 0;
  };
}

abbrev pub first_edge : EdgeInfo
first_edge = record { id = 1; is_last = false; dst = pos 0; v_fold = pos 0 }

abbrev pub second_edge : EdgeInfo
second_edge = record { id = 1; is_last = true; dst = pos 2; v_fold = pos 0 }

pub two_edges : Run laid start (first_edge ∷ second_edge ∷ []) two_passed
unfolding get_graph graph_receive receive receive_row receive_column receive_value advance moved
    note_received next_feature next_row skip_rows skip_row skip_fuel pass_edge has_edge wrap_cols
    take_edge
two_edges =
    Run.receive {g₁ = with_rows} (answers (row ∷ column ∷ value ∷ []) [])
      (answers (column ∷ value ∷ []) []) refl
      (Run.receive {g₁ = with_cols} (answers (column ∷ value ∷ []) []) (answers (value ∷ []) [])
        refl
        (Run.receive {g₁ = filled} (answers (value ∷ []) []) (answers [] []) refl (
          Run.passes {g₁ = one_passed} refl (λ e. ground (arith, e))
            (Run.passes {g₁ = two_passed} refl (λ e. ground (arith, e)) Run.done))))

run-edges_example : IsEdge cols 1 1 second_edge
run-edges_example =
    run-edges laid 1 ptr cols start two_passed (first_edge ∷ second_edge ∷ []) is_csr refl refl
      starts two_edges 1 second_edge refl

start-Aligned : Aligned ptr cols start
start-Aligned = init-Aligned laid 1 ptr cols start is_csr starts

next_feature-Answers_example :
    (g' : GraphReader) × (ei : EdgeInfo) × (next_feature laid start ≡ some (g', ei))
    × Aligned ptr cols g'
    × (Waited cols start g' ei ⊎ Passed ptr cols start g' ei)
next_feature-Answers_example =
    next_feature-Answers laid ptr cols start is_csr refl refl start-Aligned

vertex-Rounds_example :
    Rounds 192 0 2 (λ k. vertex_cursor (next_vertices k laid.arch_info second_range start))
vertex-Rounds_example =
    vertex-Rounds laid.arch_info second_range start 0 (omega arith) refl refl (omega arith)

edge-Rounds_example :
    Rounds 320 0 2 (λ k. edge_cursor (next_edges k laid.arch_info second_range start))
edge-Rounds_example =
    edge-Rounds laid.arch_info second_range start 0 (omega arith) refl refl (omega arith)

abbrev no_columns : DataIndex
no_columns = record second_range { col_addr_end = 320 }

empty_columns_never_over_example :
    ((next_edges 7 laid.arch_info no_columns start).grf.e_req_over ≡ false)
    × ((next_edges 7 laid.arch_info no_columns start).grs.next_e_addr ≡ 320 + 7 * 64)
empty_columns_never_over_example =
    empty_columns_never_over laid.arch_info no_columns start 7 refl refl (omega arith)

skip_fuel-enough_example :
    (p' : RowPos) × (skip_rows (skip_fuel ptr (row_pos start)) ptr 3 (row_pos start) ≡ some p')
    × InStep ptr cols 0 p'
skip_fuel-enough_example =
    skip_fuel-enough ptr cols 3 0 (row_pos start) is_csr start-Aligned.in_step
