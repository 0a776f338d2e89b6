-- ===== src/GraphReader/Receiving.antt =====
-- `GraphReceive` of src/g_reader.cc.
use sgcn.Base.{ℕ, ◌+◌, true, ◌&&◌, Option, some, ◌==◌, leb, if◌then◌else◌, length, get_elem?, ◌>>=◌}
use sgcn.Base.Int.{suc_ℤ}
use sgcn.Common.{Env, RType, row, column, value, empty, cache_line_count}
use sgcn.Memory.{Memory, get_graph}
use sgcn.GraphReader.Defs.{GraphReader}

-- The end of the part that is there, after one more line of a vector of that size: it moves on by a
-- line, from the start again if the whole vector was there, and not past the vector's end.
unfoldable pub moved : ℕ → ℕ → ℕ
moved size end_idx = (if end_idx == size then 0 else end_idx) + cache_line_count

unfoldable pub advance : ℕ → ℕ → ℕ
advance size end_idx = if leb size (moved size end_idx) then size else moved size end_idx

-- `GraphReceive` on a line of row pointers.
unfoldable pub receive_row : ℕ → ℕ → GraphReader → GraphReader
receive_row size bf g =
    let end_idx = g.grs.row_end_idx in
    let ends = leb size (moved size end_idx) in
    record g {
      grs = record (g.grs) {
        row_end_idx = advance size end_idx;
        row_overflow = if end_idx == size then g.grs.row_overflow + 1 else g.grs.row_overflow;
      };
      grf = record (g.grf) {
        v_reci_over = if ends && g.v_reci_count + 1 == bf then true else g.grf.v_reci_over;
      };
      v_reci_count = if ends then g.v_reci_count + 1 else g.v_reci_count;
    }

-- On a line of columns.
unfoldable pub receive_column : ℕ → ℕ → GraphReader → GraphReader
receive_column size bf g =
    let end_idx = g.grs.col_end_idx in
    let ends = leb size (moved size end_idx) in
    record g {
      grs = record (g.grs) {
        col_end_idx = advance size end_idx;
        col_overflow = if end_idx == size then g.grs.col_overflow + 1 else g.grs.col_overflow;
      };
      grf = record (g.grf) {
        e_reci_over = if ends && g.e_reci_count + 1 == bf then true else g.grf.e_reci_over;
      };
      e_reci_count = if ends then g.e_reci_count + 1 else g.e_reci_count;
    }

-- On a line of values.
unfoldable pub receive_value : ℕ → ℕ → GraphReader → GraphReader
receive_value size bf g =
    let end_idx = g.grs.val_end_idx in
    let ends = leb size (moved size end_idx) in
    record g {
      grs = record (g.grs) {
        val_end_idx = advance size end_idx;
        val_overflow = if end_idx == size then suc_ℤ g.grs.val_overflow else g.grs.val_overflow;
      };
      grf = record (g.grf) {
        val_reci_over = if ends && g.val_reci_count + 1 == bf then true else g.grf.val_reci_over;
      };
      val_reci_count = if ends then g.val_reci_count + 1 else g.val_reci_count;
    }

unfoldable pub receive : RType → ℕ → ℕ → ℕ → GraphReader → GraphReader
receive row rows cols bf g = receive_row rows bf g
receive column rows cols bf g = receive_column cols bf g
receive value rows cols bf g = receive_value cols bf g
receive empty rows cols bf g = g

-- Once all three kinds are received, receiving is over.
unfoldable pub note_received : GraphReader → GraphReader
note_received g =
    let f = g.grf in
    if f.v_reci_over && (f.e_reci_over && f.val_reci_over)
    then record g { grf = record f { reci_over = true } }
    else g

-- `GraphReceive`
unfoldable pub graph_receive : Env → GraphReader → Memory → Option (GraphReader × Memory)
graph_receive env g m = do
  (reci, m') ← get_graph m g.id
  ptr ← get_elem? env.row_ptr g.id
  cols ← get_elem? env.col_idx g.id
  some (note_received (receive reci (length ptr) (length cols) env.arch_info.bf g), m')
