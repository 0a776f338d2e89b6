-- ===== src/GraphReader/Defs.antt =====
-- The class `GraphReader` of src/g_reader.h and src/g_reader.cc: its state and its requests.
use sgcn.Base.{
  ℕ, ◌+◌, Bool, true, false, not, Option, some, ◌==◌, if◌then◌else◌, length, get_elem?, add64,
  ◌>>=◌,
}
use sgcn.Base.Int.{ℤ, pos}
use sgcn.Common.{Env, ArchInfo, DataIndex, GnnMode, gcn, other, cache_line_byte}
use sgcn.Memory.{Memory, add_transaction, will_accept_transaction}

-- GR_STAT. The overflow of the values also falls where no value was received, below 0.
pub record GrStat : Type 0 where
  pub row_end_idx : ℕ
  pub col_end_idx : ℕ
  pub val_end_idx : ℕ
  pub cur_row_idx : ℕ
  pub cur_col_idx : ℕ
  pub cur_val_idx : ℕ
  pub row_overflow : ℕ
  pub col_overflow : ℕ
  pub val_overflow : ℤ
  pub remain_edge : ℤ
  pub next_v_addr : ℕ
  pub next_e_addr : ℕ
  pub next_val_addr : ℕ

-- GR_FLAG
pub record GrFlag : Type 0 where
  pub v_req_over : Bool
  pub e_req_over : Bool
  pub v_reci_over : Bool
  pub e_reci_over : Bool
  pub val_reci_over : Bool
  pub reci_over : Bool
  pub pass_over : Bool

pub record GraphReader : Type 0 where
  pub grs : GrStat
  pub grf : GrFlag
  pub id : ℕ
  pub v_req_count : ℕ
  pub e_req_count : ℕ
  pub v_reci_count : ℕ
  pub e_reci_count : ℕ
  pub val_reci_count : ℕ
  pub g_pass_count : ℕ

abbrev pub is_other : GnnMode → Bool
is_other gcn = false
is_other other = true

-- The constructor. A model without values starts as if all values were there.
unfoldable pub init : Env → ℕ → Option GraphReader
init env id = do
  d ← get_elem? env.data_index id
  cols ← get_elem? env.col_idx id
  let no_values = is_other env.arch_info.gnn_mode
  some (record {
    grs = record {
      row_end_idx = 0;
      col_end_idx = 0;
      val_end_idx = if no_values then length cols else 0;
      cur_row_idx = 1;
      cur_col_idx = 0;
      cur_val_idx = 0;
      row_overflow = 0;
      col_overflow = 0;
      val_overflow = if no_values then pos env.arch_info.bf else pos 0;
      remain_edge = pos 0;
      next_v_addr = d.row_addr_start;
      next_e_addr = d.col_addr_start;
      next_val_addr = d.value_addr_start;
    };
    grf = record {
      v_req_over = false;
      e_req_over = false;
      v_reci_over = false;
      e_reci_over = false;
      val_reci_over = no_values;
      reci_over = false;
      pass_over = false;
    };
    id = id;
    v_req_count = 0;
    e_req_count = 0;
    v_reci_count = 0;
    e_reci_count = 0;
    val_reci_count = 0;
    g_pass_count = 0;
  })

-- After a line of pointers was asked for: the next address, or the start of the next round.
unfoldable pub next_vertex : ArchInfo → DataIndex → GraphReader → GraphReader
next_vertex arch d g =
    let next = add64 g.grs.next_v_addr cache_line_byte in
    if next == d.row_addr_end
    then record g {
      grs = record (g.grs) { next_v_addr = d.row_addr_start };
      grf = record (g.grf) {
        v_req_over = if g.v_req_count + 1 == arch.bf then true else g.grf.v_req_over;
      };
      v_req_count = g.v_req_count + 1;
    }
    else record g { grs = record (g.grs) { next_v_addr = next } }

-- `VertexRequest`
unfoldable pub vertex_request : Env → GraphReader → Memory → Option (GraphReader × Memory)
vertex_request env g m =
    if will_accept_transaction m
    then (do
      d ← get_elem? env.data_index g.id
      some (
        next_vertex env.arch_info d g,
        add_transaction m (record { address = g.grs.next_v_addr; is_write = false }),
      ))
    else some (g, m)

-- After a line of columns was asked for, and the line of values where there are any.
unfoldable pub next_edge : ArchInfo → DataIndex → GraphReader → GraphReader
next_edge arch d g =
    let with_values = not (is_other arch.gnn_mode) in
    let next = add64 g.grs.next_e_addr cache_line_byte in
    let next_val =
      if with_values then add64 g.grs.next_val_addr cache_line_byte else g.grs.next_val_addr in
    if next == d.col_addr_end
    then record g {
      grs = record (g.grs) {
        next_e_addr = d.col_addr_start;
        next_val_addr = if with_values then d.value_addr_start else next_val;
      };
      grf = record (g.grf) {
        e_req_over = if g.e_req_count + 1 == arch.bf then true else g.grf.e_req_over;
      };
      e_req_count = g.e_req_count + 1;
    }
    else record g { grs = record (g.grs) { next_e_addr = next; next_val_addr = next_val } }

-- `EdgeRequest`
unfoldable pub edge_request : Env → GraphReader → Memory → Option (GraphReader × Memory)
edge_request env g m =
    if will_accept_transaction m
    then (do
      d ← get_elem? env.data_index g.id
      let m' = add_transaction m (record { address = g.grs.next_e_addr; is_write = false })
      some (
        next_edge env.arch_info d g,
        if is_other env.arch_info.gnn_mode
            then m'
            else add_transaction m' (record { address = g.grs.next_val_addr; is_write = false }),
      ))
    else some (g, m)
