-- ===== src/GraphReader/Requests.antt =====
-- `VertexRequest` and `EdgeRequest` of src/g_reader.cc: which addresses are asked for, and when the
-- requests are over.
use sgcn.Base.{ℕ, zero, suc, ◌+◌, ◌-◌, ◌*◌, ◌<◌, ◌≡◌, refl, ap, ◌∙◌, true, false, arith, u64_mod}
use sgcn.Common.{ArchInfo, DataIndex, cache_line_byte}
use sgcn.GraphReader.Cursor.{Cursor, tick, ticks, ticks_within, ticks_over, ticks_empty}
use sgcn.GraphReader.Defs.{GraphReader, next_vertex, next_edge}

abbrev pub vertex_cursor : GraphReader → Cursor
vertex_cursor g = record {
  addr = g.grs.next_v_addr;
  count = g.v_req_count;
  over = g.grf.v_req_over;
}

abbrev pub edge_cursor : GraphReader → Cursor
edge_cursor g = record { addr = g.grs.next_e_addr; count = g.e_req_count; over = g.grf.e_req_over }

next_vertex-tick :
    (arch : ArchInfo) (d : DataIndex) (g : GraphReader)
    → vertex_cursor (next_vertex arch d g)
      ≡ tick d.row_addr_start d.row_addr_end arch.bf (vertex_cursor g)
unfolding next_vertex tick
next_vertex-tick arch d g = ground arith

next_edge-tick :
    (arch : ArchInfo) (d : DataIndex) (g : GraphReader)
    → edge_cursor (next_edge arch d g)
      ≡ tick d.col_addr_start d.col_addr_end arch.bf (edge_cursor g)
unfolding next_edge tick
next_edge-tick arch d g = ground arith

-- `k` requests that the memory takes.
unfoldable pub next_vertices : ℕ → ArchInfo → DataIndex → GraphReader → GraphReader
next_vertices zero arch d g = g
next_vertices (suc k) arch d g = next_vertices k arch d (next_vertex arch d g)

unfoldable pub next_edges : ℕ → ArchInfo → DataIndex → GraphReader → GraphReader
next_edges zero arch d g = g
next_edges (suc k) arch d g = next_edges k arch d (next_edge arch d g)

next_vertices-ticks :
    (k : ℕ) (arch : ArchInfo) (d : DataIndex) (g : GraphReader)
    → vertex_cursor (next_vertices k arch d g)
      ≡ ticks k d.row_addr_start d.row_addr_end arch.bf (vertex_cursor g)
unfolding next_vertices ticks
next_vertices-ticks zero arch d g = refl
next_vertices-ticks (suc k) arch d g =
    next_vertices-ticks k arch d (next_vertex arch d g)
    ∙ ap (ticks k d.row_addr_start d.row_addr_end arch.bf) (next_vertex-tick arch d g)

next_edges-ticks :
    (k : ℕ) (arch : ArchInfo) (d : DataIndex) (g : GraphReader)
    → edge_cursor (next_edges k arch d g)
      ≡ ticks k d.col_addr_start d.col_addr_end arch.bf (edge_cursor g)
unfolding next_edges ticks
next_edges-ticks zero arch d g = refl
next_edges-ticks (suc k) arch d g =
    next_edges-ticks k arch d (next_edge arch d g)
    ∙ ap (ticks k d.col_addr_start d.col_addr_end arch.bf) (next_edge-tick arch d g)

-- The requests run over a range of `suc m` lines `bf` times: request `r` of round `i` is for line `r`
-- of the range, and they are over after the last line of the last round and not before.
pub record Rounds (start m bf : ℕ) (run : ℕ → Cursor) : Type 0 where
  pub within :
      (i r : ℕ)
      → i < bf
      → r < suc m
      → run (i * suc m + r) ≡ record { addr = start + r * cache_line_byte; count = i; over = false }
  pub over : run (bf * suc m) ≡ record { addr = start; count = bf; over = true }

module _ (arch : ArchInfo) (d : DataIndex) (g : GraphReader) (m : ℕ) (some_fold : 0 < arch.bf) where
  -- With at least one fold, from the start of a range of `suc m` lines whose addresses do not wrap:
  -- the requests for row pointers go over the range `bf` times, line by line, and are over exactly
  -- after the last line of the last round.
  pub vertex-Rounds :
      vertex_cursor g ≡ record { addr = d.row_addr_start; count = 0; over = false }
      → d.row_addr_start + suc m * cache_line_byte ≡ d.row_addr_end
      → d.row_addr_end < u64_mod
      → Rounds d.row_addr_start m arch.bf (λ k. vertex_cursor (next_vertices k arch d g))
  vertex-Rounds at_start range fits =
      let run = λ (k : ℕ).
        next_vertices-ticks k arch d g
        ∙ ap (ticks k d.row_addr_start d.row_addr_end arch.bf) at_start in
      record {
        within = λ i r h k.
            run (i * suc m + r)
            ∙ ticks_within d.row_addr_start d.row_addr_end m arch.bf range fits i r h k;
        over =
            run (arch.bf * suc m)
            ∙ ticks_over d.row_addr_start d.row_addr_end m arch.bf range fits (arch.bf - 1)
                (omega arith);
      }

  -- With at least one fold, from the start of a range of `suc m` lines whose addresses do not wrap:
  -- the requests for columns go over the range `bf` times, line by line, and are over exactly after
  -- the last line of the last round.
  pub edge-Rounds :
      edge_cursor g ≡ record { addr = d.col_addr_start; count = 0; over = false }
      → d.col_addr_start + suc m * cache_line_byte ≡ d.col_addr_end
      → d.col_addr_end < u64_mod
      → Rounds d.col_addr_start m arch.bf (λ k. edge_cursor (next_edges k arch d g))
  edge-Rounds at_start range fits =
      let run = λ (k : ℕ).
        next_edges-ticks k arch d g
        ∙ ap (ticks k d.col_addr_start d.col_addr_end arch.bf) at_start in
      record {
        within = λ i r h k.
            run (i * suc m + r)
            ∙ ticks_within d.col_addr_start d.col_addr_end m arch.bf range fits i r h k;
        over =
            run (arch.bf * suc m)
            ∙ ticks_over d.col_addr_start d.col_addr_end m arch.bf range fits (arch.bf - 1)
                (omega arith);
      }

-- An engine without edges has an empty range of columns. Its requests leave the range at once and are
-- not over, whatever their number, as long as the addresses do not wrap.
pub empty_columns_never_over :
    (arch : ArchInfo) (d : DataIndex) (g : GraphReader) (k : ℕ)
    → d.col_addr_end ≡ d.col_addr_start
    → edge_cursor g ≡ record { addr = d.col_addr_start; count = 0; over = false }
    → d.col_addr_start + k * cache_line_byte < u64_mod
    → ((next_edges k arch d g).grf.e_req_over ≡ false)
      × ((next_edges k arch d g).grs.next_e_addr ≡ d.col_addr_start + k * cache_line_byte)
empty_columns_never_over arch d g k none_there at_start fits =
    let run =
      next_edges-ticks k arch d g
      ∙ ap (ticks k d.col_addr_start d.col_addr_end arch.bf) at_start
      ∙ ap
          (λ (x : ℕ).
            ticks k d.col_addr_start x arch.bf
              (record { addr = d.col_addr_start; count = 0; over = false }))
          none_there
      ∙ ticks_empty d.col_addr_start arch.bf k
          (record { addr = d.col_addr_start; count = 0; over = false }) (omega arith) fits in
    (ap (λ c. c.over) run, ap (λ c. c.addr) run)
